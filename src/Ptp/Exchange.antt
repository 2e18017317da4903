-- ===== src/Ptp/Exchange.antt =====
-- The exchange of a sync, a follow-up, a delay request and a delay response.
use rtgen_dpdk_next.Base.{
  ℕ, ◌+◌, ◌^◌, ◌<◌, ◌≡◌, ◌⊎◌, refl, sym, ap, ◌∙◌, inl, inr, true, some, List, [], ◌∷◌, arith, ◌==◌,
  distance, u64_mod,
}
use rtgen_dpdk_next.Base.Int.{sub_ℕ}
use rtgen_dpdk_next.Ptp.{
  PtpData, PtpFrame, Nic, MacAddr, ClockId, tx_burst, adjust_time, eq_id, client_id, timespec_of,
  timespec64_to_ns, parse_sync, parse_fup, parse_drsp, request, wait_tx_timestamp, parse_ptp_frames,
  sync_loop, Received, ptp_protocol, delta_eval, zero_timespec,
}
use rtgen_dpdk_next.Ptp.Delta.{delta_eval-offset}

==-refl : (n : ℕ) → (n == n) ≡ true
==-refl n = ground arith

eq_id_refl : (a : ClockId) → eq_id a a ≡ true
eq_id_refl [] = refl
eq_id_refl (x ∷ xs) = rw (==-refl x, eq_id_refl xs)

-- Once the client has a master, a sync of any clock replaces the sequence number and the second
-- timestamp that it keeps, and nothing else.
pub parse_sync-any_clock :
    (nic : Nic) (m : PtpFrame) (p : PtpData)
    → p.ptpset ≡ 1
    → parse_sync nic m p
      ≡ record p { seq_id_sync = m.seq_id; tstamp2 = nic.read_rx_timestamp m.timesync p.tstamp2 }
unfolding parse_sync
parse_sync-any_clock nic m p h = rw (h, eq_id_refl m.source_clock_id)

-- A PTP frame with the message type `type` and the sequence number `seq`.
pub record IsFrame (m : PtpFrame) (type seq : ℕ) : Type 0 where
  pub ether_type : m.ether_type ≡ ptp_protocol
  pub msg_type : m.msg_type ≡ type
  pub seq_id : m.seq_id ≡ seq

-- The client has no master yet, or has this one.
abbrev pub AcceptsMaster : PtpData → ClockId → Type 0
AcceptsMaster p id = (p.ptpset ≡ 0) ⊎ ((p.ptpset ≡ 1) × (p.master_clock_id ≡ id))

-- A sync, a follow-up and a delay response that reach the client at `port` one after the other.
abbrev pub exchange :
    (n1 : Nic) (sync : PtpFrame) (n2 : Nic) (fup : PtpFrame) (n3 : Nic) (drsp : PtpFrame)
    → List Received
exchange n1 sync n2 fup n3 drsp =
    record { is_ptp = true; frame = sync; nic = n1 }
    ∷ record { is_ptp = true; frame = fup; nic = n2 }
    ∷ record { is_ptp = true; frame = drsp; nic = n3 }
    ∷ []

after_sync :
    (port q : ℕ) (nic : Nic) (m : PtpFrame) (s : ℕ) (p : PtpData)
    → IsFrame m 0 s
    → AcceptsMaster p m.source_clock_id
    → parse_ptp_frames port nic m q p ≡ (
      record p {
        portid = port;
        seq_id_sync = s;
        master_clock_id = m.source_clock_id;
        ptpset = 1;
        tstamp2 = nic.read_rx_timestamp m.timesync p.tstamp2;
      },
      [],
    )
unfolding parse_ptp_frames parse_sync
after_sync port q nic m s p f (inl fresh) =
    rw (f.ether_type, f.msg_type, f.seq_id, fresh, eq_id_refl m.source_clock_id)
after_sync port q nic m s p f (inr (set, same)) =
    rw (f.ether_type, f.msg_type, f.seq_id, set, same, eq_id_refl m.source_clock_id)

same_id : (a b : ClockId) → a ≡ b → eq_id a b ≡ true
same_id a b h = rw h (eq_id_refl b)

same_seq : (m n s : ℕ) → m ≡ s → n ≡ s → (m == n) ≡ true
same_seq m n s h k = rw (h, k) (==-refl s)

after_fup :
    (port q : ℕ) (nic : Nic) (m : PtpFrame) (s : ℕ) (a : MacAddr) (p : PtpData)
    → IsFrame m 8 s
    → p.seq_id_sync ≡ s
    → p.master_clock_id ≡ m.source_clock_id
    → nic.macaddr ≡ some a
    → nic.has_room ≡ true
    → parse_ptp_frames port nic m q p ≡ (
      record p {
        portid = port;
        seq_id_followup = m.seq_id;
        tstamp1 = timespec_of m.tstamp;
        client_clock_id = client_id a;
        tstamp3 = wait_tx_timestamp nic 1000 1 zero_timespec;
      },
      tx_burst port q (record {
        src_addr = a;
        seq_id = p.seq_id_sync;
        domain_number = m.domain_number;
        clock_id = client_id a;
      })
          ∷ [],
    )
unfolding parse_ptp_frames parse_fup request
after_fup port q nic m s a p f seq same mac room =
    rw
      (
        parse_ptp_frames,
        ap (λ k. k == ptp_protocol) f.ether_type,
        ap (λ k. k == 0) f.msg_type,
        ap (λ k. k == 8) f.msg_type,
        parse_fup,
        same_id p.master_clock_id m.source_clock_id same,
        same_seq m.seq_id p.seq_id_sync s f.seq_id seq,
      )
      (ap (λ o. request o nic.has_room nic m q p1) mac
        ∙ ap (λ b. request (some a) b nic m q p1) room)
  where
    p1 : PtpData
    p1 = record p { portid = port; seq_id_followup = m.seq_id; tstamp1 = timespec_of m.tstamp }

after_drsp :
    (port q : ℕ) (nic : Nic) (m : PtpFrame) (s : ℕ) (p : PtpData)
    → IsFrame m 9 s
    → p.seq_id_followup ≡ s
    → p.client_clock_id ≡ m.req_clock_id
    → (p' : PtpData) × (parse_ptp_frames port nic m q p ≡ (
      p',
      adjust_time port (delta_eval (record p { portid = port; tstamp4 = timespec_of m.tstamp }))
          ∷ [],
    ))
      × (p'.delta ≡ delta_eval (record p { portid = port; tstamp4 = timespec_of m.tstamp }))
unfolding parse_ptp_frames parse_drsp
after_drsp port q nic m s p f seq same = (
  record p {
    portid = port;
    tstamp4 = timespec_of m.tstamp;
    delta = delta_eval (record p { portid = port; tstamp4 = timespec_of m.tstamp });
    current_ptp_port = port;
  },
  rw (
    f.ether_type,
    f.msg_type,
    parse_drsp,
    same_id p.client_clock_id m.req_clock_id same,
    same_seq m.seq_id p.seq_id_followup s f.seq_id seq,
  ),
  refl,
)

module _ (p : PtpData) (port q s : ℕ) (n1 n2 n3 : Nic) (sync fup drsp : PtpFrame) (a : MacAddr)
    (master client d x y : ℕ) where
  -- Let a client without a master, or with this one, receive the sync, the follow-up and the delay
  -- response of one exchange in this order, all with the same sequence number and the right clock
  -- ids, on a port with a MAC address and with room for a packet. If the timestamps fit in 64 bits
  -- and are those of clocks that are `master` and `client` ns ahead of the true time, less than
  -- 2 ^ 62 ns apart, with a delay of `d` ns either way, then the client sends exactly one delay
  -- request, and then corrects its clock once, by exactly `master - client`.
  pub sync_loop-exchange :
      IsFrame sync 0 s
      → IsFrame fup 8 s
      → IsFrame drsp 9 s
      → AcceptsMaster p sync.source_clock_id
      → fup.source_clock_id ≡ sync.source_clock_id
      → n2.macaddr ≡ some a
      → n2.has_room ≡ true
      → drsp.req_clock_id ≡ client_id a
      → timespec64_to_ns (timespec_of fup.tstamp) ≡ x + master
      → timespec64_to_ns (n1.read_rx_timestamp sync.timesync p.tstamp2) ≡ x + d + client
      → timespec64_to_ns (wait_tx_timestamp n2 1000 1 zero_timespec) ≡ y + client
      → timespec64_to_ns (timespec_of drsp.tstamp) ≡ y + d + master
      → distance master client < 2 ^ 62
      → x + master < u64_mod
      → x + d + client < u64_mod
      → y + client < u64_mod
      → y + d + master < u64_mod
      → (p' : PtpData) × (sync_loop port q (exchange n1 sync n2 fup n3 drsp) p ≡ (
        p',
        tx_burst port q (record {
          src_addr = a;
          seq_id = s;
          domain_number = fup.domain_number;
          clock_id = client_id a;
        })
            ∷ adjust_time port (sub_ℕ master client)
            ∷ [],
      ))
        × (p'.delta ≡ sub_ℕ master client)
  unfolding sync_loop
  sync_loop-exchange f1 f2 f3 ok same mac room mine e1 e2 e3 e4 near h1 h2 h3 h4 =
      let p1 : PtpData = record p {
        portid = port;
        seq_id_sync = s;
        master_clock_id = sync.source_clock_id;
        ptpset = 1;
        tstamp2 = n1.read_rx_timestamp sync.timesync p.tstamp2;
      } in
      let p2 : PtpData = record p1 {
        seq_id_followup = fup.seq_id;
        tstamp1 = timespec_of fup.tstamp;
        client_clock_id = client_id a;
        tstamp3 = wait_tx_timestamp n2 1000 1 zero_timespec;
      } in
      let (p3, e, de) = after_drsp port q n3 drsp s p2 f3 f2.seq_id (sym mine) in
      let v : delta_eval (record p2 { portid = port; tstamp4 = timespec_of drsp.tstamp })
          ≡ sub_ℕ master client =
        delta_eval-offset _ master client d x y near e1 e2 e3 e4 h1 h2 h3 h4 in
      (
        p3,
        rw (
          after_sync port q n1 sync s p f1 ok,
          after_fup port q n2 fup s a p1 f2 refl (sym same) mac room,
          e,
          v,
        ),
        de ∙ v,
      )
