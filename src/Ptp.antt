-- ===== src/Ptp.antt =====
-- src/ptpclient_dpdk.h and src/ptpclient_dpdk.c: the PTP client, which keeps the NIC's clock in step
-- with a master's. A frame is what the client reads of it, in host byte order; what the NIC gives is
-- `Nic`. The printing, the buffer that a frame is read from and the socket's fields are left out.
pub mod Delta
pub mod Exchange
use rtgen_dpdk_next.Base.{
  ℕ, zero, suc, ◌+◌, ◌-◌, ◌*◌, ◌/◌, ◌%◌, ◌^◌, Bool, true, false, Option, none, some, List, [], ◌∷◌,
  ltb, ◌==◌, if◌then◌else◌, ◌&&◌, ◌++◌, replicate, add64, sub64, mul64, u32_mod, u64_mod,
}
use rtgen_dpdk_next.Base.Int.{ℤ, pos, negsuc, ◌+ℤ◌, ◌-ℤ◌, ◌==ℤ◌, ltb_ℤ, div_trunc, rem_trunc}

abbrev pub nsec_per_sec : ℕ
nsec_per_sec = 1000000000

abbrev pub ptp_protocol : ℕ
ptp_protocol = 0x88F7

-- The time that a message carries.
pub record Tstamp : Type 0 where
  pub sec_msb : ℕ
  pub sec_lsb : ℕ
  pub ns : ℕ

-- The bytes of a clock's name, from the first one on.
abbrev pub ClockId : Type 0
ClockId = List ℕ

-- A `struct timespec` as the client fills it, both fields given by their 64-bit patterns.
pub record Timespec64 : Type 0 where
  pub tv_sec : ℕ
  pub tv_nsec : ℕ

unfoldable pub timespec64_to_ns : Timespec64 → ℕ
timespec64_to_ns ts = add64 (mul64 ts.tv_sec nsec_per_sec) ts.tv_nsec

pub record Timeval : Type 0 where
  pub tv_sec : ℤ
  pub tv_usec : ℤ

unfoldable pub ns_to_timeval : ℤ → Timeval
ns_to_timeval nsec =
    if nsec ==ℤ pos 0
    then record { tv_sec = pos 0; tv_usec = pos 0 }
    else let rem = rem_trunc nsec nsec_per_sec in
      let sec = div_trunc nsec nsec_per_sec in
      if ltb_ℤ rem (pos 0)
      then record { tv_sec = sec -ℤ pos 1; tv_usec = div_trunc (rem +ℤ pos nsec_per_sec) 1000 }
      else record { tv_sec = sec; tv_usec = div_trunc rem 1000 }

-- `struct ptpv2_data_slave_ordinary`.
pub record PtpData : Type 0 where
  pub tstamp1 : Timespec64
  pub tstamp2 : Timespec64
  pub tstamp3 : Timespec64
  pub tstamp4 : Timespec64
  pub client_clock_id : ClockId
  pub master_clock_id : ClockId
  pub delta : ℤ
  pub portid : ℕ
  pub seq_id_sync : ℕ
  pub seq_id_followup : ℕ
  pub ptpset : ℕ
  pub current_ptp_port : ℕ

-- What the client reads of a frame. The messages of `struct ptp_message` share their header, and the
-- follow-up's `precise_origin_tstamp` and the delay response's `rx_tstamp` are the same bytes.
pub record PtpFrame : Type 0 where
  pub ether_type : ℕ
  pub msg_type : ℕ
  pub domain_number : ℕ
  pub source_clock_id : ClockId
  pub seq_id : ℕ
  pub tstamp : Tstamp
  pub req_clock_id : ClockId
  pub timesync : ℕ

pub record MacAddr : Type 0 where
  pub b0 : ℕ
  pub b1 : ℕ
  pub b2 : ℕ
  pub b3 : ℕ
  pub b4 : ℕ
  pub b5 : ℕ

-- The NIC while one frame is handled: what a read of the receive timestamp makes of a timespec; for
-- each read of the transmit timestamp, by its number, whether it fails and what it makes of the
-- timespec; the port's MAC address, if it can be read; and whether a packet has room for a request.
pub record Nic : Type 0 where
  pub read_rx_timestamp : (index : ℕ) → Timespec64 → Timespec64
  pub read_tx_timestamp : (read : ℕ) → Timespec64 → Bool × Timespec64
  pub macaddr : Option MacAddr
  pub has_room : Bool

-- The fields of a delay request that vary.
pub record DelayReq : Type 0 where
  pub src_addr : MacAddr
  pub seq_id : ℕ
  pub domain_number : ℕ
  pub clock_id : ClockId

-- What a frame makes the client do to the network and to the NIC's clock.
pub data PtpAction : Type 0 where
  tx_burst : (port queue : ℕ) → DelayReq → PtpAction
  adjust_time : (port : ℕ) (delta : ℤ) → PtpAction

-- memcmp(..) == 0 of two clock ids.
abbrev pub eq_id : ClockId → ClockId → Bool
eq_id [] [] = true
eq_id [] (y ∷ ys) = false
eq_id (x ∷ xs) [] = false
eq_id (x ∷ xs) (y ∷ ys) = (x == y) && eq_id xs ys

-- A uint64_t converted to int64_t.
abbrev pub to_int64 : ℕ → ℤ
to_int64 w = if ltb w (2 ^ 63) then pos w else negsuc (u64_mod - 1 - w)

abbrev pub neg_ℤ : ℤ → ℤ
neg_ℤ a = pos 0 -ℤ a

-- `-((int64_t)((t2 - t1) - (t4 - t3))) / 2`
unfoldable pub delta_eval : PtpData → ℤ
delta_eval p =
    let t1 = timespec64_to_ns p.tstamp1 in
    let t2 = timespec64_to_ns p.tstamp2 in
    let t3 = timespec64_to_ns p.tstamp3 in
    let t4 = timespec64_to_ns p.tstamp4 in
    div_trunc (neg_ℤ (to_int64 (sub64 (sub64 t2 t1) (sub64 t4 t3)))) 2

-- The two halves of the seconds are disjoint bits.
abbrev pub timespec_of : Tstamp → Timespec64
timespec_of t = record { tv_sec = t.sec_lsb + t.sec_msb * u32_mod; tv_nsec = t.ns }

unfoldable pub parse_sync : Nic → PtpFrame → PtpData → PtpData
parse_sync nic m p =
    let p1 : PtpData = record p { seq_id_sync = m.seq_id } in
    let p2 : PtpData =
      if p1.ptpset == 0
      then record p1 { master_clock_id = m.source_clock_id; ptpset = 1 }
      else p1 in
    if eq_id m.source_clock_id m.source_clock_id && (p2.ptpset == 1)
    then record p2 { tstamp2 = nic.read_rx_timestamp m.timesync p2.tstamp2 }
    else p2

abbrev pub client_id : MacAddr → ClockId
client_id a = a.b0 ∷ a.b1 ∷ a.b2 ∷ 0xFF ∷ 0xFE ∷ a.b3 ∷ a.b4 ∷ a.b5 ∷ []

-- The reads of the transmit timestamp from the `read`-th on, with at most `waits` more after it.
unfoldable pub wait_tx_timestamp : Nic → (waits read : ℕ) → Timespec64 → Timespec64
wait_tx_timestamp nic zero read ts = (nic.read_tx_timestamp read ts).1
wait_tx_timestamp nic (suc k) read ts =
    let (failed, ts') = nic.read_tx_timestamp read ts in
    elim failed [ false ↦ ts' | true ↦ wait_tx_timestamp nic k (read + 1) ts' ]

abbrev pub zero_timespec : Timespec64
zero_timespec = record { tv_sec = 0; tv_nsec = 0 }

-- The request for a delay measurement, and the time at which it leaves: with the MAC address, if it
-- could be read, and whether the packet has room.
unfoldable pub request :
    Option MacAddr
    → (has_room : Bool) → Nic
    → PtpFrame
    → (txq_id : ℕ) → PtpData
    → PtpData × List PtpAction
request none has_room nic m txq_id p = (p, [])
request (some a) false nic m txq_id p = (p, [])
request (some a) true nic m txq_id p = (
  record p { client_clock_id = client_id a; tstamp3 = wait_tx_timestamp nic 1000 1 zero_timespec },
  tx_burst p.portid txq_id (record {
    src_addr = a;
    seq_id = p.seq_id_sync;
    domain_number = m.domain_number;
    clock_id = client_id a;
  })
      ∷ [],
)

unfoldable pub parse_fup : Nic → PtpFrame → (txq_id : ℕ) → PtpData → PtpData × List PtpAction
parse_fup nic m txq_id p = elim (eq_id p.master_clock_id m.source_clock_id) [
  | false ↦ (p, [])
  | true ↦
      let p1 : PtpData = record p { seq_id_followup = m.seq_id; tstamp1 = timespec_of m.tstamp } in
      elim (p1.seq_id_followup == p1.seq_id_sync) [
        | false ↦ (p1, [])
        | true ↦ request nic.macaddr nic.has_room nic m txq_id p1
      ]
]

unfoldable pub parse_drsp : PtpFrame → PtpData → PtpData × List PtpAction
parse_drsp m p = elim (eq_id p.client_clock_id m.req_clock_id && (m.seq_id == p.seq_id_followup)) [
  | false ↦ (p, [])
  | true ↦
      let p1 : PtpData = record p { tstamp4 = timespec_of m.tstamp } in
      let p2 : PtpData = record p1 { delta = delta_eval p1 } in
      (record p2 { current_ptp_port = p2.portid }, adjust_time p2.portid p2.delta ∷ [])
]

-- The handlers that `msg_type` chooses: SYNC is 0, FOLLOW_UP 8 and DELAY_RESP 9.
unfoldable pub parse_ptp_frames :
    (portid : ℕ) → Nic → PtpFrame → (txq_id : ℕ) → PtpData → PtpData × List PtpAction
parse_ptp_frames portid nic m txq_id p = elim (m.ether_type == ptp_protocol) [
  | false ↦ (p, [])
  | true ↦
      let p1 : PtpData = record p { portid = portid } in
      if m.msg_type == 0
      then (parse_sync nic m p1, [])
      else if m.msg_type == 8
      then parse_fup nic m txq_id p1
      else if m.msg_type == 9
      then parse_drsp m p1
      else (p1, [])
]

-- A frame that `sync_loop` receives: whether the NIC marks it as PTP, and the NIC while it is handled.
pub record Received : Type 0 where
  pub is_ptp : Bool
  pub frame : PtpFrame
  pub nic : Nic

-- The loop over the frames received, which never ends: here, over the first ones.
unfoldable pub sync_loop :
    (port_id tx_queue_id : ℕ) → List Received → PtpData → PtpData × List PtpAction
sync_loop port_id tx_queue_id [] p = (p, [])
sync_loop port_id tx_queue_id (r ∷ rs) p =
    let (p1, acts) =
      if r.is_ptp then parse_ptp_frames port_id r.nic r.frame tx_queue_id p else (p, []) in
    let (p2, more) = sync_loop port_id tx_queue_id rs p1 in (p2, acts ++ more)

-- What memset leaves.
abbrev pub start_ptp_data : PtpData
start_ptp_data = record {
  tstamp1 = zero_timespec;
  tstamp2 = zero_timespec;
  tstamp3 = zero_timespec;
  tstamp4 = zero_timespec;
  client_clock_id = replicate 8 0;
  master_clock_id = replicate 8 0;
  delta = pos 0;
  portid = 0;
  seq_id_sync = 0;
  seq_id_followup = 0;
  ptpset = 0;
  current_ptp_port = 0;
}
