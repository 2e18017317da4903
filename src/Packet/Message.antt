-- ===== src/Packet/Message.antt =====
-- One packet of `prepare_pkts` in src/talker.c: headers, message and flags.
use Prim.Native.Nat.{bit_or}
use Prim.Native.String.{String}
use rtgen_dpdk_next.Base.{
  ℕ, ◌+◌, ◌^◌, ◌<◌, ◌≤◌, ◌≡◌, refl, ap, ◌∙◌, Bool, true, false, some, List, [], ◌∷◌, ◌++◌, arith,
  u16_mod,
}
use rtgen_dpdk_next.Base.Int.{pos}
use rtgen_dpdk_next.Flow.{InterfaceConfig}
use rtgen_dpdk_next.Packet.{
  Piece, Mbuf, Dpdk, assign_mac_src, is_on, prepare_packet_header, prepare_packet_payload,
  prepare_packet_offload,
}
use rtgen_dpdk_next.Packet.Layout.{AppendLaws, Holds}
use rtgen_dpdk_next.Packet.Prepare.{prepare_packet_header-Headed, packet_len-eq}
use rtgen_dpdk_next.Packet.Reader.{read_frame, seen_of, read_frame-header_pieces}

-- What the code needs of an interface and a message of `size` bytes.
pub record IsSendable (room : ℕ) (net : InterfaceConfig) (id prio size : ℕ) : Type 0 where
  pub vlan_id : net.vlan ≡ pos id
  pub vlan_priority : net.priority ≡ pos prio
  pub id_bits : id < 4096
  pub prio_bits : prio < 8
  pub datagram_fits : size + 42 < u16_mod
  pub room_headers : 46 ≤ room
  pub room_message : 42 + size + size ≤ room

assign_mac_src-vlan :
    (d : Bool) (mac : String) (net : InterfaceConfig) → (assign_mac_src d mac net).vlan ≡ net.vlan
assign_mac_src-vlan true mac net = refl
assign_mac_src-vlan false mac net = refl

assign_mac_src-priority :
    (d : Bool) (mac : String) (net : InterfaceConfig)
    → (assign_mac_src d mac net).priority ≡ net.priority
assign_mac_src-priority true mac net = refl
assign_mac_src-priority false mac net = refl

module _ (l : Dpdk) (room : ℕ) (laws : AppendLaws l room) where
  pub prepare_packet_header-read_frame :
      (d : Bool) (mac : String) (m : Mbuf) (net0 : InterfaceConfig) (id prio size : ℕ)
      → Holds m []
      → IsSendable room net0 id prio size
      → (m' : Mbuf) × (prepare_packet_header l d mac m (pos size) net0
          ≡ some (m', assign_mac_src d mac net0))
        × ((qs : List (ℕ × Piece))
            → read_frame l (m'.pieces ++ qs)
              ≡ some (
                  seen_of l
                    (assign_mac_src d mac net0)
                    (is_on net0.vlan_enabled)
                    (is_on net0.ip_enabled)
                    id
                    prio
                    size))
        × (m'.data_len ≡ 42 + size)
        × (m'.pkt_len ≡ 42 + size)
  prepare_packet_header-read_frame d mac m net0 id prio size h ok =
      let (m', c, e, hd) =
        prepare_packet_header-Headed l room laws d mac m net0 size (is_on net0.vlan_enabled)
          (is_on net0.ip_enabled) h ok.room_headers ok.datagram_fits refl refl in
      (
        m',
        e,
        λ qs.
            ap (λ p. read_frame l (p ++ qs)) hd.at_offsets
            ∙ read_frame-header_pieces l room (assign_mac_src d mac net0) (is_on net0.vlan_enabled)
                (is_on net0.ip_enabled) id prio size c qs laws
                (assign_mac_src-vlan d mac net0 ∙ ok.vlan_id)
                (assign_mac_src-priority d mac net0 ∙ ok.vlan_priority) ok.id_bits ok.prio_bits
                (omega (arith, ok.datagram_fits)),
        hd.data_bytes,
        hd.packet_bytes,
      )

  -- The message goes behind the data that the headers' length claims already: it starts where the
  -- packet of 42 bytes and the message ends.
  pub prepare_packet_payload-appends :
      (m : Mbuf) (msg : List ℕ) (size : ℕ)
      → m.data_len ≡ 42 + size
      → size + 42 < u16_mod
      → 42 + size + size ≤ room
      → ((prepare_packet_payload l m msg size).pieces
          ≡ m.pieces ++ ((42 + size, Piece.payload msg) ∷ []))
        × ((prepare_packet_payload l m msg size).pkt_len ≡ 42 + size)
        × ((prepare_packet_payload l m msg size).data_len ≡ 42 + size)
  unfolding prepare_packet_payload
  prepare_packet_payload-appends m msg size h small fit =
      let (n, n') = packet_len-eq l room laws size small in
      (rw (laws.fits m size (omega arith), h) refl, n', n)

-- A launch time and a timestamp, a timestamp alone, or neither.
abbrev pub flags_of : Dpdk → (pit_hw pit_etf : Bool) → ℕ
flags_of l true etf = bit_or l.tx_tmst (2 ^ l.tx_timestamp_bit)
flags_of l false true = l.tx_tmst
flags_of l false false = 0

-- The packet of a flow: what a receiver reads off it, where its message starts, and its flags.
pub record Prepared (l : Dpdk) (net : InterfaceConfig) (id prio size : ℕ) (msg : List ℕ)
    (pit_hw pit_etf : Bool) (m : Mbuf) : Type 0 where
  pub reads :
      read_frame l m.pieces
      ≡ some (seen_of l net (is_on net.vlan_enabled) (is_on net.ip_enabled) id prio size)
  pub packet_bytes : m.pkt_len ≡ 42 + size
  pub data_bytes : m.data_len ≡ 42 + size
  pub headers : List (ℕ × Piece)
  pub message_behind : m.pieces ≡ headers ++ ((42 + size, Piece.payload msg) ∷ [])
  pub flags : m.ol_flags ≡ flags_of l pit_hw pit_etf

assign_mac_src-flags :
    (d : Bool) (mac : String) (net : InterfaceConfig)
    → ((assign_mac_src d mac net).vlan_enabled ≡ net.vlan_enabled)
      × ((assign_mac_src d mac net).ip_enabled ≡ net.ip_enabled)
assign_mac_src-flags true mac net = (refl, refl)
assign_mac_src-flags false mac net = (refl, refl)

offload-pieces :
    (l : Dpdk) (m : Mbuf) (hw etf : Bool)
    → ((prepare_packet_offload l m hw etf).pieces ≡ m.pieces)
      × ((prepare_packet_offload l m hw etf).pkt_len ≡ m.pkt_len)
      × ((prepare_packet_offload l m hw etf).data_len ≡ m.data_len)
unfolding prepare_packet_offload
offload-pieces l m true etf = (refl, refl, refl)
offload-pieces l m false true = (refl, refl, refl)
offload-pieces l m false false = (refl, refl, refl)

offload-flags :
    (l : Dpdk) (m : Mbuf) (hw etf : Bool)
    → (prepare_packet_offload l m hw etf).ol_flags ≡ flags_of l hw etf
unfolding prepare_packet_offload
offload-flags l m true etf = refl
offload-flags l m false true = refl
offload-flags l m false false = refl

module _ (l : Dpdk) (room : ℕ) (laws : AppendLaws l room) where
  -- The three steps on one buffer.
  pub steps-Prepared :
      (d : Bool) (mac : String) (m : Mbuf) (net0 : InterfaceConfig) (id prio size : ℕ)
      (msg : List ℕ) (hw etf : Bool)
      → Holds m []
      → IsSendable room net0 id prio size
      → (m1 : Mbuf) × (prepare_packet_header l d mac m (pos size) net0
          ≡ some (m1, assign_mac_src d mac net0))
        × Prepared l
            (assign_mac_src d mac net0)
            id
            prio
            size
            msg
            hw
            etf
            (prepare_packet_offload l (prepare_packet_payload l m1 msg size) hw etf)
  steps-Prepared d mac m net0 id prio size msg hw etf h ok =
      let (m1, e, reads, bytes, len) =
        prepare_packet_header-read_frame l room laws d mac m net0 id prio size h ok in
      let m2 : Mbuf = prepare_packet_payload l m1 msg size in
      let (behind, packet, filled) =
        prepare_packet_payload-appends l room laws m1 msg size bytes ok.datagram_fits
          ok.room_message in
      let (same, same_len, same_data) = offload-pieces l m2 hw etf in
      let (v, i) = assign_mac_src-flags d mac net0 in
      (
        m1,
        e,
        record {
          reads = ap (read_frame l) (same ∙ behind) ∙ reads _ ∙ rw (v, i) refl;
          packet_bytes = same_len ∙ packet;
          data_bytes = same_data ∙ filled;
          headers = m1.pieces;
          message_behind = same ∙ behind;
          flags = offload-flags l m2 hw etf;
        },
      )
