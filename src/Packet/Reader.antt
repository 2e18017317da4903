-- ===== src/Packet/Reader.antt =====
-- What a receiver, of the sender's byte order, reads off a packet: it starts at the first byte, and each header says what stands
-- behind it. This is the standard's reading of the frames that src/header_dpdk.c writes.
use Prim.Native.String.{String}
use rtgen_dpdk_next.Base.{
  ℕ, ◌+◌, ◌-◌, ◌/◌, ◌%◌, ◌^◌, ◌<◌, ◌≡◌, refl, ap, ◌∙◌, Bool, true, false, Option, none, some, List,
  [], ◌∷◌, ◌++◌, arith, ◌==◌, ◌&&◌, if◌then◌else◌, ◌>>=◌, u16_mod,
}
use rtgen_dpdk_next.Base.Int.{ℤ, pos, negsuc}
use rtgen_dpdk_next.Flow.{InterfaceConfig}
use rtgen_dpdk_next.Packet.{
  Piece, Dpdk, EtherAddr, EtherHdr, VlanHdr, Ipv4Hdr, vlan_tci_of, to_u16, ip_addr_from_string,
  ether_type_ipv4, ether_type_vlan, ether_type_raw, udp_hdr,
}
use rtgen_dpdk_next.Packet.Fields.{vlan_tci_of-decode}
use rtgen_dpdk_next.Packet.Layout.{AppendLaws, place}
use rtgen_dpdk_next.Packet.Headers.{header_pieces, checked_ip, ip_of}

pub record Datagram : Type 0 where
  pub from_ip : ℕ
  pub to_ip : ℕ
  pub from_port : ℕ
  pub to_port : ℕ
  pub message_at : ℕ
  pub message_bytes : ℕ

pub record Seen : Type 0 where
  pub to_mac : EtherAddr
  pub from_mac : EtherAddr
  pub vlan_and_priority : Option (ℕ × ℕ)
  pub datagram : Option Datagram

-- The piece that stands at an offset.
unfoldable pub piece_at : ℕ → List (ℕ × Piece) → Option Piece
piece_at at [] = none
piece_at at ((i, x) ∷ l) = elim (i == at) [ true ↦ some x | false ↦ piece_at at l ]

-- A UDP header behind an IP header at `at`: the protocol and the lengths must agree.
unfoldable pub read_udp : Dpdk → ℕ → Ipv4Hdr → Piece → Option Datagram
read_udp l at h (Piece.udp u) =
    if (h.next_proto_id == l.ipproto_udp)
      && (l.be_to_cpu_16 h.total_length == 20 + l.be_to_cpu_16 u.dgram_len)
    then some (record {
      from_ip = l.be_to_cpu_32 h.src_ip;
      to_ip = l.be_to_cpu_32 h.dst_ip;
      from_port = l.be_to_cpu_16 u.src_port;
      to_port = l.be_to_cpu_16 u.dst_port;
      message_at = at + 28;
      message_bytes = l.be_to_cpu_16 u.dgram_len - 8;
    })
    else none
read_udp l at h _ = none

unfoldable pub read_ip_header : Piece → Option Ipv4Hdr
read_ip_header (Piece.ipv4 h) = some h
read_ip_header _ = none

unfoldable pub read_datagram : Dpdk → ℕ → List (ℕ × Piece) → Option Datagram
unfolding read_udp read_ip_header piece_at
read_datagram l at ps = do
  x ← piece_at at ps
  h ← read_ip_header x
  y ← piece_at (at + 20) ps
  read_udp l at h y

-- What a type field announces at an offset: a datagram, or the bare message.
unfoldable pub read_network :
    Dpdk → (ether_type at : ℕ) → List (ℕ × Piece) → Option (Option Datagram)
read_network l t at ps = elim (t == ether_type_ipv4) [
  | true ↦ do d ← read_datagram l at ps; some (some d)
  | false ↦ elim (t == ether_type_raw) [ true ↦ some none | false ↦ none ]
]

unfoldable pub read_frame : Dpdk → List (ℕ × Piece) → Option Seen
read_frame l ps = elim (piece_at 0 ps) [
  | some (Piece.ether h) ↦ elim (l.be_to_cpu_16 h.ether_type == ether_type_vlan) [
    | true ↦ elim (piece_at 14 ps) [
      | some (Piece.vlan t) ↦ do
        d ← read_network l (l.be_to_cpu_16 t.eth_proto) 18 ps
        some (record {
          to_mac = h.dst_addr;
          from_mac = h.src_addr;
          vlan_and_priority =
              some (l.be_to_cpu_16 t.vlan_tci % 4096, l.be_to_cpu_16 t.vlan_tci / 8192);
          datagram = d;
        })
      | _ ↦ none
    ]
    | false ↦ do
      d ← read_network l (l.be_to_cpu_16 h.ether_type) 14 ps
      some (record {
        to_mac = h.dst_addr;
        from_mac = h.src_addr;
        vlan_and_priority = none;
        datagram = d;
      })
  ]
  | _ ↦ none
]

-- What the interface asks for.
abbrev pub datagram_of : Dpdk → InterfaceConfig → (at size : ℕ) → Datagram
datagram_of l net at size = record {
  from_ip = ip_addr_from_string l net.ip_src;
  to_ip = ip_addr_from_string l net.ip_dst;
  from_port = to_u16 net.port_src;
  to_port = to_u16 net.port_dst;
  message_at = at;
  message_bytes = size;
}

abbrev pub seen_of : Dpdk → InterfaceConfig → (vlan_on ip_on : Bool) (id prio size : ℕ) → Seen
seen_of l net vlan_on ip_on id prio size = record {
  to_mac = l.read_mac net.mac_dst;
  from_mac = l.read_mac net.mac_src;
  vlan_and_priority = if vlan_on then some (id, prio) else none;
  datagram = if ip_on then some (datagram_of l net (if vlan_on then 46 else 42) size) else none;
}

to_u16-small : (x : ℤ) (n : ℕ) → x ≡ pos n → n < u16_mod → to_u16 x ≡ n
to_u16-small x n e h = ap to_u16 e ∙ omega arith

tag-decode :
    (net : InterfaceConfig) (id prio : ℕ)
    → net.vlan ≡ pos id
    → net.priority ≡ pos prio
    → id < 4096
    → prio < 8
    → (vlan_tci_of (to_u16 net.vlan) (to_u16 net.priority) % 4096 ≡ id)
      × (vlan_tci_of (to_u16 net.vlan) (to_u16 net.priority) / 8192 ≡ prio)
tag-decode net id prio ev ep hid hp =
    rw (to_u16-small net.vlan id ev (omega arith), to_u16-small net.priority prio ep (omega arith))
      (vlan_tci_of-decode id prio hid hp)

pub same_number : (n : ℕ) → (n == n) ≡ true
same_number n = ground arith

pub to_u16-lt : (x : ℤ) → to_u16 x < 2 ^ 16
to_u16-lt (pos n) = omega arith
to_u16-lt (negsuc n) = omega arith

ip_addr_from_string-lt : (l : Dpdk) (s : String) → ip_addr_from_string l s < 2 ^ 32
unfolding ip_addr_from_string
ip_addr_from_string-lt l s = omega arith

vlan_tci_of-lt : (id prio : ℕ) → vlan_tci_of id prio < 2 ^ 16
unfolding vlan_tci_of
vlan_tci_of-lt id prio = omega arith

-- The lengths in the two headers agree, and leave the message.
pub lengths-agree :
    (l : Dpdk) (room size : ℕ)
    → AppendLaws l room
    → size + 28 < u16_mod
    → (((l.ipv4_size + l.udp_size + size) % u16_mod == 20 + (l.udp_size + size) % u16_mod) ≡ true)
      × ((l.udp_size + size) % u16_mod - 8 ≡ size)
lengths-agree l room size laws fit =
    let e4 = laws.ipv4_bytes in
    let eu = laws.udp_bytes in
    let a : (l.ipv4_size + l.udp_size + size) % u16_mod ≡ 28 + size = omega arith in
    let b : (l.udp_size + size) % u16_mod ≡ 8 + size = omega arith in
    (ground (arith, a, b), omega (arith, b))

read_datagram-pieces :
    (l : Dpdk) (room : ℕ) (net : InterfaceConfig) (at size c : ℕ) (ps : List (ℕ × Piece))
    → AppendLaws l room
    → size + 28 < u16_mod
    → piece_at at ps ≡ some (Piece.ipv4 (checked_ip l (ip_of l net size)))
    → piece_at (at + 20) ps
      ≡ some (
          Piece.udp (record (udp_hdr l (to_u16 net.port_src) (to_u16 net.port_dst) size) {
            dgram_cksum = c;
          }))
    → read_datagram l at ps ≡ some (datagram_of l net (at + 28) size)
unfolding read_datagram
read_datagram-pieces l room net at size c ps laws fit hi hu =
    let (e, e') = lengths-agree l room size laws fit in
    rw
      (
        hi,
        hu,
        same_number l.ipproto_udp,
        laws.order_16 ((l.ipv4_size + l.udp_size + size) % u16_mod) (omega arith),
        laws.order_16 ((l.udp_size + size) % u16_mod) (omega arith),
        e,
        e',
        laws.order_32 (ip_addr_from_string l net.ip_src) (ip_addr_from_string-lt l net.ip_src),
        laws.order_32 (ip_addr_from_string l net.ip_dst) (ip_addr_from_string-lt l net.ip_dst),
        laws.order_16 (to_u16 net.port_src) (to_u16-lt net.port_src),
        laws.order_16 (to_u16 net.port_dst) (to_u16-lt net.port_dst),
      )
      refl

pub read_frame_untagged :
    (l : Dpdk) (ps : List (ℕ × Piece)) (h : EtherHdr) (t : ℕ) (d : Option Datagram)
    → piece_at 0 ps ≡ some (Piece.ether h)
    → l.be_to_cpu_16 h.ether_type ≡ t
    → (t == ether_type_vlan) ≡ false
    → read_network l t 14 ps ≡ some d
    → read_frame l ps
      ≡ some (record {
        to_mac = h.dst_addr;
        from_mac = h.src_addr;
        vlan_and_priority = none;
        datagram = d;
      })
unfolding read_frame
read_frame_untagged l ps h t d e0 e1 e2 e3 = rw (read_frame, e0, e1, e2, e1, e3) refl

read_frame_tagged :
    (l : Dpdk) (ps : List (ℕ × Piece)) (h : EtherHdr) (v : VlanHdr) (t tci : ℕ)
    (d : Option Datagram)
    → piece_at 0 ps ≡ some (Piece.ether h)
    → l.be_to_cpu_16 h.ether_type ≡ ether_type_vlan
    → piece_at 14 ps ≡ some (Piece.vlan v)
    → l.be_to_cpu_16 v.eth_proto ≡ t
    → l.be_to_cpu_16 v.vlan_tci ≡ tci
    → read_network l t 18 ps ≡ some d
    → read_frame l ps
      ≡ some (record {
        to_mac = h.dst_addr;
        from_mac = h.src_addr;
        vlan_and_priority = some (tci % 4096, tci / 8192);
        datagram = d;
      })
unfolding read_frame
read_frame_tagged l ps h v t tci d e0 e1 e2 e3 e4 e5 = rw (read_frame, e0, e1, e2, e3, e4, e5) refl

read_network_raw :
    (l : Dpdk) (at : ℕ) (ps : List (ℕ × Piece)) → read_network l ether_type_raw at ps ≡ some none
unfolding read_network
read_network_raw l at ps = refl

pub read_network_ipv4 :
    (l : Dpdk) (at : ℕ) (ps : List (ℕ × Piece)) (d : Datagram)
    → read_datagram l at ps ≡ some d
    → read_network l ether_type_ipv4 at ps ≡ some (some d)
unfolding read_network
read_network_ipv4 l at ps d e = rw (read_network, e) refl

-- The headers, whatever stands behind them, are read back as the interface, for a tag and a message that fit their fields.
pub read_frame-header_pieces :
    (l : Dpdk) (room : ℕ) (net : InterfaceConfig) (vlan_on ip_on : Bool) (id prio size cksum : ℕ)
    (qs : List (ℕ × Piece))
    → AppendLaws l room
    → net.vlan ≡ pos id
    → net.priority ≡ pos prio
    → id < 4096
    → prio < 8
    → size + 28 < u16_mod
    → read_frame l (place 0 (header_pieces l net vlan_on ip_on size cksum) ++ qs)
      ≡ some (seen_of l net vlan_on ip_on id prio size)
unfolding piece_at
read_frame-header_pieces l room net false false id prio size c qs laws ev ep hid hp fit =
    read_frame_untagged l _ _ ether_type_raw none refl (laws.order_16 ether_type_raw (omega arith))
      refl (read_network_raw l 14 _)
read_frame-header_pieces l room net true false id prio size c qs laws ev ep hid hp fit =
    let (e, e') = tag-decode net id prio ev ep hid hp in
    let tci : ℕ = vlan_tci_of (to_u16 net.vlan) (to_u16 net.priority) in
    read_frame_tagged l _ _ _ ether_type_raw tci none refl
      (laws.order_16 ether_type_vlan (omega arith)) refl
      (laws.order_16 ether_type_raw (omega arith)) (laws.order_16 tci (vlan_tci_of-lt _ _))
      (read_network_raw l 18 _)
    ∙ rw (e, e') refl
read_frame-header_pieces l room net false true id prio size c qs laws ev ep hid hp fit =
    read_frame_untagged l _ _ ether_type_ipv4 _ refl (laws.order_16 ether_type_ipv4 (omega arith))
      refl
      (read_network_ipv4 l 14 _ _ (read_datagram-pieces l room net 14 size c _ laws fit refl refl))
read_frame-header_pieces l room net true true id prio size c qs laws ev ep hid hp fit =
    let (t, t') = tag-decode net id prio ev ep hid hp in
    let tci : ℕ = vlan_tci_of (to_u16 net.vlan) (to_u16 net.priority) in
    read_frame_tagged l _ _ _ ether_type_ipv4 tci _ refl
      (laws.order_16 ether_type_vlan (omega arith)) refl
      (laws.order_16 ether_type_ipv4 (omega arith)) (laws.order_16 tci (vlan_tci_of-lt _ _))
      (read_network_ipv4 l 18 _ _ (read_datagram-pieces l room net 18 size c _ laws fit refl refl))
    ∙ rw (t, t') refl
