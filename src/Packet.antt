-- ===== src/Packet.antt =====
-- src/header_dpdk.c and the functions of src/engine_dpdk.c that write a packet. A
-- packet is what the code writes into its buffer, each piece at its offset; the fields of a header are
-- those in memory, which the conversions of byte order have made. What DPDK and the C library do is an argument: `rte_pktmbuf_append`, the sizes of
-- the headers, the conversions of byte order, the checksums, the flags, and the reading of addresses. A NULL pointer that is written
-- through is a fault, `none`.
pub mod Fields
pub mod Layout
pub mod Headers
pub mod Prepare
pub mod Reader
pub mod Message
use Prim.Native.Nat.{bit_or}
use Prim.Native.String.{String}
use rtgen_dpdk_next.Base.{
  ◌>>=◌, ℕ, ◌+◌, ◌-◌, ◌*◌, ◌%◌, ◌^◌, Bool, true, false, not, Option, none, some, List, [], ◌∷◌,
  ◌++◌, ◌==◌, if◌then◌else◌, u16_mod, u32_mod, u64_mod,
}
use rtgen_dpdk_next.Base.Int.{ℤ, pos, negsuc, ◌==ℤ◌}
use rtgen_dpdk_next.Flow.{InterfaceConfig}

-- The six bytes of an address.
abbrev pub EtherAddr : Type 0
EtherAddr = List ℕ

abbrev pub ether_type_ipv4 : ℕ
ether_type_ipv4 = 0x0800

abbrev pub ether_type_vlan : ℕ
ether_type_vlan = 0x8100

abbrev pub ether_type_raw : ℕ
ether_type_raw = 0x1234

pub record EtherHdr : Type 0 where
  pub dst_addr : EtherAddr
  pub src_addr : EtherAddr
  pub ether_type : ℕ

pub record VlanHdr : Type 0 where
  pub vlan_tci : ℕ
  pub eth_proto : ℕ

pub record Ipv4Hdr : Type 0 where
  pub version_ihl : ℕ
  pub type_of_service : ℕ
  pub total_length : ℕ
  pub packet_id : ℕ
  pub fragment_offset : ℕ
  pub time_to_live : ℕ
  pub next_proto_id : ℕ
  pub hdr_checksum : ℕ
  pub src_ip : ℕ
  pub dst_ip : ℕ

pub record UdpHdr : Type 0 where
  pub src_port : ℕ
  pub dst_port : ℕ
  pub dgram_len : ℕ
  pub dgram_cksum : ℕ

pub data Piece : Type 0 where
  ether : EtherHdr → Piece
  vlan : VlanHdr → Piece
  ipv4 : Ipv4Hdr → Piece
  udp : UdpHdr → Piece
  payload : (msg : List ℕ) → Piece

-- A packet buffer; `pieces` lists what has been written, each piece with its offset.
pub record Mbuf : Type 0 where
  pub data_len : ℕ
  pub pkt_len : ℕ
  pub ol_flags : ℕ
  pub txtime : ℕ
  pub pieces : List (ℕ × Piece)

-- What the code takes from DPDK and the C library.
pub record Dpdk : Type 0 where
  pub append : Mbuf → ℕ → Option ℕ × Mbuf
  pub ether_size : ℕ
  pub vlan_size : ℕ
  pub ipv4_size : ℕ
  pub udp_size : ℕ
  pub ipproto_udp : ℕ
  pub ipv4_cksum : Ipv4Hdr → ℕ
  pub udptcp_cksum : Mbuf → Ipv4Hdr → UdpHdr → ℕ
  pub read_mac : String → EtherAddr
  pub read_ip : String → ℕ × ℕ × ℕ × ℕ
  pub cpu_to_be_16 : ℕ → ℕ
  pub be_to_cpu_16 : ℕ → ℕ
  pub cpu_to_be_32 : ℕ → ℕ
  pub be_to_cpu_32 : ℕ → ℕ
  pub tx_tmst : ℕ
  pub tx_timestamp_bit : ℕ

-- An int that is passed for a uint16_t.
abbrev pub to_u16 : ℤ → ℕ
to_u16 (pos n) = n % u16_mod
to_u16 (negsuc n) = u16_mod - 1 - n % u16_mod

-- `(uint32_t)((a << 24) | (b << 16) | (c << 8) | d)`, where the four are not negative.
unfoldable pub ip_addr_from_string : Dpdk → String → ℕ
ip_addr_from_string l s =
    let (a, b, c, d) = l.read_ip s in
    bit_or (bit_or (bit_or (a * 2 ^ 24) (b * 2 ^ 16)) (c * 2 ^ 8)) d % u32_mod

-- A size_t that an int is passed for.
abbrev pub to_size : ℤ → ℕ
to_size (pos n) = n
to_size (negsuc n) = u64_mod - 1 - n

abbrev pub write_piece : Piece → Option ℕ × Mbuf → Option (ℕ × Mbuf)
write_piece x (none, m) = none
write_piece x (some at, m) = some (at, record m { pieces = m.pieces ++ ((at, x) ∷ []) })

-- A piece of `n` bytes, written through the pointer that `rte_pktmbuf_append` returns; the offset that
-- the pointer stands for, and the packet.
abbrev pub push : Dpdk → (n : ℕ) → Piece → Mbuf → Option (ℕ × Mbuf)
push l n x m = write_piece x (l.append m n)

-- `vlan_id | (vlan_priority << 13)`, as a uint16_t.
unfoldable pub vlan_tci_of : (vlan_id vlan_priority : ℕ) → ℕ
vlan_tci_of id prio = bit_or id (prio * 2 ^ 13) % u16_mod

abbrev pub ether_type_of : (udp_ip_enabled : Bool) → ℕ
ether_type_of ip_on = if ip_on then ether_type_ipv4 else ether_type_raw

unfoldable pub setup_ethernet_header :
    Dpdk
    → Mbuf
    → (src dst : EtherAddr) (vlan_enabled udp_ip_enabled : Bool) (vlan_id vlan_priority : ℕ)
    → Option Mbuf
setup_ethernet_header l m src dst vlan_on ip_on id prio = do
  let hdr : EtherHdr = record {
    dst_addr = dst;
    src_addr = src;
    ether_type = l.cpu_to_be_16 (if vlan_on then ether_type_vlan else ether_type_of ip_on);
  }
  (at, m1) ← push l l.ether_size (ether hdr) m
  elim vlan_on [
    | false ↦ some m1
    | true ↦ do
      let tag : VlanHdr = record {
        vlan_tci = l.cpu_to_be_16 (vlan_tci_of id prio);
        eth_proto = l.cpu_to_be_16 (ether_type_of ip_on);
      }
      (at', m2) ← push l l.vlan_size (vlan tag) m1
      some m2
  ]

abbrev pub ipv4_hdr : Dpdk → (src_ip dst_ip data_size : ℕ) → Ipv4Hdr
ipv4_hdr l src dst size = record {
  version_ihl = 0x45;
  type_of_service = 0;
  total_length = l.cpu_to_be_16 ((l.ipv4_size + l.udp_size + size) % u16_mod);
  packet_id = 0;
  fragment_offset = 0;
  time_to_live = 64;
  next_proto_id = l.ipproto_udp;
  hdr_checksum = 0;
  src_ip = l.cpu_to_be_32 src;
  dst_ip = l.cpu_to_be_32 dst;
}

-- The header, with the offset at which it stands.
unfoldable pub setup_ip_header :
    Dpdk → Mbuf → (src_ip dst_ip data_size : ℕ) → Option (ℕ × Ipv4Hdr × Mbuf)
setup_ip_header l m src dst size = do
  (at, m1) ← push l l.ipv4_size (ipv4 (ipv4_hdr l src dst size)) m
  some (at, ipv4_hdr l src dst size, m1)

abbrev pub udp_hdr : Dpdk → (src_port dst_port data_size : ℕ) → UdpHdr
udp_hdr l src dst size = record {
  src_port = l.cpu_to_be_16 src;
  dst_port = l.cpu_to_be_16 dst;
  dgram_len = l.cpu_to_be_16 ((l.udp_size + size) % u16_mod);
  dgram_cksum = 0;
}

unfoldable pub setup_udp_header :
    Dpdk → Mbuf → (src_port dst_port data_size : ℕ) → Option (ℕ × UdpHdr × Mbuf)
setup_udp_header l m src dst size = do
  (at, m1) ← push l l.udp_size (udp (udp_hdr l src dst size)) m
  some (at, udp_hdr l src dst size, m1)

abbrev pub is_on : ℤ → Bool
is_on x = not (x ==ℤ pos 0)

-- The length that the code gives a packet for a message of `n` bytes; `pkt_len` has 32 bits and
-- `data_len` 16.
abbrev pub packet_len : Dpdk → ℕ → ℕ
packet_len l n = l.ether_size + l.ipv4_size + l.udp_size + n

abbrev pub with_len : Dpdk → ℕ → Mbuf → Mbuf
with_len l n m = record m {
  pkt_len = packet_len l n % u32_mod;
  data_len = packet_len l n % u16_mod;
}

-- A write to a piece that is there already.
unfoldable pub rewrite_piece : ℕ → Piece → List (ℕ × Piece) → List (ℕ × Piece)
rewrite_piece at x [] = []
rewrite_piece at x ((i, y) ∷ l) = (if i == at then (i, x) else (i, y)) ∷ rewrite_piece at x l

-- The two checksums, through the pointers to the headers.
unfoldable pub set_checksums :
    Dpdk → (at_ip : ℕ) (ip : Ipv4Hdr) (at_udp : ℕ) (u : UdpHdr) → Mbuf → Mbuf
unfolding rewrite_piece
set_checksums l at_ip ip at_udp u m =
    let ip' : Ipv4Hdr = record ip { hdr_checksum = l.ipv4_cksum ip } in
    let m1 : Mbuf = record m { pieces = rewrite_piece at_ip (ipv4 ip') m.pieces } in
    let u' : UdpHdr = record u { dgram_cksum = l.udptcp_cksum m1 ip' u } in
    record m1 { pieces = rewrite_piece at_udp (udp u') m1.pieces }

-- `is_default` is what the comparison of the pointer `mac_src` with the one of the literal gives, which C
-- leaves open for two equal literals and which is false for the copy of strdup; and `dev_mac` the address of
-- the port in `dev_info_list`.
abbrev pub assign_mac_src :
    (is_default : Bool) (dev_mac : String) → InterfaceConfig → InterfaceConfig
assign_mac_src is_default dev_mac net = if is_default then record net { mac_src = dev_mac } else net

-- The packet, and the interface, whose `mac_src` may change.
unfoldable pub prepare_packet_header :
    Dpdk
    → (is_default : Bool) (dev_mac : String) → Mbuf
    → (msg_size : ℤ) → InterfaceConfig
    → Option (Mbuf × InterfaceConfig)
prepare_packet_header l is_default dev_mac m msg_size net0 = do
  let net : InterfaceConfig = assign_mac_src is_default dev_mac net0
  let size : ℕ = to_size msg_size
  m1 ←
      setup_ethernet_header l m (l.read_mac net.mac_src) (l.read_mac net.mac_dst)
        (is_on net.vlan_enabled) (is_on net.ip_enabled) (to_u16 net.vlan) (to_u16 net.priority)
  elim (is_on net.ip_enabled) [
    | false ↦ some (with_len l size m1, net)
    | true ↦ do
      (at_ip, ip, m2) ←
          setup_ip_header l m1 (ip_addr_from_string l net.ip_src) (ip_addr_from_string l net.ip_dst)
            size
      (at_udp, u, m3) ← setup_udp_header l m2 (to_u16 net.port_src) (to_u16 net.port_dst) size
      some (set_checksums l at_ip ip at_udp u (with_len l size m3), net)
  ]

abbrev pub write_payload : (msg : List ℕ) → Option ℕ × Mbuf → Mbuf
write_payload msg (none, m) = m
write_payload msg (some at, m) = record m { pieces = m.pieces ++ ((at, payload msg) ∷ []) }

unfoldable pub prepare_packet_payload : Dpdk → Mbuf → (msg : List ℕ) (msg_size : ℕ) → Mbuf
prepare_packet_payload l m msg size = with_len l size (write_payload msg (l.append m size))

unfoldable pub prepare_packet_offload :
    Dpdk → Mbuf → (txtime_enabled timestamp_enabled : Bool) → Mbuf
prepare_packet_offload l m txtime_on timestamp_on =
    if txtime_on
    then record m { ol_flags = bit_or l.tx_tmst (2 ^ l.tx_timestamp_bit) }
    else if timestamp_on
    then record m { ol_flags = l.tx_tmst }
    else record m { ol_flags = 0 }
