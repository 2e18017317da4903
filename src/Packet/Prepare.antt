-- ===== src/Packet/Prepare.antt =====
-- `prepare_packet_header` of src/engine_dpdk.c as a whole, on a packet with no data.
use Prim.Native.String.{String}
use rtgen_dpdk_next.Base.{
  ◌%◌, u16_mod, u32_mod, ◌<◌, ℕ, ◌+◌, ◌≤◌, ◌≡◌, refl, ap, ◌∙◌, Bool, true, false, some, List, [],
  ◌∷◌, ◌++◌, arith, ◌>>=◌,
}
use rtgen_dpdk_next.Base.Int.{pos}
use rtgen_dpdk_next.Flow.{InterfaceConfig}
use rtgen_dpdk_next.Packet.{
  Piece, Mbuf, Dpdk, Ipv4Hdr, UdpHdr, setup_ip_header, setup_udp_header, set_checksums,
  prepare_packet_header, assign_mac_src, udp_hdr, is_on, to_u16, packet_len, with_len,
}
use rtgen_dpdk_next.Packet.Layout.{AppendLaws, Holds, place, total, total-append, push-Holds}
use rtgen_dpdk_next.Packet.Headers.{
  ethernet_of, ip_of, header_pieces, setup_ethernet_header-Holds, ethernet_pieces-short,
  ethernet_pieces-positive, set_checksums-pieces,
}

-- The packet with its headers and the lengths that the code writes.
pub record Headed (l : Dpdk) (net : InterfaceConfig) (vlan_on ip_on : Bool) (size cksum : ℕ)
    (m : Mbuf) : Type 0 where
  pub at_offsets : m.pieces ≡ place 0 (header_pieces l net vlan_on ip_on size cksum)
  pub data_bytes : m.data_len ≡ 42 + size
  pub packet_bytes : m.pkt_len ≡ 42 + size

assign_mac_src-vlan_enabled :
    (d : Bool) (mac : String) (net : InterfaceConfig)
    → (assign_mac_src d mac net).vlan_enabled ≡ net.vlan_enabled
assign_mac_src-vlan_enabled true mac net = refl
assign_mac_src-vlan_enabled false mac net = refl

assign_mac_src-ip_enabled :
    (d : Bool) (mac : String) (net : InterfaceConfig)
    → (assign_mac_src d mac net).ip_enabled ≡ net.ip_enabled
assign_mac_src-ip_enabled true mac net = refl
assign_mac_src-ip_enabled false mac net = refl

module _ (l : Dpdk) (room : ℕ) (laws : AppendLaws l room) where
  -- The lengths that the code writes, where a uint16_t holds them.
  pub packet_len-eq :
      (n : ℕ)
      → n + 42 < u16_mod
      → (packet_len l n % u16_mod ≡ 42 + n) × (packet_len l n % u32_mod ≡ 42 + n)
  packet_len-eq n h =
      let e : packet_len l n ≡ 42 + n =
        omega (arith, laws.ether_bytes, laws.ipv4_bytes, laws.udp_bytes) in
      (omega (arith, e), omega (arith, e))

  -- A prepared packet has its headers, and the lengths of one with no tag.
  pub prepare_packet_header-Headed :
      (d : Bool) (mac : String) (m : Mbuf) (net0 : InterfaceConfig) (size : ℕ)
      (vlan_on ip_on : Bool)
      → Holds m []
      → 46 ≤ room
      → size + 42 < u16_mod
      → is_on net0.vlan_enabled ≡ vlan_on
      → is_on net0.ip_enabled ≡ ip_on
      → (m' : Mbuf) × (c : ℕ) × (prepare_packet_header l d mac m (pos size) net0
          ≡ some (m', assign_mac_src d mac net0))
        × Headed l (assign_mac_src d mac net0) vlan_on ip_on size c m'
  unfolding prepare_packet_header setup_ip_header setup_udp_header set_checksums
  prepare_packet_header-Headed d mac m net0 size vlan_on false h fit small ev ei =
      let net : InterfaceConfig = assign_mac_src d mac net0 in
      let ev' : is_on net.vlan_enabled ≡ vlan_on =
        ap is_on (assign_mac_src-vlan_enabled d mac net0) ∙ ev in
      let ei' : is_on net.ip_enabled ≡ false =
        ap is_on (assign_mac_src-ip_enabled d mac net0) ∙ ei in
      let (m1, e, h1) =
        setup_ethernet_header-Holds l room laws m (l.read_mac net.mac_src) (l.read_mac net.mac_dst)
          vlan_on false (to_u16 net.vlan) (to_u16 net.priority) h (omega arith) in
      (
        with_len l size m1,
        0,
        rw (ev', ei', e, ◌>>=◌) refl,
        record {
          at_offsets = h1.at_offsets;
          data_bytes = (packet_len-eq size small).0;
          packet_bytes = (packet_len-eq size small).1;
        },
      )
  prepare_packet_header-Headed d mac m net0 size vlan_on true h fit small ev ei =
      let net : InterfaceConfig = assign_mac_src d mac net0 in
      let ev' : is_on net.vlan_enabled ≡ vlan_on =
        ap is_on (assign_mac_src-vlan_enabled d mac net0) ∙ ev in
      let ei' : is_on net.ip_enabled ≡ true =
        ap is_on (assign_mac_src-ip_enabled d mac net0) ∙ ei in
      let es : List Piece = ethernet_of l net vlan_on true in
      let short =
        ethernet_pieces-short l (l.read_mac net.mac_src) (l.read_mac net.mac_dst) vlan_on true
          (to_u16 net.vlan) (to_u16 net.priority) in
      let ip : Ipv4Hdr = ip_of l net size in
      let u : UdpHdr = udp_hdr l (to_u16 net.port_src) (to_u16 net.port_dst) size in
      let (m1, e1, h1) =
        setup_ethernet_header-Holds l room laws m (l.read_mac net.mac_src) (l.read_mac net.mac_dst)
          vlan_on true (to_u16 net.vlan) (to_u16 net.priority) h (omega arith) in
      let (m2, e2, h2, n2) =
        push-Holds l room laws m1 es l.ipv4_size (Piece.ipv4 ip) h1 laws.ipv4_bytes
          (omega (arith, laws.ipv4_bytes, short)) in
      let (m3, e3, h3, n3) =
        push-Holds l room laws m2 _ l.udp_size (Piece.udp u) h2 laws.udp_bytes
          (omega (arith, laws.udp_bytes, short, total-append es (Piece.ipv4 ip ∷ []))) in
      let (c, at) = set_checksums-pieces l es ip u (with_len l size m3) h3.at_offsets (
        ethernet_pieces-positive l (l.read_mac net.mac_src) (l.read_mac net.mac_dst) vlan_on true
          (to_u16 net.vlan) (to_u16 net.priority)) in
      (
        set_checksums l (total es) ip (total (es ++ (Piece.ipv4 ip ∷ []))) u (with_len l size m3),
        c,
        rw (ev', ei', e1, ◌>>=◌, e2, ◌>>=◌, e3, ◌>>=◌) refl,
        record {
          at_offsets = at;
          data_bytes = (packet_len-eq size small).0;
          packet_bytes = (packet_len-eq size small).1;
        },
      )
