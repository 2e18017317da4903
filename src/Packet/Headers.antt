-- ===== src/Packet/Headers.antt =====
-- The headers that `prepare_packet_header` of src/engine_dpdk.c writes, on a packet with no data.
use rtgen_dpdk_next.Base.{
  ℕ, ◌≤◌, ◌<◌, ◌≡◌, refl, ap, sym, subst, ◌∙◌, Bool, true, false, some, List, [], ◌∷◌, ◌++◌,
  append_assoc, All, arith, ◌>>=◌,
}
use rtgen_dpdk_next.Flow.{InterfaceConfig}
use rtgen_dpdk_next.Packet.{
  Piece, Mbuf, Dpdk, EtherAddr, EtherHdr, VlanHdr, Ipv4Hdr, UdpHdr, ether_type_vlan, ether_type_of,
  vlan_tci_of, setup_ethernet_header, set_checksums, ipv4_hdr, udp_hdr, to_u16, ip_addr_from_string,
  rewrite_piece,
}
use rtgen_dpdk_next.Packet.Layout.{
  AppendLaws, Holds, place, size_of, total, total-append, push-Holds, rewrite_piece-place,
}

abbrev pub ethernet_pieces :
    Dpdk → (src dst : EtherAddr) (vlan_on ip_on : Bool) (id prio : ℕ) → List Piece
ethernet_pieces l src dst false ip_on id prio =
    Piece.ether
      (record { dst_addr = dst; src_addr = src; ether_type = l.cpu_to_be_16 (ether_type_of ip_on) })
    ∷ []
ethernet_pieces l src dst true ip_on id prio =
    Piece.ether
      (record { dst_addr = dst; src_addr = src; ether_type = l.cpu_to_be_16 ether_type_vlan })
    ∷ Piece.vlan (record {
      vlan_tci = l.cpu_to_be_16 (vlan_tci_of id prio);
      eth_proto = l.cpu_to_be_16 (ether_type_of ip_on);
    })
    ∷ []

abbrev pub ethernet_of : Dpdk → InterfaceConfig → (vlan_on ip_on : Bool) → List Piece
ethernet_of l net vlan_on ip_on =
    ethernet_pieces l (l.read_mac net.mac_src) (l.read_mac net.mac_dst) vlan_on ip_on
      (to_u16 net.vlan) (to_u16 net.priority)

abbrev pub ip_of : Dpdk → InterfaceConfig → ℕ → Ipv4Hdr
ip_of l net size =
    ipv4_hdr l (ip_addr_from_string l net.ip_src) (ip_addr_from_string l net.ip_dst) size

abbrev pub checked_ip : Dpdk → Ipv4Hdr → Ipv4Hdr
checked_ip l h = record h { hdr_checksum = l.ipv4_cksum h }

-- The two headers, with the checksum of the second.
abbrev pub datagram_pieces : Dpdk → InterfaceConfig → (size cksum : ℕ) → List Piece
datagram_pieces l net size c =
    Piece.ipv4 (checked_ip l (ip_of l net size))
    ∷ Piece.udp
        (record (udp_hdr l (to_u16 net.port_src) (to_u16 net.port_dst) size) { dgram_cksum = c })
    ∷ []

abbrev pub header_pieces :
    Dpdk → InterfaceConfig → (vlan_on ip_on : Bool) (size cksum : ℕ) → List Piece
header_pieces l net vlan_on false size c = ethernet_of l net vlan_on false
header_pieces l net vlan_on true size c =
    ethernet_of l net vlan_on true ++ datagram_pieces l net size c

module _ (l : Dpdk) (room : ℕ) (laws : AppendLaws l room) where
  pub setup_ethernet_header-Holds :
      (m : Mbuf) (src dst : EtherAddr) (vlan_on ip_on : Bool) (id prio : ℕ)
      → Holds m []
      → 18 ≤ room
      → (m' : Mbuf) × (setup_ethernet_header l m src dst vlan_on ip_on id prio ≡ some m')
        × Holds m' (ethernet_pieces l src dst vlan_on ip_on id prio)
  unfolding setup_ethernet_header
  setup_ethernet_header-Holds m src dst false ip_on id prio h fit =
      let hdr : EtherHdr = record {
        dst_addr = dst;
        src_addr = src;
        ether_type = l.cpu_to_be_16 (ether_type_of ip_on);
      } in
      let (m1, e, h1, n) =
        push-Holds l room laws m [] l.ether_size (Piece.ether hdr) h laws.ether_bytes
          (omega (arith, laws.ether_bytes)) in
      (m1, rw (e, ◌>>=◌) refl, h1)
  setup_ethernet_header-Holds m src dst true ip_on id prio h fit =
      let hdr : EtherHdr = record {
        dst_addr = dst;
        src_addr = src;
        ether_type = l.cpu_to_be_16 ether_type_vlan;
      } in
      let tag : VlanHdr = record {
        vlan_tci = l.cpu_to_be_16 (vlan_tci_of id prio);
        eth_proto = l.cpu_to_be_16 (ether_type_of ip_on);
      } in
      let (m1, e, h1, n) =
        push-Holds l room laws m [] l.ether_size (Piece.ether hdr) h laws.ether_bytes
          (omega (arith, laws.ether_bytes)) in
      let (m2, e', h2, n') =
        push-Holds l room laws m1 _ l.vlan_size (Piece.vlan tag) h1 laws.vlan_bytes
          (omega (arith, laws.vlan_bytes)) in
      (m2, rw (e, ◌>>=◌, e', ◌>>=◌) refl, h2)

pub ethernet_pieces-short :
    (l : Dpdk) (src dst : EtherAddr) (vlan_on ip_on : Bool) (id prio : ℕ)
    → total (ethernet_pieces l src dst vlan_on ip_on id prio) ≤ 18
ethernet_pieces-short l src dst false ip_on id prio = omega arith
ethernet_pieces-short l src dst true ip_on id prio = omega arith

pub ethernet_pieces-positive :
    (l : Dpdk) (src dst : EtherAddr) (vlan_on ip_on : Bool) (id prio : ℕ) (qs : List Piece)
    → All (λ p. 0 < size_of p) qs
    → All (λ p. 0 < size_of p) (ethernet_pieces l src dst vlan_on ip_on id prio ++ qs)
ethernet_pieces-positive l src dst false ip_on id prio qs h = (omega arith, h)
ethernet_pieces-positive l src dst true ip_on id prio qs h = (omega arith, (omega arith, h))

-- The checksums change the two headers in place.
pub set_checksums-pieces :
    (l : Dpdk) (es : List Piece) (ip : Ipv4Hdr) (u : UdpHdr) (m : Mbuf)
    → m.pieces ≡ place 0 ((es ++ (Piece.ipv4 ip ∷ [])) ++ (Piece.udp u ∷ []))
    → ((qs : List Piece) → All (λ p. 0 < size_of p) qs → All (λ p. 0 < size_of p) (es ++ qs))
    → (c : ℕ) × ((set_checksums l (total es) ip (total (es ++ (Piece.ipv4 ip ∷ []))) u m).pieces
        ≡ place 0
            (es ++ (Piece.ipv4 (checked_ip l ip) ∷ Piece.udp (record u { dgram_cksum = c }) ∷ [])))
unfolding set_checksums
set_checksums-pieces l es ip u m e all_pos =
    let ip' : Ipv4Hdr = checked_ip l ip in
    let m1 : Mbuf = record m { pieces = rewrite_piece (total es) (Piece.ipv4 ip') m.pieces } in
    let c : ℕ = l.udptcp_cksum m1 ip' u in
    let u' : UdpHdr = record u { dgram_cksum = c } in
    let first : m1.pieces ≡ place 0 (es ++ (Piece.ipv4 ip' ∷ Piece.udp u ∷ [])) =
      ap (λ p. rewrite_piece (total es) (Piece.ipv4 ip') p)
        (e ∙ ap (place 0) (append_assoc es (Piece.ipv4 ip ∷ []) (Piece.udp u ∷ [])))
      ∙ rewrite_piece-place es (Piece.ipv4 ip) (Piece.ipv4 ip') (Piece.udp u ∷ [])
          (all_pos _ (omega arith, (omega arith, tt))) refl in
    let start : total (es ++ (Piece.ipv4 ip ∷ [])) ≡ total (es ++ (Piece.ipv4 ip' ∷ [])) =
      omega (arith, total-append es (Piece.ipv4 ip ∷ []), total-append es (Piece.ipv4 ip' ∷ [])) in
    (
      c,
      ap (λ n. rewrite_piece n (Piece.udp u') m1.pieces) start
          ∙ ap (λ p. rewrite_piece (total (es ++ (Piece.ipv4 ip' ∷ []))) (Piece.udp u') p)
              (first
                ∙ ap (place 0) (sym (append_assoc es (Piece.ipv4 ip' ∷ []) (Piece.udp u ∷ []))))
          ∙ rewrite_piece-place (es ++ (Piece.ipv4 ip' ∷ [])) (Piece.udp u) (Piece.udp u') []
              (subst (All (λ p. 0 < size_of p))
                (sym (append_assoc es (Piece.ipv4 ip' ∷ []) (Piece.udp u ∷ [])))
                (all_pos _ (omega arith, (omega arith, tt))))
              refl
          ∙ ap (place 0) (append_assoc es (Piece.ipv4 ip' ∷ []) (Piece.udp u' ∷ [])),
    )
