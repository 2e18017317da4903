-- ===== src/Experiments/Frame.antt =====
-- `prepare_packet` of .legacy/dac_exp_multicore.c on an empty buffer.
use rtgen_dpdk_next.Base.{
  ℕ, ◌+◌, ◌<◌, ◌≤◌, ◌≡◌, refl, ap, ap₂, ◌∙◌, Bool, none, some, List, [], ◌∷◌, ◌++◌, arith, length,
  ◌>>=◌, u16_mod, u32_mod, ◌%◌, ◌^◌,
}
use rtgen_dpdk_next.Packet.{
  Piece, Mbuf, Dpdk, EtherHdr, Ipv4Hdr, UdpHdr, ipv4_hdr, udp_hdr, ether_type_ipv4, packet_len,
  with_len, with_len, set_checksums, rewrite_piece,
}
use rtgen_dpdk_next.Packet.Layout.{AppendLaws, Holds, place, push-Holds}
use rtgen_dpdk_next.Packet.Prepare.{packet_len-eq}
use rtgen_dpdk_next.Packet.Reader.{
  Seen, Datagram, piece_at, read_frame, read_datagram, lengths-agree, same_number,
  read_frame_untagged, read_network_ipv4,
}
use rtgen_dpdk_next.Experiments.{
  Endpoints, prepare_packet, setup_ethernet_header, setup_ip_header, setup_udp_header,
  setup_data_payload, setup_offload_field,
}

abbrev pub datagram_for : Endpoints → (size : ℕ) → Datagram
datagram_for e size = record {
  from_ip = e.src_ip;
  to_ip = e.dst_ip;
  from_port = e.src_port;
  to_port = e.dst_port;
  message_at = 42;
  message_bytes = size;
}

-- What a receiver reads.
abbrev pub announced : Endpoints → (size : ℕ) → Seen
announced e size = record {
  to_mac = e.dst_eth;
  from_mac = e.src_eth;
  vlan_and_priority = none;
  datagram = some (datagram_for e size);
}

-- Addresses of 32 bits and ports of 16.
pub record AreEndpoints (e : Endpoints) : Type 0 where
  pub from_ip : e.src_ip < 2 ^ 32
  pub to_ip : e.dst_ip < 2 ^ 32
  pub from_port : e.src_port < 2 ^ 16
  pub to_port : e.dst_port < 2 ^ 16

module _ (l : Dpdk) (room : ℕ) (laws : AppendLaws l room) where
  abbrev pieces_of : Endpoints → (size cksum : ℕ) → List ℕ → List Piece
  pieces_of e size c msg =
      Piece.ether (record {
        dst_addr = e.dst_eth;
        src_addr = e.src_eth;
        ether_type = l.cpu_to_be_16 ether_type_ipv4;
      })
      ∷ Piece.ipv4 (record (ipv4_hdr l e.src_ip e.dst_ip size) {
        hdr_checksum = l.ipv4_cksum (ipv4_hdr l e.src_ip e.dst_ip size);
      })
      ∷ Piece.udp (record (udp_hdr l e.src_port e.dst_port size) { dgram_cksum = c })
      ∷ Piece.payload msg
      ∷ []

  prepare_packet-pieces :
      (e : Endpoints) (launchtime : Bool) (m : Mbuf) (msg : List ℕ)
      → Holds m []
      → 42 + length msg ≤ room
      → (m' : Mbuf) × (c : ℕ) × (prepare_packet l e launchtime m msg (length msg) ≡ some m')
        × (m'.pieces ≡ place 0 (pieces_of e (length msg) c msg))
        × (m'.data_len ≡ packet_len l (length msg) % u16_mod)
        × (m'.pkt_len ≡ packet_len l (length msg) % u32_mod)
  unfolding prepare_packet setup_ethernet_header setup_ip_header setup_udp_header setup_data_payload
      setup_offload_field set_checksums rewrite_piece
  prepare_packet-pieces e launchtime m msg h fit =
      let size = length msg in
      let eth : EtherHdr = record {
        dst_addr = e.dst_eth;
        src_addr = e.src_eth;
        ether_type = l.cpu_to_be_16 ether_type_ipv4;
      } in
      let ip : Ipv4Hdr = ipv4_hdr l e.src_ip e.dst_ip size in
      let u : UdpHdr = udp_hdr l e.src_port e.dst_port size in
      let (m1, e1, h1, n1) =
        push-Holds l room laws m [] l.ether_size (Piece.ether eth) h laws.ether_bytes
          (omega (arith, laws.ether_bytes)) in
      let (m2, e2, h2, n2) =
        push-Holds l room laws m1 _ l.ipv4_size (Piece.ipv4 ip) h1 laws.ipv4_bytes
          (omega (arith, laws.ipv4_bytes)) in
      let (m3, e3, h3, n3) =
        push-Holds l room laws m2 _ l.udp_size (Piece.udp u) h2 laws.udp_bytes
          (omega (arith, laws.udp_bytes)) in
      let a = laws.fits m3 size (omega (arith, h3.filled)) in
      let m4 : Mbuf =
        with_len l size
          (record m3 { pieces = m3.pieces ++ ((m3.data_len, Piece.payload msg) ∷ []) }) in
      let ip' : Ipv4Hdr = record ip { hdr_checksum = l.ipv4_cksum ip } in
      let m5 : Mbuf = record m4 { pieces = rewrite_piece 14 (Piece.ipv4 ip') m4.pieces } in
      let c : ℕ = l.udptcp_cksum m5 ip' u in
      let u' : UdpHdr = record u { dgram_cksum = c } in
      (
        setup_offload_field l launchtime (set_checksums l 14 ip 34 u m4),
        c,
        rw (e1, ◌>>=◌, e2, ◌>>=◌, e3, ◌>>=◌, a) refl,
        ap (λ ps. rewrite_piece 34 (Piece.udp u') (rewrite_piece 14 (Piece.ipv4 ip') ps))
            (ap₂ (λ ps at. ps ++ ((at, Piece.payload msg) ∷ [])) h3.at_offsets h3.filled),
        refl,
        refl,
      )

  -- For endpoints of the right width and a message of at most 65493 bytes, on an empty buffer with room for
  -- it, `prepare_packet` makes a packet of 42 bytes and the message that a
  -- receiver reads as a datagram between the file's endpoints, of the size of the message, and the
  -- message stands where the datagram announces it, within the packet's lengths.
  pub prepare_packet-read_frame :
      (e : Endpoints) (launchtime : Bool) (m : Mbuf) (msg : List ℕ)
      → AreEndpoints e
      → Holds m []
      → 42 + length msg ≤ room
      → length msg + 42 < u16_mod
      → (m' : Mbuf) × (prepare_packet l e launchtime m msg (length msg) ≡ some m')
        × (read_frame l m'.pieces ≡ some (announced e (length msg)))
        × (piece_at 42 m'.pieces ≡ some (Piece.payload msg))
        × (m'.data_len ≡ 42 + length msg)
        × (m'.pkt_len ≡ 42 + length msg)
  unfolding read_datagram piece_at
  prepare_packet-read_frame e launchtime m msg ends h fit small =
      let (m', c, run, at, data_len, pkt_len) = prepare_packet-pieces e launchtime m msg h fit in
      let (n, n') = packet_len-eq l room laws (length msg) small in
      let (x, x') = lengths-agree l room (length msg) laws (omega (arith, small)) in
      let told : read_datagram l 14 (place 0 (pieces_of e (length msg) c msg))
          ≡ some (datagram_for e (length msg)) =
        rw
          (
            same_number l.ipproto_udp,
            laws.order_16 ((l.ipv4_size + l.udp_size + length msg) % u16_mod) (omega arith),
            laws.order_16 ((l.udp_size + length msg) % u16_mod) (omega arith),
            x,
            x',
            laws.order_32 e.src_ip ends.from_ip,
            laws.order_32 e.dst_ip ends.to_ip,
            laws.order_16 e.src_port ends.from_port,
            laws.order_16 e.dst_port ends.to_port,
          )
          refl in
      (
        m',
        run,
        ap (read_frame l) at
            ∙ read_frame_untagged l _ _ ether_type_ipv4 _ refl
                (laws.order_16 ether_type_ipv4 (omega arith)) refl
                (read_network_ipv4 l 14 _ _ told),
        ap (piece_at 42) at,
        data_len ∙ n,
        pkt_len ∙ n',
      )
