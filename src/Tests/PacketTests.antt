-- ===== src/Tests/PacketTests.antt =====
-- The headers and packets, with a buffer of 2048 bytes.
use rtgen_dpdk_next.Base.{
  ◌%◌, ◌/◌, ◌*◌, ℕ, zero, suc, ◌*◌, ◌+◌, ◌≡◌, refl, true, Option, none, some, [], ◌∷◌, arith, leb,
  if◌then◌else◌, le→leb,
}
use rtgen_dpdk_next.Base.Int.{pos}
use rtgen_dpdk_next.Flow.{InterfaceConfig}
use rtgen_dpdk_next.Packet.{Mbuf, Dpdk}
use rtgen_dpdk_next.Sending.{Supply, sche_single}
use rtgen_dpdk_next.Packet.Layout.{AppendLaws, fresh-Holds}
use rtgen_dpdk_next.Sending.Table.{CanPrepare}
use rtgen_dpdk_next.Sending.Burst.{Stopped, sche_single-Stopped}
use rtgen_dpdk_next.Tests.Data.{net_of, flow_of}

abbrev pub room : ℕ
room = 2048

abbrev append_bytes : Mbuf → ℕ → Option ℕ × Mbuf
append_bytes m n =
    if leb (m.data_len + n) room
    then (some m.data_len, record m { data_len = m.data_len + n; pkt_len = m.pkt_len + n })
    else (none, m)

abbrev pub dpdk : Dpdk
dpdk = record {
  append = append_bytes;
  ether_size = 14;
  vlan_size = 4;
  ipv4_size = 20;
  udp_size = 8;
  ipproto_udp = 17;
  ipv4_cksum = λ h. h.total_length;
  udptcp_cksum = λ m h u. u.dgram_len;
  read_mac = λ s. 1 ∷ 2 ∷ 3 ∷ 4 ∷ 5 ∷ 6 ∷ [];
  read_ip = λ s. (192, 168, 0, 96);
  cpu_to_be_16 = λ n. n % 256 * 256 + n / 256;
  be_to_cpu_16 = λ n. n % 256 * 256 + n / 256;
  cpu_to_be_32 =
      λ n. n % 256 * 16777216 + n / 256 % 256 * 65536 + n / 65536 % 256 * 256 + n / 16777216;
  be_to_cpu_32 =
      λ n. n % 256 * 16777216 + n / 256 % 256 * 65536 + n / 65536 % 256 * 256 + n / 16777216;
  tx_tmst = 64;
  tx_timestamp_bit = 9;
}

pub dpdk-AppendLaws : AppendLaws dpdk room
dpdk-AppendLaws = record {
  fits = λ m n h. rw (le→leb (m.data_len + n) room h) refl;
  ether_bytes = refl;
  vlan_bytes = refl;
  ipv4_bytes = refl;
  udp_bytes = refl;
  order_16 = λ n h. omega arith;
  order_32 = λ n h. omega arith;
}

abbrev empty : Mbuf
empty = record { data_len = 0; pkt_len = 0; ol_flags = 0; txtime = 0; pieces = [] }

-- A tag and an IP header.
abbrev net : InterfaceConfig
net = record (net_of 0) { vlan_enabled = pos 1; vlan = pos 2; priority = pos 3; ip_enabled = pos 1 }

abbrev pub supply : Supply
supply = record {
  pkts = true;
  has_mbuf = λ i. true;
  has_msg = λ i. true;
  mbuf = λ i. empty;
  is_default = λ i. true;
  dev_mac = λ i. "aa";
  text = λ i size. i ∷ [];
}

pub flow-CanPrepare : (q period offset i : ℕ) → CanPrepare room supply i (flow_of q period offset)
flow-CanPrepare q period offset i = record {
  net = net_of q;
  id = 0;
  prio = 0;
  bytes = 200;
  has_net = refl;
  has_size = refl;
  sendable = record {
    vlan_id = refl;
    vlan_priority = refl;
    id_bits = omega arith;
    prio_bits = omega arith;
    datagram_fits = omega arith;
    room_headers = omega arith;
    room_message = omega arith;
  };
  has_array = refl;
  has_buffer = refl;
  has_memory = refl;
  empty_buffer = fresh-Holds empty refl refl;
}

abbrev ready : Mbuf
ready = record empty { data_len = 242; pkt_len = 242 }

-- The device takes nothing in the first two rounds; the time is over in round 5.
abbrev sends : ℕ → ℕ
sends zero = 0
sends (suc zero) = 0
sends (suc (suc i)) = 1

abbrev cycles : ℕ → ℕ
cycles i = 100 + i * 200000

sche_single-Stopped_example :
    (k : ℕ) × (sche_single dpdk true "aa" ready net 5000 [] (pos 0) sends cycles 100 10
      ≡ some (sends k, record ready { txtime = 5000 }, net))
    × Stopped sends cycles 100 0 5 k
sche_single-Stopped_example =
    sche_single-Stopped dpdk true "aa" ready net 5000 [] sends cycles 100 10 5 (omega arith)
      (omega arith) (omega arith)
