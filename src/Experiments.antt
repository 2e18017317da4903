-- ===== src/Experiments.antt =====
-- The experiments .legacy/dac_exp_multicore.c and .legacy/dac_exp_singlecore.c, from which the program
-- grew: what the two files share, after the first. What DPDK gives is an argument; printing, logging
-- and the throughput, a float, are left out. A fault is `none`.
pub mod Multicore
pub mod Singlecore
pub mod Checks
pub mod Counts
pub mod Rounds
pub mod Stamps
pub mod SleepTime
pub mod Frame
use Prim.Native.Nat.{bit_or}
use rtgen_dpdk_next.Base.{
  ℕ, zero, suc, ◌+◌, ◌-◌, ◌*◌, ◌/◌, ◌^◌, Bool, true, false, ◌&&◌, ◌||◌, Option, none, some, List,
  [], ◌∷◌, length, get_elem?, ltb, ◌==◌, if◌then◌else◌, ◌>>=◌, add64, sub64, mul64, distance,
}
use rtgen_dpdk_next.Engine.{wait_until}
use rtgen_dpdk_next.Packet.{
  Mbuf, Dpdk, EtherAddr, EtherHdr, Ipv4Hdr, UdpHdr, ether, ipv4, udp, push, ipv4_hdr, udp_hdr,
  ether_type_ipv4, packet_len, with_len, write_payload, set_checksums,
}

abbrev pub delta_latest : ℕ
delta_latest = 500000

abbrev pub delta_earliest : ℕ
delta_earliest = 1500000

-- The cycles for which `rte_sleep` waits: the product wraps.
unfoldable pub rte_sleep_cycles : (timer_hz ns : ℕ) → ℕ
rte_sleep_cycles hz ns = mul64 ns hz / 1000000000

-- The number of the reading of the counter that ends the sleep; `clock 0` is the one at the start.
unfoldable pub rte_sleep : (timer_hz : ℕ) (clock : ℕ → ℕ) (fuel ns : ℕ) → Option ℕ
unfolding rte_sleep_cycles
rte_sleep hz clock fuel ns = wait_until clock (clock 0) (rte_sleep_cycles hz ns) fuel 1

unfoldable pub setup_ethernet_header : Dpdk → Mbuf → (src_addr dst_addr : EtherAddr) → Option Mbuf
setup_ethernet_header l m src dst = do
  let hdr : EtherHdr = record {
    dst_addr = dst;
    src_addr = src;
    ether_type = l.cpu_to_be_16 ether_type_ipv4;
  }
  (at, m') ← push l l.ether_size (ether hdr) m
  some m'

unfoldable pub setup_ip_header :
    Dpdk → Mbuf → (src_ip dst_ip data_size : ℕ) → Option (ℕ × Ipv4Hdr × Mbuf)
setup_ip_header l m src dst size = do
  (at, m') ← push l l.ipv4_size (ipv4 (ipv4_hdr l src dst size)) m
  some (at, ipv4_hdr l src dst size, m')

unfoldable pub setup_udp_header :
    Dpdk → Mbuf → (src_port dst_port data_size : ℕ) → Option (ℕ × UdpHdr × Mbuf)
setup_udp_header l m src dst size = do
  (at, m') ← push l l.udp_size (udp (udp_hdr l src dst size)) m
  some (at, udp_hdr l src dst size, m')

unfoldable pub setup_data_payload : Dpdk → Mbuf → (msg : List ℕ) (data_size : ℕ) → Mbuf
setup_data_payload l m msg size = write_payload msg (l.append m size)

unfoldable pub setup_offload_field : Dpdk → (so_launchtime : Bool) → Mbuf → Mbuf
setup_offload_field l launchtime m = record m {
  ol_flags = if launchtime then bit_or l.tx_tmst (2 ^ l.tx_timestamp_bit) else l.tx_tmst;
}

-- The addresses and ports that the file defines.
pub record Endpoints : Type 0 where
  pub src_eth : EtherAddr
  pub dst_eth : EtherAddr
  pub src_ip : ℕ
  pub dst_ip : ℕ
  pub src_port : ℕ
  pub dst_port : ℕ

unfoldable pub prepare_packet :
    Dpdk → Endpoints → (so_launchtime : Bool) → Mbuf → (msg : List ℕ) (data_size : ℕ) → Option Mbuf
prepare_packet l e launchtime m msg size = do
  m1 ← setup_ethernet_header l m e.src_eth e.dst_eth
  (at_ip, ip, m2) ← setup_ip_header l m1 e.src_ip e.dst_ip size
  (at_udp, u, m3) ← setup_udp_header l m2 e.src_port e.dst_port size
  let m4 = with_len l size (setup_data_payload l m3 msg size)
  some (setup_offload_field l launchtime (set_checksums l at_ip ip at_udp u m4))

-- What happens in a round of the loop: the clock, the counter before the first try to send, whether
-- the n-th try is taken, and the counter after it.
pub record Round : Type 0 where
  pub ts : ℕ
  pub start_send : ℕ
  pub accepted : ℕ → Bool
  pub timer : ℕ → ℕ

-- The loop that tries to send until a try is taken or the interval is over.
unfoldable pub send_until : Round → (interval fuel i : ℕ) → Option Bool
send_until r interval zero i = none
send_until r interval (suc n) i = elim (r.accepted i) [
  | true ↦ some true
  | false ↦ elim (ltb (sub64 (r.timer i) r.start_send) interval) [
    | false ↦ some false
    | true ↦ send_until r interval n (i + 1)
  ]
]

abbrev pub interval_of : (cycle timer_hz : ℕ) → ℕ
interval_of cycle hz = mul64 cycle hz / 1000000000

-- The clock is past the latest time to send a frame that is due at `next_cycle`.
abbrev pub misses : (next_cycle ts : ℕ) → Bool
misses next ts =
    if ltb ts (sub64 next delta_earliest) then false else ltb (sub64 next delta_latest) ts

-- The argument of `rte_sleep`, or 0 where it is not called.
abbrev pub sleep_time : (next_cycle ts : ℕ) → ℕ
sleep_time next ts =
    if ltb ts (sub64 next delta_earliest) then sub64 (sub64 next delta_earliest) ts else 0

-- What a round does with its frame: the others than the missed sleep, and try to send it.
pub data Outcome : Type 0 where
  missed : Outcome
  failed : (slept launch_time : ℕ) → Outcome
  sent : (slept launch_time : ℕ) → Outcome
