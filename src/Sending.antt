-- ===== src/Sending.antt =====
-- The packets of the flows and their sending: `prepare_pkts` of src/talker.c and `sche_single` of
-- src/engine_dpdk.c. What the pool of buffers, snprintf, rte_eth_tx_burst and the cycle counter give is an
-- argument. A fault is `none`.
pub mod Table
pub mod Burst
use Prim.Native.String.{String}
use rtgen_dpdk_next.Base.{
  ◌>>=◌, ℕ, zero, suc, ◌+◌, Bool, true, false, ◌&&◌, ◌||◌, Option, none, some, List, [], ◌∷◌, ltb,
  ◌==◌, if◌then◌else◌, sub64, set,
}
use rtgen_dpdk_next.Base.Int.{ℤ, pos, ltb_ℤ}
use rtgen_dpdk_next.Flow.{InterfaceConfig, FlowState, fudge_factor, load_flow}
use rtgen_dpdk_next.Packet.{
  Mbuf, Dpdk, to_size, prepare_packet_header, prepare_packet_payload, prepare_packet_offload,
}

-- What the loop of `prepare_pkts` has for each flow: the buffer from the pool, if there is one, whether
-- `mac_src` is the literal, the address of the port, the memory for the message, and what snprintf leaves
-- of the flow's number in a buffer of the message's size. `pkts` says whether the malloc of the array succeeded.
pub record Supply : Type 0 where
  pub pkts : Bool
  pub has_mbuf : ℕ → Bool
  pub has_msg : ℕ → Bool
  pub mbuf : ℕ → Mbuf
  pub is_default : ℕ → Bool
  pub dev_mac : ℕ → String
  pub text : (i size : ℕ) → List ℕ

-- Memory that is written: a NULL is a fault.
abbrev pub need : Bool → Option Bool
need b = if b then some true else none

-- The rounds left of the loop of `prepare_pkts`, from flow `i` on.
unfoldable pub prepare_pkts_from :
    Dpdk
    → Supply
    → (pit_hw pit_etf : Bool) → FlowState
    → (rounds i : ℕ) → Option (List Mbuf × FlowState)
prepare_pkts_from l sup hw etf state zero i = some ([], state)
prepare_pkts_from l sup hw etf state (suc n) i = do
  f ← load_flow state i
  net ← f.net
  given ← need (sup.pkts && sup.has_mbuf i && (sup.has_msg i || (to_size f.size == 0)))
  (m1, net') ← prepare_packet_header l (sup.is_default i) (sup.dev_mac i) (sup.mbuf i) f.size net
  let m2 : Mbuf = prepare_packet_payload l m1 (sup.text i (to_size f.size)) (to_size f.size)
  let m3 : Mbuf = prepare_packet_offload l m2 hw etf
  let state' : FlowState = record state {
    flows = set state.flows i (some (record f { net = some net' }));
  }
  (ms, state'') ← prepare_pkts_from l sup hw etf state' n (i + 1)
  some (m3 ∷ ms, state'')

unfoldable pub prepare_pkts :
    Dpdk → Supply → (pit_hw pit_etf : Bool) → FlowState → Option (List Mbuf × FlowState)
prepare_pkts l sup hw etf state = prepare_pkts_from l sup hw etf state state.num_flows 0

-- The loop of `sche_single`: `sends` is what `rte_eth_tx_burst` returns in each round, `clock` what the
-- cycle counter reads after it; at most `fuel` rounds.
unfoldable pub tx_retry : (sends clock : ℕ → ℕ) (start_send fuel i : ℕ) → Option ℕ
tx_retry sends clock start zero i = none
tx_retry sends clock start (suc n) i =
    elim (sends i == 0 && ltb (sub64 (clock i) start) fudge_factor) [
      | false ↦ some (sends i)
      | true ↦ tx_retry sends clock start n (i + 1)
    ]

-- `none` is a fault, or a loop longer than `fuel`.
unfoldable pub sche_single :
    Dpdk
    → (is_default : Bool) (dev_mac : String) → Mbuf
    → InterfaceConfig
    → (txtime : ℕ) (msg : List ℕ) (msg_size : ℤ) (sends clock : ℕ → ℕ) (start_send fuel : ℕ)
    → Option (ℕ × Mbuf × InterfaceConfig)
sche_single l is_default dev_mac m net txtime msg msg_size sends clock start fuel = do
  (m1, net') ←
      if m.pkt_len == 0
      then prepare_packet_header l is_default dev_mac m msg_size net
      else some (m, net)
  let m2 : Mbuf =
      if ltb_ℤ (pos 0) msg_size then prepare_packet_payload l m1 msg (to_size msg_size) else m1
  sent ← tx_retry sends clock start fuel 0
  some (sent, record m2 { txtime = txtime }, net')
