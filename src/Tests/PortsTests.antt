-- ===== src/Tests/PortsTests.antt =====
-- `setup_EAL` of src/engine_dpdk.c and the loops of `main` of src/talker.c.
use rtgen_dpdk_next.Base.{
  ℕ, zero, suc, ◌==◌, Bool, false, arith, replicate, get_elem?, subst, ◌<◌, ◌≡◌, ◌↔◌, ◌⊎◌, ◌++◌,
  refl, some, none, true, [], ◌∷◌, length, ◌>>=◌,
}
use rtgen_dpdk_next.Base.Int.{pos}
use rtgen_dpdk_next.Ports.Order.{DevIs, InOrder, unborn, accepts}
use rtgen_dpdk_next.Ports.Configuring.{UsesPort}
use rtgen_dpdk_next.Ports.{
  num_tx_queue, Device, DevState, Setup, configure_port, configure_rx_queue, configure_tx_queue,
  start_port, dev_state_list, fresh_dev, fresh_queue, setup_device, configure_flow, configure_flows,
  start_ports, ensure_port, ensure_queue,
}
use rtgen_dpdk_next.Flow.{Flow, FlowState, for_flows_from}
use rtgen_dpdk_next.Ports.Marks.{setup_device-faults}
use rtgen_dpdk_next.Ports.Once.{port_calls, queue_calls, configure_flow-once}
use rtgen_dpdk_next.Tests.Data.{net_of, first, second, third}

abbrev nic : Device
nic = record { port_id = 0; max_tx_queues = 4; max_rx_queues = 1 }

setup_device-faults_example :
    (setup_device nic dev_state_list ≡ none)
    ↔ ((length fresh_dev.txq_state < 4) ⊎ (length fresh_dev.rxq_state < 1))
setup_device-faults_example = setup_device-faults nic dev_state_list fresh_dev refl

abbrev found : DevState
found = record fresh_dev {
  is_existed = true;
  txq_state =
      record fresh_queue { is_existed = true } ∷ record fresh_queue { is_existed = true } ∷ [];
}

abbrev setup : Setup
setup = record {
  devs = found ∷ fresh_dev ∷ fresh_dev ∷ fresh_dev ∷ [];
  calls = [];
  tx_queue_nums = 0;
  rx_queue_nums = 0;
}

configure_flow-once_example :
    (s' : Setup) × (configure_flow (net_of 1) setup ≡ some s')
    × (s'.calls ≡ (setup.calls ++ port_calls false 0) ++ queue_calls false 0 1)
    × (configure_flow (record (net_of 1) { priority = pos 3 }) s' ≡ some s')
configure_flow-once_example =
    configure_flow-once (net_of 1) (record (net_of 1) { priority = pos 3 }) setup 0 1 refl refl refl
      refl
      (record {
        dev = found;
        queue = record fresh_queue { is_existed = true };
        dev_at = refl;
        queue_at = refl;
      })
      refl refl

abbrev three : FlowState
three = record { flows = some first ∷ some second ∷ some third ∷ []; num_flows = 3 }

-- Two flows of queue 0 and one of queue 1.
calls_run :
    (configure_flows three setup >>= λ s. start_ports 4 0 s >>= λ s. some (s.calls))
    ≡ some (
        configure_port 0
        ∷ configure_rx_queue 0 0 256
        ∷ configure_tx_queue 0 0 32
        ∷ configure_tx_queue 0 1 32
        ∷ start_port 0
        ∷ [])
unfolding configure_flows configure_flow ensure_port ensure_queue start_ports for_flows_from
calls_run = refl

abbrev only_first : ℕ → Bool
only_first p = p == 0

replicate_at {ℓ} :
    {A : Type ℓ} (n : ℕ) (a : A) (i : ℕ) (x : A) → get_elem? (replicate n a) i ≡ some x → a ≡ x
replicate_at zero a i x e = absurd (cc)
replicate_at (suc n) a zero x e = cc
replicate_at (suc n) a (suc i) x e = replicate_at n a i x e

found-InOrder : InOrder only_first setup unborn
unfolding accepts
found-InOrder = record { accepted = refl; ports = refl; dev = each }
  where
    each :
        (p : ℕ) (d : DevState) → get_elem? setup.devs p ≡ some d → DevIs (only_first p) (unborn p) d
    each zero d e =
        let same : found ≡ d = cc in
        subst (DevIs true (unborn 0)) same
          (record { existed = refl; queues = refl; configured = refl; started = refl })
    each (suc p) d e =
        let same : fresh_dev ≡ d = replicate_at 3 fresh_dev p d e in
        subst (DevIs (only_first (suc p)) (unborn (suc p))) same
          (record { existed = ground arith; queues = refl; configured = refl; started = refl })

use_of : (q : ℕ) (f : Flow) → f.net ≡ some (net_of q) → q < num_tx_queue → UsesPort only_first f
use_of q f e lt = record {
  net = net_of q;
  port = 0;
  queue = q;
  has_net = e;
  port_is = refl;
  queue_is = refl;
  port_lt = omega arith;
  queue_lt = lt;
  here = refl;
}
