-- ===== src/Ports/SetUp.antt =====
-- The set-up of the ports in `main` of src/talker.c, from the table of flows to the synchronized ports.
use rtgen_dpdk_next.Base.{
  ℕ, ◌+◌, ◌-◌, true, Option, none, some, [], ◌∷◌, ◌++◌, get_elem?, set, ◌==◌, ◌>>=◌, if◌then◌else◌,
}
use rtgen_dpdk_next.Flow.{FlowState, load_flow}
use rtgen_dpdk_next.Ports.{
  Setup, DevState, QueueState, num_tx_queue, max_available_ports, index_of, configure_flows,
  start_ports, check_ports, sync_ports, configure_tx_queue,
}

abbrev pub num_tx_sync_desc : ℕ
num_tx_sync_desc = 256

abbrev pub sync_tx_queue_id : ℕ
sync_tx_queue_id = num_tx_queue - 1

-- The port of the last flow, to which the loop over the flows leaves `port_id` and `dev_state`: a
-- fault if there is no flow, where neither is initialised.
abbrev pub last_port : FlowState → Option ℕ
last_port state =
    if state.num_flows == 0
    then none
    else load_flow state (state.num_flows - 1) >>= λ f. f.net >>= λ net. index_of net.port

abbrev pub set_up_sync : (port_id : ℕ) → DevState → QueueState → Setup → Setup
set_up_sync p dev queue s =
    let queue' : QueueState = record queue { is_existed = true; is_configured = true } in
    record s {
      devs = set s.devs p (record dev { txq_state = set dev.txq_state sync_tx_queue_id queue' });
      calls = s.calls ++ (configure_tx_queue p sync_tx_queue_id num_tx_sync_desc ∷ []);
      tx_queue_nums = s.tx_queue_nums + 1;
    }

-- The queue for the PTP client, on the port of the last flow.
unfoldable pub configure_sync_queue : (port_id : ℕ) → Setup → Option Setup
configure_sync_queue p s = do
  dev ← get_elem? s.devs p
  queue ← get_elem? dev.txq_state sync_tx_queue_id
  some (if queue.is_configured then s else set_up_sync p dev queue s)

-- From the table of flows to the synchronized ports. A wrong number of queues is only printed.
unfoldable pub set_up : FlowState → Setup → Option Setup
set_up state s = do
  s1 ← configure_flows state s
  p ← last_port state
  s2 ← configure_sync_queue p s1
  s3 ← start_ports max_available_ports 0 s2
  s4 ← check_ports max_available_ports 0 s3
  sync_ports max_available_ports 0 s4
