-- ===== src/Ports.antt =====
-- The ports and queues: `dev_state_list` of src/engine_dpdk.h and src/engine_dpdk.c, what `setup_EAL`
-- writes into it, and the loops of `main` of src/talker.c that configure and start the ports. The
-- calls into DPDK are recorded in order. An int flag is a Boolean. A fault is `none`.
pub mod Marks
pub mod Once
pub mod SetUp
pub mod Order
pub mod Configuring
pub mod Starting
pub mod Whole
use rtgen_dpdk_next.Base.{
  ℕ, zero, suc, ◌+◌, Bool, true, false, not, ◌&&◌, Option, none, some, List, [], ◌∷◌, ◌++◌,
  get_elem?, set, replicate, if◌then◌else◌, ◌>>=◌,
}
use rtgen_dpdk_next.Base.Int.{ℤ, pos, negsuc}
use rtgen_dpdk_next.Flow.{FlowState, InterfaceConfig, for_flows}

pub record QueueState : Type 0 where
  pub is_existed : Bool
  pub is_configured : Bool
  pub is_running : Bool

pub record DevState : Type 0 where
  pub is_existed : Bool
  pub is_configured : Bool
  pub is_synced : Bool
  pub is_running : Bool
  pub txq_state : List QueueState
  pub rxq_state : List QueueState

abbrev pub max_available_ports : ℕ
max_available_ports = 4

abbrev pub num_tx_queue : ℕ
num_tx_queue = 2

abbrev pub num_rx_queue : ℕ
num_rx_queue = 1

abbrev pub fresh_queue : QueueState
fresh_queue = record { is_existed = false; is_configured = false; is_running = false }

-- The globals start as zeros.
abbrev pub fresh_dev : DevState
fresh_dev = record {
  is_existed = false;
  is_configured = false;
  is_synced = false;
  is_running = false;
  txq_state = replicate num_tx_queue fresh_queue;
  rxq_state = replicate num_rx_queue fresh_queue;
}

abbrev pub dev_state_list : List DevState
dev_state_list = replicate max_available_ports fresh_dev

-- What DPDK reports of a device.
pub record Device : Type 0 where
  pub port_id : ℕ
  pub max_tx_queues : ℕ
  pub max_rx_queues : ℕ

-- The rounds left of a loop that marks queues as existing, from index `i`.
unfoldable pub mark_queues : (rounds i : ℕ) → List QueueState → Option (List QueueState)
mark_queues zero i qs = some qs
mark_queues (suc n) i qs = do
  x ← get_elem? qs i
  mark_queues n (i + 1) (set qs i (record x { is_existed = true }))

-- One round of the loop over the devices.
unfoldable pub setup_device : Device → List DevState → Option (List DevState)
setup_device d devs = do
  dev ← get_elem? devs d.port_id
  tx ← mark_queues d.max_tx_queues 0 dev.txq_state
  rx ← mark_queues d.max_rx_queues 0 dev.rxq_state
  some (set devs d.port_id (record dev { is_existed = true; txq_state = tx; rxq_state = rx }))

unfoldable pub setup_eal : List Device → List DevState → Option (List DevState)
setup_eal [] devs = some devs
setup_eal (d ∷ ds) devs = do devs' ← setup_device d devs; setup_eal ds devs'

-- The calls into the engine.
pub data SetupCall : Type 0 where
  configure_port : (port : ℕ) → SetupCall
  configure_rx_queue : (port queue num_desc : ℕ) → SetupCall
  configure_tx_queue : (port queue num_desc : ℕ) → SetupCall
  start_port : (port : ℕ) → SetupCall
  check_offload_capabilities : (port : ℕ) → SetupCall
  enable_synchronization : (port : ℕ) → SetupCall

-- The variables of `main`.
pub record Setup : Type 0 where
  pub devs : List DevState
  pub calls : List SetupCall
  pub tx_queue_nums : ℕ
  pub rx_queue_nums : ℕ

abbrev pub index_of : ℤ → Option ℕ
index_of (pos n) = some n
index_of (negsuc n) = none

-- What is done to a port that is not configured yet, and to a transmit queue.
abbrev pub set_up_port : (port_id : ℕ) → DevState → Setup → Setup
set_up_port p dev s = record s {
  devs = set s.devs p (record dev { is_configured = true });
  calls = s.calls ++ (configure_port p ∷ configure_rx_queue p 0 256 ∷ []);
  rx_queue_nums = s.rx_queue_nums + 1;
}

abbrev pub set_up_queue : (port_id queue_id : ℕ) → DevState → QueueState → Setup → Setup
set_up_queue p q dev queue s = record s {
  devs =
      set s.devs p
        (record dev { txq_state = set dev.txq_state q (record queue { is_configured = true }) });
  calls = s.calls ++ (configure_tx_queue p q 32 ∷ []);
  tx_queue_nums = s.tx_queue_nums + 1;
}

abbrev pub todo_port : DevState → Bool
todo_port dev = dev.is_existed && not dev.is_configured

abbrev pub todo_queue : QueueState → Bool
todo_queue queue = queue.is_existed && not queue.is_configured

-- The port of a flow, and its transmit queue.
unfoldable pub ensure_port : (port_id : ℕ) → Setup → Option Setup
ensure_port p s = do
  dev ← get_elem? s.devs p
  some (if todo_port dev then set_up_port p dev s else s)

unfoldable pub ensure_queue : (port_id queue_id : ℕ) → Setup → Option Setup
ensure_queue p q s = do
  dev ← get_elem? s.devs p
  queue ← get_elem? dev.txq_state q
  some (if todo_queue queue then set_up_queue p q dev queue s else s)

-- One round of the loop over the flows.
unfoldable pub configure_flow : InterfaceConfig → Setup → Option Setup
configure_flow net s = do
  p ← index_of net.port
  q ← index_of net.queue
  s1 ← ensure_port p s
  ensure_queue p q s1

unfoldable pub configure_flows : FlowState → Setup → Option Setup
configure_flows state s = for_flows state (λ i f s. do net ← f.net; configure_flow net s) s

-- The rounds left of the loop that starts the configured ports, from `port_id` on.
unfoldable pub start_ports : (rounds port_id : ℕ) → Setup → Option Setup
start_ports zero p s = some s
start_ports (suc n) p s = do
  dev ← get_elem? s.devs p
  start_ports n (p + 1) (
      if dev.is_configured && not dev.is_running
      then record s {
        devs = set s.devs p (record dev { is_running = true });
        calls = s.calls ++ (start_port p ∷ []);
      }
      else s)

-- The calls of `check_offload_capabilities`, for the configured ports.
unfoldable pub check_ports : (rounds port_id : ℕ) → Setup → Option Setup
check_ports zero p s = some s
check_ports (suc n) p s = do
  dev ← get_elem? s.devs p
  check_ports n (p + 1) (
      if dev.is_configured
      then record s { calls = s.calls ++ (check_offload_capabilities p ∷ []) }
      else s)

-- The rounds left of the loop that enables the synchronization of the configured ports.
unfoldable pub sync_ports : (rounds port_id : ℕ) → Setup → Option Setup
sync_ports zero p s = some s
sync_ports (suc n) p s = do
  dev ← get_elem? s.devs p
  sync_ports n (p + 1) (
      if dev.is_configured && not dev.is_synced
      then record s {
        devs = set s.devs p (record dev { is_synced = true });
        calls = s.calls ++ (enable_synchronization p ∷ []);
      }
      else s)
