-- ===== src/Talker.antt =====
-- `main` of src/talker.c from the table of flows on: the schedules, the timers, the packets and the cores.
-- The ports are set up by then (Ports), and the base time is read (Launch).
pub mod Run
use rtgen_dpdk_next.Base.{◌>>=◌, ℕ, Bool, true, Option, none, some, List, []}
use rtgen_dpdk_next.Flow.{FlowState, init_flowset_timer}
use rtgen_dpdk_next.Sche.{ScheduleState, Malloc, create_schedule_state}
use rtgen_dpdk_next.Packet.{Mbuf, Dpdk}
use rtgen_dpdk_next.Sending.{Supply, prepare_pkts}
use rtgen_dpdk_next.Launch.{CoreStart, CoreMem, enough, launch_queues}
use rtgen_dpdk_next.Base.Int.{ℤ}

-- What the cores share, and how each is started.
pub record Launched : Type 0 where
  pub state : FlowState
  pub schedules : List ScheduleState
  pub pkts : List Mbuf
  pub cores : List CoreStart

-- Which of the other mallocs succeed: the array of schedules, the array of periods, `stats_list`, and
-- those for the core of a queue.
pub record Mem : Type 0 where
  pub schedules : Bool
  pub periods : Bool
  pub stats_list : Bool
  pub core : ℕ → CoreMem

abbrev pub plenty : Mem
plenty = record { schedules = true; periods = true; stats_list = true; core = λ q. enough }

-- The array of schedules behind a pointer that may be NULL, with no entry then.
abbrev pub entries : Option (List ScheduleState) → List ScheduleState
entries none = []
entries (some l) = l

unfoldable pub run_table :
    Malloc
    → Dpdk
    → Supply
    → Mem
    → (pit_port : ℤ) (pit_hw pit_etf : Bool) (base_time tx_queue_nums : ℕ) → FlowState
    → Option Launched
run_table malloc l sup mem port hw etf base n state = do
  schedule ← create_schedule_state malloc mem.schedules mem.periods state n
  state1 ← init_flowset_timer state base
  (pkts, state2) ← prepare_pkts l sup hw etf state1
  cores ← launch_queues mem.stats_list mem.core port base state2 (entries schedule) n
  some (record { state = state2; schedules = entries schedule; pkts = pkts; cores = cores })
