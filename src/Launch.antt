-- ===== src/Launch.antt =====
-- `main` of src/talker.c: the base time, from which the flow timers start, and the cores that it starts.
pub mod BaseTime
pub mod Queues
use rtgen_dpdk_next.Base.{
  ◌>>=◌, ℕ, zero, suc, ◌+◌, ◌/◌, Bool, true, false, ◌&&◌, ltb, Option, none, some, List, [], ◌∷◌,
  ◌==◌, if◌then◌else◌, add64, mul64, get_elem?,
}
use rtgen_dpdk_next.Base.Int.{ℤ, pos}
use rtgen_dpdk_next.Flow.{FlowState, one_second_in_ns, for_flows}
use rtgen_dpdk_next.Ports.{num_tx_queue}
use rtgen_dpdk_next.Sche.{ScheduleState}
use rtgen_dpdk_next.Statistic.{StatisticCore, init_statistics, update_at}

-- `pit_offset` and `pit_ns_offset` are the seconds and nanoseconds asked for, as uint64_t.
unfoldable pub base_time_of : (pit_offset pit_ns_offset current_time : ℕ) → ℕ
base_time_of offset ns now =
    if offset == 0
    then mul64 (add64 (now / one_second_in_ns) 5) one_second_in_ns
    else add64 (mul64 offset one_second_in_ns) ns

-- What a core is started with: its number, and its port, its queue, the base time and the statistics of
-- `struct tx_loop_args`. The table of flows, the schedule of the queue and the packets are shared.
pub record CoreStart : Type 0 where
  pub lcore : ℕ
  pub port_id : ℤ
  pub queue_id : ℕ
  pub base_time : ℕ
  pub stats : StatisticCore

-- Which of the mallocs for a core succeed: the statistics, their array and the arguments of `tx_loop`.
pub record CoreMem : Type 0 where
  pub stats : Bool
  pub st : Bool
  pub args : Bool

abbrev pub enough : CoreMem
enough = record { stats = true; st = true; args = true }

-- The loop that writes the queue of each flow into the statistics.
unfoldable pub name_queues : FlowState → StatisticCore → Option StatisticCore
name_queues state stats =
    for_flows state
      (λ i f st. do net ← f.net; update_at st i (λ x. some (record x { queue_id = net.queue })))
      stats

-- The statistics of a core. The NULL of `init_statistics` is a fault: it is read through for each flow.
unfoldable pub core_statistics : CoreMem → FlowState → (queue_id : ℕ) → Option StatisticCore
core_statistics mem state q = do
  stats ← init_statistics mem.stats mem.st state.num_flows (pos q) (pos q)
  name_queues state stats

-- The writes to `stats_list[queue_id]` and through `tx_args`; `stats_list`, of `num_tx_queue`
-- entries, says whether the malloc of that list succeeded.
unfoldable pub core_args :
    (stats_list : Bool)
    → CoreMem
    → (port_id : ℤ) (base_time queue_id lcore : ℕ) → StatisticCore
    → Option CoreStart
core_args stats_list mem port base q lcore stats =
    if stats_list && ltb q num_tx_queue && mem.args
    then some
        (record { lcore = lcore; port_id = port; queue_id = q; base_time = base; stats = stats })
    else none

-- The rounds left of the loop over the queues, from `queue_id` and the next core on: a queue with no frames
-- gets no core.
unfoldable pub launch_from :
    (stats_list : Bool)
    → (ℕ → CoreMem)
    → (port_id : ℤ) (base_time : ℕ) → FlowState
    → (schedule : List ScheduleState) → (rounds queue_id lcore : ℕ) → Option (List CoreStart)
launch_from stats_list mem port base state schedule zero q lcore = some []
launch_from stats_list mem port base state schedule (suc n) q lcore = do
  s ← get_elem? schedule q
  elim (s.num_frames_per_cycle == 0) [
    | true ↦ launch_from stats_list mem port base state schedule n (q + 1) lcore
    | false ↦ do
      stats ← core_statistics (mem q) state q
      c ← core_args stats_list (mem q) port base q lcore stats
      rest ← launch_from stats_list mem port base state schedule n (q + 1) (lcore + 1)
      some (c ∷ rest)
  ]

abbrev pub first_lcore : ℕ
first_lcore = 9

unfoldable pub launch_queues :
    (stats_list : Bool)
    → (ℕ → CoreMem)
    → (port_id : ℤ) (base_time : ℕ) → FlowState
    → (schedule : List ScheduleState) (tx_queue_nums : ℕ) → Option (List CoreStart)
launch_queues stats_list mem port base state schedule n =
    launch_from stats_list mem port base state schedule n 0 first_lcore
