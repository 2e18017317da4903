-- ===== src/Tests/LaunchTests.antt =====
-- `main` of src/talker.c: the base time, and the cores.
use rtgen_dpdk_next.Base.{◌+◌, ◌*◌, ◌%◌, ◌<◌, ◌≤◌, ◌≡◌, true, some, List, [], ◌∷◌, arith}
use rtgen_dpdk_next.Flow.{one_second_in_ns}
use rtgen_dpdk_next.Launch.{base_time_of, CoreStart, enough, launch_queues, first_lcore}
use rtgen_dpdk_next.Launch.BaseTime.{base_time_of-later}
use rtgen_dpdk_next.Launch.Queues.{Started, launch_queues-Started}
use rtgen_dpdk_next.Sche.{ScheduleState}
use rtgen_dpdk_next.Tests.Data.{flows, table, table-Represents, flows-HasNet}
use rtgen_dpdk_next.Base.Int.{pos}

base_time_of-later_example :
    (base_time_of 0 0 1700000000123456789 % one_second_in_ns ≡ 0)
    × (1700000000123456789 + 4 * one_second_in_ns < base_time_of 0 0 1700000000123456789)
    × (base_time_of 0 0 1700000000123456789 ≤ 1700000000123456789 + 5 * one_second_in_ns)
base_time_of-later_example = base_time_of-later 0 1700000000123456789 (omega arith)

abbrev idle_queue : ScheduleState
idle_queue = record { order = []; cycle_period = 4; num_frames_per_cycle = 0; sending_time = [] }

abbrev busy_queue : ScheduleState
busy_queue = record {
  order = 2 ∷ [];
  cycle_period = 4;
  num_frames_per_cycle = 1;
  sending_time = 3 ∷ [];
}

launch_queues-Started_example :
    (cs : List CoreStart) × (launch_queues true
        (λ q. enough)
        (pos 0)
        100
        table
        (idle_queue ∷ busy_queue ∷ [])
        2
      ≡ some cs)
    × Started (pos 0) 100 flows (idle_queue ∷ busy_queue ∷ []) 0 first_lcore cs
launch_queues-Started_example =
    launch_queues-Started (pos 0) 100 table flows (idle_queue ∷ busy_queue ∷ []) table-Represents
      flows-HasNet (omega arith)
