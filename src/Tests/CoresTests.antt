-- ===== src/Tests/CoresTests.antt =====
-- Two cores of `tx_loop` of src/talker.c on one table.
use mathlib.Core.List.Perm
use rtgen_dpdk_next.Base.{ℕ, ◌+◌, ◌*◌, ◌%◌, ◌≡◌, refl, true, some, List, [], ◌∷◌, arith, u64_mod}
use rtgen_dpdk_next.Flow.{Flow, load_flow}
use rtgen_dpdk_next.Sche.{ScheduleState}
use rtgen_dpdk_next.Sche.Build.{IsSchedule}
use rtgen_dpdk_next.Sche.Occurrences.{occurrences}
use rtgen_dpdk_next.Statistic.{StatisticCore}
use rtgen_dpdk_next.Launch.{enough, core_statistics}
use rtgen_dpdk_next.TxLoop.{Round, Report}
use rtgen_dpdk_next.TxLoop.Start.{start-IsValid}
use rtgen_dpdk_next.Cores.{System, system_start, system_run}
use rtgen_dpdk_next.Cores.Table.{ids_of}
use rtgen_dpdk_next.Cores.Alone.{Alike}
use rtgen_dpdk_next.Cores.Launches.{
  launch_times_of, instants, system_run-instants, system_run-alone,
}
use rtgen_dpdk_next.Tests.Data.{third, flows, table, table-Represents, flows-HasNet}

abbrev schedule_0 : ScheduleState
schedule_0 = record {
  order = 0 ∷ 1 ∷ 0 ∷ [];
  cycle_period = 4;
  num_frames_per_cycle = 3;
  sending_time = 0 ∷ 1 ∷ 2 ∷ [];
}

abbrev schedule_1 : ScheduleState
schedule_1 = record {
  order = 2 ∷ [];
  cycle_period = 4;
  num_frames_per_cycle = 1;
  sending_time = 3 ∷ [];
}

abbrev schedules : List ScheduleState
schedules = schedule_0 ∷ schedule_1 ∷ []

schedule_0-IsSchedule : IsSchedule schedule_0 0 4 flows
schedule_0-IsSchedule = record {
  frames = (0, 0) ∷ (1, 1) ∷ (2, 0) ∷ [];
  sending_time = refl;
  order = refl;
  ascending = ((omega arith, (omega arith, tt)), ((omega arith, tt), (tt, tt)));
  complete = Perm.cons (0, 0) (Perm.swap (2, 0) (1, 1) []);
  count = refl;
  cycle_period = refl;
}

schedule_1-IsSchedule : IsSchedule schedule_1 1 4 flows
schedule_1-IsSchedule = record {
  frames = (3, 2) ∷ [];
  sending_time = refl;
  order = refl;
  ascending = (tt, tt);
  complete = Perm.rfl;
  count = refl;
  cycle_period = refl;
}

abbrev round : Round
round = record { clock = 90; clock_before_tx = 95; accepted = true; hwtimestamp = some 103 }

fresh_at : (c : ℕ) → (st : StatisticCore) × (core_statistics enough table c ≡ some st)
fresh_at c =
    let (st, e, v, p) =
      start-IsValid table flows c 50 0 table-Represents flows-HasNet (omega arith) in
    (st, e)

abbrev stats_of : ℕ → StatisticCore
stats_of c = (fresh_at c).0

-- The outer tests of both cores, then rounds of theirs in turn, the test again and another round.
abbrev picks : List (ℕ × Round)
picks =
    (0, round)
    ∷ (1, round)
    ∷ (1, round)
    ∷ (0, round)
    ∷ (0, round)
    ∷ (1, round)
    ∷ (0, round)
    ∷ (1, round)
    ∷ []

abbrev begun : System
begun = system_start schedules table stats_of (λ c. 50)

system_run-alone_example : Alike true schedules 100 1 1 begun begun picks
system_run-alone_example =
    system_run-alone true schedules 100 1 4 table flows stats_of (λ c. 50) table-Represents
      (schedule_0-IsSchedule, (schedule_1-IsSchedule, tt)) flows-HasNet
      (omega arith, (omega arith, tt)) (λ c lt. (fresh_at c).1) picks 1
      (
        omega arith,
        (
          omega arith,
          (
            omega arith,
            (omega arith, (omega arith, (omega arith, (omega arith, (omega arith, tt))))),
          ),
        ),
      )
      (omega arith) (omega arith)

-- The flow of the second core.
system_run-instants_example :
    (trace : List (ℕ × Report)) × (sys' : System) × (f' : Flow) × (system_run true schedules 100 1
        picks begun
      ≡ some (trace, sys'))
    × (launch_times_of 2 trace ≡ instants 100 4 (occurrences 2 (ids_of trace)))
    × (load_flow sys'.table 2 ≡ some f')
    × (f'.sche_time ≡ (100 + occurrences 2 (ids_of trace) * 4) % u64_mod)
system_run-instants_example =
    system_run-instants true schedules 100 1 4 table flows stats_of (λ c. 50) table-Represents
      (schedule_0-IsSchedule, (schedule_1-IsSchedule, tt)) flows-HasNet
      (omega arith, (omega arith, tt)) (λ c lt. (fresh_at c).1) picks 2 100 third
      (
        omega arith,
        (
          omega arith,
          (
            omega arith,
            (omega arith, (omega arith, (omega arith, (omega arith, (omega arith, tt))))),
          ),
        ),
      )
      (omega arith) refl refl
