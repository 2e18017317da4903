-- ===== src/Tests/TxLoopTests.antt =====
-- `tx_loop` of src/talker.c.
use mathlib.Core.List.Perm
use native.Mathlib.Nat.{dvd-mul_right, dvd_refl}
use rtgen_dpdk_next.Base.{
  ℕ, ◌+◌, ◌-◌, ◌*◌, ◌≡◌, refl, true, some, List, [], ◌∷◌, arith, get_elem?, set,
}
use rtgen_dpdk_next.Flow.{Flow, FlowState, init_flowset_timer, one_second_in_ns}
use rtgen_dpdk_next.Flow.Table.{
  Represents, add_flows, add_flows-Represents, fresh_table, fresh_table-Represents,
}
use rtgen_dpdk_next.Sche.{ScheduleState}
use rtgen_dpdk_next.Sche.Build.{IsSchedule}
use rtgen_dpdk_next.Launch.{enough, core_statistics}
use rtgen_dpdk_next.Statistic.{StatisticCore}
use rtgen_dpdk_next.TxLoop.{TxState, Round, Report, start, tx_frame, tx_cycle}
use rtgen_dpdk_next.TxLoop.Total.{IsValid, PointerIsSafe}
use rtgen_dpdk_next.TxLoop.Due.{AsDue, tx_frame-AsDue}
use rtgen_dpdk_next.TxLoop.Cycle.{IsAdvanced, reports_of, tx_cycle-advances}
use rtgen_dpdk_next.TxLoop.Start.{start-IsValid}
use rtgen_dpdk_next.TxLoop.Runs.{Ended}
use rtgen_dpdk_next.TxLoop.Ends.{tx_loop-ends}
use rtgen_dpdk_next.Tests.Data.{
  first, second, third, net_of, flows, table, table-Represents, flows-HasNet,
}

-- The frames of queue 0 in the order of time.
abbrev schedule : ScheduleState
schedule = record {
  order = 0 ∷ 1 ∷ 0 ∷ [];
  cycle_period = 4;
  num_frames_per_cycle = 3;
  sending_time = 0 ∷ 1 ∷ 2 ∷ [];
}

schedule-IsSchedule : IsSchedule schedule 0 4 flows
schedule-IsSchedule = record {
  frames = (0, 0) ∷ (1, 1) ∷ (2, 0) ∷ [];
  sending_time = refl;
  order = refl;
  ascending = ((omega arith, (omega arith, tt)), ((omega arith, tt), (tt, tt)));
  complete = Perm.cons (0, 0) (Perm.swap (2, 0) (1, 1) []);
  count = refl;
  cycle_period = refl;
}

abbrev round : Round
round = record { clock = 90; clock_before_tx = 95; accepted = true; hwtimestamp = some 103 }

started :
    (st : StatisticCore) × (core_statistics enough table 0 ≡ some st)
    × IsValid (start table st 50) flows 100
    × PointerIsSafe (start table st 50) 3
started = start-IsValid table flows 0 50 100 table-Represents flows-HasNet (omega arith)

abbrev begun : TxState
begun = start table started.0 50

begun-IsValid : IsValid begun flows 100
begun-IsValid = let (st, e, v, p) = started in v

begun-PointerIsSafe : PointerIsSafe begun 3
begun-PointerIsSafe = let (st, e, v, p) = started in p

tx_frame-AsDue_example :
    (rep : Report) × (s' : TxState) × (tx_frame true schedule 0 round begun ≡ some (rep, s'))
    × IsValid s' (set flows 0 (record first { sche_time = 102 })) 98
    × (s'.flow ≡ some 0)
    × (rep.flow_id ≡ 0)
    × (rep.launch_time ≡ 102)
    × AsDue (102 - 1) 90 true rep.action
tx_frame-AsDue_example =
    tx_frame-AsDue true schedule 0 0 0 98 round begun flows first 102 begun-IsValid
      begun-PointerIsSafe refl (omega arith) refl (omega arith) refl refl (omega arith)
      (omega arith)

tx_cycle-advances_example :
    (s' : TxState) × (fs' : List Flow) × (f' : Flow) × (tx_cycle true schedule (λ it. round) begun
      ≡ some (reports_of 0 schedule.order flows (λ it. round), s'))
    × IsValid s' fs' 94
    × PointerIsSafe s' 3
    × (get_elem? fs' 0 ≡ some f')
    × IsAdvanced 0 4 first f' 100
tx_cycle-advances_example =
    tx_cycle-advances true schedule 0 4 94 (λ it. round) begun flows 0 100 first schedule-IsSchedule
      (omega arith) begun-IsValid begun-PointerIsSafe refl (dvd-mul_right 2 2) refl

-- The same flows with timers that start at 100.
abbrev timed : List Flow
timed = first ∷ record second { sche_time = 101 } ∷ record third { sche_time = 103 } ∷ []

timed_table-Represents : Represents (add_flows fresh_table timed) timed
timed_table-Represents = add_flows-Represents fresh_table [] timed fresh_table-Represents

timed_beginning :
    (st : StatisticCore) × (core_statistics enough (add_flows fresh_table timed) 0 ≡ some st)
    × IsValid (start (add_flows fresh_table timed) st 50) timed 100
    × PointerIsSafe (start (add_flows fresh_table timed) st 50) 3
timed_beginning =
    start-IsValid (add_flows fresh_table timed) timed 0 50 100 timed_table-Represents
      ((net_of 0, refl), ((net_of 0, refl), ((net_of 1, refl), tt))) (omega arith)

abbrev timed_state : TxState
timed_state = start (add_flows fresh_table timed) timed_beginning.0 50

-- The clock is past the runtime of 1 s, from 100 on, in the third cycle.
abbrev cycles_of : ℕ → ℕ → Round
cycles_of n it = record {
  clock = 90 + n * one_second_in_ns;
  clock_before_tx = 95 + n * one_second_in_ns;
  accepted = true;
  hwtimestamp = some 103;
}

tx_loop-ends_example :
    (table' : FlowState) × (stats : StatisticCore) × (init_flowset_timer table 100 ≡ some table')
    × (core_statistics enough table' 0 ≡ some stats)
    × Ended true schedule 100 1 cycles_of 0 4 100 10 0 (2 + 1) (start table' stats 50)
tx_loop-ends_example =
    tx_loop-ends true schedule 100 1 cycles_of 0 4 2 10 50 table flows table-Represents flows-HasNet
      schedule-IsSchedule (dvd-mul_right 2 2, (dvd_refl 4, (dvd_refl 4, tt))) (omega arith)
      (omega arith) (omega arith) (omega arith)
      (λ it. ((omega arith, omega arith), (omega arith, omega arith)))
