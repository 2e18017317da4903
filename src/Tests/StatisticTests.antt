-- ===== src/Tests/StatisticTests.antt =====
-- src/statistic.c.
use rtgen_dpdk_next.Base.{
  ◌+◌, ◌*◌, ◌/◌, ◌≤◌, ◌≡◌, ◌≢◌, some, true, false, List, [], ◌∷◌, arith, length, get_elem?,
  distance,
}
use rtgen_dpdk_next.Base.Int.{pos}
use rtgen_dpdk_next.Statistic.{
  StatSt, StatisticCore, initial_st, init_statistics, st_bytes, size_of_stat_st, bump_nums,
  abs_diff, time_sw,
}
use rtgen_dpdk_next.Statistic.Counts.{
  Event, late, failed, sent, run_nums, Counted, init_statistics_bytes, run_nums-Counted,
}
use rtgen_dpdk_next.Statistic.Delays.{AvgLeMax, abs_diff-ne-distance, first_avg-halved}

init_statistics_bytes_example :
    (s : StatisticCore) × (init_statistics true true 3 (pos 1) (pos 0) ≡ some s)
    × (length s.st ≡ 3 + 2)
    × (length s.st * size_of_stat_st ≤ st_bytes 3)
init_statistics_bytes_example = init_statistics_bytes 3 (pos 1) (pos 0)

abbrev events : List Event
events = (0, sent) ∷ (2, late) ∷ (1, failed) ∷ (0, sent) ∷ []

run_nums-Counted_example :
    (s : StatisticCore) × (s' : StatisticCore) × (x : StatSt) × (init_statistics true true 3
        (pos 1)
        (pos 0)
      ≡ some s)
    × (run_nums s events ≡ some s')
    × (get_elem? s'.st 3 ≡ some x)
    × Counted x 3 3 events
run_nums-Counted_example =
    run_nums-Counted 3 3 (pos 1) (pos 0) events
      (omega arith, (omega arith, (omega arith, (omega arith, tt)))) (omega arith) (omega arith)

abs_diff-ne-distance_example : abs_diff 4000000000 1000000000 ≢ distance 4000000000 1000000000
abs_diff-ne-distance_example =
    abs_diff-ne-distance 4000000000 1000000000 (omega arith) (omega arith) (omega arith)
      (omega arith)

-- Three packets have been sent.
abbrev busy : StatSt
busy = record (initial_st 0) {
  num_pkt_total = 3;
  num_pkt_send = 4;
  delta_sw = 50;
  avg_delta_sw = 40;
  max_delta_sw = 60;
}

busy-AvgLeMax : AvgLeMax busy
busy-AvgLeMax = omega arith

first_avg-halved_example :
    (y : StatSt) × (time_sw 1000 900 (bump_nums false false (initial_st 0)) ≡ some y)
    × (y.delta_sw ≡ distance 1000 900)
    × (y.max_delta_sw ≡ distance 1000 900)
    × (y.avg_delta_sw ≡ distance 1000 900 / 2)
first_avg-halved_example = first_avg-halved 0 1000 900 (omega arith) (omega arith) (omega arith)
