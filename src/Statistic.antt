-- ===== src/Statistic.antt =====
-- src/statistic.h and src/statistic.c: counters, and running averages and maxima of delays, for each
-- flow and for the whole core. The `double` fields, which the code only sets to 0, are left out. An
-- access out of range and a division by zero are faults, `none`; an int flag is a Boolean.
pub mod Counts
pub mod Delays
pub mod Live
use rtgen_dpdk_next.Base.{
  ℕ, zero, suc, ◌+◌, ◌*◌, ◌/◌, Bool, true, false, not, ◌&&◌, Option, none, some, List, [], ◌∷◌, ltb,
  ◌==◌, if◌then◌else◌, ◌>>=◌, add64, sub64, mul64, to_int, abs_int, get_elem?, set,
}
use rtgen_dpdk_next.Base.Int.{ℤ, pos, negsuc}

pub record StatSt : Type 0 where
  pub queue_id : ℤ
  pub flow_id : ℤ
  pub num_pkt_total : ℕ
  pub num_pkt_send : ℕ
  pub num_pkt_drop : ℕ
  pub num_pkt_misdl : ℕ
  pub jitter_hw : ℕ
  pub avg_jitter_hw : ℕ
  pub max_jitter_hw : ℕ
  pub jitter_sw : ℕ
  pub avg_jitter_sw : ℕ
  pub max_jitter_sw : ℕ
  pub delta_sw : ℕ
  pub avg_delta_sw : ℕ
  pub max_delta_sw : ℕ
  pub delta_hw : ℕ
  pub avg_delta_hw : ℕ
  pub max_delta_hw : ℕ

-- The size of the C struct: two ints, two doubles and sixteen 64-bit numbers.
abbrev pub size_of_stat_st : ℕ
size_of_stat_st = 2 * 4 + 2 * 8 + 16 * 8

pub record StatisticCore : Type 0 where
  pub core_id : ℤ
  pub queue_id : ℤ
  pub num_flows : ℕ
  pub is_tx_running : ℤ
  pub is_rx_running : ℤ
  pub is_sync_running : ℤ
  pub st : List StatSt

-- The element that one round of the loop of `init_statistics` writes.
abbrev pub initial_st : ℕ → StatSt
initial_st i = record {
  queue_id = negsuc 0;
  flow_id = pos i;
  num_pkt_total = 0;
  num_pkt_send = 1;
  num_pkt_drop = 0;
  num_pkt_misdl = 0;
  jitter_hw = 0;
  avg_jitter_hw = 0;
  max_jitter_hw = 0;
  jitter_sw = 0;
  avg_jitter_sw = 0;
  max_jitter_sw = 0;
  delta_sw = 0;
  avg_delta_sw = 0;
  max_delta_sw = 0;
  delta_hw = 0;
  avg_delta_hw = 0;
  max_delta_hw = 0;
}

-- The elements that the rounds left write, from index `i` on.
unfoldable pub initial_from : (rounds i : ℕ) → List StatSt
initial_from zero i = []
initial_from (suc n) i = initial_st i ∷ initial_from n (i + 1)

-- The bytes that are asked for, for the array.
abbrev pub st_bytes : ℕ → ℕ
st_bytes num_flows = (num_flows + 1) * size_of_stat_st + 440

-- The flags say whether each malloc succeeds. The loop runs from 0 to `num_flows + 1` inclusive.
unfoldable pub init_statistics :
    (stats_malloc st_malloc : Bool) (num_flows : ℕ) (core_id queue_id : ℤ) → Option StatisticCore
unfolding initial_from
init_statistics false st_malloc num_flows core_id queue_id = none
init_statistics true false num_flows core_id queue_id = none
init_statistics true true num_flows core_id queue_id = some (record {
  core_id = core_id;
  queue_id = queue_id;
  num_flows = num_flows;
  is_tx_running = pos 0;
  is_rx_running = pos 0;
  is_sync_running = pos 0;
  st = initial_from (num_flows + 2) 0;
})

-- An update through `&stats->st[flow_id]`.
unfoldable pub update_at : StatisticCore → ℕ → (StatSt → Option StatSt) → Option StatisticCore
update_at stats i f = do
  x ← get_elem? stats.st i
  y ← f x
  some (record stats { st = set stats.st i y })

abbrev pub count_if : Bool → ℕ → ℕ
count_if b n = if b then add64 n 1 else n

unfoldable pub bump_nums : (missed_deadline send_failure : Bool) → StatSt → StatSt
bump_nums missed failed x = record x {
  num_pkt_total = add64 x.num_pkt_total 1;
  num_pkt_misdl = count_if missed x.num_pkt_misdl;
  num_pkt_drop = count_if failed x.num_pkt_drop;
  num_pkt_send = count_if (not missed && not failed) x.num_pkt_send;
}

unfoldable pub update_nums_st :
    StatisticCore → (flow_id : ℕ) (missed_deadline send_failure : Bool) → Option StatisticCore
unfolding update_at bump_nums
update_nums_st stats i missed failed = update_at stats i (λ x. some (bump_nums missed failed x))

-- The flow, then the core.
unfoldable pub update_nums :
    StatisticCore → (flow_id : ℕ) (missed_deadline send_failure : Bool) → Option StatisticCore
update_nums stats i missed failed = do
  stats' ← update_nums_st stats i missed failed
  update_nums_st stats' stats'.num_flows missed failed

-- `abs(a - b)`: the difference is converted to int, and the absolute value to uint64_t.
abbrev pub abs_diff : ℕ → ℕ → ℕ
abs_diff a b = abs_int (to_int (sub64 a b))

-- `(avg * (n - 1) + x) / n`
abbrev pub running_avg : (avg n x : ℕ) → Option ℕ
running_avg avg n x = if n == 0 then none else some (add64 (mul64 avg (sub64 n 1)) x / n)

abbrev pub max_of : ℕ → ℕ → ℕ
max_of old x = if ltb old x then x else old

unfoldable pub time_sw : (swtime txtime : ℕ) → StatSt → Option StatSt
time_sw swtime txtime x = do
  let delta = abs_diff swtime txtime
  avg ← running_avg x.avg_delta_sw x.num_pkt_send delta
  some (record x {
    delta_sw = delta;
    avg_delta_sw = avg;
    max_delta_sw = max_of x.max_delta_sw delta;
  })

unfoldable pub update_time_sw_st :
    StatisticCore → (flow_id swtime txtime : ℕ) → Option StatisticCore
unfolding update_at time_sw
update_time_sw_st stats i swtime txtime = update_at stats i (time_sw swtime txtime)

unfoldable pub time_hw : (hwtime txtime : ℕ) → StatSt → Option StatSt
time_hw hwtime txtime x = do
  let delta = abs_diff hwtime txtime
  avg ← running_avg x.avg_delta_hw x.num_pkt_send delta
  some (record x {
    delta_hw = delta;
    avg_delta_hw = avg;
    max_delta_hw = max_of x.max_delta_hw delta;
  })

unfoldable pub update_time_hw_st :
    StatisticCore → (flow_id hwtime txtime : ℕ) → Option StatisticCore
unfolding update_at time_hw
update_time_hw_st stats i hwtime txtime = update_at stats i (time_hw hwtime txtime)

-- `abs(current - previous - period)`
abbrev pub jitter_of : (previous current period : ℕ) → ℕ
jitter_of previous current period = abs_diff (sub64 current previous) period

unfoldable pub jitter_sw_of : (pre_txtime current_txtime period : ℕ) → StatSt → Option StatSt
jitter_sw_of pre cur period x = do
  let jitter = jitter_of pre cur period
  avg ← running_avg x.avg_jitter_sw x.num_pkt_send jitter
  some (record x {
    jitter_sw = jitter;
    avg_jitter_sw = avg;
    max_jitter_sw = max_of x.max_jitter_sw jitter;
  })

unfoldable pub update_jitter_sw_st :
    StatisticCore → (flow_id pre_txtime current_txtime period : ℕ) → Option StatisticCore
unfolding update_at jitter_sw_of
update_jitter_sw_st stats i pre cur period = update_at stats i (jitter_sw_of pre cur period)

unfoldable pub jitter_hw_of : (pre_txtime current_txtime period : ℕ) → StatSt → Option StatSt
jitter_hw_of pre cur period x = do
  let jitter = jitter_of pre cur period
  avg ← running_avg x.avg_jitter_hw x.num_pkt_send jitter
  some (record x {
    jitter_hw = jitter;
    avg_jitter_hw = avg;
    max_jitter_hw = max_of x.max_jitter_hw jitter;
  })

unfoldable pub update_jitter_hw_st :
    StatisticCore → (flow_id pre_txtime current_txtime period : ℕ) → Option StatisticCore
unfolding update_at jitter_hw_of
update_jitter_hw_st stats i pre cur period = update_at stats i (jitter_hw_of pre cur period)

unfoldable pub update_time_sw : StatisticCore → (flow_id swtime txtime : ℕ) → Option StatisticCore
update_time_sw stats i swtime txtime = do
  stats' ← update_time_sw_st stats i swtime txtime
  update_time_sw_st stats' stats'.num_flows swtime txtime

unfoldable pub update_time_hw : StatisticCore → (flow_id hwtime txtime : ℕ) → Option StatisticCore
update_time_hw stats i hwtime txtime = do
  stats' ← update_time_hw_st stats i hwtime txtime
  update_time_hw_st stats' stats'.num_flows hwtime txtime
