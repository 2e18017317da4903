-- ===== src/TxLoop.antt =====
-- src/talker.c, `tx_loop`: the loop of one core, which sends the frames of one queue. What the calls
-- into the engine and the NIC give in a round is a `Round`; the printing is left out. A fault is
-- `none`.
pub mod Total
pub mod Cycle
pub mod Start
pub mod Launches
pub mod Phase
pub mod Clock
pub mod Runs
pub mod Ends
pub mod Due
use rtgen_dpdk_next.Base.{
  ℕ, zero, suc, ◌+◌, ◌-◌, ◌/◌, Bool, true, false, ◌&&◌, ◌||◌, Option, none, some, List, [], ◌∷◌,
  ltb, ◌^◌, ◌==◌, if◌then◌else◌, ◌>>=◌, add64, sub64, get_elem?, set, store, replicate,
}
use rtgen_dpdk_next.Flow.{
  Flow, FlowState, load_flow, inc_flow_timer, one_second_in_ns, fudge_factor,
}
use rtgen_dpdk_next.Sche.{ScheduleState}
use rtgen_dpdk_next.Statistic.{
  StatisticCore, update_nums, update_time_sw, update_time_hw, update_jitter_sw_st,
  update_jitter_hw_st,
}

-- One round of the inner loop: the clock at its start and before the frame is sent, whether
-- `sche_single` returns 1, and the time that `get_tx_hardware_timestamp` gives if it returns 0.
pub record Round : Type 0 where
  pub clock : ℕ
  pub clock_before_tx : ℕ
  pub accepted : Bool
  pub hwtimestamp : Option ℕ

-- The loop's variables and the objects that it changes. `flow` is the index of the flow that the
-- pointer `flow` points at, `none` while it is not initialised.
pub record TxState : Type 0 where
  pub current_time : ℕ
  pub txtime : ℕ
  pub flow : Option ℕ
  pub prev_time : List ℕ
  pub prev_hwtime : List ℕ
  pub state : FlowState
  pub stats : StatisticCore

-- What a round does with its frame: `late` frames are skipped; the others are handed to the NIC,
-- after a sleep of so many ns.
pub data Action : Type 0 where
  late : Action
  launch : (slept : ℕ) (accepted : Bool) → Action

pub record Report : Type 0 where
  pub flow_id : ℕ
  pub launch_time : ℕ
  pub action : Action

-- The declarations above the loop; `clock` is the first reading.
unfoldable pub start : FlowState → StatisticCore → (clock : ℕ) → TxState
start state stats clock = record {
  current_time = clock;
  txtime = clock;
  flow = none;
  prev_time = replicate state.num_flows 0;
  prev_hwtime = replicate state.num_flows 0;
  state = state;
  stats = stats;
}

abbrev pub previous_index : ScheduleState → ℕ → ℕ
previous_index schedule it_frame =
    if it_frame == 0 then sub64 schedule.num_frames_per_cycle 1 else it_frame - 1

-- The statistics of the previous frame's flow, which the clock at the start of the round estimates.
unfoldable pub observe_previous : (flow_id_prev clock : ℕ) → TxState → Option TxState
observe_previous p clock s = do
  x ← get_elem? s.stats.st p
  stats1 ← if x.num_pkt_total == 0 then some s.stats else update_time_sw s.stats p clock s.txtime
  prev ← get_elem? s.prev_time p
  stats2 ← if prev == 0 then some stats1 else (do
    i ← s.flow
    f ← load_flow s.state i
    update_jitter_sw_st stats1 p prev clock f.period)
  prev_time' ← store s.prev_time p clock
  some (record s { current_time = clock; prev_time = prev_time'; stats = stats2 })

-- `flow = state->flows[flow_id]; inc_flow_timer(flow); txtime = flow->sche_time;`
unfoldable pub advance_timer : (flow_id : ℕ) → TxState → Option (Flow × TxState)
advance_timer i s = do
  f ← load_flow s.state i
  let f' = inc_flow_timer f
  some (
    f',
    record s {
      flow = some i;
      txtime = f'.sche_time;
      state = record (s.state) { flows = set s.state.flows i (some f') };
    },
  )

-- A frame whose wake-up time has passed by more than the fudge factor.
unfoldable pub miss_deadline : (flow_id : ℕ) → TxState → Option TxState
miss_deadline i s = do
  stats' ← update_nums s.stats i true false
  prev_hwtime' ← store s.prev_hwtime i 0
  some (record s { stats = stats'; prev_hwtime = prev_hwtime' })

-- The statistics of a hardware timestamp.
unfoldable pub record_hwtimestamp : (flow_id period hwtimestamp : ℕ) → TxState → Option TxState
record_hwtimestamp i period ts s = do
  stats1 ← update_time_hw s.stats i ts s.txtime
  prev ← get_elem? s.prev_hwtime i
  stats2 ← if prev == 0 then some stats1 else update_jitter_hw_st stats1 i prev ts period
  prev_hwtime' ← store s.prev_hwtime i ts
  some (record s { stats = stats2; prev_hwtime = prev_hwtime' })

-- A frame that is handed to the NIC.
unfoldable pub transmit : (pit_hw : Bool) → (flow_id period : ℕ) → Round → TxState → Option TxState
transmit pit_hw i period r s = elim r.accepted [
  | false ↦ do
    stats' ← update_nums s.stats i false true
    prev_hwtime' ← store s.prev_hwtime i 0
    some (record s { current_time = r.clock_before_tx; stats = stats'; prev_hwtime = prev_hwtime' })
  | true ↦ do
    stats' ← update_nums s.stats i false false
    let s' : TxState = record s { current_time = r.clock_before_tx; stats = stats' }
    elim pit_hw [
      | false ↦ some s'
      | true ↦ elim r.hwtimestamp [ none ↦ some s' | some ts ↦ record_hwtimestamp i period ts s' ]
    ]
]

-- When the core should be awake for a frame, in uint64_t.
abbrev pub wake_time : Flow → ℕ
wake_time f = sub64 f.sche_time f.delta

abbrev pub is_late : Flow → (clock : ℕ) → Bool
is_late f clock =
    if ltb clock (wake_time f) then false else ltb (add64 (wake_time f) fudge_factor) clock

-- The argument of `sleep`, or 0 where it is not called.
abbrev pub sleep_time : Flow → (clock : ℕ) → ℕ
sleep_time f clock = if ltb clock (wake_time f) then sub64 (wake_time f) clock else 0

-- A round of the inner loop.
unfoldable pub tx_frame :
    (pit_hw : Bool) → ScheduleState → (it_frame : ℕ) → Round → TxState → Option (Report × TxState)
tx_frame pit_hw schedule it_frame r s = do
  p ← get_elem? schedule.order (previous_index schedule it_frame)
  s1 ← observe_previous p r.clock s
  i ← get_elem? schedule.order it_frame
  (f, s2) ← advance_timer i s1
  elim (is_late f r.clock) [
    | true ↦ do
      s3 ← miss_deadline i s2
      some (record { flow_id = i; launch_time = f.sche_time; action = late }, s3)
    | false ↦ do
      s3 ← transmit pit_hw i f.period r s2
      let act = launch (sleep_time f r.clock) r.accepted
      some (record { flow_id = i; launch_time = f.sche_time; action = act }, s3)
  ]

-- `it_frame++` on an int, which may not overflow.
unfoldable pub next_frame : ℕ → Option ℕ
next_frame it = if ltb (it + 1) (2 ^ 31) then some (it + 1) else none

-- The rounds left of a cycle, from `it_frame` on; `rounds` gives what happens in each.
unfoldable pub tx_frames_from :
    (pit_hw : Bool)
    → ScheduleState
    → (left it_frame : ℕ) → (ℕ → Round)
    → TxState
    → Option (List Report × TxState)
tx_frames_from pit_hw schedule zero it rounds s = some ([], s)
tx_frames_from pit_hw schedule (suc n) it rounds s = do
  (rep, s1) ← tx_frame pit_hw schedule it (rounds it) s
  it' ← next_frame it
  (reps, s2) ← tx_frames_from pit_hw schedule n it' rounds s1
  some (rep ∷ reps, s2)

unfoldable pub tx_cycle :
    (pit_hw : Bool) → ScheduleState → (ℕ → Round) → TxState → Option (List Report × TxState)
tx_cycle pit_hw schedule rounds s =
    tx_frames_from pit_hw schedule schedule.num_frames_per_cycle 0 rounds s

-- The test of the outer loop.
abbrev pub is_running : (base_time pit_runtime current_time : ℕ) → Bool
is_running base_time pit_runtime now =
    ltb now base_time || ltb (sub64 now base_time / one_second_in_ns) pit_runtime

-- The outer loop, for at most `fuel` cycles: the Boolean says whether it ended by its test.
unfoldable pub tx_loop :
    (pit_hw : Bool)
    → ScheduleState
    → (base_time pit_runtime fuel cycle : ℕ) → (ℕ → ℕ → Round)
    → TxState
    → Option (Bool × TxState)
tx_loop pit_hw schedule base runtime zero c rounds s = some (false, s)
tx_loop pit_hw schedule base runtime (suc fuel) c rounds s =
    elim (is_running base runtime s.current_time) [
      | false ↦ some (true, s)
      | true ↦ do
        (reps, s') ← tx_cycle pit_hw schedule (rounds c) s
        tx_loop pit_hw schedule base runtime fuel (c + 1) rounds s'
    ]
