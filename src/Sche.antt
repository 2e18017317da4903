-- ===== src/Sche.antt =====
-- src/sche.h and src/sche.c: the cyclic schedule of each transmit queue. A `uint64_t` wraps at 2 ^ 64
-- and the int count of frames at 2 ^ 32; a division by zero, a NULL pointer and an access out of
-- range are faults, `none`.
pub mod Gcd
pub mod Lcm
pub mod Frames
pub mod Fill
pub mod Sorting
pub mod Build
pub mod Occurrences
pub mod Timespecs
pub mod Instants
use mathlib.Core.WellFounded.{Acc}
use rtgen_dpdk_next.Base.{
  ℕ, zero, suc, ◌+◌, ◌-◌, ◌*◌, ◌/◌, ◌%◌, ◌<◌, Bool, true, false, Option, none, some, List, [], ◌∷◌,
  ◌++◌, arith, ltb, ◌==◌, if◌then◌else◌, ◌>>=◌, add64, mul64, u32_mod, u64_mod, store, to_int, ◌^◌,
}
use rtgen_dpdk_next.Base.Int.{ℤ, pos, ◌==ℤ◌, ltb_ℤ}
use rtgen_dpdk_next.Base.Order.{lt_wf}
use rtgen_dpdk_next.Flow.{Flow, FlowState, InterfaceConfig, for_flows, one_second_in_ns}

-- The schedule of one queue: `order[k]` is the index of the flow of the k-th frame of a cycle, and
-- `sending_time[k]` the time of that frame in the cycle.
pub record ScheduleState : Type 0 where
  pub order : List ℕ
  pub cycle_period : ℕ
  pub num_frames_per_cycle : ℕ
  pub sending_time : List ℕ

-- `a` falls at each call.
pub gcd_acc : (a b : ℕ) → Acc ◌<◌ a → ℕ
gcd_acc zero b (Acc.intro _ smaller) = b
gcd_acc (suc a) b (Acc.intro _ smaller) =
    gcd_acc (b % suc a) (suc a) (smaller (b % suc a) (omega arith))

unfoldable pub gcd : ℕ → ℕ → ℕ
unfolding gcd_acc lt_wf
gcd a b = gcd_acc a b (lt_wf.apply a)

-- A division faults at zero.
abbrev pub div? : ℕ → ℕ → Option ℕ
div? a b = if b == 0 then none else some (a / b)

unfoldable pub lcm : ℕ → ℕ → Option ℕ
lcm a b = do q ← div? a (gcd a b); some (mul64 q b)

-- The loop from `i = 1` on, over the rest of the array.
unfoldable pub lcm_from : ℕ → List ℕ → Option ℕ
lcm_from ans [] = some ans
lcm_from ans (x ∷ xs) = do ans' ← lcm ans x; lcm_from ans' xs

-- `arr[0]` of an empty array is a fault.
unfoldable pub lcm_of_array : List ℕ → Option ℕ
unfolding lcm_from
lcm_of_array [] = none
lcm_of_array (x ∷ xs) = lcm_from x xs

-- The array `periods` is filled in the order of the flows. Where its malloc fails, the code prints a line
-- and goes on: the first write, or `arr[0]` if there is no flow, goes through NULL.
unfoldable pub calculate_cycle : (periods_malloc : Bool) → FlowState → Option ℕ
calculate_cycle false state = none
calculate_cycle true state = do
  periods ← for_flows state (λ i f periods. some (periods ++ (f.period ∷ []))) []
  lcm_of_array periods

-- `num_frames += cycle_period / period`, where `num_frames` is an int; its bit pattern here.
abbrev pub count_frames : ℕ → Flow → ℕ → Option ℕ
count_frames cycle_period f num_frames = do
  q ← div? cycle_period f.period
  some ((num_frames + q) % u32_mod)

unfoldable pub calculate_num_frames : FlowState → ℕ → Option ℕ
calculate_num_frames state cycle_period =
    for_flows state (λ i f num_frames. count_frames cycle_period f num_frames) 0

-- `f->net->queue == queue_index`; a fault when `net` is NULL.
abbrev pub is_in_queue : ℕ → Flow → Option Bool
is_in_queue queue_index f = do net ← f.net; some (net.queue ==ℤ pos queue_index)

unfoldable pub calculate_num_frames_per_queue : FlowState → ℕ → ℕ → Option ℕ
calculate_num_frames_per_queue state cycle_period queue_index =
    for_flows state
      (λ i f num_frames. do
        here ← is_in_queue queue_index f
        if here then count_frames cycle_period f num_frames else some num_frames)
      0

-- The inner loop of `sort`: `rounds` comparisons from the front of what is left of the two arrays.
unfoldable pub bubble : (rounds : ℕ) (time flow_id : List ℕ) → Option (List ℕ × List ℕ)
bubble zero time flow_id = some (time, flow_id)
bubble (suc k) (t ∷ u ∷ time) (f ∷ g ∷ flow_id) = elim (ltb u t) [
  | true ↦ do (time', flow_id') ← bubble k (t ∷ time) (f ∷ flow_id); some (u ∷ time', g ∷ flow_id')
  | false ↦ do (time', flow_id') ← bubble k (u ∷ time) (g ∷ flow_id); some (t ∷ time', f ∷ flow_id')
]
bubble (suc k) time flow_id = none

-- The outer loop: its i-th round makes `n - i - 1` comparisons, from `n - 1` down to 1.
unfoldable pub sort_from : (rounds : ℕ) (time flow_id : List ℕ) → Option (List ℕ × List ℕ)
sort_from zero time flow_id = some (time, flow_id)
sort_from (suc k) time flow_id = do
  (time', flow_id') ← bubble (suc k) time flow_id
  sort_from k time' flow_id'

unfoldable pub sort : (time flow_id : List ℕ) (n : ℕ) → Option (List ℕ × List ℕ)
sort time flow_id n = sort_from (n - 1) time flow_id

-- The variables of the loops of `init_schedule_state`.
pub record Filling : Type 0 where
  pub times : List ℕ
  pub ids : List ℕ
  pub index : ℕ

-- `sending_time[index] = time; order[index] = i; index++`
unfoldable pub push_frame : (time i : ℕ) → Filling → Option Filling
push_frame time i st = do
  times' ← store st.times st.index time
  ids' ← store st.ids st.index i
  some (record { times = times'; ids = ids'; index = st.index + 1 })

-- The rounds left of the loop over `j`. The arrays are shorter than 2 ^ 32, so that a round with a
-- larger `j`, which C would wrap, comes after the fault.
unfoldable pub push_frames : (rounds j offset period i : ℕ) → Filling → Option Filling
push_frames zero j offset period i st = some st
push_frames (suc n) j offset period i st = do
  st' ← push_frame (add64 offset (mul64 j period)) i st
  push_frames n (j + 1) offset period i st'

-- A flow's offset in the cycle, a uint64_t. That it is at least the cycle is only printed.
abbrev pub offset_of : Flow → ℕ
offset_of f = add64 (mul64 f.offset_sec one_second_in_ns) f.offset_nsec

-- What one round of the loop over the flows does with a flow that counts.
abbrev pub push_flow : (cycle_period i : ℕ) → Flow → Filling → Option Filling
push_flow cycle_period i f st = do
  rounds ← div? cycle_period f.period
  push_frames rounds 0 (offset_of f) f.period i st

-- `int num_frames = num_frames_per_cycle`; a negative number of rounds is none.
abbrev pub num_rounds : ℕ → ℕ
num_rounds n = if ltb (to_int n) (2 ^ 31) then to_int n else 0

abbrev pub sort_frames : ScheduleState → Filling → Option ScheduleState
sort_frames schedule st = do
  (times', ids') ← sort st.times st.ids (num_rounds schedule.num_frames_per_cycle)
  some (record schedule { sending_time = times'; order = ids' })

abbrev pub start_filling : ScheduleState → Filling
start_filling schedule = record { times = schedule.sending_time; ids = schedule.order; index = 0 }

unfoldable pub init_schedule_state : ScheduleState → FlowState → Option ScheduleState
init_schedule_state schedule state = do
  st ← for_flows state (push_flow schedule.cycle_period) (start_filling schedule)
  sort_frames schedule st

unfoldable pub init_schedule_state_per_queue :
    ScheduleState → FlowState → (queue_index : ℕ) → Option ScheduleState
init_schedule_state_per_queue schedule state queue_index = do
  st ←
      for_flows state
        (λ i f st. do
          here ← is_in_queue queue_index f
          if here then push_flow schedule.cycle_period i f st else some st)
        (start_filling schedule)
  sort_frames schedule st

-- An int, given by its bit pattern, converted to uint64_t.
abbrev pub sign_extend : ℕ → ℕ
sign_extend w = if ltb w (2 ^ 31) then w else w + u64_mod - u32_mod

-- What malloc returns for an array: by the number of the call in the loop over the queues and the
-- number of elements.
abbrev pub Malloc : Type 0
Malloc = ℕ → ℕ → Option (List ℕ)

-- One round of the loop of `create_schedule_state`: a fault, NULL, or the schedule of a queue.
unfoldable pub create_queue_schedule :
    Malloc → FlowState → (cycle_period queue_index : ℕ) → Option (Option ScheduleState)
create_queue_schedule malloc state cycle_period i = do
  w ← calculate_num_frames_per_queue state cycle_period i
  let n = sign_extend w
  elim (malloc (2 * i) n) [
    | none ↦ some none
    | some order ↦ elim (malloc (2 * i + 1) n) [
      | none ↦ some none
      | some times ↦ do
        s ←
            init_schedule_state_per_queue
              (record {
                order = order;
                cycle_period = cycle_period;
                num_frames_per_cycle = n;
                sending_time = times;
              })
              state i
        some (some s)
    ]
  ]

unfoldable pub create_schedules_from :
    Malloc → FlowState → (cycle_period rounds i : ℕ) → Option (Option (List ScheduleState))
create_schedules_from malloc state cycle_period zero i = some (some [])
create_schedules_from malloc state cycle_period (suc n) i = do
  made ← create_queue_schedule malloc state cycle_period i
  let rest = create_schedules_from malloc state cycle_period n (i + 1)
  elim made [
    | none ↦ some none
    | some s ↦ elim rest [
      | none ↦ none
      | some none ↦ some none
      | some (some schedules) ↦ some (some (s ∷ schedules))
    ]
  ]

-- The flags say whether the mallocs of the array itself and of the array of periods succeed.
unfoldable pub create_schedule_state :
    Malloc
    → (array_malloc periods_malloc : Bool) → FlowState
    → (num_queues : ℕ) → Option (Option (List ScheduleState))
create_schedule_state malloc false periods_malloc state num_queues = some none
create_schedule_state malloc true periods_malloc state num_queues = do
  cycle_period ← calculate_cycle periods_malloc state
  create_schedules_from malloc state cycle_period num_queues 0

-- `struct timespec`.
pub record Timespec : Type 0 where
  pub tv_sec : ℤ
  pub tv_nsec : ℤ

unfoldable pub timespec_less : Timespec → Timespec → Bool
timespec_less t1 t2 =
    if ltb_ℤ t1.tv_sec t2.tv_sec
    then true
    else if ltb_ℤ t2.tv_sec t1.tv_sec
    then false
    else ltb_ℤ t1.tv_nsec t2.tv_nsec
