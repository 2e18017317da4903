-- ===== src/Sche/Build.antt =====
-- The schedules that `create_schedule_state` builds: one for each queue, holding exactly the frames
-- of that queue in the order of time.
use Prim.Native.Nat.{◌^◌}
use mathlib.Core.List.{Perm}
use native.Mathlib.Nat.{dvd_antisymm}
use rtgen_dpdk_next.Base.{
  ℕ, zero, suc, ◌+◌, ◌*◌, ◌%◌, ◌<◌, ◌≡◌, refl, ap, ◌∙◌, ◌⊎◌, inl, inr, none, some, Option-cases,
  true, List, [], ◌∷◌, map, arith, All, All-of_map, ◌∣◌, IsAscending, length, ◌>>=◌, u64_mod,
  u32_mod,
}
use rtgen_dpdk_next.Flow.{Flow, FlowState}
use rtgen_dpdk_next.Flow.Table.{Represents}
use rtgen_dpdk_next.Sche.{
  ScheduleState, sort, sort_frames, num_rounds, init_schedule_state_per_queue, sign_extend, Malloc,
  create_queue_schedule, create_schedules_from, create_schedule_state,
}
use rtgen_dpdk_next.Sche.Lcm.{IsLcm}
use rtgen_dpdk_next.Sche.Frames.{
  Frame, IsReady, queue_frames, calculate_num_frames_per_queue-length, calculate_cycle-IsLcm,
}
use rtgen_dpdk_next.Sche.Fill.{times_of, ids_of, fill_lem}
use rtgen_dpdk_next.Sche.Sorting.{sort-InOrder}

-- `schedule` is the schedule of queue `q` in a cycle of the flows `fs`: `frames` lists its frames.
pub record IsSchedule (schedule : ScheduleState) (q cycle : ℕ) (fs : List Flow) : Type 0 where
  pub frames : List Frame
  pub sending_time : schedule.sending_time ≡ times_of frames
  pub order : schedule.order ≡ ids_of frames
  pub ascending : IsAscending schedule.sending_time
  pub complete : Perm frames (queue_frames q cycle 0 fs)
  pub count : schedule.num_frames_per_cycle ≡ length (queue_frames q cycle 0 fs)
  pub cycle_period : schedule.cycle_period ≡ cycle

num_rounds-eq : (n : ℕ) → n < 2 ^ 31 → num_rounds n ≡ n
num_rounds-eq n h = ground arith

sign_extend-eq : (n : ℕ) → n < 2 ^ 31 → sign_extend (n % u32_mod) ≡ n
sign_extend-eq n h = ground arith

module _ (s : FlowState) (fs : List Flow) (r : Represents s fs) where
  -- On a table of ready flows, with arrays of the size that was counted, the schedule of a queue
  -- is built with no fault.
  pub init_schedule_state_per_queue-IsSchedule :
      (schedule : ScheduleState) (q : ℕ)
      → All (IsReady schedule.cycle_period) fs
      → length (queue_frames q schedule.cycle_period 0 fs) < 2 ^ 31
      → schedule.num_frames_per_cycle ≡ length (queue_frames q schedule.cycle_period 0 fs)
      → length schedule.sending_time ≡ schedule.num_frames_per_cycle
      → length schedule.order ≡ schedule.num_frames_per_cycle
      → (done : ScheduleState) × (init_schedule_state_per_queue schedule s q ≡ some done)
        × IsSchedule done q schedule.cycle_period fs
  unfolding init_schedule_state_per_queue
  init_schedule_state_per_queue-IsSchedule schedule q ready small n lt li =
      let (st, filled, times, ids) = fill_lem s fs schedule q r ready (omega arith) (omega arith) in
      let (frames, sorted, asc, p) =
        sort-InOrder (queue_frames q schedule.cycle_period 0 fs) _ refl in
      (
        record schedule { sending_time = times_of frames; order = ids_of frames },
        ap (λ o. o >>= sort_frames schedule) filled
            ∙ ap
                (λ o. o >>= λ (times', ids').
                  some (record schedule { sending_time = times'; order = ids' }))
                ((λ i. sort (times i) (ids i) ((ap num_rounds n ∙ num_rounds-eq _ small) i))
                  ∙ sorted),
        record {
          frames = frames;
          sending_time = refl;
          order = refl;
          ascending = asc;
          complete = p;
          count = n;
          cycle_period = refl;
        },
      )

-- What is assumed of malloc: an array that it returns has the length that was asked for.
abbrev pub IsMalloc : Malloc → Type 0
IsMalloc malloc = (call n : ℕ) (a : List ℕ) → malloc call n ≡ some a → length a ≡ n

-- Schedules for the queues from `q` on.
abbrev pub AreSchedules : (q cycle : ℕ) → List Flow → List ScheduleState → Type 0
AreSchedules q cycle fs [] = Unit
AreSchedules q cycle fs (x ∷ xs) = IsSchedule x q cycle fs × AreSchedules (q + 1) cycle fs xs

-- Some call of malloc failed.
abbrev pub Exhausted : Malloc → Type 0
Exhausted malloc = (call : ℕ) × (n : ℕ) × (malloc call n ≡ none)

module _ (malloc : Malloc) (law : IsMalloc malloc) (s : FlowState) (fs : List Flow)
    (r : Represents s fs) (cycle : ℕ) (ready : All (IsReady cycle) fs)
    (small : (q : ℕ) → length (queue_frames q cycle 0 fs) < 2 ^ 31) where
  create_queue_schedule-IsSchedule :
      (q : ℕ)
      → ((create_queue_schedule malloc s cycle q ≡ some none) × Exhausted malloc)
        ⊎ ((x : ScheduleState) × (create_queue_schedule malloc s cycle q ≡ some (some x))
            × IsSchedule x q cycle fs)
  unfolding create_queue_schedule
  create_queue_schedule-IsSchedule q =
      rw (calculate_num_frames_per_queue-length s fs cycle q r ready, sign_extend-eq _ (small q))
        (elim (Option-cases (malloc (2 * q) n)) [
          | inl e ↦ inl (rw e, (2 * q, n, e))
          | inr (order, e) ↦ elim (Option-cases (malloc (2 * q + 1) n)) [
            | inl e' ↦ inl (rw (e, sign_extend-eq _ (small q), e'), (2 * q + 1, n, e'))
            | inr (times, e') ↦
                let (x, run, good) =
                  init_schedule_state_per_queue-IsSchedule s fs r
                    (record {
                      order = order;
                      cycle_period = cycle;
                      num_frames_per_cycle = n;
                      sending_time = times;
                    })
                    q ready (small q) refl (law _ n times e') (law _ n order e) in
                inr
                  (x, rw (e, sign_extend-eq _ (small q), e', sign_extend-eq _ (small q), run), good)
          ]
        ])
    where
      n : ℕ
      n = length (queue_frames q cycle 0 fs)

  create_schedules_from-AreSchedules :
      (rounds q : ℕ)
      → ((create_schedules_from malloc s cycle rounds q ≡ some none) × Exhausted malloc)
        ⊎ ((xs : List ScheduleState) × (create_schedules_from malloc s cycle rounds q
              ≡ some (some xs))
            × (length xs ≡ rounds)
            × AreSchedules q cycle fs xs)
  unfolding create_schedules_from
  create_schedules_from-AreSchedules zero q = inr ([], refl, refl, tt)
  create_schedules_from-AreSchedules (suc n) q = elim (create_queue_schedule-IsSchedule q) [
    | inl (e, ex) ↦ inl (rw e, ex)
    | inr (x, e, good) ↦ elim (create_schedules_from-AreSchedules n (q + 1)) [
      | inl (e', ex) ↦ inl (rw (e, e'), ex)
      | inr (xs, e', len, goods) ↦ inr (x ∷ xs, rw (e, e'), ap suc len, (good, goods))
    ]
  ]

-- Take a table of at least one flow, the least common multiple `cycle` of the flows' periods, and let
-- each flow have its interface and fit a cycle in 64 bits, each queue have fewer than 2 ^ 31 frames in a
-- cycle, and malloc return arrays of the length asked for, and give the array of the periods and that of
-- the schedules. Then `create_schedule_state` does not fault: either the malloc of a queue's array fails and it returns NULL, or it returns a schedule for each queue, which
-- holds exactly the frames of the queue's flows in a cycle, in ascending order of time.
pub create_schedule_state-AreSchedules :
    (malloc : Malloc) (s : FlowState) (f : Flow) (fs : List Flow) (cycle num_queues : ℕ)
    → IsMalloc malloc
    → Represents s (f ∷ fs)
    → IsLcm cycle (map (λ g. g.period) (f ∷ fs))
    → All (IsReady cycle) (f ∷ fs)
    → ((q : ℕ) → length (queue_frames q cycle 0 (f ∷ fs)) < 2 ^ 31)
    → ((create_schedule_state malloc true true s num_queues ≡ some none) × Exhausted malloc)
      ⊎ ((xs : List ScheduleState) × (create_schedule_state malloc true true s num_queues
            ≡ some (some xs))
          × (length xs ≡ num_queues)
          × AreSchedules 0 cycle (f ∷ fs) xs)
unfolding create_schedule_state
create_schedule_state-AreSchedules malloc s f fs cycle num_queues law r l ready small =
    let bound : cycle < u64_mod = omega (arith, ready.0.fits) in
    let (m, e, l') =
      calculate_cycle-IsLcm s f fs cycle r l.positive bound
        (All-of_map (λ p. p ∣ cycle) (λ (g : Flow). g.period) (f ∷ fs) l.multiple) in
    let same : m ≡ cycle = dvd_antisymm (l'.least cycle l.multiple) (l.least m l'.multiple) in
    rw (e ∙ ap some same)
      (create_schedules_from-AreSchedules malloc law s (f ∷ fs) r cycle ready small num_queues 0)
