-- ===== src/TxLoop/Cycle.antt =====
-- A cycle of the transmit loop: each frame of the schedule in turn, and where the timers end.
use native.Mathlib.Nat.{div-mul_cancel}
use rtgen_dpdk_next.Base.{
  ◌∣◌, ℕ, zero, suc, ◌+◌, ◌/◌, ◌%◌, ◌<◌, ◌≡◌, refl, ap, sym, subst, ◌∙◌, inl, inr, Bool, Bool-cases,
  true, false, Option, none, some, List, [], ◌∷◌, ◌++◌, arith, All, length, length-append,
  length-set, get_elem?, get_elem?-some, get_elem?-append, get_elem?-set, append_assoc, set, ◌==◌,
  if◌then◌else◌, u64_mod, ◌^◌,
}
use rtgen_dpdk_next.Flow.{Flow, inc_flow_timer}
use rtgen_dpdk_next.Flow.Timer.{inc_times, inc_times-period, sche_time-inc_times}
use rtgen_dpdk_next.Sche.{ScheduleState}
use rtgen_dpdk_next.Sche.Occurrences.{occurrences, order-occurrences, order-below, order-length}
use rtgen_dpdk_next.Sche.Frames.{in_queue}
use rtgen_dpdk_next.Sche.Build.{IsSchedule}
use rtgen_dpdk_next.TxLoop.{
  TxState, Round, Report, previous_index, next_frame, tx_frames_from, tx_cycle,
}
use rtgen_dpdk_next.TxLoop.Total.{IsValid, PointerIsSafe, report_of, tx_frame-IsValid}

-- The timers after the frames `order`.
pub advance_all : List ℕ → List Flow → List Flow
advance_all [] fs = fs
advance_all (i ∷ order) fs =
    advance_all order (elim (get_elem? fs i) [ none ↦ fs | some f ↦ set fs i (inc_flow_timer f) ])

-- The reports of the frames `order`; `it` is the number of the first round.
pub reports_of : (it : ℕ) (order : List ℕ) → List Flow → (ℕ → Round) → List Report
reports_of it [] fs rounds = []
reports_of it (i ∷ order) fs rounds = elim (get_elem? fs i) [
  | none ↦ []
  | some f ↦
      report_of i (inc_flow_timer f) (rounds it)
      ∷ reports_of (it + 1) order (set fs i (inc_flow_timer f)) rounds
]

pub advance_all_cons :
    (i : ℕ) (order : List ℕ) (fs : List Flow) (f : Flow)
    → get_elem? fs i ≡ some f
    → advance_all (i ∷ order) fs ≡ advance_all order (set fs i (inc_flow_timer f))
unfolding advance_all
advance_all_cons i order fs f e = rw e

pub reports_of_cons :
    (it i : ℕ) (order : List ℕ) (fs : List Flow) (rounds : ℕ → Round) (f : Flow)
    → get_elem? fs i ≡ some f
    → reports_of it (i ∷ order) fs rounds
      ≡ report_of i (inc_flow_timer f) (rounds it)
        ∷ reports_of (it + 1) order (set fs i (inc_flow_timer f)) rounds
unfolding reports_of
reports_of_cons it i order fs rounds f e = rw (e, reports_of)

-- Room for two counts a round.
abbrev pub needed : (rounds k : ℕ) → ℕ
needed zero k = k
needed (suc n) k = suc (suc (needed n k))

pub All-get {ℓ κ} :
    {A : Type ℓ} (P : A → Type κ) (xs : List A) (i : ℕ) (x : A)
    → All P xs
    → get_elem? xs i ≡ some x
    → P x
All-get P [] i x h e = absurd (cc)
All-get P (y ∷ ys) zero x h e = let q : y ≡ x = cc in subst P q h.0
All-get P (y ∷ ys) (suc i) x h e = All-get P ys i x h.1 e

-- The frame before the first one is the last.
pub previous_index-lt :
    (schedule : ScheduleState) (it : ℕ)
    → schedule.num_frames_per_cycle ≡ length schedule.order
    → length schedule.order < 2 ^ 31
    → it < length schedule.order
    → previous_index schedule it < length schedule.order
previous_index-lt schedule it n small h = ground arith

pub next_frame_lem : (it n : ℕ) → it < n → n < 2 ^ 31 → next_frame it ≡ some (it + 1)
unfolding next_frame
next_frame_lem it n h small = ground arith

nothing :
    (it : ℕ) (fs : List Flow) (rounds : ℕ → Round) (s : TxState)
    → ◌≡◌ {A = Option (List Report × TxState)} (some ([], s)) (some (reports_of it [] fs rounds, s))
unfolding reports_of
nothing it fs rounds s = refl

pub advance_all_nil : (fs : List Flow) → advance_all [] fs ≡ fs
unfolding advance_all
advance_all_nil fs = refl

module _ (pit_hw : Bool) (schedule : ScheduleState)
    (n : schedule.num_frames_per_cycle ≡ length schedule.order)
    (small : length schedule.order < 2 ^ 31) where
  tx_frames_from-IsValid :
      (pre order : List ℕ) (it k : ℕ) (rounds : ℕ → Round) (s : TxState) (fs : List Flow)
      → schedule.order ≡ pre ++ order
      → it ≡ length pre
      → All (λ i. i < length fs) schedule.order
      → IsValid s fs (needed (length order) k)
      → PointerIsSafe s (length fs)
      → (s' : TxState) × (tx_frames_from pit_hw schedule (length order) it rounds s
          ≡ some (reports_of it order fs rounds, s'))
        × IsValid s' (advance_all order fs) k
        × PointerIsSafe s' (length fs)
  unfolding tx_frames_from
  tx_frames_from-IsValid pre [] it k rounds s fs eo ei below v ptr =
      (s, nothing it fs rounds s, rw (advance_all_nil fs) v, ptr)
  tx_frames_from-IsValid pre (i ∷ order) it k rounds s fs eo ei below v ptr =
      let here : get_elem? schedule.order it ≡ some i =
        rw eo (get_elem?-append pre i order it ei) in
      let il = All-get (λ j. j < length fs) schedule.order it i below here in
      let itl : it < length schedule.order =
        rw eo (omega (arith, ei, length-append pre (i ∷ order))) in
      let (p, pe) =
        get_elem?-some schedule.order (previous_index schedule it)
          (previous_index-lt schedule it n small itl) in
      let pl =
        All-get (λ j. j < length fs) schedule.order (previous_index schedule it) p below pe in
      let (f, fe) = get_elem?-some fs i il in
      let (s1, e1, v1, fl) =
        tx_frame-IsValid pit_hw schedule it p i (needed (length order) k) (rounds it) s fs f v ptr
          pe pl here il fe in
      let same = length-set fs i (inc_flow_timer f) in
      let (s2, e2, v2, ptr2) =
        tx_frames_from-IsValid (pre ++ (i ∷ [])) order (it + 1) k rounds s1
          (set fs i (inc_flow_timer f)) (eo ∙ sym (append_assoc pre (i ∷ []) order))
          (omega (arith, ei, length-append pre (i ∷ [])))
          (subst (λ m. All (λ j. j < m) schedule.order) (sym same) below) v1
          (inl (i, fl, omega (arith, same, il))) in
      (
        s2,
        rw (
          e1,
          next_frame_lem it (length schedule.order) itl small,
          e2,
          reports_of_cons it i order fs rounds f fe,
        ),
        rw (advance_all_cons i order fs f fe) v2,
        subst (PointerIsSafe s2) same ptr2,
      )

pub inc_times-if :
    (b : Bool) (m : ℕ) (f : Flow)
    → inc_times m (if b then inc_flow_timer f else f) ≡ inc_times ((if b then 1 else 0) + m) f
inc_times-if true m f = let e : suc m ≡ 1 + m = omega arith in ap (λ k. inc_times k f) e
inc_times-if false m f = let e : m ≡ 0 + m = omega arith in ap (λ k. inc_times k f) e

pub ==_comm : (a b : ℕ) → (a == b) ≡ (b == a)
==_comm a b = ground arith

-- Each flow's timer advances once for each of its frames.
pub get_elem?-advance_all :
    (order : List ℕ) (fs : List Flow) (j : ℕ) (f : Flow)
    → All (λ i. i < length fs) order
    → get_elem? fs j ≡ some f
    → get_elem? (advance_all order fs) j ≡ some (inc_times (occurrences j order) f)
get_elem?-advance_all [] fs j f h e = rw (advance_all_nil fs) e
get_elem?-advance_all (i ∷ order) fs j f h e =
    let (g, ge) = get_elem?-some fs i h.0 in
    rw (advance_all_cons i order fs g ge) (
      get_elem?-advance_all order (set fs i (inc_flow_timer g)) j
        (if j == i then inc_flow_timer f else f)
        (subst (λ m. All (λ k. k < m) order) (sym (length-set fs i (inc_flow_timer g))) h.1)
        (get_elem?-set inc_flow_timer fs i j g f ge e)
      ∙ ap some (
          inc_times-if (j == i) (occurrences j order) f
          ∙ ap (λ b. inc_times ((if b then 1 else 0) + occurrences j order) f) (==_comm j i)))

-- The timer of a flow `f` of the table, whose launch time is `x` modulo 2 ^ 64, once a cycle of queue
-- `q` is over.
pub record IsAdvanced (q cycle : ℕ) (f f' : Flow) (x : ℕ) : Type 0 where
  pub period : f'.period ≡ f.period
  pub sche_time : f'.sche_time ≡ (x + (if in_queue q f then cycle else 0)) % u64_mod

pub inc_times-IsAdvanced :
    (q cycle x : ℕ) (f : Flow)
    → f.period ∣ cycle
    → f.sche_time ≡ x % u64_mod
    → IsAdvanced q cycle f (inc_times (if in_queue q f then cycle / f.period else 0) f) x
inc_times-IsAdvanced q cycle x f d e = record {
  period = inc_times-period (if in_queue q f then cycle / f.period else 0) f;
  sche_time =
      sche_time-inc_times (if in_queue q f then cycle / f.period else 0) f x e
      ∙ elim (Bool-cases (in_queue q f)) [
        | inl here ↦ rw here (ap (λ t. (x + t) % u64_mod) (div-mul_cancel f.period d))
        | inr there ↦ rw there (ap (λ t. (x + t) % u64_mod) (omega arith))
      ];
}

-- A cycle reports the frames of the schedule and advances their flows' timers.
pub tx_cycle-reports :
    (pit_hw : Bool) (schedule : ScheduleState) (q cycle k : ℕ) (rounds : ℕ → Round) (s : TxState)
    (fs : List Flow)
    → IsSchedule schedule q cycle fs
    → length schedule.order < 2 ^ 31
    → IsValid s fs (needed (length schedule.order) k)
    → PointerIsSafe s (length fs)
    → (s' : TxState) × (tx_cycle pit_hw schedule rounds s
        ≡ some (reports_of 0 schedule.order fs rounds, s'))
      × IsValid s' (advance_all schedule.order fs) k
      × PointerIsSafe s' (length fs)
unfolding tx_cycle
tx_cycle-reports pit_hw schedule q cycle k rounds s fs sched small v ptr =
    let n = order-length schedule q cycle fs sched in
    let (s', e, v', ptr') =
      tx_frames_from-IsValid pit_hw schedule n small [] schedule.order 0 k rounds s fs refl refl
        (order-below schedule q cycle fs sched) v ptr in
    (s', ap (λ m. tx_frames_from pit_hw schedule m 0 rounds s) n ∙ e, v', ptr')

-- Let the schedule be that of queue `q` for the flows `fs`, with fewer than 2 ^ 31 frames, and let the
-- state be valid, with room for two counts a frame; let `f` be the j-th flow, with a period that
-- divides the cycle. Then a cycle of `tx_loop` does not fault, whatever the clocks show, each reading
-- succeeding, and the NIC does in its rounds: it reports the frames of the schedule in order and leaves a valid state, where the
-- launch time of `f` has moved on by exactly one cycle if it is a flow of the queue, and is as it was
-- if not.
pub tx_cycle-advances :
    (pit_hw : Bool) (schedule : ScheduleState) (q cycle k : ℕ) (rounds : ℕ → Round) (s : TxState)
    (fs : List Flow) (j x : ℕ) (f : Flow)
    → IsSchedule schedule q cycle fs
    → length schedule.order < 2 ^ 31
    → IsValid s fs (needed (length schedule.order) k)
    → PointerIsSafe s (length fs)
    → get_elem? fs j ≡ some f
    → f.period ∣ cycle
    → f.sche_time ≡ x % u64_mod
    → (s' : TxState) × (fs' : List Flow) × (f' : Flow) × (tx_cycle pit_hw schedule rounds s
        ≡ some (reports_of 0 schedule.order fs rounds, s'))
      × IsValid s' fs' k
      × PointerIsSafe s' (length fs)
      × (get_elem? fs' j ≡ some f')
      × IsAdvanced q cycle f f' x
tx_cycle-advances pit_hw schedule q cycle k rounds s fs j x f sched small v ptr fe d xe =
    let below = order-below schedule q cycle fs sched in
    let (s', e, v', ptr') =
      tx_cycle-reports pit_hw schedule q cycle k rounds s fs sched small v ptr in
    (
      s',
      advance_all schedule.order fs,
      inc_times (if in_queue q f then cycle / f.period else 0) f,
      e,
      v',
      ptr',
      get_elem?-advance_all schedule.order fs j f below fe
          ∙ ap (λ m. some (inc_times m f)) (order-occurrences schedule q cycle fs sched j f fe),
      inc_times-IsAdvanced q cycle x f d xe,
    )
