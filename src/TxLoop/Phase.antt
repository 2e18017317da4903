-- ===== src/TxLoop/Phase.antt =====
-- A cycle moves the timers of a queue by one cycle, and its schedule stays the schedule.
use mathlib.Core.List.{Perm}
use rtgen_dpdk_next.Base.{
  ℕ, zero, suc, ◌+◌, ◌*◌, ◌/◌, ◌%◌, ◌<◌, ◌≡◌, ◌∣◌, refl, ap, sym, subst, ◌∙◌, true, false, none,
  some, List, [], ◌∷◌, ◌++◌, arith, All, length, length-set, get_elem?, get_elem?-some,
  lt_of_get_elem?, set, if◌then◌else◌, u64_mod,
}
use rtgen_dpdk_next.Base.Int.{pos, ◌==ℤ◌}
use rtgen_dpdk_next.Flow.{Flow, inc_flow_timer, one_second_in_ns}
use rtgen_dpdk_next.Flow.Timer.{inc_times, inc_times-period}
use rtgen_dpdk_next.Sche.{ScheduleState}
use rtgen_dpdk_next.Sche.Occurrences.{occurrences, order-occurrences, order-below}
use rtgen_dpdk_next.Sche.Frames.{frame_time, in_queue, frames_from, queue_frames}
use rtgen_dpdk_next.Sche.Build.{IsSchedule}
use rtgen_dpdk_next.TxLoop.Cycle.{
  advance_all, advance_all_cons, advance_all_nil, get_elem?-advance_all, inc_times-IsAdvanced,
  IsAdvanced, All-get,
}
use rtgen_dpdk_next.TxLoop.Launches.{InPhase}

frames_from-inc_flow_timer :
    (n j i : ℕ) (f : Flow) → frames_from n j i (inc_flow_timer f) ≡ frames_from n j i f
unfolding inc_flow_timer
frames_from-inc_flow_timer zero j i f = refl
frames_from-inc_flow_timer (suc n) j i f =
    ap (λ l. (frame_time f j, i) ∷ l) (frames_from-inc_flow_timer n (j + 1) i f)

queue_frames-set :
    (q cycle i j : ℕ) (fs : List Flow) (g : Flow)
    → get_elem? fs j ≡ some g
    → queue_frames q cycle i (set fs j (inc_flow_timer g)) ≡ queue_frames q cycle i fs
unfolding inc_flow_timer
queue_frames-set q cycle i j [] g e = refl
queue_frames-set q cycle i zero (f ∷ fs) g e =
    let same : f ≡ g = cc in
    ap (λ l. (if in_queue q g then l else []) ++ queue_frames q cycle (i + 1) fs)
      (frames_from-inc_flow_timer (cycle / g.period) 0 i g)
    ∙ ap (λ z. queue_frames q cycle i (z ∷ fs)) (sym same)
queue_frames-set q cycle i (suc j) (f ∷ fs) g e =
    ap (λ l. (if in_queue q f then frames_from (cycle / f.period) 0 i f else []) ++ l)
      (queue_frames-set q cycle (i + 1) j fs g e)

queue_frames-advance_all :
    (q cycle : ℕ) (order : List ℕ) (fs : List Flow)
    → All (λ i. i < length fs) order
    → queue_frames q cycle 0 (advance_all order fs) ≡ queue_frames q cycle 0 fs
queue_frames-advance_all q cycle [] fs h = ap (queue_frames q cycle 0) (advance_all_nil fs)
queue_frames-advance_all q cycle (i ∷ order) fs h =
    let (g, e) = get_elem?-some fs i h.0 in
    let below : All (λ k. k < length (set fs i (inc_flow_timer g))) order =
      subst (λ m. All (λ k. k < m) order) (sym (length-set fs i (inc_flow_timer g))) h.1 in
    rw (advance_all_cons i order fs g e) (
      queue_frames-advance_all q cycle order (set fs i (inc_flow_timer g)) below
      ∙ queue_frames-set q cycle 0 i fs g e)

pub length-advance_all :
    (order : List ℕ) (fs : List Flow)
    → All (λ i. i < length fs) order
    → length (advance_all order fs) ≡ length fs
length-advance_all [] fs h = ap length (advance_all_nil fs)
length-advance_all (i ∷ order) fs h =
    let (g, e) = get_elem?-some fs i h.0 in
    let same = length-set fs i (inc_flow_timer g) in
    rw (advance_all_cons i order fs g e) (
      length-advance_all order (set fs i (inc_flow_timer g))
        (subst (λ m. All (λ k. k < m) order) (sym same) h.1)
      ∙ same)

-- What `inc_flow_timer` leaves alone.
record SameFlow (f g : Flow) : Type 0 where
  net : g.net ≡ f.net
  offset_sec : g.offset_sec ≡ f.offset_sec
  offset_nsec : g.offset_nsec ≡ f.offset_nsec

inc_times-SameFlow : (n : ℕ) (f : Flow) → SameFlow f (inc_times n f)
unfolding inc_flow_timer
inc_times-SameFlow zero f = record { net = refl; offset_sec = refl; offset_nsec = refl }
inc_times-SameFlow (suc n) f =
    let h = inc_times-SameFlow n (inc_flow_timer f) in
    record { net = h.net; offset_sec = h.offset_sec; offset_nsec = h.offset_nsec }

All-of_get {ℓ κ} :
    {A : Type ℓ} (P : A → Type κ) (xs : List A)
    → ((i : ℕ) (x : A) → get_elem? xs i ≡ some x → P x)
    → All P xs
All-of_get P [] h = tt
All-of_get P (x ∷ xs) h = (h zero x refl, All-of_get P xs (λ i y e. h (suc i) y e))

module _ (schedule : ScheduleState) (q cycle : ℕ) (fs : List Flow)
    (h : IsSchedule schedule q cycle fs) where
  pub advance_all-IsSchedule : IsSchedule schedule q cycle (advance_all schedule.order fs)
  advance_all-IsSchedule =
      let e =
        queue_frames-advance_all q cycle schedule.order fs (order-below schedule q cycle fs h) in
      record {
        frames = h.frames;
        sending_time = h.sending_time;
        order = h.order;
        ascending = h.ascending;
        complete = subst (Perm h.frames) (sym e) h.complete;
        count = h.count ∙ ap length (sym e);
        cycle_period = h.cycle_period;
      }

  advanced_flow :
      (start j : ℕ) (f g : Flow)
      → f.period ∣ cycle
      → InPhase q start f
      → get_elem? fs j ≡ some f
      → get_elem? (advance_all schedule.order fs) j ≡ some g
      → InPhase q (start + cycle) g × (g.period ≡ f.period)
  advanced_flow start j f g d phase fe ge =
      let n : ℕ = occurrences j schedule.order in
      let at : inc_times n f ≡ g =
        let u : some (inc_times n f) ≡ some g =
          sym (get_elem?-advance_all schedule.order fs j f (order-below schedule q cycle fs h) fe)
          ∙ ge in
        cc in
      subst (λ z. InPhase q (start + cycle) z × (z.period ≡ f.period)) at
        (moved n (order-occurrences schedule q cycle fs h j f fe), inc_times-period n f)
    where
      moved :
          (n : ℕ)
          → n ≡ (if in_queue q f then cycle / f.period else 0)
          → InPhase q (start + cycle) (inc_times n f)
      moved n e here =
          let k = inc_times-SameFlow n f in
          let here' : in_queue q f ≡ true =
            ap (λ net. elim net [ none ↦ false | some net ↦ net.queue ==ℤ pos q ]) (sym k.net)
            ∙ here in
          let a : IsAdvanced q cycle f (inc_times n f)
              (start + f.offset_sec * one_second_in_ns + f.offset_nsec) =
            subst
              (λ m.
                IsAdvanced q cycle f (inc_times m f)
                  (start + f.offset_sec * one_second_in_ns + f.offset_nsec))
              (sym e) (inc_times-IsAdvanced q cycle _ f d (phase here')) in
          let b : (if in_queue q f then cycle else 0) ≡ cycle = rw here' in
          a.sche_time ∙ ap (λ x. x % u64_mod) (omega (arith, b, k.offset_sec, k.offset_nsec))

  -- After a cycle of its queue each timer of the queue stands one cycle on.
  pub advance_all-InPhase :
      (start : ℕ)
      → All (λ f. f.period ∣ cycle) fs
      → All (InPhase q start) fs
      → All (InPhase q (start + cycle)) (advance_all schedule.order fs)
        × All (λ f. f.period ∣ cycle) (advance_all schedule.order fs)
  advance_all-InPhase start d phase =
      let below = order-below schedule q cycle fs h in
      let each : (j : ℕ) (g : Flow)
          → get_elem? (advance_all schedule.order fs) j ≡ some g
          → InPhase q (start + cycle) g × (g.period ∣ cycle) =
        λ j g e.
          let (f, fe) = get_elem?-some fs j (
            omega (
              arith,
              length-advance_all schedule.order fs below,
              lt_of_get_elem? (advance_all schedule.order fs) j g e,
            )) in
          let df = All-get (λ f. f.period ∣ cycle) fs j f d fe in
          let (p, same) =
            advanced_flow start j f g df (All-get (InPhase q start) fs j f phase fe) fe e in
          (p, subst (λ m. m ∣ cycle) (sym same) df) in
      (
        All-of_get (InPhase q (start + cycle)) (advance_all schedule.order fs)
            (λ j g e. (each j g e).0),
        All-of_get (λ f. f.period ∣ cycle) (advance_all schedule.order fs)
            (λ j g e. (each j g e).1),
      )
