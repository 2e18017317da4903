-- ===== src/Sche/Instants.antt =====
-- The time of each frame of a schedule: the earlier frames of its flow tell which frame it is.
use mathlib.Core.List.{Perm, Permᴰ, Mem, mem-cons, mem-cons_self, not-mem-nil}
use mathlib.Core.List.Perm
use mathlib.Core.Logic.{∥∥₁_elim, ∥∥₁_prop}
use mathlib.Core.Logic.Or
use native.Mathlib.Bridge.{le_prop}
use rtgen_dpdk_next.Base.{
  ℕ, zero, suc, ◌+◌, ◌/◌, ◌<◌, ◌≤◌, ◌≡◌, ◌≢◌, refl, ap, sym, subst, ◌∙◌, Bool-cases, true, inl, inr,
  some, List, [], ◌∷◌, ◌++◌, arith, All, IsAscending, take, append-nil, get_elem?, ◌==◌, ==_iff,
  ne→==-false, if◌then◌else◌,
}
use rtgen_dpdk_next.Flow.{Flow}
use rtgen_dpdk_next.Sche.{ScheduleState}
use rtgen_dpdk_next.Sche.Frames.{Frame, frames_from, frame_time, queue_frames, in_queue}
use rtgen_dpdk_next.Sche.Fill.{ids_of, times_of}
use rtgen_dpdk_next.Sche.Occurrences.{occurrences, order-occurrences}
use rtgen_dpdk_next.Sche.Build.{IsSchedule}

-- The times of the frames of flow `i`.
abbrev pick : ℕ → Frame → List ℕ → List ℕ
pick i x l = if x.1 == i then x.0 ∷ l else l

times_for : ℕ → List Frame → List ℕ
times_for i [] = []
times_for i (x ∷ l) = pick i x (times_for i l)

pick-perm : (i : ℕ) (x : Frame) (l m : List ℕ) → Perm l m → Perm (pick i x l) (pick i x m)
pick-perm i x l m p = elim (Bool-cases (x.1 == i)) [
  | inl e ↦ rw e (Perm.cons x.0 p)
  | inr e ↦ rw e p
]

pick-swap :
    (i : ℕ) (x y : Frame) (l : List ℕ) → Perm (pick i y (pick i x l)) (pick i x (pick i y l))
pick-swap i x y l = elim (Bool-cases (x.1 == i)) [
  | inr e ↦ rw e (Perm.refl _)
  | inl e ↦ elim (Bool-cases (y.1 == i)) [
    | inr u ↦ rw (e, u) (Perm.refl _)
    | inl u ↦ rw (e, u) (Perm.swap x.0 y.0 l)
  ]
]

times_for-permᴰ : (i : ℕ) {l m : List Frame} → Permᴰ l m → Perm (times_for i l) (times_for i m)
unfolding times_for
times_for-permᴰ i Permᴰ.nil = Perm.nil
times_for-permᴰ i (Permᴰ.cons {a = a} {b = b} {l₁ = l} {l₂ = m} e d) =
    subst (λ z. Perm (pick i a (times_for i l)) (pick i z (times_for i m))) e
      (pick-perm i a (times_for i l) (times_for i m) (times_for-permᴰ i d))
times_for-permᴰ i (Permᴰ.swap {a = a} {b = b} {b' = b'} {l = l} e₁ e₂) =
    subst (λ z. Perm (pick i a (pick i b (times_for i l))) (pick i z (pick i b' (times_for i l))))
      e₂
      (subst (λ z. Perm (pick i a (pick i b (times_for i l))) (pick i b (pick i z (times_for i l))))
        e₁ (pick-swap i b a (times_for i l)))
times_for-permᴰ i (Permᴰ.trans d₁ d₂) = Perm.trans (times_for-permᴰ i d₁) (times_for-permᴰ i d₂)

times_for-perm : (i : ℕ) {l m : List Frame} → Perm l m → Perm (times_for i l) (times_for i m)
times_for-perm i p = ∥∥₁_elim p ∥∥₁_prop (times_for-permᴰ i)

le_of_mem : (x a : ℕ) (xs : List ℕ) → All (λ y. x ≤ y) xs → Mem a xs → x ≤ a
le_of_mem x a [] h m = absurd (not-mem-nil m)
le_of_mem x a (y ∷ ys) h m = Or.elim le_prop (mem-cons.0 m) (λ e. rw e h.0) (le_of_mem x a ys h.1)

-- Two ascending lists with the same elements are equal.
ascending_unique : (l m : List ℕ) → IsAscending l → IsAscending m → Perm l m → l ≡ m
ascending_unique [] [] hl hm p = refl
ascending_unique [] (y ∷ m) hl hm p = absurd (not-mem-nil ((Perm.mem_iff p).1 mem-cons_self))
ascending_unique (x ∷ l) [] hl hm p = absurd (not-mem-nil ((Perm.mem_iff p).0 mem-cons_self))
ascending_unique (x ∷ l) (y ∷ m) hl hm p =
    let a : y ≤ x = le_of_mem y x (y ∷ m) (omega arith, hm.0) ((Perm.mem_iff p).0 mem-cons_self) in
    let b : x ≤ y = le_of_mem x y (x ∷ l) (omega arith, hl.0) ((Perm.mem_iff p).1 mem-cons_self) in
    let e : x ≡ y = omega arith in
    let q : Perm l m = Perm.cons_inv (subst (λ z. Perm (x ∷ l) (z ∷ m)) (sym e) p) in
    rw (e, ascending_unique l m hl.1 hm.1 q)

All-times_for :
    (i b : ℕ) (l : List Frame) → All (λ y. b ≤ y) (times_of l) → All (λ y. b ≤ y) (times_for i l)
unfolding times_for
All-times_for i b [] h = tt
All-times_for i b (x ∷ l) h = elim (Bool-cases (x.1 == i)) [
  | inl e ↦ rw e (h.0, All-times_for i b l h.1)
  | inr e ↦ rw e (All-times_for i b l h.1)
]

times_for-IsAscending :
    (i : ℕ) (l : List Frame) → IsAscending (times_of l) → IsAscending (times_for i l)
unfolding times_for
times_for-IsAscending i [] h = tt
times_for-IsAscending i (x ∷ l) h = elim (Bool-cases (x.1 == i)) [
  | inl e ↦ rw e (All-times_for i x.0 l h.0, times_for-IsAscending i l h.1)
  | inr e ↦ rw e (times_for-IsAscending i l h.1)
]

-- The times of a flow's frames from the j-th one on.
abbrev flow_times : (rounds j : ℕ) → Flow → List ℕ
flow_times zero j f = []
flow_times (suc n) j f = frame_time f j ∷ flow_times n (j + 1) f

later_frame : (f : Flow) (j k : ℕ) → j ≤ k → frame_time f j ≤ frame_time f k
later_frame f j k h = grind arith

All-flow_times : (n j k : ℕ) (f : Flow) → j ≤ k → All (λ y. frame_time f j ≤ y) (flow_times n k f)
All-flow_times zero j k f h = tt
All-flow_times (suc n) j k f h = (later_frame f j k h, All-flow_times n j (k + 1) f (omega arith))

flow_times-IsAscending : (n j : ℕ) (f : Flow) → IsAscending (flow_times n j f)
flow_times-IsAscending zero j f = tt
flow_times-IsAscending (suc n) j f =
    (All-flow_times n j (j + 1) f (omega arith), flow_times-IsAscending n (j + 1) f)

get_elem?-flow_times :
    (n j m t : ℕ) (f : Flow) → get_elem? (flow_times n j f) m ≡ some t → t ≡ frame_time f (j + m)
get_elem?-flow_times zero j m t f e = absurd (cc)
get_elem?-flow_times (suc n) j zero t f e =
    let q : frame_time f j ≡ t = cc in sym q ∙ ap (frame_time f) (omega arith)
get_elem?-flow_times (suc n) j (suc m) t f e =
    get_elem?-flow_times n (j + 1) m t f e ∙ ap (frame_time f) (omega arith)

times_for-append :
    (i : ℕ) (l m : List Frame) → times_for i (l ++ m) ≡ times_for i l ++ times_for i m
unfolding times_for
times_for-append i [] m = refl
times_for-append i (x ∷ l) m = elim (Bool-cases (x.1 == i)) [
  | inl e ↦ rw (e, times_for-append i l m)
  | inr e ↦ rw (e, times_for-append i l m)
]

times_for-frames_from_self :
    (n j i : ℕ) (f : Flow) → times_for i (frames_from n j i f) ≡ flow_times n j f
unfolding times_for
times_for-frames_from_self zero j i f = refl
times_for-frames_from_self (suc n) j i f =
    let e : (i == i) ≡ true = (==_iff i i).1 refl in
    rw (e, times_for-frames_from_self n (j + 1) i f)

times_for-frames_from_ne : (n j k i : ℕ) (f : Flow) → k ≢ i → times_for i (frames_from n j k f) ≡ []
unfolding times_for
times_for-frames_from_ne zero j k i f h = refl
times_for-frames_from_ne (suc n) j k i f h =
    rw (ne→==-false k i h, times_for-frames_from_ne n (j + 1) k i f h)

-- What a flow contributes to the frames of queue `q`.
abbrev own_frames : (q cycle i : ℕ) → Flow → List Frame
own_frames q cycle i f = if in_queue q f then frames_from (cycle / f.period) 0 i f else []

own_times_ne : (q cycle k i : ℕ) (f : Flow) → k ≢ i → times_for i (own_frames q cycle k f) ≡ []
unfolding times_for
own_times_ne q cycle k i f h = elim (Bool-cases (in_queue q f)) [
  | inl e ↦ rw e (times_for-frames_from_ne (cycle / f.period) 0 k i f h)
  | inr e ↦ rw e
]

times_for-before :
    (q cycle i j : ℕ) (fs : List Flow) → j < i → times_for j (queue_frames q cycle i fs) ≡ []
unfolding times_for
times_for-before q cycle i j [] h = refl
times_for-before q cycle i j (f ∷ fs) h =
    times_for-append j (own_frames q cycle i f) (queue_frames q cycle (i + 1) fs)
    ∙ rw (
      own_times_ne q cycle i j f (λ e. absurd (omega arith)),
      times_for-before q cycle (i + 1) j fs (omega arith),
    )

-- The times of the flow `k` of the table, a flow of the queue.
times_for-queue_frames :
    (q cycle i k : ℕ) (fs : List Flow) (f : Flow)
    → get_elem? fs k ≡ some f
    → in_queue q f ≡ true
    → times_for (i + k) (queue_frames q cycle i fs) ≡ flow_times (cycle / f.period) 0 f
times_for-queue_frames q cycle i k [] f e h = absurd (cc)
times_for-queue_frames q cycle i zero (g ∷ fs) f e h =
    let same : g ≡ f = cc in
    let at : i + zero ≡ i = omega arith in
    rw (at, same)
      (times_for-append i (own_frames q cycle i f) (queue_frames q cycle (i + 1) fs)
        ∙ rw (
          h,
          times_for-frames_from_self (cycle / f.period) 0 i f,
          times_for-before q cycle (i + 1) i fs (omega arith),
          append-nil,
        ))
times_for-queue_frames q cycle i (suc k) (g ∷ fs) f e h =
    let at : i + suc k ≡ i + 1 + k = omega arith in
    rw at (
      times_for-append (i + 1 + k) (own_frames q cycle i g) (queue_frames q cycle (i + 1) fs)
      ∙ rw (own_times_ne q cycle i (i + 1 + k) g (λ u. absurd (omega arith)))
          (times_for-queue_frames q cycle (i + 1) k fs f e h))

-- The frame `k` of a list stands among its flow's frames behind those that come before.
get_elem?-times_for :
    (l : List Frame) (k t i : ℕ)
    → get_elem? l k ≡ some (t, i)
    → get_elem? (times_for i l) (occurrences i (take k (ids_of l))) ≡ some t
unfolding times_for
get_elem?-times_for [] k t i e = absurd (cc)
get_elem?-times_for (x ∷ l) zero t i e =
    let a : x.0 ≡ t = cc in
    let b : x.1 ≡ i = cc in let h : (x.1 == i) ≡ true = (==_iff x.1 i).1 b in rw h (ap some a)
get_elem?-times_for (x ∷ l) (suc k) t i e = elim (Bool-cases (x.1 == i)) [
  | inl h ↦
      let n : 1 + occurrences i (take k (ids_of l)) ≡ suc (occurrences i (take k (ids_of l))) =
        omega arith in
      rw (h, n) (get_elem?-times_for l k t i e)
  | inr h ↦
      let n : 0 + occurrences i (take k (ids_of l)) ≡ occurrences i (take k (ids_of l)) =
        omega arith in
      rw (h, n) (get_elem?-times_for l k t i e)
]

occurrences-pos : (l : List ℕ) (k i : ℕ) → get_elem? l k ≡ some i → 0 < occurrences i l
occurrences-pos [] k i e = absurd (cc)
occurrences-pos (j ∷ l) zero i e =
    let q : j ≡ i = cc in let b : (j == i) ≡ true = (==_iff j i).1 q in rw b (omega arith)
occurrences-pos (j ∷ l) (suc k) i e = omega (arith, occurrences-pos l k i e)

get_elem?-frame :
    (l : List Frame) (k t i : ℕ)
    → get_elem? (ids_of l) k ≡ some i
    → get_elem? (times_of l) k ≡ some t
    → get_elem? l k ≡ some (t, i)
get_elem?-frame [] k t i a b = absurd (cc)
get_elem?-frame ((u, j) ∷ l) zero t i a b = cc
get_elem?-frame (x ∷ l) (suc k) t i a b = get_elem?-frame l k t i a b

module _ (schedule : ScheduleState) (q cycle : ℕ) (fs : List Flow)
    (h : IsSchedule schedule q cycle fs) where
  flow_times-frames :
      (i : ℕ) (f : Flow)
      → get_elem? fs i ≡ some f
      → in_queue q f ≡ true
      → times_for i h.frames ≡ flow_times (cycle / f.period) 0 f
  flow_times-frames i f e here =
      let z : 0 + i ≡ i = omega arith in
      let all : times_for i (queue_frames q cycle 0 fs) ≡ flow_times (cycle / f.period) 0 f =
        ap (λ j. times_for j (queue_frames q cycle 0 fs)) (sym z)
        ∙ times_for-queue_frames q cycle 0 i fs f e here in
      ascending_unique (times_for i h.frames) (flow_times (cycle / f.period) 0 f)
        (times_for-IsAscending i h.frames (subst IsAscending h.sending_time h.ascending))
        (flow_times-IsAscending (cycle / f.period) 0 f)
        (subst (Perm (times_for i h.frames)) all (times_for-perm i h.complete))

  -- The k-th sending time of a schedule is that of the m-th frame of its flow, where `m` is the number
  -- of frames of the flow before it.
  pub sending_time-eq :
      (k i t : ℕ) (f : Flow)
      → get_elem? schedule.order k ≡ some i
      → get_elem? schedule.sending_time k ≡ some t
      → get_elem? fs i ≡ some f
      → in_queue q f ≡ true
      → t ≡ frame_time f (occurrences i (take k schedule.order))
  sending_time-eq k i t f oe te fe here =
      let m : ℕ = occurrences i (take k (ids_of h.frames)) in
      let at : get_elem? h.frames k ≡ some (t, i) =
        get_elem?-frame h.frames k t i (subst (λ l. get_elem? l k ≡ some i) h.order oe)
          (subst (λ l. get_elem? l k ≡ some t) h.sending_time te) in
      let found : get_elem? (flow_times (cycle / f.period) 0 f) m ≡ some t =
        subst (λ l. get_elem? l m ≡ some t) (flow_times-frames i f fe here)
          (get_elem?-times_for h.frames k t i at) in
      get_elem?-flow_times (cycle / f.period) 0 m t f found
      ∙ ap (frame_time f)
          (let z : 0 + m ≡ m = omega arith in z ∙ ap (λ l. occurrences i (take k l)) (sym h.order))

  -- The entries of a schedule are flows of its queue.
  pub order-in_queue :
      (k i : ℕ) (f : Flow)
      → get_elem? schedule.order k ≡ some i
      → get_elem? fs i ≡ some f
      → in_queue q f ≡ true
  order-in_queue k i f oe fe = elim (Bool-cases (in_queue q f)) [
    | inl e ↦ e
    | inr e ↦
        let none' : occurrences i schedule.order ≡ 0 =
          order-occurrences schedule q cycle fs h i f fe
          ∙ ap (λ b. if b then cycle / f.period else 0) e in
        absurd (omega (arith, none', occurrences-pos schedule.order k i oe))
  ]
