-- ===== src/Sche/Occurrences.antt =====
-- How often a flow occurs in the schedule of a queue.
use mathlib.Core.List.{Perm, Permᴰ}
use mathlib.Core.Logic.{∥∥₁_elim}
use native.Mathlib.Nat.{ℕ_set}
use rtgen_dpdk_next.Base.{
  ℕ, zero, suc, ◌+◌, ◌/◌, ◌<◌, ◌≤◌, ◌≡◌, ◌≢◌, refl, ap, sym, subst, ◌∙◌, Bool-cases, inl, inr, some,
  List, [], ◌∷◌, ◌++◌, arith, All, length, length-map, get_elem?, ◌==◌, if◌then◌else◌, dec_lt,
}
use rtgen_dpdk_next.Flow.{Flow}
use rtgen_dpdk_next.Sche.{ScheduleState}
use rtgen_dpdk_next.Sche.Frames.{Frame, frames_from, queue_frames, in_queue}
use rtgen_dpdk_next.Sche.Fill.{ids_of}
use rtgen_dpdk_next.Sche.Build.{IsSchedule}

abbrev pub occurrences : ℕ → List ℕ → ℕ
occurrences j [] = 0
occurrences j (i ∷ l) = (if i == j then 1 else 0) + occurrences j l

occurrences-append :
    (j : ℕ) (l m : List Frame)
    → occurrences j (ids_of (l ++ m)) ≡ occurrences j (ids_of l) + occurrences j (ids_of m)
occurrences-append j [] m = omega arith
occurrences-append j (x ∷ l) m = omega (arith, occurrences-append j l m)

occurrences-frames_from_self :
    (n k i : ℕ) (f : Flow) → occurrences i (ids_of (frames_from n k i f)) ≡ n
occurrences-frames_from_self zero k i f = refl
occurrences-frames_from_self (suc n) k i f =
    ground (arith, occurrences-frames_from_self n (k + 1) i f)

occurrences-frames_from_ne :
    (n k i j : ℕ) (f : Flow) → i ≢ j → occurrences j (ids_of (frames_from n k i f)) ≡ 0
occurrences-frames_from_ne zero k i j f h = refl
occurrences-frames_from_ne (suc n) k i j f h =
    ground (arith, occurrences-frames_from_ne n (k + 1) i j f h)

abbrev own_frames : (q cycle i : ℕ) → Flow → List Frame
own_frames q cycle i f = if in_queue q f then frames_from (cycle / f.period) 0 i f else []

own_frames_self :
    (q cycle i : ℕ) (f : Flow)
    → occurrences i (ids_of (own_frames q cycle i f))
      ≡ (if in_queue q f then cycle / f.period else 0)
own_frames_self q cycle i f = elim (Bool-cases (in_queue q f)) [
  | inl e ↦ rw e (occurrences-frames_from_self (cycle / f.period) 0 i f)
  | inr e ↦ rw e
]

own_frames_ne :
    (q cycle i j : ℕ) (f : Flow) → i ≢ j → occurrences j (ids_of (own_frames q cycle i f)) ≡ 0
own_frames_ne q cycle i j f h = elim (Bool-cases (in_queue q f)) [
  | inl e ↦ rw e (occurrences-frames_from_ne (cycle / f.period) 0 i j f h)
  | inr e ↦ rw e
]

occurrences-queue_frames_cons :
    (q cycle i j : ℕ) (f : Flow) (fs : List Flow)
    → occurrences j (ids_of (queue_frames q cycle i (f ∷ fs)))
      ≡ occurrences j (ids_of (own_frames q cycle i f))
        + occurrences j (ids_of (queue_frames q cycle (i + 1) fs))
occurrences-queue_frames_cons q cycle i j f fs =
    occurrences-append j (own_frames q cycle i f) (queue_frames q cycle (i + 1) fs)

-- No flow before the first occurs.
before-queue_frames :
    (q cycle i j : ℕ) (fs : List Flow)
    → j < i
    → occurrences j (ids_of (queue_frames q cycle i fs)) ≡ 0
before-queue_frames q cycle i j [] h = refl
before-queue_frames q cycle i j (f ∷ fs) h = omega (
  arith,
  occurrences-queue_frames_cons q cycle i j f fs,
  own_frames_ne q cycle i j f (λ e. absurd (omega arith)),
  before-queue_frames q cycle (i + 1) j fs (omega arith),
)

-- No flow behind the last occurs.
behind-queue_frames :
    (q cycle i j : ℕ) (fs : List Flow)
    → i + length fs ≤ j
    → occurrences j (ids_of (queue_frames q cycle i fs)) ≡ 0
behind-queue_frames q cycle i j [] h = refl
behind-queue_frames q cycle i j (f ∷ fs) h = omega (
  arith,
  occurrences-queue_frames_cons q cycle i j f fs,
  own_frames_ne q cycle i j f (λ e. absurd (omega arith)),
  behind-queue_frames q cycle (i + 1) j fs (omega arith),
)

occurrences-queue_frames :
    (q cycle i k : ℕ) (fs : List Flow) (f : Flow)
    → get_elem? fs k ≡ some f
    → occurrences (i + k) (ids_of (queue_frames q cycle i fs))
      ≡ (if in_queue q f then cycle / f.period else 0)
occurrences-queue_frames q cycle i k [] f e = absurd (cc)
occurrences-queue_frames q cycle i zero (g ∷ fs) f e =
    let same : g ≡ f = cc in
    let at : i + zero ≡ i = omega arith in
    rw (at, ← same)
      (omega (
        arith,
        occurrences-queue_frames_cons q cycle i i g fs,
        own_frames_self q cycle i g,
        before-queue_frames q cycle (i + 1) i fs (omega arith),
      ))
occurrences-queue_frames q cycle i (suc k) (g ∷ fs) f e =
    let at : i + suc k ≡ i + 1 + k = omega arith in
    rw at (
      omega (
        arith,
        occurrences-queue_frames_cons q cycle i (i + 1 + k) g fs,
        own_frames_ne q cycle i (i + 1 + k) g (λ e. absurd (omega arith)),
        occurrences-queue_frames q cycle (i + 1) k fs f e,
      ))

abbrev weight : ℕ → Frame → ℕ
weight j x = if x.1 == j then 1 else 0

occurrences-permᴰ :
    (j : ℕ) {l m : List Frame} → Permᴰ l m → occurrences j (ids_of l) ≡ occurrences j (ids_of m)
occurrences-permᴰ j Permᴰ.nil = refl
occurrences-permᴰ j (Permᴰ.cons e d) = omega (arith, ap (weight j) e, occurrences-permᴰ j d)
occurrences-permᴰ j (Permᴰ.swap e₁ e₂) = omega (arith, ap (weight j) e₁, ap (weight j) e₂)
occurrences-permᴰ j (Permᴰ.trans d₁ d₂) = occurrences-permᴰ j d₁ ∙ occurrences-permᴰ j d₂

occurrences-perm :
    (j : ℕ) {l m : List Frame} → Perm l m → occurrences j (ids_of l) ≡ occurrences j (ids_of m)
occurrences-perm j p = ∥∥₁_elim p (ℕ_set _ _) (occurrences-permᴰ j)

-- A list where nothing from `n` on occurs.
All-lt_of_occurrences :
    (n : ℕ) (l : List ℕ) → ((j : ℕ) → n ≤ j → occurrences j l ≡ 0) → All (λ i. i < n) l
All-lt_of_occurrences n [] h = tt
All-lt_of_occurrences n (i ∷ l) h = (
  elim (dec_lt i n) [ yes p ↦ p | no p ↦ absurd (ground (arith, h i)) ],
  All-lt_of_occurrences n l (λ j nj. omega (arith, h j nj)),
)

length-permᴰ : {l m : List Frame} → Permᴰ l m → length l ≡ length m
length-permᴰ Permᴰ.nil = refl
length-permᴰ (Permᴰ.cons e d) = ap suc (length-permᴰ d)
length-permᴰ (Permᴰ.swap e₁ e₂) = refl
length-permᴰ (Permᴰ.trans d₁ d₂) = length-permᴰ d₁ ∙ length-permᴰ d₂

module _ (schedule : ScheduleState) (q cycle : ℕ) (fs : List Flow)
    (h : IsSchedule schedule q cycle fs) where
  occurrences-order :
      (j : ℕ) → occurrences j schedule.order ≡ occurrences j (ids_of (queue_frames q cycle 0 fs))
  occurrences-order j = ap (occurrences j) h.order ∙ occurrences-perm j h.complete

  -- A cycle sends a frame of each flow of the queue as often as its period fits the cycle, and none of
  -- the other flows.
  pub order-occurrences :
      (j : ℕ) (f : Flow)
      → get_elem? fs j ≡ some f
      → occurrences j schedule.order ≡ (if in_queue q f then cycle / f.period else 0)
  order-occurrences j f e =
      occurrences-order j
      ∙ subst
          (λ k.
            occurrences k (ids_of (queue_frames q cycle 0 fs))
            ≡ (if in_queue q f then cycle / f.period else 0))
          (let z : 0 + j ≡ j = omega arith in z) (occurrences-queue_frames q cycle 0 j fs f e)

  -- The schedule names flows of the table only.
  pub order-below : All (λ i. i < length fs) schedule.order
  order-below =
      All-lt_of_occurrences (length fs) schedule.order
        λ j nj. occurrences-order j ∙ behind-queue_frames q cycle 0 j fs (omega arith)

  -- The count of the frames is the length of the schedule.
  pub order-length : schedule.num_frames_per_cycle ≡ length schedule.order
  order-length =
      h.count
      ∙ ∥∥₁_elim h.complete (ℕ_set _ _) (λ p. sym (length-permᴰ p))
      ∙ sym (length-map h.frames (λ x. x.1))
      ∙ sym (ap length h.order)
