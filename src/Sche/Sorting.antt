-- ===== src/Sche/Sorting.antt =====
-- `sort` puts the frames in ascending order of time, and keeps each time with its flow.
use mathlib.Core.List.{Perm}
use mathlib.Core.List.Perm
use rtgen_dpdk_next.Base.{
  ℕ, zero, suc, ◌-◌, ◌≤◌, ◌≡◌, refl, ap, subst, Option, some, true, false, List, [], ◌∷◌, ◌++◌,
  arith, All, IsAscending, length, ltb, ltb→lt, ltb→le, Bool-cases, inl, inr, append-nil,
}
use rtgen_dpdk_next.Sche.{bubble, sort_from, sort}
use rtgen_dpdk_next.Sche.Frames.{Frame}
use rtgen_dpdk_next.Sche.Fill.{times_of, ids_of}

abbrev arrays : List Frame → Option (List ℕ × List ℕ)
arrays l = some (times_of l, ids_of l)

-- One pass over `xs` with the frame `x` in hand: what it leaves behind, and the frame that it ends
-- with.
pass : Frame → List Frame → List Frame × Frame
pass x [] = ([], x)
pass x (y ∷ ys) = elim (ltb y.0 x.0) [
  | true ↦ let (front, last) = pass x ys in (y ∷ front, last)
  | false ↦ let (front, last) = pass y ys in (x ∷ front, last)
]

bubble-pass :
    (k : ℕ) (x : Frame) (xs post : List Frame)
    → k ≡ length xs
    → bubble k (times_of (x ∷ xs ++ post)) (ids_of (x ∷ xs ++ post))
      ≡ arrays ((pass x xs).0 ++ ((pass x xs).1 ∷ post))
unfolding bubble pass
bubble-pass zero x [] post e = refl
bubble-pass (suc k) x [] post e = absurd (omega arith)
bubble-pass zero x (y ∷ ys) post e = absurd (omega arith)
bubble-pass (suc k) x (y ∷ ys) post e = elim (Bool-cases (ltb y.0 x.0)) [
  | inl less ↦ rw (less, pass, bubble) (rw (bubble-pass k x ys post (omega arith)))
  | inr more ↦ rw (more, pass, bubble) (rw (bubble-pass k y ys post (omega arith)))
]

pass_nil : (x : Frame) → pass x [] ≡ ([], x)
unfolding pass
pass_nil x = refl

pass_less :
    (x y : Frame) (ys : List Frame)
    → ltb y.0 x.0 ≡ true
    → pass x (y ∷ ys) ≡ (y ∷ (pass x ys).0, (pass x ys).1)
unfolding pass
pass_less x y ys h = rw (h, pass)

pass_more :
    (x y : Frame) (ys : List Frame)
    → ltb y.0 x.0 ≡ false
    → pass x (y ∷ ys) ≡ (x ∷ (pass y ys).0, (pass y ys).1)
unfolding pass
pass_more x y ys h = rw (h, pass)

length-pass : (x : Frame) (xs : List Frame) → length (pass x xs).0 ≡ length xs
length-pass x [] = rw (pass_nil x)
length-pass x (y ∷ ys) = elim (Bool-cases (ltb y.0 x.0)) [
  | inl less ↦ rw (pass_less x y ys less) (ap suc (length-pass x ys))
  | inr more ↦ rw (pass_more x y ys more) (ap suc (length-pass y ys))
]

-- A pass moves frames and changes none.
pass-perm :
    (x : Frame) (xs post : List Frame)
    → Perm ((pass x xs).0 ++ ((pass x xs).1 ∷ post)) (x ∷ xs ++ post)
pass-perm x [] post = rw (pass_nil x) (Perm.refl _)
pass-perm x (y ∷ ys) post = elim (Bool-cases (ltb y.0 x.0)) [
  | inl less ↦
      rw (pass_less x y ys less)
        (Perm.trans (Perm.cons y (pass-perm x ys post)) (Perm.swap x y (ys ++ post)))
  | inr more ↦ rw (pass_more x y ys more) (Perm.cons x (pass-perm y ys post))
]

pass-All {κ} :
    (P : Frame → Type κ) (x : Frame) (xs : List Frame)
    → P x
    → All P xs
    → All P (pass x xs).0 × P (pass x xs).1
pass-All P x [] px pxs = rw (pass_nil x) (tt, px)
pass-All P x (y ∷ ys) px pxs = elim (Bool-cases (ltb y.0 x.0)) [
  | inl less ↦ rw (pass_less x y ys less) (let (a, b) = pass-All P x ys px pxs.1 in ((pxs.0, a), b))
  | inr more ↦ rw (pass_more x y ys more) (let (a, b) = pass-All P y ys pxs.0 pxs.1 in ((px, a), b))
]

abbrev Before : Frame → Frame → Type 0
Before x y = x.0 ≤ y.0

-- The frame that a pass ends with is a latest one. The lower bound carries the induction.
pass-latest :
    (x : Frame) (xs : List Frame)
    → All (λ y. Before y (pass x xs).1) (pass x xs).0 × Before x (pass x xs).1
pass-latest x [] = rw (pass_nil x) (tt, omega arith)
pass-latest x (y ∷ ys) = elim (Bool-cases (ltb y.0 x.0)) [
  | inl less ↦
      rw (pass_less x y ys less)
        (let (a, b) = pass-latest x ys in ((omega (arith, ltb→lt y.0 x.0 less, b), a), b))
  | inr more ↦ rw (pass_more x y ys more) (
      let (a, b) = pass-latest y ys in
      ((omega (arith, ltb→le y.0 x.0 more, b), a), omega (arith, ltb→le y.0 x.0 more, b)))
]

-- Every frame comes before each later one.
abbrev pub InOrder : List Frame → Type 0
InOrder [] = Unit
InOrder (x ∷ xs) = All (Before x) xs × InOrder xs

pub InOrder-IsAscending : (l : List Frame) → InOrder l → IsAscending (times_of l)
InOrder-IsAscending [] h = tt
InOrder-IsAscending (x ∷ xs) h = (times x xs h.0, InOrder-IsAscending xs h.1)
  where
    times : (x : Frame) (ys : List Frame) → All (Before x) ys → All (λ t. x.0 ≤ t) (times_of ys)
    times x [] h = tt
    times x (y ∷ ys) h = (h.0, times x ys h.1)

-- What is sorted already comes after all of what is not.
record Bounded (pre post : List Frame) : Type 0 where
  sorted : InOrder post
  later : All (λ x. All (Before x) post) pre

All-and {κ μ} :
    (P : Frame → Type κ) (Q : Frame → Type μ) (xs : List Frame)
    → All P xs
    → All Q xs
    → All (λ x. P x × Q x) xs
All-and P Q [] h k = tt
All-and P Q (x ∷ xs) h k = ((h.0, k.0), All-and P Q xs h.1 k.1)

pass-Bounded :
    (x : Frame) (xs post : List Frame)
    → Bounded (x ∷ xs) post
    → Bounded (pass x xs).0 ((pass x xs).1 ∷ post)
pass-Bounded x xs post b =
    let (a, l) = pass-All (λ y. All (Before y) post) x xs b.later.0 b.later.1 in
    record { sorted = (l, b.sorted); later = All-and _ _ _ (pass-latest x xs).0 a }

sort_from-InOrder :
    (k : ℕ) (pre post : List Frame)
    → length pre ≡ suc k
    → Bounded pre post
    → (l : List Frame) × (sort_from k (times_of (pre ++ post)) (ids_of (pre ++ post)) ≡ arrays l)
      × InOrder l
      × Perm l (pre ++ post)
unfolding sort_from
sort_from-InOrder k [] post e b = absurd (omega arith)
sort_from-InOrder zero (x ∷ []) post e b = (x ∷ post, refl, (b.later.0, b.sorted), Perm.refl _)
sort_from-InOrder zero (x ∷ y ∷ xs) post e b = absurd (omega arith)
sort_from-InOrder (suc k) (x ∷ xs) post e b =
    let (l, run, order, p) =
      sort_from-InOrder k (pass x xs).0 ((pass x xs).1 ∷ post) (omega (arith, length-pass x xs))
        (pass-Bounded x xs post b) in
    (
      l,
      rw (bubble-pass (suc k) x xs post (omega arith)) run,
      order,
      Perm.trans p (pass-perm x xs post),
    )

nothing_later : (l : List Frame) → All (λ x. All (Before x) []) l
nothing_later [] = tt
nothing_later (x ∷ l) = (tt, nothing_later l)

-- On two arrays of `n` elements, which hold the times and the flows of the frames `l`, `sort` makes
-- no access out of range and leaves the times and flows of a permutation of `l` in ascending order
-- of time.
pub sort-InOrder :
    (l : List Frame) (n : ℕ)
    → n ≡ length l
    → (l' : List Frame) × (sort (times_of l) (ids_of l) n ≡ some (times_of l', ids_of l'))
      × IsAscending (times_of l')
      × Perm l' l
unfolding sort sort_from
sort-InOrder [] n e = ([], rw e, tt, Perm.refl [])
sort-InOrder (x ∷ xs) n e =
    let (l, run, order, p) =
      sort_from-InOrder (length xs) (x ∷ xs) [] refl
        (record { sorted = tt; later = nothing_later (x ∷ xs) }) in
    let m : n - 1 ≡ length xs = omega arith in
    (
      l,
      rw m (
          subst (λ k. sort_from (length xs) (times_of k) (ids_of k) ≡ arrays l)
            (append-nil (x ∷ xs)) run),
      InOrder-IsAscending l order,
      subst (Perm l) (append-nil (x ∷ xs)) p,
    )
