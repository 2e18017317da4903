-- ===== src/Experiments/Rounds.antt =====
-- What each round of the loop of .legacy/dac_exp_multicore.c does, by the clock and by its tries.
use rtgen_dpdk_next.Base.{
  ℕ, zero, suc, ◌+◌, ◌-◌, ◌*◌, ◌%◌, ◌<◌, ◌≤◌, ◌≡◌, refl, subst, inl, inr, Bool, Bool-cases, true,
  false, some, List, [], ◌∷◌, arith, length, ltb, ltb→lt, ltb→le, sub64, sub64-eq, u64_mod,
  if◌then◌else◌,
}
use rtgen_dpdk_next.Experiments.{Round, Outcome, missed, failed, sent, send_until, interval_of}
use rtgen_dpdk_next.Experiments.Multicore.{Progress, cycle, tx_loop}
use rtgen_dpdk_next.Experiments.Counts.{
  GivesUp, send_until-GivesUp, outcome_of, expected, num_missed, num_failed, num_sent,
  tx_loop-expected,
}

-- The tries from `i` on that come before the `n`-th are not taken, and the interval is not over after them.
abbrev pub AreVain : Round → (interval i n : ℕ) → Type 0
AreVain r interval i n =
    (j : ℕ) → i ≤ j → j < n → (r.accepted j ≡ false) × (sub64 (r.timer j) r.start_send < interval)

-- How the tries from `i` on end: with one that is taken, or after the interval.
pub data EndsWith (interval i : ℕ) (r : Round) : Bool → Type 0 where
  taken : (n : ℕ) → AreVain r interval i n → r.accepted n ≡ true → EndsWith interval i r true
  given_up :
      (n : ℕ)
      → AreVain r interval i n
      → r.accepted n ≡ false
      → interval ≤ sub64 (r.timer n) r.start_send
      → EndsWith interval i r false

-- What the round does whose frame is due at `t`: it wakes up 1500000 ns before, and is too late less than
-- 500000 ns before.
pub data IsOutcome (interval t : ℕ) (r : Round) : Outcome → Type 0 where
  too_late : t < r.ts + 500000 → IsOutcome interval t r missed
  goes :
      r.ts + 500000 ≤ t
      → EndsWith interval 0 r true
      → IsOutcome interval t r (sent (t - 1500000 - r.ts) t)
  stays :
      r.ts + 500000 ≤ t
      → EndsWith interval 0 r false
      → IsOutcome interval t r (failed (t - 1500000 - r.ts) t)

-- Round `k` is due `k + 1` cycles after `offset`.
abbrev pub AreOutcomes : (interval offset k : ℕ) → (ℕ → Round) → List Outcome → Type 0
AreOutcomes interval offset k rounds [] = Unit
AreOutcomes interval offset k rounds (o ∷ os) =
    IsOutcome interval (offset + (k + 1) * cycle) (rounds k) o
    × AreOutcomes interval offset (k + 1) rounds os

no_tries : (r : Round) (interval i : ℕ) → AreVain r interval i i
no_tries r interval i j le lt = absurd (omega (arith, le, lt))

one_more :
    (r : Round) (interval i n : ℕ)
    → r.accepted i ≡ false
    → sub64 (r.timer i) r.start_send < interval
    → AreVain r interval (i + 1) n
    → AreVain r interval i n
one_more r interval i n e lt h j le l = elim (Bool-cases (ltb i j)) [
  | inl more ↦ h j (let m = ltb→lt _ _ more in omega (arith, m)) l
  | inr same ↦
      let q : i ≡ j = let m = ltb→le _ _ same in omega (arith, m, le) in
      subst (λ x. (r.accepted x ≡ false) × (sub64 (r.timer x) r.start_send < interval)) q (e, lt)
]

send_until-EndsWith :
    (r : Round) (interval fuel i : ℕ) (b : Bool)
    → send_until r interval fuel i ≡ some b
    → EndsWith interval i r b
unfolding send_until
send_until-EndsWith r interval zero i b e = absurd (cc)
send_until-EndsWith r interval (suc n) i b e = elim (Bool-cases (r.accepted i)) [
  | inl yes' ↦
      let q : true ≡ b = let u : some true ≡ some b = rw (send_until, yes') at e in cc in
      subst (EndsWith interval i r) q (EndsWith.taken i (no_tries r interval i) yes')
  | inr no' ↦ elim (Bool-cases (ltb (sub64 (r.timer i) r.start_send) interval)) [
    | inr over ↦
        let q : false ≡ b = let u : some false ≡ some b = rw (send_until, no', over) at e in cc in
        subst (EndsWith interval i r) q
          (EndsWith.given_up i (no_tries r interval i) no' (ltb→le _ _ over))
    | inl early ↦
        let rest : send_until r interval n (i + 1) ≡ some b = rw (send_until, no', early) at e in
        later b no' (ltb→lt _ _ early) (send_until-EndsWith r interval n (i + 1) b rest)
  ]
]
  where
    later :
        (b : Bool)
        → r.accepted i ≡ false
        → sub64 (r.timer i) r.start_send < interval
        → EndsWith interval (i + 1) r b
        → EndsWith interval i r b
    later b no' early (EndsWith.taken m vain y) =
        EndsWith.taken m (one_more r interval i m no' early vain) y
    later b no' early (EndsWith.given_up m vain y over) =
        EndsWith.given_up m (one_more r interval i m no' early vain) y over

outcome_of-IsOutcome :
    (interval t : ℕ) (r : Round) (b : Bool)
    → 1500000 ≤ t
    → t < u64_mod
    → EndsWith interval 0 r b
    → IsOutcome interval t r (outcome_of t r b)
outcome_of-IsOutcome interval t r b le small h =
    let e : sub64 t 1500000 ≡ t - 1500000 = sub64-eq t 1500000 small le in
    let e' : sub64 t 500000 ≡ t - 500000 = sub64-eq t 500000 small (omega arith) in
    elim (Bool-cases (ltb r.ts (t - 1500000))) [
      | inl early ↦
          let lt = ltb→lt _ _ early in
          let slept : sub64 (t - 1500000) r.ts ≡ t - 1500000 - r.ts =
            sub64-eq (t - 1500000) r.ts (omega arith) (omega (arith, lt)) in
          rw (e, early, slept) (try b (omega (arith, lt)) h)
      | inr late' ↦ elim (Bool-cases (ltb (t - 500000) r.ts)) [
        | inl past ↦
            rw (e, e', late', past)
              (IsOutcome.too_late (let lt = ltb→lt _ _ past in omega (arith, lt, le)))
        | inr in_time ↦
            let ge = ltb→le _ _ late' in
            let z : 0 ≡ t - 1500000 - r.ts = omega (arith, ge) in
            rw (e, e', late', in_time, z)
              (try b (let lt = ltb→le _ _ in_time in omega (arith, lt, le)) h)
      ]
    ]
  where
    try :
        (b : Bool)
        → r.ts + 500000 ≤ t
        → EndsWith interval 0 r b
        → IsOutcome interval t r
            (if b then sent (t - 1500000 - r.ts) t else failed (t - 1500000 - r.ts) t)
    try true ok h = IsOutcome.goes ok h
    try false ok h = IsOutcome.stays ok h

module _ (interval fuel offset : ℕ) (rounds : ℕ → Round)
    (ends : (k : ℕ) → GivesUp interval fuel (rounds k)) where
  expected-AreOutcomes :
      (n k : ℕ)
      → 1500000 ≤ offset
      → offset + (k + n) * cycle < u64_mod
      → (AreOutcomes interval offset k rounds (expected interval fuel offset n k rounds))
        × (length (expected interval fuel offset n k rounds) ≡ n)
  unfolding expected
  expected-AreOutcomes zero k le room = (tt, refl)
  expected-AreOutcomes (suc n) k le room =
      let (b, run) = send_until-GivesUp (rounds k) interval fuel (ends k) in
      let ended = send_until-EndsWith (rounds k) interval fuel 0 b run in
      let t : ℕ = offset + (k + 1) * cycle in
      let fits : t < u64_mod = omega (arith, room) in
      let due : t % u64_mod ≡ t = omega (arith, fits) in
      let (rest, len) = expected-AreOutcomes n (k + 1) le (omega (arith, room)) in
      (
        (
          rw (run, due)
              (outcome_of-IsOutcome interval t (rounds k) b (omega (arith, le)) fits ended),
          rest,
        ),
        omega (arith, len),
      )

-- Let the tries of each round come to an end, and let the launch times start 1500000 ns after 0 or later
-- and stay below 2 ^ 64. Then the loop of .legacy/dac_exp_multicore.c ends after its number of rounds.
-- Round `k` is due `k + 1` cycles after the offset. It is missed if the clock is less than 500000 ns
-- before that; otherwise it sleeps until 1500000 ns before, and the frame is sent with that launch time
-- if a try is taken, each try before it being early in the interval, and failed if the interval is over
-- first. The counters say how many rounds were missed and failed; with the sent ones these are all.
pub tx_loop-AreOutcomes :
    (timer_hz fuel num offset : ℕ) (rounds : ℕ → Round)
    → 1500000 ≤ offset
    → offset + num * cycle < u64_mod
    → ((k : ℕ) → GivesUp (interval_of cycle timer_hz) fuel (rounds k))
    → (os : List Outcome) × (s : Progress) × (tx_loop timer_hz fuel num offset rounds
        ≡ some (os, s))
      × (length os ≡ num)
      × AreOutcomes (interval_of cycle timer_hz) offset 0 rounds os
      × (s.num_missed_deadlines ≡ num_missed os)
      × (s.num_failed ≡ num_failed os)
      × (s.num_missed_deadlines + s.num_failed + num_sent os ≡ num)
tx_loop-AreOutcomes hz fuel num offset rounds le room ends =
    let (s, e, count, m, f, all) =
      tx_loop-expected hz fuel num offset rounds (omega (arith, room)) ends in
    let (good, len) =
      expected-AreOutcomes (interval_of cycle hz) fuel offset rounds ends num 0 le
        (omega (arith, room)) in
    (expected (interval_of cycle hz) fuel offset num 0 rounds, s, e, len, good, m, f, all)
