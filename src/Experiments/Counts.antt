-- ===== src/Experiments/Counts.antt =====
-- The loop of .legacy/dac_exp_multicore.c: what it does in each round, and its counters.
use rtgen_dpdk_next.Base.{
  ℕ, zero, suc, ◌+◌, ◌*◌, ◌%◌, ◌<◌, ◌≤◌, ◌≡◌, refl, ap, sym, subst, ◌∙◌, ◌⊎◌, inl, inr, Bool,
  Bool-cases, true, false, Option, none, some, List, [], ◌∷◌, arith, ltb, ltb→lt, lt→ltb, le→ltb,
  if◌then◌else◌, sub64, add64, u64_mod,
}
use rtgen_dpdk_next.Experiments.{
  Round, Outcome, missed, failed, sent, send_until, interval_of, misses, sleep_time,
}
use rtgen_dpdk_next.Experiments.Multicore.{Progress, cycle, tx_round, tx_rounds, tx_loop}

-- A try is taken, or the counter shows after it that the interval is over.
abbrev pub IsOver : Round → (interval try : ℕ) → Type 0
IsOver r interval n = (r.accepted n ≡ true) ⊎ (interval ≤ sub64 (r.timer n) r.start_send)

-- One of the first `fuel` tries ends the round.
pub record GivesUp (interval fuel : ℕ) (r : Round) : Type 0 where
  pub tries : ℕ
  pub enough : tries < fuel
  pub over : IsOver r interval tries

-- At the `k`-th try from `i` on it is over.
send_until-some :
    (r : Round) (interval fuel i k : ℕ)
    → k < fuel
    → IsOver r interval (i + k)
    → (taken : Bool) × (send_until r interval fuel i ≡ some taken)
unfolding send_until
send_until-some r interval zero i k h over = elim h [ ]
send_until-some r interval (suc n) i zero h over = elim (Bool-cases (r.accepted i)) [
  | inl e ↦ (true, rw (send_until, e))
  | inr e ↦ elim (Bool-cases (ltb (sub64 (r.timer i) r.start_send) interval)) [
    | inr late ↦ (false, rw (send_until, e, late))
    | inl early ↦
        let z : i + zero ≡ i = omega arith in
        elim (subst (IsOver r interval) z over) [
          | inl yes' ↦ absurd (let u = sym e ∙ yes' in cc)
          | inr le ↦ absurd (let lt = ltb→lt _ _ early in omega (arith, le, lt))
        ]
  ]
]
send_until-some r interval (suc n) i (suc k) h over = elim (Bool-cases (r.accepted i)) [
  | inl e ↦ (true, rw (send_until, e))
  | inr e ↦ elim (Bool-cases (ltb (sub64 (r.timer i) r.start_send) interval)) [
    | inr late ↦ (false, rw (send_until, e, late))
    | inl early ↦
        let z : i + suc k ≡ i + 1 + k = omega arith in
        let (taken, run) =
          send_until-some r interval n (i + 1) k (omega arith) (subst (IsOver r interval) z over) in
        (taken, rw (send_until, e, early) run)
  ]
]

pub send_until-GivesUp :
    (r : Round) (interval fuel : ℕ)
    → GivesUp interval fuel r
    → (taken : Bool) × (send_until r interval fuel 0 ≡ some taken)
send_until-GivesUp r interval fuel h = send_until-some r interval fuel 0 h.tries h.enough (
    subst (λ m. (r.accepted m ≡ true) ⊎ (interval ≤ sub64 (r.timer m) r.start_send)) (omega arith)
      h.over)

-- Whether the frame of a round goes out, once its tries are over.
abbrev pub goes_out : Option Bool → Bool
goes_out none = false
goes_out (some taken) = taken

abbrev pub outcome_of : (launch_time : ℕ) → Round → Bool → Outcome
outcome_of t r taken =
    if misses t r.ts
    then missed
    else if taken
    then sent (sleep_time t r.ts) t
    else failed (sleep_time t r.ts) t

-- What rounds `k`, `k + 1` and so on do: the launch time of round `k` is `k + 1` cycles after `offset`.
unfoldable pub expected : (interval fuel offset n k : ℕ) → (ℕ → Round) → List Outcome
expected interval fuel offset zero k rounds = []
expected interval fuel offset (suc n) k rounds =
    outcome_of ((offset + (k + 1) * cycle) % u64_mod) (rounds k)
      (goes_out (send_until (rounds k) interval fuel 0))
    ∷ expected interval fuel offset n (k + 1) rounds

abbrev pub num_missed : List Outcome → ℕ
num_missed [] = 0
num_missed (missed ∷ os) = suc (num_missed os)
num_missed (failed s t ∷ os) = num_missed os
num_missed (sent s t ∷ os) = num_missed os

abbrev pub num_failed : List Outcome → ℕ
num_failed [] = 0
num_failed (missed ∷ os) = num_failed os
num_failed (failed s t ∷ os) = suc (num_failed os)
num_failed (sent s t ∷ os) = num_failed os

abbrev pub num_sent : List Outcome → ℕ
num_sent [] = 0
num_sent (missed ∷ os) = num_sent os
num_sent (failed s t ∷ os) = num_sent os
num_sent (sent s t ∷ os) = suc (num_sent os)

-- The counters after a list of outcomes.
pub record Counted (s s' : Progress) (os : List Outcome) (n : ℕ) : Type 0 where
  pub count : s'.count ≡ s.count + n
  pub missed_is : s'.num_missed_deadlines ≡ s.num_missed_deadlines + num_missed os
  pub failed_is : s'.num_failed ≡ s.num_failed + num_failed os
  pub total : num_missed os + num_failed os + num_sent os ≡ n

abbrev due : Progress → ℕ
due s = add64 s.next_cycle cycle

module _ (interval fuel num offset : ℕ) (rounds : ℕ → Round)
    (ends : (k : ℕ) → GivesUp interval fuel (rounds k)) where
  step_at :
      (s : Progress) (taken : Bool)
      → send_until (rounds s.count) interval fuel 0 ≡ some taken
      → (s' : Progress) × (tx_round interval fuel (rounds s.count) s
          ≡ some (outcome_of (due s) (rounds s.count) taken, s'))
        × Counted s s' (outcome_of (due s) (rounds s.count) taken ∷ []) 1
        × (s'.next_cycle ≡ (due s))
  unfolding tx_round
  step_at s taken run = elim (Bool-cases (misses (due s) (rounds s.count).ts)) [
    | inl late ↦ (
      record s {
        next_cycle = (due s);
        num_missed_deadlines = s.num_missed_deadlines + 1;
        count = s.count + 1;
      },
      rw (tx_round, late),
      rw late
          (record { count = refl; missed_is = refl; failed_is = omega arith; total = omega arith }),
      refl,
    )
    | inr timely ↦ rw timely (timely_step taken timely run)
  ]
    where
      timely_step :
          (taken : Bool)
          → misses (due s) (rounds s.count).ts ≡ false
          → send_until (rounds s.count) interval fuel 0 ≡ some taken
          → (s' : Progress) × (tx_round interval fuel (rounds s.count) s
              ≡ some (
                if taken
                    then sent (sleep_time (due s) (rounds s.count).ts) (due s)
                    else failed (sleep_time (due s) (rounds s.count).ts) (due s),
                s',
              ))
            × Counted s s'
                ((if taken
                    then sent (sleep_time (due s) (rounds s.count).ts) (due s)
                    else failed (sleep_time (due s) (rounds s.count).ts) (due s))
                  ∷ [])
                1
            × (s'.next_cycle ≡ (due s))
      timely_step true timely run = (
        record s { next_cycle = (due s); count = s.count + 1 },
        rw (tx_round, timely, run),
        record {
          count = refl;
          missed_is = omega arith;
          failed_is = omega arith;
          total = omega arith;
        },
        refl,
      )
      timely_step false timely run = (
        record s { next_cycle = (due s); num_failed = s.num_failed + 1; count = s.count + 1 },
        rw (tx_round, timely, run),
        record { count = refl; missed_is = omega arith; failed_is = refl; total = omega arith },
        refl,
      )

  join :
      (s s1 s2 : Progress) (o : Outcome) (os : List Outcome) (n : ℕ)
      → Counted s s1 (o ∷ []) 1
      → Counted s1 s2 os n
      → Counted s s2 (o ∷ os) (suc n)
  join s s1 s2 missed os n a b = record {
    count = omega (arith, a.count, b.count);
    missed_is = omega (arith, a.missed_is, b.missed_is);
    failed_is = omega (arith, a.failed_is, b.failed_is);
    total = omega (arith, a.total, b.total);
  }
  join s s1 s2 (failed z t) os n a b = record {
    count = omega (arith, a.count, b.count);
    missed_is = omega (arith, a.missed_is, b.missed_is);
    failed_is = omega (arith, a.failed_is, b.failed_is);
    total = omega (arith, a.total, b.total);
  }
  join s s1 s2 (sent z t) os n a b = record {
    count = omega (arith, a.count, b.count);
    missed_is = omega (arith, a.missed_is, b.missed_is);
    failed_is = omega (arith, a.failed_is, b.failed_is);
    total = omega (arith, a.total, b.total);
  }

  tx_rounds-expected :
      (n k : ℕ) (s : Progress)
      → s.count ≡ k
      → s.next_cycle ≡ (offset + k * cycle) % u64_mod
      → k + n ≡ num
      → (s' : Progress) × (tx_rounds interval fuel num n rounds s
          ≡ some (expected interval fuel offset n k rounds, s'))
        × Counted s s' (expected interval fuel offset n k rounds) n
  unfolding tx_rounds expected
  tx_rounds-expected zero k s ck now e =
      let stop : ltb s.count num ≡ false = le→ltb s.count num (omega (arith, ck, e)) in
      (
        s,
        rw stop,
        record {
          count = omega arith;
          missed_is = omega arith;
          failed_is = omega arith;
          total = refl;
        },
      )
  tx_rounds-expected (suc n) k s ck now e =
      let go : ltb s.count num ≡ true = lt→ltb s.count num (omega (arith, ck, e)) in
      let (taken, run) = send_until-GivesUp (rounds s.count) interval fuel (ends s.count) in
      let (s1, e1, c1, now1) = step_at s taken run in
      let due_is : due s ≡ (offset + (k + 1) * cycle) % u64_mod = omega (arith, now) in
      let (s2, e2, c2) =
        tx_rounds-expected n (k + 1) s1 (omega (arith, c1.count, ck)) (now1 ∙ due_is)
          (omega (arith, e)) in
      let o : outcome_of (due s) (rounds s.count) taken
          ≡ outcome_of ((offset + (k + 1) * cycle) % u64_mod) (rounds k)
              (goes_out (send_until (rounds k) interval fuel 0)) =
        ap (λ t. outcome_of t (rounds s.count) taken) due_is
        ∙ (ap (λ b. outcome_of ((offset + (k + 1) * cycle) % u64_mod) (rounds s.count) (goes_out b))
              (sym run)
            ∙ ap
                (λ c.
                  outcome_of ((offset + (k + 1) * cycle) % u64_mod) (rounds c)
                    (goes_out (send_until (rounds c) interval fuel 0)))
                ck) in
      let rest = expected interval fuel offset n (k + 1) rounds in
      (
        s2,
        rw (tx_rounds, go, e1, e2) (ap (λ x. some (x ∷ rest, s2)) o),
        subst (λ x. Counted s s2 (x ∷ rest) (suc n)) o
            (join s s1 s2 (outcome_of (due s) (rounds s.count) taken) rest n c1 c2),
      )

-- Let the tries of each round come to an end. Then the loop of .legacy/dac_exp_multicore.c ends after
-- its number of rounds. Round `k` is due `k + 1` cycles after the offset, in 64 bits: it is missed if the
-- clock is past the latest time for that, and otherwise the frame is tried with that launch time. The
-- counters say how many rounds were missed and failed, and with the frames sent these are all rounds.
pub tx_loop-expected :
    (timer_hz fuel num offset : ℕ) (rounds : ℕ → Round)
    → offset < u64_mod
    → ((k : ℕ) → GivesUp (interval_of cycle timer_hz) fuel (rounds k))
    → (s : Progress) × (tx_loop timer_hz fuel num offset rounds
        ≡ some (expected (interval_of cycle timer_hz) fuel offset num 0 rounds, s))
      × (s.count ≡ num)
      × (s.num_missed_deadlines
          ≡ num_missed (expected (interval_of cycle timer_hz) fuel offset num 0 rounds))
      × (s.num_failed ≡ num_failed (expected (interval_of cycle timer_hz) fuel offset num 0 rounds))
      × (s.num_missed_deadlines
            + s.num_failed
            + num_sent (expected (interval_of cycle timer_hz) fuel offset num 0 rounds)
          ≡ num)
unfolding tx_loop
tx_loop-expected hz fuel num offset rounds small ends =
    let (s, e, c) =
      tx_rounds-expected (interval_of cycle hz) fuel num offset rounds ends num 0
        (record { count = 0; next_cycle = offset; num_missed_deadlines = 0; num_failed = 0 }) refl
        (omega arith) (omega arith) in
    (
      s,
      e,
      omega (arith, c.count),
      omega (arith, c.missed_is),
      omega (arith, c.failed_is),
      omega (arith, c.missed_is, c.failed_is, c.total),
    )
