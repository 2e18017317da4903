-- ===== src/Engine/Sleep.antt =====
-- For how long `sleep` waits.
use rtgen_dpdk_next.Base.{
  ℕ, zero, suc, ◌+◌, ◌-◌, ◌*◌, ◌/◌, ◌%◌, ◌^◌, ◌<◌, ◌≤◌, ◌≡◌, ap, ap₂, ◌∙◌, true, false, inl, inr,
  Bool-cases, some, arith, leb, ltb, leb→le, ltb→lt, ltb→le, u64_mod, sub64, add64-eq, dec_lt,
  subst,
}
use rtgen_dpdk_next.Flow.{one_second_in_ns}
use rtgen_dpdk_next.Engine.{sleep_seconds, sleep_cycles, wait_until, sleep}

times_pred : (k hz : ℕ) → 0 < k → k * hz ≡ hz + (k - 1) * hz
times_pred zero hz h = elim h [ ]
times_pred (suc k) hz h = grind arith

sleep_seconds-eq :
    (hz fuel cycles ns : ℕ)
    → ns / one_second_in_ns ≤ fuel
    → cycles + ns / one_second_in_ns * hz < u64_mod
    → sleep_seconds hz fuel cycles ns ≡ (cycles + ns / one_second_in_ns * hz, ns % one_second_in_ns)
unfolding sleep_seconds
sleep_seconds-eq hz zero cycles ns h room =
    let q : ns / one_second_in_ns ≡ 0 = omega arith in
    rw q (ap₂ (λ a b. (a, b)) (omega arith) (omega arith))
sleep_seconds-eq hz (suc n) cycles ns h room = elim (Bool-cases (leb one_second_in_ns ns)) [
  | inr short ↦
      let lt : ns < one_second_in_ns = leb→lt one_second_in_ns ns short in
      let q : ns / one_second_in_ns ≡ 0 = omega arith in
      rw (sleep_seconds, short, q) (ap₂ (λ a b. (a, b)) (omega arith) (omega arith))
  | inl long ↦
      let le : one_second_in_ns ≤ ns = leb→le one_second_in_ns ns long in
      let q : ns / one_second_in_ns - 1 ≡ (ns - one_second_in_ns) / one_second_in_ns =
        omega arith in
      let t : ns / one_second_in_ns * hz ≡ hz + (ns - one_second_in_ns) / one_second_in_ns * hz =
        times_pred (ns / one_second_in_ns) hz (omega arith) ∙ ap (λ k. hz + k * hz) q in
      rw (sleep_seconds, long)
        (ap (λ c. sleep_seconds hz n c (ns - one_second_in_ns))
            (add64-eq cycles hz (omega (arith, t)))
          ∙ sleep_seconds-eq hz n (cycles + hz) (ns - one_second_in_ns) (omega arith)
              (omega (arith, t))
          ∙ ap₂ (λ a b. (a, b)) (omega (arith, t)) (omega arith))
]
  where
    leb→lt : (a b : ℕ) → leb a b ≡ false → b < a
    leb→lt a b e = ground arith

spread :
    (ns w r hz : ℕ) → ns ≡ one_second_in_ns * w + r → ns * hz ≡ one_second_in_ns * (w * hz) + r * hz
spread ns w r hz e = rw e (grind arith)

split_lem :
    (ns hz : ℕ)
    → ns * hz ≡ one_second_in_ns * (ns / one_second_in_ns * hz) + ns % one_second_in_ns * hz
split_lem ns hz = spread ns (ns / one_second_in_ns) (ns % one_second_in_ns) hz (omega arith)

product_fits : (r hz : ℕ) → r < one_second_in_ns → hz ≤ 2 ^ 34 → r * hz < u64_mod
product_fits r hz h k = grind arith

-- For a counter of at most 2 ^ 34 Hz and a number of cycles below 2 ^ 64, `sleep` waits for the exact
-- number of cycles, rounded down, although `ns * pit_timer_hz` may not fit in 64 bits.
pub sleep_cycles-exact :
    (hz ns : ℕ)
    → hz ≤ 2 ^ 34
    → ns * hz / one_second_in_ns < u64_mod
    → sleep_cycles hz ns ≡ ns * hz / one_second_in_ns
unfolding sleep_cycles
sleep_cycles-exact hz ns h room =
    let w : ℕ = ns / one_second_in_ns in
    let r : ℕ = ns % one_second_in_ns in
    let split : ns * hz ≡ one_second_in_ns * (w * hz) + r * hz = split_lem ns hz in
    let e : sleep_seconds hz ns 0 ns ≡ (0 + w * hz, r) =
      sleep_seconds-eq hz ns 0 ns (omega arith) (omega (arith, split)) in
    rw e (omega (arith, split, product_fits r hz (omega arith) h))

wait_until_now :
    (clock : ℕ → ℕ) (start cycles n i : ℕ)
    → ltb (sub64 (clock i) start) cycles ≡ false
    → wait_until clock start cycles (suc n) i ≡ some i
unfolding wait_until
wait_until_now clock start cycles n i e = rw (wait_until, e)

wait_until_later :
    (clock : ℕ → ℕ) (start cycles n i : ℕ)
    → ltb (sub64 (clock i) start) cycles ≡ true
    → wait_until clock start cycles (suc n) i ≡ wait_until clock start cycles n (i + 1)
unfolding wait_until
wait_until_later clock start cycles n i e = rw (wait_until, e)

wait_until_lem :
    (clock : ℕ → ℕ) (start cycles fuel k i : ℕ)
    → cycles ≤ sub64 (clock (i + k)) start
    → k < fuel
    → (e : ℕ) × (wait_until clock start cycles fuel i ≡ some e)
      × (e ≤ i + k)
      × (cycles ≤ sub64 (clock e) start)
      × ((j : ℕ) → i ≤ j → j < e → sub64 (clock j) start < cycles)
wait_until_lem clock start cycles zero k i over h = elim h [ ]
wait_until_lem clock start cycles (suc n) k i over h =
    elim (Bool-cases (ltb (sub64 (clock i) start) cycles)) [
      | inr done ↦ (
        i,
        wait_until_now clock start cycles n i done,
        omega arith,
        ltb→le (sub64 (clock i) start) cycles done,
        λ j le lt. absurd (omega (arith, le, lt)),
      )
      | inl more ↦
          let early : sub64 (clock i) start < cycles = ltb→lt (sub64 (clock i) start) cycles more in
          let pos : 0 < k = not_zero k over early in
          let c : i + k ≡ i + 1 + (k - 1) = omega arith in
          let (e, q, le, late, before) =
            wait_until_lem clock start cycles n (k - 1) (i + 1)
              (subst (λ m. cycles ≤ sub64 (clock m) start) c over) (omega arith) in
          (
            e,
            wait_until_later clock start cycles n i more ∙ q,
            omega (arith, le),
            late,
            λ j lj lt. elim (dec_lt i j) [
              | yes p ↦ before j (omega arith) lt
              | no p ↦
                  let same : i ≡ j = omega arith in
                  subst (λ m. sub64 (clock m) start < cycles) same early
            ],
          )
    ]
  where
    not_zero :
        (k : ℕ) → cycles ≤ sub64 (clock (i + k)) start → sub64 (clock i) start < cycles → 0 < k
    not_zero zero over early =
        let c : i + 0 ≡ i = omega arith in
        let here : cycles ≤ sub64 (clock i) start =
          subst (λ m. cycles ≤ sub64 (clock m) start) c over in
        absurd (omega (arith, here, early))
    not_zero (suc k) over early = omega arith

-- For a counter of at most 2 ^ 34 Hz, a time whose number of cycles fits in 64 bits, and readings
-- of the counter that show in the loop's k-th one, counted from 0, that the time is over, more than
-- `k` rounds of fuel let `sleep` end: at the first reading of the loop that is at least the exact
-- number of cycles after the start.
pub sleep-waits :
    (hz ns k fuel : ℕ) (clock : ℕ → ℕ)
    → hz ≤ 2 ^ 34
    → ns * hz / one_second_in_ns < u64_mod
    → ns * hz / one_second_in_ns ≤ sub64 (clock (1 + k)) (clock 0)
    → k < fuel
    → (i : ℕ) × (sleep hz clock fuel ns ≡ some i)
      × (i ≤ 1 + k)
      × (ns * hz / one_second_in_ns ≤ sub64 (clock i) (clock 0))
      × ((j : ℕ) → 1 ≤ j → j < i → sub64 (clock j) (clock 0) < ns * hz / one_second_in_ns)
unfolding sleep
sleep-waits hz ns k fuel clock h room over enough =
    rw (sleep_cycles-exact hz ns h room)
      (wait_until_lem clock (clock 0) (ns * hz / one_second_in_ns) fuel k 1 over enough)
