-- ===== src/Statistic/Delays.antt =====
-- The delays and jitters that the statistics keep.
use Prim.Native.Nat.{◌^◌}
use native.Mathlib.Nat.{div-le_of_le-mul, mul_comm}
use rtgen_dpdk_next.Base.{
  false, ap, ◌∙◌, subst, ℕ, ◌+◌, ◌-◌, ◌*◌, ◌/◌, ◌<◌, ◌≤◌, ◌≡◌, ◌≢◌, refl, some, arith, u64_mod,
  distance, sub64, mul64, add64, ne→==-false,
}
use rtgen_dpdk_next.Statistic.{
  StatSt, abs_diff, running_avg, max_of, jitter_of, time_sw, time_hw, jitter_sw_of, jitter_hw_of,
  initial_st, bump_nums,
}

-- Two times less than 2 ^ 31 ns apart have the true distance.
pub abs_diff-distance :
    (a b : ℕ) → a < u64_mod → b < u64_mod → distance a b < 2 ^ 31 → abs_diff a b ≡ distance a b
abs_diff-distance a b ha hb h = ground arith

-- Two times more than 2 ^ 31 ns and less than 2 ^ 64 - 2 ^ 31 ns apart never have the true distance.
pub abs_diff-ne-distance :
    (a b : ℕ)
    → a < u64_mod
    → b < u64_mod
    → 2 ^ 31 < distance a b
    → distance a b < u64_mod - 2 ^ 31
    → abs_diff a b ≢ distance a b
abs_diff-ne-distance a b ha hb lo hi = ground arith

-- A packet that leaves `cur - pre` ns after the one before it, less than 2 ^ 31 ns off the period,
-- has the true jitter, when all times fit in 64 bits.
pub jitter_of-distance :
    (pre cur period : ℕ)
    → pre ≤ cur
    → cur < u64_mod
    → period < u64_mod
    → distance (cur - pre) period < 2 ^ 31
    → jitter_of pre cur period ≡ distance (cur - pre) period
jitter_of-distance pre cur period h hc hp d = ground arith

weighted-le : (avg n x bound : ℕ) → avg ≤ bound → x ≤ bound → avg * n + x ≤ bound * (n + 1)
weighted-le avg n x bound ha hx = grind arith

-- The running average does not fault or wrap, and stays below any bound on the old average and the new
-- value.
running_avg-le :
    (avg n x bound : ℕ)
    → 0 < n
    → n < u64_mod
    → avg ≤ bound
    → x ≤ bound
    → bound * n < u64_mod
    → (r : ℕ) × (running_avg avg n x ≡ some r) × (r ≤ bound) × (r ≡ (avg * (n - 1) + x) / n)
running_avg-le avg n x bound pos small ha hx h = (
  sum / n,
  rw (ne→==-false n 0 (omega arith)) (ap (λ t. some (t / n)) wide),
  div-le_of_le-mul n (omega (arith, bounded, mul_comm n bound)),
  refl,
)
  where
    sum : ℕ
    sum = avg * (n - 1) + x

    bounded : sum ≤ bound * n
    bounded =
        let e : n - 1 + 1 ≡ n = omega arith in
        subst (λ k. sum ≤ bound * k) e (weighted-le avg (n - 1) x bound ha hx)

    pred64 : sub64 n 1 ≡ n - 1
    pred64 = omega arith

    wide : add64 (mul64 avg (sub64 n 1)) x ≡ sum
    wide = rw pred64 (omega (arith, bounded))

-- Each average is at most the maximum beside it.
pub record AvgLeMax (x : StatSt) : Type 0 where
  pub jitter_hw : x.avg_jitter_hw ≤ x.max_jitter_hw
  pub jitter_sw : x.avg_jitter_sw ≤ x.max_jitter_sw
  pub delta_sw : x.avg_delta_sw ≤ x.max_delta_sw
  pub delta_hw : x.avg_delta_hw ≤ x.max_delta_hw

pub initial_st-AvgLeMax : (i : ℕ) → AvgLeMax (initial_st i)
initial_st-AvgLeMax i = omega arith

max_of-le : (old x : ℕ) → (old ≤ max_of old x) × (x ≤ max_of old x)
max_of-le old x = ground arith

max_of-zero : (x : ℕ) → max_of 0 x ≡ x
max_of-zero x = ground arith

-- One kind of delay: the new average, at most the new maximum.
avg_lem :
    (avg max n x : ℕ)
    → 0 < n
    → n < u64_mod
    → avg ≤ max
    → max_of max x * n < u64_mod
    → (r : ℕ) × (running_avg avg n x ≡ some r) × (r ≤ max_of max x) × (r ≡ (avg * (n - 1) + x) / n)
avg_lem avg max n x pos small h room =
    running_avg-le avg n x (max_of max x) pos small (omega (arith, max_of-le max x))
      (max_of-le max x).1 room

module _ (x : StatSt) (pos : 0 < x.num_pkt_send) (small : x.num_pkt_send < u64_mod)
    (h : AvgLeMax x) where
  -- With at least one packet counted as sent, averages at most their maxima, and room in 64 bits for
  -- the new maximum times the packets, the software delay is stored, the maximum is raised to it if
  -- need be, the average is that of the formula, and the averages are still at most their maxima.
  pub time_sw_lem :
      (swtime txtime : ℕ)
      → max_of x.max_delta_sw (abs_diff swtime txtime) * x.num_pkt_send < u64_mod
      → (y : StatSt) × (time_sw swtime txtime x ≡ some y)
        × AvgLeMax y
        × (y.delta_sw ≡ abs_diff swtime txtime)
        × (y.avg_delta_sw
            ≡ (x.avg_delta_sw * (x.num_pkt_send - 1) + abs_diff swtime txtime) / x.num_pkt_send)
        × (y.max_delta_sw ≡ max_of x.max_delta_sw (abs_diff swtime txtime))
  unfolding time_sw
  time_sw_lem swtime txtime room =
      let d = abs_diff swtime txtime in
      let (r, e, le, v) =
        avg_lem x.avg_delta_sw x.max_delta_sw x.num_pkt_send d pos small h.delta_sw room in
      (
        record x { delta_sw = d; avg_delta_sw = r; max_delta_sw = max_of x.max_delta_sw d },
        rw e,
        record {
          jitter_hw = h.jitter_hw;
          jitter_sw = h.jitter_sw;
          delta_sw = le;
          delta_hw = h.delta_hw;
        },
        refl,
        v,
        refl,
      )

  -- The same of the hardware delay: it is stored, with its maximum and the average of the formula, and
  -- the averages stay at most their maxima.
  pub time_hw_lem :
      (hwtime txtime : ℕ)
      → max_of x.max_delta_hw (abs_diff hwtime txtime) * x.num_pkt_send < u64_mod
      → (y : StatSt) × (time_hw hwtime txtime x ≡ some y)
        × AvgLeMax y
        × (y.delta_hw ≡ abs_diff hwtime txtime)
        × (y.avg_delta_hw
            ≡ (x.avg_delta_hw * (x.num_pkt_send - 1) + abs_diff hwtime txtime) / x.num_pkt_send)
        × (y.max_delta_hw ≡ max_of x.max_delta_hw (abs_diff hwtime txtime))
  unfolding time_hw
  time_hw_lem hwtime txtime room =
      let d = abs_diff hwtime txtime in
      let (r, e, le, v) =
        avg_lem x.avg_delta_hw x.max_delta_hw x.num_pkt_send d pos small h.delta_hw room in
      (
        record x { delta_hw = d; avg_delta_hw = r; max_delta_hw = max_of x.max_delta_hw d },
        rw e,
        record {
          jitter_hw = h.jitter_hw;
          jitter_sw = h.jitter_sw;
          delta_sw = h.delta_sw;
          delta_hw = le;
        },
        refl,
        v,
        refl,
      )

  -- The same of the software jitter: it is stored, with its maximum and the average of the formula, and
  -- the averages stay at most their maxima.
  pub jitter_sw_of_lem :
      (pre cur period : ℕ)
      → max_of x.max_jitter_sw (jitter_of pre cur period) * x.num_pkt_send < u64_mod
      → (y : StatSt) × (jitter_sw_of pre cur period x ≡ some y)
        × AvgLeMax y
        × (y.jitter_sw ≡ jitter_of pre cur period)
        × (y.avg_jitter_sw
            ≡ (x.avg_jitter_sw * (x.num_pkt_send - 1) + jitter_of pre cur period) / x.num_pkt_send)
        × (y.max_jitter_sw ≡ max_of x.max_jitter_sw (jitter_of pre cur period))
  unfolding jitter_sw_of
  jitter_sw_of_lem pre cur period room =
      let d = jitter_of pre cur period in
      let (r, e, le, v) =
        avg_lem x.avg_jitter_sw x.max_jitter_sw x.num_pkt_send d pos small h.jitter_sw room in
      (
        record x { jitter_sw = d; avg_jitter_sw = r; max_jitter_sw = max_of x.max_jitter_sw d },
        rw e,
        record {
          jitter_hw = h.jitter_hw;
          jitter_sw = le;
          delta_sw = h.delta_sw;
          delta_hw = h.delta_hw;
        },
        refl,
        v,
        refl,
      )

  -- The same of the hardware jitter: it is stored, with its maximum and the average of the formula, and
  -- the averages stay at most their maxima.
  pub jitter_hw_of_lem :
      (pre cur period : ℕ)
      → max_of x.max_jitter_hw (jitter_of pre cur period) * x.num_pkt_send < u64_mod
      → (y : StatSt) × (jitter_hw_of pre cur period x ≡ some y)
        × AvgLeMax y
        × (y.jitter_hw ≡ jitter_of pre cur period)
        × (y.avg_jitter_hw
            ≡ (x.avg_jitter_hw * (x.num_pkt_send - 1) + jitter_of pre cur period) / x.num_pkt_send)
        × (y.max_jitter_hw ≡ max_of x.max_jitter_hw (jitter_of pre cur period))
  unfolding jitter_hw_of
  jitter_hw_of_lem pre cur period room =
      let d = jitter_of pre cur period in
      let (r, e, le, v) =
        avg_lem x.avg_jitter_hw x.max_jitter_hw x.num_pkt_send d pos small h.jitter_hw room in
      (
        record x { jitter_hw = d; avg_jitter_hw = r; max_jitter_hw = max_of x.max_jitter_hw d },
        rw e,
        record {
          jitter_hw = le;
          jitter_sw = h.jitter_sw;
          delta_sw = h.delta_sw;
          delta_hw = h.delta_hw;
        },
        refl,
        v,
        refl,
      )

-- On fresh statistics, the first packet that is sent is averaged as the second of two: its delay,
-- when below 2 ^ 31 ns, is stored and is the maximum, and the average becomes half of it.
pub first_avg-halved :
    (i swtime txtime : ℕ)
    → swtime < u64_mod
    → txtime < u64_mod
    → distance swtime txtime < 2 ^ 31
    → (y : StatSt) × (time_sw swtime txtime (bump_nums false false (initial_st i)) ≡ some y)
      × (y.delta_sw ≡ distance swtime txtime)
      × (y.max_delta_sw ≡ distance swtime txtime)
      × (y.avg_delta_sw ≡ distance swtime txtime / 2)
unfolding bump_nums
first_avg-halved i swtime txtime ha hb near =
    let d : abs_diff swtime txtime ≡ distance swtime txtime =
      abs_diff-distance swtime txtime ha hb near in
    let m : max_of 0 (abs_diff swtime txtime) ≡ distance swtime txtime =
      max_of-zero (abs_diff swtime txtime) ∙ d in
    let (y, e, _, delta, avg, max) =
      time_sw_lem (bump_nums false false (initial_st i)) (omega arith) (omega arith) (omega arith)
        swtime txtime (omega (arith, m)) in
    (y, e, delta ∙ d, max ∙ m, avg ∙ omega (arith, d))
