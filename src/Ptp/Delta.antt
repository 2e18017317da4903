-- ===== src/Ptp/Delta.antt =====
-- The correction that the client computes, and the split of nanoseconds.
use rtgen_dpdk_next.Base.{
  zero, suc, ℕ, ◌+◌, ◌-◌, ◌*◌, ◌/◌, ◌%◌, ◌^◌, ◌<◌, ◌≤◌, ◌≡◌, refl, arith, if◌then◌else◌, distance,
  sub64, u64_mod,
}
use rtgen_dpdk_next.Base.Int.{
  ℤ, pos, negsuc, sub_ℕ, pos_part, neg_part, div_trunc, neg_ℕ, ltb_ℤ, ◌-ℤ◌, ◌+ℤ◌,
}
use rtgen_dpdk_next.Ptp.{
  PtpData, timespec64_to_ns, delta_eval, to_int64, neg_ℤ, ns_to_timeval, Timeval, nsec_per_sec,
}

-- In 64 bits, the two differences cancel the delay and leave twice the difference of the clocks.
difference :
    (master client d x y : ℕ)
    → distance master client < 2 ^ 62
    → x + master < u64_mod
    → x + d + client < u64_mod
    → y + client < u64_mod
    → y + d + master < u64_mod
    → sub64 (sub64 (x + d + client) (x + master)) (sub64 (y + d + master) (y + client))
      ≡ (2 * client + u64_mod - 2 * master) % u64_mod
difference master client d x y near h1 h2 h3 h4 = omega arith

halved :
    (master client : ℕ)
    → distance master client < 2 ^ 62
    → master < u64_mod
    → client < u64_mod
    → div_trunc (neg_ℤ (to_int64 ((2 * client + u64_mod - 2 * master) % u64_mod))) 2
      ≡ sub_ℕ master client
unfolding ◌-ℤ◌
halved master client near hm hc = ground arith

-- Let the master's clock be `master` ns ahead of the true time and the client's `client` ns, the two
-- less than 2 ^ 62 ns apart, and let a frame take `d` ns either way. If the four timestamps are those
-- of a sync that leaves at the true time `x` and of a delay request that leaves at `y`, and fit in 64
-- bits, then the client computes exactly the correction that makes its clock the master's.
pub delta_eval-offset :
    (p : PtpData) (master client d x y : ℕ)
    → distance master client < 2 ^ 62
    → timespec64_to_ns p.tstamp1 ≡ x + master
    → timespec64_to_ns p.tstamp2 ≡ x + d + client
    → timespec64_to_ns p.tstamp3 ≡ y + client
    → timespec64_to_ns p.tstamp4 ≡ y + d + master
    → x + master < u64_mod
    → x + d + client < u64_mod
    → y + client < u64_mod
    → y + d + master < u64_mod
    → delta_eval p ≡ sub_ℕ master client
unfolding delta_eval
delta_eval-offset p master client d x y near e1 e2 e3 e4 h1 h2 h3 h4 =
    rw (e1, e2, e3, e4, difference master client d x y near h1 h2 h3 h4)
      (halved master client near (omega arith) (omega arith))

abbrev timeval : ℤ → ℤ → Timeval
timeval sec usec = record { tv_sec = sec; tv_usec = usec }

-- Minus `q` seconds and `r` nanoseconds.
negative_floor :
    (q r : ℕ)
    → r < nsec_per_sec
    → (sec : ℤ) × (usec : ℕ) × ((if ltb_ℤ (neg_ℕ r) (pos 0)
          then record {
            tv_sec = neg_ℕ q -ℤ pos 1;
            tv_usec = div_trunc (neg_ℕ r +ℤ pos nsec_per_sec) 1000;
          }
          else record { tv_sec = neg_ℕ q; tv_usec = div_trunc (neg_ℕ r) 1000 })
        ≡ timeval sec (pos usec))
      × (usec < 1000000)
      × (pos_part sec * nsec_per_sec + usec * 1000 + (q * nsec_per_sec + r)
          ≤ neg_part sec * nsec_per_sec)
      × (neg_part sec * nsec_per_sec
          < pos_part sec * nsec_per_sec + usec * 1000 + (q * nsec_per_sec + r) + 1000)
unfolding ◌-ℤ◌ ◌+ℤ◌
negative_floor zero zero h = (pos 0, 0, refl, omega arith, omega arith, omega arith)
negative_floor (suc q) zero h = (negsuc q, 0, refl, omega arith, omega arith, omega arith)
negative_floor zero (suc r) h =
    (negsuc 0, (nsec_per_sec - suc r) / 1000, ground arith, omega arith, omega arith, omega arith)
negative_floor (suc q) (suc r) h = (
  negsuc (suc q),
  (nsec_per_sec - suc r) / 1000,
  ground arith,
  omega arith,
  omega arith,
  omega arith,
)

-- Nanoseconds, also negative ones, are split into the seconds and the microseconds, between 0 and
-- 999999, of the last microsecond that is not after them.
pub ns_to_timeval-floor :
    (nsec : ℤ)
    → (sec : ℤ) × (usec : ℕ) × (ns_to_timeval nsec ≡ record { tv_sec = sec; tv_usec = pos usec })
      × (usec < 1000000)
      × (pos_part sec * nsec_per_sec + usec * 1000 + neg_part nsec
          ≤ pos_part nsec + neg_part sec * nsec_per_sec)
      × (pos_part nsec + neg_part sec * nsec_per_sec
          < pos_part sec * nsec_per_sec + usec * 1000 + neg_part nsec + 1000)
unfolding ns_to_timeval
ns_to_timeval-floor (pos zero) = (pos 0, 0, refl, omega arith, omega arith, omega arith)
ns_to_timeval-floor (pos (suc n)) = (
  pos (suc n / nsec_per_sec),
  suc n % nsec_per_sec / 1000,
  ground arith,
  omega arith,
  omega arith,
  omega arith,
)
ns_to_timeval-floor (negsuc n) =
    let (sec, usec, e, small, le, lt) =
      negative_floor (suc n / nsec_per_sec) (suc n % nsec_per_sec) (omega arith) in
    (sec, usec, e, small, omega (arith, le), omega (arith, lt))
