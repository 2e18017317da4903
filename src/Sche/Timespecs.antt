-- ===== src/Sche/Timespecs.antt =====
-- The order of times.
use rtgen_dpdk_next.Base.{ℕ, ◌+◌, ◌<◌, ◌≡◌, ◌↔◌, ◌*◌, true, false, arith, if◌then◌else◌}
use rtgen_dpdk_next.Base.Int.{ℤ, pos, ltb_ℤ, pos_part, neg_part}
use rtgen_dpdk_next.Flow.{one_second_in_ns}
use rtgen_dpdk_next.Sche.{Timespec, timespec_less}

-- On times whose nanoseconds, `m` and `n`, are below a second, `timespec_less` compares the times in
-- nanoseconds; the seconds may be negative.
pub timespec_less-time :
    (a b : Timespec) (m n : ℕ)
    → a.tv_nsec ≡ pos m
    → b.tv_nsec ≡ pos n
    → m < one_second_in_ns
    → n < one_second_in_ns
    → (timespec_less a b ≡ true) ↔ (
        pos_part a.tv_sec * one_second_in_ns + m + neg_part b.tv_sec * one_second_in_ns
        < pos_part b.tv_sec * one_second_in_ns + n + neg_part a.tv_sec * one_second_in_ns)
unfolding timespec_less
timespec_less-time a b m n ea eb hm hn = rw (ea, eb) (lexicographic a.tv_sec b.tv_sec m n hm hn)
  where
    lexicographic :
        (s t : ℤ) (m n : ℕ)
        → m < one_second_in_ns
        → n < one_second_in_ns
        → ((if ltb_ℤ s t then true else if ltb_ℤ t s then false else ltb_ℤ (pos m) (pos n)) ≡ true)
          ↔ (pos_part s * one_second_in_ns + m + neg_part t * one_second_in_ns
              < pos_part t * one_second_in_ns + n + neg_part s * one_second_in_ns)
    lexicographic s t m n h k = ground arith
