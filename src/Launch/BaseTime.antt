-- ===== src/Launch/BaseTime.antt =====
-- When the flow timers start.
use rtgen_dpdk_next.Base.{ℕ, ◌+◌, ◌*◌, ◌%◌, ◌<◌, ◌≤◌, ◌≡◌, arith, u64_mod}
use rtgen_dpdk_next.Flow.{one_second_in_ns}
use rtgen_dpdk_next.Launch.{base_time_of}

-- With no offset asked for, and a clock that leaves 5 seconds in 64 bits, the base time is a whole
-- second, more than 4 and at most 5 seconds after the clock.
pub base_time_of-later :
    (ns now : ℕ)
    → now + 5 * one_second_in_ns < u64_mod
    → (base_time_of 0 ns now % one_second_in_ns ≡ 0)
      × (now + 4 * one_second_in_ns < base_time_of 0 ns now)
      × (base_time_of 0 ns now ≤ now + 5 * one_second_in_ns)
unfolding base_time_of
base_time_of-later ns now h = (omega arith, omega arith, omega arith)
