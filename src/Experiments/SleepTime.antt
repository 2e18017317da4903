-- ===== src/Experiments/SleepTime.antt =====
-- For how long `rte_sleep` waits.
use Prim.Native.Nat.{◌^◌}
use rtgen_dpdk_next.Base.{ℕ, ◌*◌, ◌<◌, ◌≤◌, ◌≡◌, arith, u64_mod}
use rtgen_dpdk_next.Engine.{sleep_cycles}
use rtgen_dpdk_next.Engine.Sleep.{sleep_cycles-exact}
use rtgen_dpdk_next.Experiments.{rte_sleep_cycles}

-- Where the product of the time and the counter's rate fits in 64 bits, `rte_sleep` waits for as long as
-- the `sleep` that took its place.
pub rte_sleep_cycles-sleep_cycles :
    (timer_hz ns : ℕ)
    → timer_hz ≤ 2 ^ 34
    → ns * timer_hz < u64_mod
    → rte_sleep_cycles timer_hz ns ≡ sleep_cycles timer_hz ns
unfolding rte_sleep_cycles
rte_sleep_cycles-sleep_cycles hz ns h fit =
    let e = sleep_cycles-exact hz ns h (omega arith) in omega (arith, e)
