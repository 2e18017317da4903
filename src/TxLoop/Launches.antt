-- ===== src/TxLoop/Launches.antt =====
-- The launch times of a cycle against the sending times of the schedule.
use rtgen_dpdk_next.Base.{ℕ, ◌+◌, ◌*◌, ◌%◌, ◌≡◌, true, u64_mod}
use rtgen_dpdk_next.Flow.{Flow, one_second_in_ns}
use rtgen_dpdk_next.Sche.Frames.{in_queue}

-- The timer of a flow of queue `q` stands at `start` plus its offset, modulo 2 ^ 64.
abbrev pub InPhase : (q start : ℕ) → Flow → Type 0
InPhase q start f =
    in_queue q f ≡ true
    → f.sche_time ≡ (start + f.offset_sec * one_second_in_ns + f.offset_nsec) % u64_mod
