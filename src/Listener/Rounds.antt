-- ===== src/Listener/Rounds.antt =====
-- What `rx_loop` of src/listener.c prints, and what its `main` calls before it.
use rtgen_dpdk_next.Base.{
  ℕ, ◌+◌, ◌*◌, ◌<◌, ◌≡◌, ◌⊎◌, Bool, true, false, none, List, [], ◌∷◌, ◌++◌, arith, ◌==◌,
}
use rtgen_dpdk_next.Flow.{one_second_in_ns}
use rtgen_dpdk_next.Engine.{HwTimespec, ns_of, hw_timestamp_try_times}
use rtgen_dpdk_next.Engine.Timestamp.{IsFirst}
use rtgen_dpdk_next.Listener.{RxRound, Line, sw_line, hw_line}

-- The time that a line shows, in ns.
abbrev pub time_of : Line → ℕ
time_of (Line.sw sec nsec) = sec * one_second_in_ns + nsec
time_of (Line.hw sec nsec) = sec * one_second_in_ns + nsec

-- The lines of a round: none if no packet came, else the clock after it, and then the time of the NIC if
-- it is asked for and read in one of 10000 tries.
pub data Printed (pit_hw : Bool) (r : RxRound) : List Line → Type 0 where
  nothing : (r.num_recv == 1) ≡ false → Printed pit_hw r []
  clock_only :
      r.num_recv ≡ 1
      → (pit_hw ≡ false) ⊎ ((j : ℕ) → j < hw_timestamp_try_times → r.reads r.timesync j ≡ none)
      → Printed pit_hw r (sw_line r.clock ∷ [])
  both :
      r.num_recv ≡ 1
      → pit_hw ≡ true
      → (i : ℕ) (ts : HwTimespec) → i < hw_timestamp_try_times
      → IsFirst (r.reads r.timesync) i ts
      → Printed pit_hw r (sw_line r.clock ∷ hw_line (ns_of ts) ∷ [])

-- The lines of several rounds, one round behind the other.
pub data PrintedAll (pit_hw : Bool) : List RxRound → List Line → Type 0 where
  no_round : PrintedAll pit_hw [] []
  a_round :
      (r : RxRound) (rs : List RxRound) (ls rest : List Line)
      → Printed pit_hw r ls
      → PrintedAll pit_hw rs rest
      → PrintedAll pit_hw (r ∷ rs) (ls ++ rest)

-- A line of the clock shows its time.
pub sw_line-time : (t : ℕ) → time_of (sw_line t) ≡ t
sw_line-time t = omega arith
