-- ===== src/Experiments/Stamps.antt =====
-- The array of hardware timestamps that the loop of .legacy/dac_exp_singlecore.c fills.
use rtgen_dpdk_next.Base.{ℕ, ◌+◌, ◌%◌, ◌<◌, ◌≡◌, Option, none, some, List, [], ◌∷◌}
use rtgen_dpdk_next.Experiments.{Outcome, missed, failed, sent}
use rtgen_dpdk_next.Experiments.Singlecore.{TimedRound, cycle, read_until}

-- One of the first `fuel` reads of the timestamp succeeds.
pub record IsStamped (fuel : ℕ) (t : TimedRound) : Type 0 where
  pub reads : ℕ
  pub enough : reads < fuel
  pub ns : ℕ
  pub there : t.read_tx_timestamp reads ≡ some ns

-- The nanoseconds of a round's timestamp.
abbrev pub stamp_of : Option ℕ → ℕ
stamp_of none = 0
stamp_of (some ns) = ns % cycle

-- The entry of a round: the timestamp of a frame that was sent, and otherwise what was there.
abbrev pub entry_of : Outcome → (stamp old : ℕ) → ℕ
entry_of missed stamp old = old
entry_of (failed s t) stamp old = old
entry_of (sent s t) stamp old = stamp

-- The array from round `k` on, after the outcomes of the rounds.
pub renewed : (fuel k : ℕ) → (ℕ → TimedRound) → List Outcome → List ℕ → List ℕ
renewed fuel k rounds [] old = old
renewed fuel k rounds (o ∷ os) [] = []
renewed fuel k rounds (o ∷ os) (x ∷ old) =
    entry_of o (stamp_of (read_until (rounds k).read_tx_timestamp fuel 0)) x
    ∷ renewed fuel (k + 1) rounds os old
