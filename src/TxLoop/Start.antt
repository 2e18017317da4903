-- ===== src/TxLoop/Start.antt =====
-- The state in which the transmit loop starts.
use rtgen_dpdk_next.Base.{
  ℕ, ◌+◌, ◌<◌, ◌≡◌, refl, ◌∙◌, inr, some, List, arith, All, length, length-replicate, get_elem?,
  zero, suc, replicate, u64_mod,
}
use rtgen_dpdk_next.Flow.{Flow, FlowState}
use rtgen_dpdk_next.Flow.Table.{Represents}
use rtgen_dpdk_next.Launch.{enough, core_statistics}
use rtgen_dpdk_next.Launch.Queues.{HasNet, core_statistics-Live}
use rtgen_dpdk_next.Statistic.{StatisticCore}
use rtgen_dpdk_next.TxLoop.{start}
use rtgen_dpdk_next.TxLoop.Total.{IsValid, PointerIsSafe}

zero_at : (n j : ℕ) → j < n → get_elem? {A = ℕ} (replicate n 0) j ≡ some 0
zero_at zero j h = elim h [ ]
zero_at (suc n) zero h = refl
zero_at (suc n) (suc j) h = zero_at n j (omega arith)

-- On a table of the flows `fs` and the statistics that `main` makes for a core, the loop starts in a
-- valid state, with room for any number of updates that leaves the counters below 2 ^ 64.
pub start-IsValid :
    (state : FlowState) (fs : List Flow) (q clock k : ℕ)
    → Represents state fs
    → All HasNet fs
    → k + 1 < u64_mod
    → (st : StatisticCore) × (core_statistics enough state q ≡ some st)
      × IsValid (start state st clock) fs k
      × PointerIsSafe (start state st clock) (length fs)
unfolding start
start-IsValid state fs q clock k r nets small =
    let (st, e, l) = core_statistics-Live state fs q k r nets small in
    (
      st,
      e,
      record {
        table = r;
        stats = l;
        prev = length-replicate state.num_flows 0 ∙ r.count;
        prev_hw = length-replicate state.num_flows 0 ∙ r.count;
      },
      inr (λ j h. zero_at state.num_flows j (omega (arith, r.count))),
    )
