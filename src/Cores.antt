-- ===== src/Cores.antt =====
-- src/talker.c, `tx_loop` on several cores at once, as `main` starts it: the cores share the table of
-- flows, and each has variables, statistics and a schedule of its own. A step of a core is a test of
-- one of its loops and the round behind it; the rounds of different cores come in any order. A round
-- is one step: the timers that it touches are those of its own queue, which no other core reads.
pub mod Same
pub mod Table
pub mod Apart
pub mod Alone
pub mod Launches
use rtgen_dpdk_next.Base.{
  ℕ, suc, ◌+◌, Bool, true, false, Option, none, some, List, [], ◌∷◌, get_elem?, ltb, update, ◌==◌,
  if◌then◌else◌, ◌>>=◌,
}
use rtgen_dpdk_next.Flow.{FlowState}
use rtgen_dpdk_next.Sche.{ScheduleState}
use rtgen_dpdk_next.Statistic.{StatisticCore}
use rtgen_dpdk_next.TxLoop.{TxState, Round, Report, start, tx_frame, next_frame, is_running}

-- A core between two rounds: its variables, where only the pointer `state` is shared, the frame that
-- its inner loop is at, and whether its outer loop has ended.
pub record Core : Type 0 where
  pub vars : TxState
  pub it_frame : ℕ
  pub ended : Bool

-- The shared table, and the core of each queue.
pub record System : Type 0 where
  pub table : FlowState
  pub core : ℕ → Core

-- The variables with the table that the pointer `state` leads to.
abbrev pub on : FlowState → TxState → TxState
on table s = record s { state = table }

-- Where the inner loop of a core stands before the first test of its outer loop.
abbrev past_last : Option ScheduleState → ℕ
past_last none = 0
past_last (some schedule) = schedule.num_frames_per_cycle

-- The cores as they are launched: `clock c` is the first reading of core `c`.
unfoldable pub system_start :
    List ScheduleState → FlowState → (stats : ℕ → StatisticCore) → (clock : ℕ → ℕ) → System
system_start schedules table stats clock = record {
  table = table;
  core = λ c. record {
    vars = start table (stats c) (clock c);
    it_frame = past_last (get_elem? schedules c);
    ended = false;
  };
}

-- A step of a core: past the last frame the test of the outer loop, else a round.
unfoldable pub core_step :
    (pit_hw : Bool)
    → ScheduleState
    → (base_time pit_runtime : ℕ) → Round
    → FlowState
    → Core
    → Option (Option Report × FlowState × Core)
core_step pit_hw schedule base runtime r table core = elim core.ended [
  | true ↦ some (none, table, core)
  | false ↦ elim (ltb core.it_frame schedule.num_frames_per_cycle) [
    | false ↦
        let over = if is_running base runtime core.vars.current_time then false else true in
        some (none, table, record { vars = core.vars; it_frame = 0; ended = over })
    | true ↦ do
      (rep, s) ← tx_frame pit_hw schedule core.it_frame r (on table core.vars)
      it' ← next_frame core.it_frame
      some (some rep, s.state, record { vars = s; it_frame = it'; ended = false })
  ]
]

-- A step of the system: one core moves.
unfoldable pub system_step :
    (pit_hw : Bool)
    → List ScheduleState
    → (base_time pit_runtime : ℕ) → (c : ℕ) → Round
    → System
    → Option (Option Report × System)
system_step pit_hw schedules base runtime c r sys = do
  schedule ← get_elem? schedules c
  (rep, table, core) ← core_step pit_hw schedule base runtime r sys.table (sys.core c)
  some (rep, record { table = table; core = update sys.core c core })

abbrev pub log : ℕ → Option Report → List (ℕ × Report) → List (ℕ × Report)
log c none reps = reps
log c (some rep) reps = (c, rep) ∷ reps

-- Steps of the cores `picks`, with what happens in each if it is a round: the reports of the cores.
unfoldable pub system_run :
    (pit_hw : Bool)
    → List ScheduleState
    → (base_time pit_runtime : ℕ) → List (ℕ × Round)
    → System
    → Option (List (ℕ × Report) × System)
system_run pit_hw schedules base runtime [] sys = some ([], sys)
system_run pit_hw schedules base runtime ((c, r) ∷ picks) sys = do
  (rep, sys1) ← system_step pit_hw schedules base runtime c r sys
  (reps, sys2) ← system_run pit_hw schedules base runtime picks sys1
  some (log c rep reps, sys2)

-- What belongs to core `c` in a sequence of picks, or of reports.
unfoldable pub only {ℓ} : {A : Type ℓ} → ℕ → List (ℕ × A) → List (ℕ × A)
only c [] = []
only c ((d, a) ∷ rest) = let kept = only c rest in if d == c then (d, a) ∷ kept else kept
