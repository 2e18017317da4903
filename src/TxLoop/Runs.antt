-- ===== src/TxLoop/Runs.antt =====
-- Runs of the transmit loop over several cycles: they never fault, and they end.
use rtgen_dpdk_next.Base.{
  ℕ, zero, suc, ◌+◌, ◌-◌, ◌*◌, ◌<◌, ◌≤◌, ◌≡◌, ◌∣◌, sym, subst, ◌∙◌, inl, inr, Bool, Bool-cases,
  true, false, some, List, arith, All, length, u64_mod, ◌^◌,
}
use rtgen_dpdk_next.Flow.{Flow, one_second_in_ns}
use rtgen_dpdk_next.Flow.Table.{Represents}
use rtgen_dpdk_next.Sche.{ScheduleState}
use rtgen_dpdk_next.Sche.Occurrences.{order-length, order-below}
use rtgen_dpdk_next.Sche.Build.{IsSchedule}
use rtgen_dpdk_next.TxLoop.{TxState, Round, Report, tx_cycle, is_running, tx_loop}
use rtgen_dpdk_next.TxLoop.Total.{IsValid, PointerIsSafe}
use rtgen_dpdk_next.TxLoop.Cycle.{needed, advance_all, tx_cycle-reports}
use rtgen_dpdk_next.TxLoop.Launches.{InPhase}
use rtgen_dpdk_next.TxLoop.Phase.{advance_all-IsSchedule, advance_all-InPhase, length-advance_all}
use rtgen_dpdk_next.TxLoop.Clock.{tx_cycle-time}

-- A reading at which the runtime is over.
abbrev pub IsOver : (base_time pit_runtime now : ℕ) → Type 0
IsOver base runtime now = (base + runtime * one_second_in_ns ≤ now) × (now < u64_mod)

is_running-over :
    (base runtime now : ℕ) → IsOver base runtime now → is_running base runtime now ≡ false
is_running-over base runtime now h = ground arith

-- Room for the counts of so many cycles of `len` frames.
abbrev pub rooms : (cycles len k : ℕ) → ℕ
rooms zero len k = k
rooms (suc n) len k = needed len (rooms n len k)

module _ (pit_hw : Bool) (schedule : ScheduleState) (base runtime : ℕ)
    (rounds : ℕ → ℕ → Round) where
  tx_loop_stop :
      (n c : ℕ) (s : TxState)
      → is_running base runtime s.current_time ≡ false
      → tx_loop pit_hw schedule base runtime (suc n) c rounds s ≡ some (true, s)
  unfolding tx_loop
  tx_loop_stop n c s h = rw (tx_loop, h)

  tx_loop_go :
      (n c : ℕ) (s s' : TxState) (reports : List Report)
      → is_running base runtime s.current_time ≡ true
      → tx_cycle pit_hw schedule (rounds c) s ≡ some (reports, s')
      → tx_loop pit_hw schedule base runtime (suc n) c rounds s
        ≡ tx_loop pit_hw schedule base runtime n (c + 1) rounds s'
  unfolding tx_loop
  tx_loop_go n c s s' reports h e = rw (tx_loop, h, e)

  -- Where a run ends: after `done` cycles, with the timers of the queue `done` cycles on.
  pub record Ended (q cycle start fuel c most : ℕ) (s : TxState) : Type 0 where
    pub done : ℕ
    pub state : TxState
    pub flows : List Flow
    pub result : tx_loop pit_hw schedule base runtime fuel c rounds s ≡ some (true, state)
    pub bound : done ≤ most
    pub table : Represents state.state flows
    pub phase : All (InPhase q (start + done * cycle)) flows

  at_once :
      {q cycle : ℕ} (n c most start : ℕ) (s : TxState) (fs : List Flow)
      → is_running base runtime s.current_time ≡ false
      → Represents s.state fs
      → All (InPhase q start) fs
      → Ended q cycle start (suc n) c most s
  at_once {q} {cycle} n c most start s fs stop table phase = record {
    done = 0;
    state = s;
    flows = fs;
    result = tx_loop_stop n c s stop;
    bound = omega arith;
    table = table;
    phase = let z : start + 0 * cycle ≡ start = omega arith in rw z phase;
  }

  later :
      {q cycle : ℕ} (n c most most' start : ℕ) (s s' : TxState) (reports : List Report)
      → is_running base runtime s.current_time ≡ true
      → tx_cycle pit_hw schedule (rounds c) s ≡ some (reports, s')
      → Ended q cycle (start + cycle) n (c + 1) most s'
      → most + 1 ≡ most'
      → Ended q cycle start (suc n) c most' s
  later {q} {cycle} n c most most' start s s' reports go e r m = record {
    done = r.done + 1;
    state = r.state;
    flows = r.flows;
    result = tx_loop_go n c s s' reports go e ∙ r.result;
    bound = omega (arith, r.bound);
    table = r.table;
    phase =
        let z : start + cycle + r.done * cycle ≡ start + (r.done + 1) * cycle = grind arith in
        subst (λ x. All (InPhase q x) r.flows) z r.phase;
  }

  module _ (q cycle k : ℕ) (small : length schedule.order < 2 ^ 31)
      (pos : 0 < length schedule.order) where
    pub tx_loop-Ended :
        (d fuel c start : ℕ) (s : TxState) (fs : List Flow)
        → IsSchedule schedule q cycle fs
        → All (λ f. f.period ∣ cycle) fs
        → All (InPhase q start) fs
        → IsValid s fs (rooms (suc d) (length schedule.order) k)
        → PointerIsSafe s (length fs)
        → d + 1 < fuel
        → ((it : ℕ)
            → IsOver base runtime (rounds (c + d) it).clock
              × IsOver base runtime (rounds (c + d) it).clock_before_tx)
        → Ended q cycle start fuel c (d + 1) s
    tx_loop-Ended d zero c start s fs sched div phase v ptr enough over = absurd (omega arith)
    tx_loop-Ended zero (suc n) c start s fs sched div phase v ptr enough over =
        elim (Bool-cases (is_running base runtime s.current_time)) [
          | inr stop ↦ at_once n c 1 start s fs stop v.table phase
          | inl go ↦
              let (s1, e1, v1, ptr1) =
                tx_cycle-reports pit_hw schedule q cycle (rooms 0 (length schedule.order) k)
                  (rounds c) s fs sched small v ptr in
              let z : c + 0 ≡ c = omega arith in
              let now : IsOver base runtime s1.current_time =
                tx_cycle-time (IsOver base runtime) pit_hw schedule (rounds c)
                  (subst
                    (λ m.
                      (it : ℕ)
                      → IsOver base runtime (rounds m it).clock
                        × IsOver base runtime (rounds m it).clock_before_tx)
                    z over)
                  s _ (omega (arith, order-length schedule q cycle fs sched, pos)) e1 in
              later n c 0 1 start s s1 _ go e1
                (subst (λ m. Ended q cycle (start + cycle) m (c + 1) 0 s1) (omega arith)
                  (at_once (n - 1) (c + 1) 0 (start + cycle) s1 (advance_all schedule.order fs)
                    (is_running-over base runtime s1.current_time now) v1.table
                    (advance_all-InPhase schedule q cycle fs sched start div phase).0))
                (omega arith)
        ]
    tx_loop-Ended (suc d) (suc n) c start s fs sched div phase v ptr enough over =
        elim (Bool-cases (is_running base runtime s.current_time)) [
          | inr stop ↦ at_once n c (suc d + 1) start s fs stop v.table phase
          | inl go ↦
              let (s1, e1, v1, ptr1) =
                tx_cycle-reports pit_hw schedule q cycle (rooms (suc d) (length schedule.order) k)
                  (rounds c) s fs sched small v ptr in
              let (phase1, div1) = advance_all-InPhase schedule q cycle fs sched start div phase in
              let same =
                length-advance_all schedule.order fs (order-below schedule q cycle fs sched) in
              let z : c + suc d ≡ c + 1 + d = omega arith in
              later n c (d + 1) (suc d + 1) start s s1 _ go e1
                (tx_loop-Ended d n (c + 1) (start + cycle) s1 (advance_all schedule.order fs)
                  (advance_all-IsSchedule schedule q cycle fs sched) div1 phase1 v1
                  (subst (PointerIsSafe s1) (sym same) ptr1) (omega arith)
                  (subst
                    (λ m.
                      (it : ℕ)
                      → IsOver base runtime (rounds m it).clock
                        × IsOver base runtime (rounds m it).clock_before_tx)
                    z over))
                (omega arith)
        ]
