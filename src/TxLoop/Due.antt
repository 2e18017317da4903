-- ===== src/TxLoop/Due.antt =====
-- What a round of the transmit loop does with its frame, by the clock.
use rtgen_dpdk_next.Base.{
  ℕ, suc, ◌+◌, ◌-◌, ◌<◌, ◌≤◌, ◌≡◌, refl, ap, subst, inl, inr, Bool, Bool-cases, some, List, arith,
  length, get_elem?, set, ltb, ltb→lt, ltb→le, sub64, sub64-eq, add64, add64-eq, ◌∙◌, sym, u64_mod,
}
use rtgen_dpdk_next.Flow.{Flow, inc_flow_timer, fudge_factor}
use rtgen_dpdk_next.Sche.{ScheduleState}
use rtgen_dpdk_next.TxLoop.{TxState, Round, Report, Action, late, launch, tx_frame, previous_index}
use rtgen_dpdk_next.TxLoop.Total.{IsValid, PointerIsSafe, report_of, tx_frame-IsValid}

-- The frame of a core that should be awake at `wake`, where the clock shows `clock`.
pub data AsDue (wake clock : ℕ) (accepted : Bool) : Action → Type 0 where
  missed : wake + 1000000 < clock → AsDue wake clock accepted late
  early : clock < wake → AsDue wake clock accepted (launch (wake - clock) accepted)
  in_time : wake ≤ clock → clock ≤ wake + 1000000 → AsDue wake clock accepted (launch 0 accepted)

report_of-AsDue :
    (i : ℕ) (f : Flow) (r : Round)
    → f.delta ≤ f.sche_time
    → f.sche_time + 1000000 < u64_mod
    → AsDue (f.sche_time - f.delta) r.clock r.accepted (report_of i f r).action
report_of-AsDue i f r le small =
    let wake : sub64 f.sche_time f.delta ≡ f.sche_time - f.delta =
      sub64-eq f.sche_time f.delta (omega arith) le in
    let limit : add64 (f.sche_time - f.delta) fudge_factor ≡ f.sche_time - f.delta + 1000000 =
      add64-eq (f.sche_time - f.delta) fudge_factor (omega arith) in
    rw (wake, limit)
      (elim (Bool-cases (ltb r.clock (f.sche_time - f.delta))) [
        | inl before ↦
            let lt = ltb→lt _ _ before in
            rw (before, sub64-eq (f.sche_time - f.delta) r.clock (omega arith) (omega (arith, lt)))
              (AsDue.early lt)
        | inr after ↦ elim (Bool-cases (ltb (f.sche_time - f.delta + 1000000) r.clock)) [
          | inl past ↦ rw (after, past) (AsDue.missed (ltb→lt _ _ past))
          | inr within ↦ rw (after, within) (AsDue.in_time (ltb→le _ _ after) (ltb→le _ _ within))
        ]
      ])

module _ (pit_hw : Bool) (schedule : ScheduleState) (it p i k : ℕ) (r : Round) (s : TxState)
    (fs : List Flow) (f : Flow) (t : ℕ) (v : IsValid s fs (suc (suc k))) where
  -- Let the state be valid, let the entries of the schedule at the frame and before it be flows of the
  -- table, and let the launch time `t` of the frame, one period after the timer of its flow, be at least
  -- the flow's delta and far enough from 2 ^ 64. Then the round does not fault: it leaves a valid state,
  -- with the timer of this flow advanced and no other, and reports `t`. The frame is skipped if the
  -- clock is more than 1000000 ns past `t - delta`; otherwise it is handed to the NIC, after a sleep of
  -- what is left until `t - delta` if the clock is before that, and of nothing if not.
  pub tx_frame-AsDue :
      PointerIsSafe s (length fs)
      → get_elem? schedule.order (previous_index schedule it) ≡ some p
      → p < length fs
      → get_elem? schedule.order it ≡ some i
      → i < length fs
      → get_elem? fs i ≡ some f
      → t ≡ f.sche_time + f.period
      → f.delta ≤ t
      → t + 1000000 < u64_mod
      → (rep : Report) × (s' : TxState) × (tx_frame pit_hw schedule it r s ≡ some (rep, s'))
        × IsValid s' (set fs i (record f { sche_time = t })) k
        × (s'.flow ≡ some i)
        × (rep.flow_id ≡ i)
        × (rep.launch_time ≡ t)
        × AsDue (t - f.delta) r.clock r.accepted rep.action
  unfolding inc_flow_timer
  tx_frame-AsDue ptr pe pl ie il fe te le small =
      let now : add64 f.sche_time f.period ≡ t =
        add64-eq f.sche_time f.period (omega arith) ∙ sym te in
      let (s', e, v', fl) =
        tx_frame-IsValid pit_hw schedule it p i k r s fs f v ptr pe pl ie il fe in
      let next : Flow = record f { sche_time = t } in
      let same : inc_flow_timer f ≡ next = ap (λ n. record f { sche_time = n }) now in
      (
        report_of i next r,
        s',
        e ∙ ap (λ g. some (report_of i g r, s')) same,
        subst (λ g. IsValid s' (set fs i g) k) same v',
        fl,
        refl,
        refl,
        report_of-AsDue i next r le small,
      )
