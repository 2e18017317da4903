-- ===== src/TxLoop/Clock.antt =====
-- The clock that the transmit loop tests: one of the readings of the last round.
use rtgen_dpdk_next.Base.{
  ℕ, zero, suc, ◌-◌, ◌<◌, ◌≡◌, ap, sym, subst, ◌∙◌, ◌⊎◌, inl, inr, Bool, Bool-cases, true, false,
  Option, none, some, List, arith, get_elem?, store, ◌==◌, if◌then◌else◌, ◌>>=◌, >>=-eq-some,
}
use rtgen_dpdk_next.Flow.{Flow, load_flow}
use rtgen_dpdk_next.Sche.{ScheduleState}
use rtgen_dpdk_next.Statistic.{
  update_nums, update_time_sw, update_jitter_sw_st, update_time_hw, update_jitter_hw_st,
}
use rtgen_dpdk_next.TxLoop.{
  TxState, Round, Report, observe_previous, advance_timer, miss_deadline, record_hwtimestamp,
  transmit, tx_frame, next_frame, tx_frames_from, tx_cycle, previous_index, is_late,
}

observe_previous-time :
    (p clock : ℕ) (s s' : TxState) → observe_previous p clock s ≡ some s' → s'.current_time ≡ clock
unfolding observe_previous
observe_previous-time p clock s s' e =
    let (x, _, e1) = >>=-eq-some (get_elem? s.stats.st p) _ e in
    let (st1, _, e2) =
      >>=-eq-some
        (if x.num_pkt_total == 0 then some s.stats else update_time_sw s.stats p clock s.txtime) _
        e1 in
    let (prev, _, e3) = >>=-eq-some (get_elem? s.prev_time p) _ e2 in
    let (st2, _, e4) =
      >>=-eq-some
        (if prev == 0
          then some st1
          else (s.flow >>= λ i.
              load_flow s.state i >>= λ f. update_jitter_sw_st st1 p prev clock f.period))
        _ e3 in
    let (pt, _, e5) = >>=-eq-some (store s.prev_time p clock) _ e4 in sym (cc)

advance_timer-time :
    (i : ℕ) (s : TxState) (r : Flow × TxState)
    → advance_timer i s ≡ some r
    → r.1.current_time ≡ s.current_time
unfolding advance_timer
advance_timer-time i s r e = let (f, _, e1) = >>=-eq-some (load_flow s.state i) _ e in sym (cc)

miss_deadline-time :
    (i : ℕ) (s s' : TxState) → miss_deadline i s ≡ some s' → s'.current_time ≡ s.current_time
unfolding miss_deadline
miss_deadline-time i s s' e =
    let (st, _, e1) = >>=-eq-some (update_nums s.stats i true false) _ e in
    let (ph, _, e2) = >>=-eq-some (store s.prev_hwtime i 0) _ e1 in sym (cc)

record_hwtimestamp-time :
    (i period ts : ℕ) (s s' : TxState)
    → record_hwtimestamp i period ts s ≡ some s'
    → s'.current_time ≡ s.current_time
unfolding record_hwtimestamp
record_hwtimestamp-time i period ts s s' e =
    let (st1, _, e1) = >>=-eq-some (update_time_hw s.stats i ts s.txtime) _ e in
    let (prev, _, e2) = >>=-eq-some (get_elem? s.prev_hwtime i) _ e1 in
    let (st2, _, e3) =
      >>=-eq-some (if prev == 0 then some st1 else update_jitter_hw_st st1 i prev ts period) _ e2 in
    let (ph, _, e4) = >>=-eq-some (store s.prev_hwtime i ts) _ e3 in sym (cc)

stamp-time :
    (pit_hw : Bool) (i period : ℕ) (ts : Option ℕ) (s s' : TxState)
    → (elim pit_hw [
      | false ↦ some s
      | true ↦ elim ts [ none ↦ some s | some t ↦ record_hwtimestamp i period t s ]
    ])
      ≡ some s'
    → s'.current_time ≡ s.current_time
stamp-time false i period ts s s' e = sym (cc)
stamp-time true i period none s s' e = sym (cc)
stamp-time true i period (some t) s s' e = record_hwtimestamp-time i period t s s' e

transmit-time :
    (pit_hw : Bool) (i period : ℕ) (r : Round) (s s' : TxState)
    → transmit pit_hw i period r s ≡ some s'
    → s'.current_time ≡ r.clock_before_tx
unfolding transmit
transmit-time pit_hw i period r s s' e = elim (Bool-cases r.accepted) [
  | inr refused ↦
      let e0 = rw refused at e in
      let (st, _, e1) = >>=-eq-some (update_nums s.stats i false true) _ e0 in
      let (ph, _, e2) = >>=-eq-some (store s.prev_hwtime i 0) _ e1 in sym (cc)
  | inl sent ↦
      let e0 = rw sent at e in
      let (st, _, e1) = >>=-eq-some (update_nums s.stats i false false) _ e0 in
      stamp-time pit_hw i period r.hwtimestamp
        (record s { current_time = r.clock_before_tx; stats = st }) s' e1
]

-- The clock that the loop tests after a round is one of the round's readings.
tx_frame-time :
    (pit_hw : Bool) (schedule : ScheduleState) (it : ℕ) (r : Round) (s : TxState)
    (res : Report × TxState)
    → tx_frame pit_hw schedule it r s ≡ some res
    → (res.1.current_time ≡ r.clock) ⊎ (res.1.current_time ≡ r.clock_before_tx)
unfolding tx_frame
tx_frame-time pit_hw schedule it r s res e =
    let (p, _, e1) = >>=-eq-some (get_elem? schedule.order (previous_index schedule it)) _ e in
    let (s1, o1, e2) = >>=-eq-some (observe_previous p r.clock s) _ e1 in
    let (i, _, e3) = >>=-eq-some (get_elem? schedule.order it) _ e2 in
    let (fs2, o2, e4) = >>=-eq-some (advance_timer i s1) _ e3 in
    let now : fs2.1.current_time ≡ r.clock =
      advance_timer-time i s1 fs2 o2 ∙ observe_previous-time p r.clock s s1 o1 in
    elim (Bool-cases (is_late fs2.0 r.clock)) [
      | inl missed ↦
          let e5 = rw missed at e4 in
          let (s3, o3, e6) = >>=-eq-some (miss_deadline i fs2.1) _ e5 in
          let same : s3 ≡ res.1 = cc in
          inl (ap (λ t. t.current_time) (sym same) ∙ miss_deadline-time i fs2.1 s3 o3 ∙ now)
      | inr timely ↦
          let e5 = rw timely at e4 in
          let (s3, o3, e6) = >>=-eq-some (transmit pit_hw i fs2.0.period r fs2.1) _ e5 in
          let same : s3 ≡ res.1 = cc in
          inr (
            ap (λ t. t.current_time) (sym same) ∙ transmit-time pit_hw i fs2.0.period r fs2.1 s3 o3)
    ]

module _ (P : ℕ → Type 0) (pit_hw : Bool) (schedule : ScheduleState) (rounds : ℕ → Round)
    (h : (it : ℕ) → P (rounds it).clock × P (rounds it).clock_before_tx) where
  tx_frames_from-time :
      (n it : ℕ) (s : TxState) (res : List Report × TxState)
      → tx_frames_from pit_hw schedule (suc n) it rounds s ≡ some res
      → P res.1.current_time
  unfolding tx_frames_from
  tx_frames_from-time zero it s res e =
      let (x, o, e1) = >>=-eq-some (tx_frame pit_hw schedule it (rounds it) s) _ e in
      let (it', o', e2) = >>=-eq-some (next_frame it) _ e1 in
      let same : x.1 ≡ res.1 = cc in
      subst (λ (t : TxState). P t.current_time) same
        (elim (tx_frame-time pit_hw schedule it (rounds it) s x o) [
          | inl q ↦ subst P (sym q) (h it).0
          | inr q ↦ subst P (sym q) (h it).1
        ])
  tx_frames_from-time (suc n) it s res e =
      let (x, o, e1) = >>=-eq-some (tx_frame pit_hw schedule it (rounds it) s) _ e in
      let (it', o', e2) = >>=-eq-some (next_frame it) _ e1 in
      let (y, o2, e3) = >>=-eq-some (tx_frames_from pit_hw schedule (suc n) it' rounds x.1) _ e2 in
      let same : y.1 ≡ res.1 = cc in
      subst (λ (t : TxState). P t.current_time) same (tx_frames_from-time n it' x.1 y o2)

  -- A cycle of at least one frame ends with a reading of that cycle.
  pub tx_cycle-time :
      (s : TxState) (res : List Report × TxState)
      → 0 < schedule.num_frames_per_cycle
      → tx_cycle pit_hw schedule rounds s ≡ some res
      → P res.1.current_time
  unfolding tx_cycle
  tx_cycle-time s res pos e =
      let n : schedule.num_frames_per_cycle ≡ suc (schedule.num_frames_per_cycle - 1) =
        omega arith in
      tx_frames_from-time (schedule.num_frames_per_cycle - 1) 0 s res
        (subst (λ m. tx_frames_from pit_hw schedule m 0 rounds s ≡ some res) n e)
