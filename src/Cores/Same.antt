-- ===== src/Cores/Same.antt =====
-- A round reads the shared table at the flows of its own schedule only.
use mathlib.Core.Option
use rtgen_dpdk_next.Base.{
  ℕ, ◌≡◌, refl, ap, ◌∙◌, inl, inr, Bool, Bool-cases, true, false, Option, Option-cases, none, store,
  some, get_elem?, set, ◌==◌, if◌then◌else◌, ◌>>=◌,
}
use rtgen_dpdk_next.Flow.{Flow, FlowState, load_flow, inc_flow_timer}
use rtgen_dpdk_next.Flow.Table.{fresh_table}
use rtgen_dpdk_next.Sche.{ScheduleState}
use rtgen_dpdk_next.Statistic.{
  StatisticCore, update_nums, update_time_hw, update_jitter_hw_st, update_time_sw,
  update_jitter_sw_st,
}
use rtgen_dpdk_next.TxLoop.{
  TxState, Round, Report, observe_previous, advance_timer, miss_deadline, record_hwtimestamp,
  transmit, tx_frame, previous_index, is_late, sleep_time, late, launch,
}
use rtgen_dpdk_next.Cores.{on}

module _ (t t' : FlowState) where
  miss_deadline-on :
      (i : ℕ) (v : TxState)
      → miss_deadline i (on t v) ≡ Option.map (on t) (miss_deadline i (on t' v))
  unfolding miss_deadline
  miss_deadline-on i v = elim (Option-cases (update_nums v.stats i true false)) [
    | inl e ↦ rw e
    | inr (st, e) ↦ elim (Option-cases (store v.prev_hwtime i 0)) [
      | inl e' ↦ rw (e, e')
      | inr (a, e') ↦ rw (e, e')
    ]
  ]

  record_hwtimestamp-on :
      (i period ts : ℕ) (v : TxState)
      → record_hwtimestamp i period ts (on t v)
        ≡ Option.map (on t) (record_hwtimestamp i period ts (on t' v))
  unfolding record_hwtimestamp
  record_hwtimestamp-on i period ts v = elim (Option-cases (update_time_hw v.stats i ts v.txtime)) [
    | inl e ↦ rw e
    | inr (st1, e) ↦ elim (Option-cases (get_elem? v.prev_hwtime i)) [
      | inl e' ↦ rw (e, e')
      | inr (prev, e') ↦
          elim (Option-cases
            (if prev == 0 then some st1 else update_jitter_hw_st st1 i prev ts period)) [
              | inl e2 ↦ rw (e, e', e2)
              | inr (st2, e2) ↦ elim (Option-cases (store v.prev_hwtime i ts)) [
                | inl e3 ↦ rw (e, e', e2, e3)
                | inr (a, e3) ↦ rw (e, e', e2, e3)
              ]
            ]
    ]
  ]

  transmit-on :
      (pit_hw : Bool) (i period : ℕ) (r : Round) (v : TxState)
      → transmit pit_hw i period r (on t v)
        ≡ Option.map (on t) (transmit pit_hw i period r (on t' v))
  unfolding transmit
  transmit-on pit_hw i period r v = elim (Bool-cases r.accepted) [
    | inr refused ↦ elim (Option-cases (update_nums v.stats i false true)) [
      | inl e ↦ rw (refused, e)
      | inr (st, e) ↦ elim (Option-cases (store v.prev_hwtime i 0)) [
        | inl e' ↦ rw (refused, e, e')
        | inr (a, e') ↦ rw (refused, e, e')
      ]
    ]
    | inl sent ↦ elim (Option-cases (update_nums v.stats i false false)) [
      | inl e ↦ rw (sent, e)
      | inr (st, e) ↦ rw (sent, e) (stamped pit_hw r.hwtimestamp st)
    ]
  ]
    where
      stamped :
          (hw : Bool) (ts : Option ℕ) (st : StatisticCore)
          → ◌≡◌ {A = Option TxState}
              (elim hw [
                | false ↦
                    some (record v { state = t; current_time = r.clock_before_tx; stats = st })
                | true ↦ elim ts [
                  | none ↦
                      some (record v { state = t; current_time = r.clock_before_tx; stats = st })
                  | some a ↦
                      record_hwtimestamp i period a
                        (record v { state = t; current_time = r.clock_before_tx; stats = st })
                ]
              ])
              (Option.map (on t) (elim hw [
                | false ↦
                    some (record v { state = t'; current_time = r.clock_before_tx; stats = st })
                | true ↦ elim ts [
                  | none ↦
                      some (record v { state = t'; current_time = r.clock_before_tx; stats = st })
                  | some a ↦
                      record_hwtimestamp i period a
                        (record v { state = t'; current_time = r.clock_before_tx; stats = st })
                ]
              ]))
      stamped false ts st = refl
      stamped true none st = refl
      stamped true (some a) st =
          record_hwtimestamp-on i period a
            (record v { current_time = r.clock_before_tx; stats = st })

  -- The pointer `flow` leads to a flow that the two tables agree on, if it is set.
  observe_previous-on :
      (p clock : ℕ) (v : TxState)
      → ((i : ℕ) → v.flow ≡ some i → load_flow t i ≡ load_flow t' i)
      → observe_previous p clock (on t v) ≡ Option.map (on t) (observe_previous p clock (on t' v))
  unfolding observe_previous
  observe_previous-on p clock v same = elim (Option-cases (get_elem? v.stats.st p)) [
    | inl e ↦ rw e
    | inr (x, e) ↦
        elim (Option-cases (
          if x.num_pkt_total == 0 then some v.stats else update_time_sw v.stats p clock v.txtime)) [
            | inl e1 ↦ rw (e, e1)
            | inr (st1, e1) ↦ elim (Option-cases (get_elem? v.prev_time p)) [
              | inl e2 ↦ rw (e, e1, e2)
              | inr (prev, e2) ↦ elim (Option-cases (jitter st1 prev t')) [
                | inl e3 ↦ let e4 = agree st1 prev ∙ e3 in rw (e, e1, e2, e3, e4)
                | inr (st2, e3) ↦ elim (Option-cases (store v.prev_time p clock)) [
                  | inl e5 ↦ let e4 = agree st1 prev ∙ e3 in rw (e, e1, e2, e3, e4, e5)
                  | inr (a, e5) ↦ let e4 = agree st1 prev ∙ e3 in rw (e, e1, e2, e3, e4, e5)
                ]
              ]
            ]
          ]
  ]
    where
      jitter : StatisticCore → ℕ → FlowState → Option StatisticCore
      jitter st prev table =
          if prev == 0
          then some st
          else (v.flow >>= λ i.
              load_flow table i >>= λ f. update_jitter_sw_st st p prev clock f.period)

      agree : (st : StatisticCore) (prev : ℕ) → jitter st prev t ≡ jitter st prev t'
      agree st prev = elim (Option-cases v.flow) [ inl e ↦ rw e | inr (i, e) ↦ rw (e, same i e) ]

-- The table after a round for the flow `f`.
abbrev timed : FlowState → ℕ → Flow → FlowState
timed t i f = record t { flows = set t.flows i (some (inc_flow_timer f)) }

-- Reports and variables of a round, without the table.
abbrev pub visible : Option (Report × TxState) → Option (Report × TxState)
visible = Option.map (λ (rep, s). (rep, on fresh_table s))

abbrev deed : (pit_hw : Bool) → Round → ℕ → Flow → TxState → FlowState → Option (Report × TxState)
deed pit_hw r i f w u = elim (is_late f r.clock) [
  | true ↦ do
    s3 ← miss_deadline i (on u w)
    some (record { flow_id = i; launch_time = f.sche_time; action = late }, s3)
  | false ↦ do
    s3 ← transmit pit_hw i f.period r (on u w)
    let a = launch (sleep_time f r.clock) r.accepted
    some (record { flow_id = i; launch_time = f.sche_time; action = a }, s3)
]

act :
    (pit_hw : Bool) (r : Round) (i : ℕ) (f : Flow) (w : TxState) (u u' : FlowState)
    → visible (deed pit_hw r i f w u) ≡ visible (deed pit_hw r i f w u')
act pit_hw r i f w u u' = elim (Bool-cases (is_late f r.clock)) [
  | inl l ↦ elim (Option-cases (miss_deadline i (on u' w))) [
    | inl e ↦
        let e' = miss_deadline-on u u' i w ∙ ap (Option.map (on u)) e in
        rw (visible, deed, l, e, e')
    | inr (s3, e) ↦
        let e' = miss_deadline-on u u' i w ∙ ap (Option.map (on u)) e in
        rw (visible, deed, l, e, e')
  ]
  | inr l ↦ elim (Option-cases (transmit pit_hw i f.period r (on u' w))) [
    | inl e ↦
        let e' = transmit-on u u' pit_hw i f.period r w ∙ ap (Option.map (on u)) e in
        rw (visible, deed, l, e, e')
    | inr (s3, e) ↦
        let e' = transmit-on u u' pit_hw i f.period r w ∙ ap (Option.map (on u)) e in
        rw (visible, deed, l, e, e')
  ]
]

-- The same round on two tables that agree on the flows it reads.
pub tx_frame-on :
    (t t' : FlowState) (pit_hw : Bool) (schedule : ScheduleState) (it : ℕ) (r : Round) (v : TxState)
    → ((i : ℕ) → v.flow ≡ some i → load_flow t i ≡ load_flow t' i)
    → ((i : ℕ) → get_elem? schedule.order it ≡ some i → load_flow t i ≡ load_flow t' i)
    → visible (tx_frame pit_hw schedule it r (on t v))
      ≡ visible (tx_frame pit_hw schedule it r (on t' v))
unfolding tx_frame advance_timer
tx_frame-on t t' pit_hw schedule it r v same here =
    elim (Option-cases (get_elem? schedule.order (previous_index schedule it))) [
      | inl e ↦ rw e
      | inr (p, e) ↦ elim (Option-cases (observe_previous p r.clock (on t' v))) [
        | inl e1 ↦ let e2 = first p ∙ ap (Option.map (on t)) e1 in rw (e, e1, e2)
        | inr (s1, e1) ↦
            let e2 = first p ∙ ap (Option.map (on t)) e1 in
            let e1' =
              observe_previous-on t' t' p r.clock v (λ i h. refl) ∙ ap (Option.map (on t')) e1 in
            elim (Option-cases (get_elem? schedule.order it)) [
              | inl e3 ↦ rw (e, e1', e2, e3)
              | inr (i, e3) ↦ elim (Option-cases (load_flow t' i)) [
                | inl e4 ↦ let e5 = here i e3 ∙ e4 in rw (e, e1', e2, e3, e4, e5)
                | inr (f, e4) ↦
                    let e5 = here i e3 ∙ e4 in
                    rw (e, e1', e2, e3, e4, e5)
                      (act pit_hw r i (inc_flow_timer f)
                        (record s1 { flow = some i; txtime = (inc_flow_timer f).sche_time })
                        (timed t i f) (timed t' i f))
              ]
            ]
      ]
    ]
  where
    first :
        (p : ℕ)
        → observe_previous p r.clock (on t v)
          ≡ Option.map (on t) (observe_previous p r.clock (on t' v))
    first p = observe_previous-on t t' p r.clock v same
