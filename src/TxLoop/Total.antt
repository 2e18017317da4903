-- ===== src/TxLoop/Total.antt =====
-- No round of the transmit loop faults, and what a round does to the timers.
use rtgen_dpdk_next.Base.{
  ℕ, suc, ◌<◌, ◌≡◌, refl, subst, ap, sym, ◌∙◌, ◌⊎◌, inl, inr, Bool, Bool-cases, true, false, Option,
  none, some, List, arith, length, length-set, get_elem?, get_elem?-some, set, store-eq-set, ◌==◌,
  if◌then◌else◌, ◌>>=◌,
}
use rtgen_dpdk_next.Flow.{Flow, load_flow, inc_flow_timer}
use rtgen_dpdk_next.Flow.Table.{Represents, load_flow-Represents, set-Represents}
use rtgen_dpdk_next.Sche.{ScheduleState}
use rtgen_dpdk_next.Statistic.{
  StatisticCore, update_time_sw, update_jitter_sw_st, update_jitter_hw_st,
}
use rtgen_dpdk_next.Statistic.Live.{
  Live, update_nums-Live, update_time_sw-Live, update_time_hw-Live, update_jitter_sw_st-Live,
  update_jitter_hw_st-Live,
}
use rtgen_dpdk_next.TxLoop.{
  TxState, Round, Report, late, launch, observe_previous, advance_timer, miss_deadline,
  record_hwtimestamp, transmit, tx_frame, is_late, sleep_time, previous_index,
}

-- The state of the loop over the flows `fs`, with room for the reports of `k` more updates.
pub record IsValid (s : TxState) (fs : List Flow) (k : ℕ) : Type 0 where
  pub table : Represents s.state fs
  pub stats : Live s.stats (length fs) k
  pub prev : length s.prev_time ≡ length fs
  pub prev_hw : length s.prev_hwtime ≡ length fs

-- The pointer `flow` is read only behind a nonzero `prev_time`.
abbrev pub PointerIsSafe : TxState → ℕ → Type 0
PointerIsSafe s n =
    ((i : ℕ) × (s.flow ≡ some i) × (i < n)) ⊎ ((j : ℕ) → j < n → get_elem? s.prev_time j ≡ some 0)

update_if :
    (b : Bool) (s : StatisticCore) (o : Option StatisticCore) (n k : ℕ)
    → Live s n k
    → ((b ≡ false) → (s' : StatisticCore) × (o ≡ some s') × Live s' n k)
    → (s' : StatisticCore) × ((if b then some s else o) ≡ some s') × Live s' n k
update_if true s o n k l f = (s, refl, l)
update_if false s o n k l f = f refl

observe_previous-IsValid :
    (s : TxState) (fs : List Flow) (k p clock : ℕ)
    → IsValid s fs k
    → PointerIsSafe s (length fs)
    → p < length fs
    → (s' : TxState) × (observe_previous p clock s ≡ some s') × IsValid s' fs k
unfolding observe_previous
observe_previous-IsValid s fs k p clock v ptr h =
    let (x, at, lx) = v.stats.entry p (omega arith) in
    let (t, prev_at) = get_elem?-some s.prev_time p (omega (arith, v.prev)) in
    let (st1, e1, l1) =
      update_if (x.num_pkt_total == 0) s.stats (update_time_sw s.stats p clock s.txtime) (length fs)
        k v.stats
        (λ _. update_time_sw-Live s.stats (length fs) k p clock s.txtime v.stats (omega arith)) in
    let (st2, e2, l2) =
      update_if (t == 0) st1
        (s.flow >>= λ i. load_flow s.state i >>= λ f. update_jitter_sw_st st1 p t clock f.period)
        (length fs) k l1 (λ ne. jitter t prev_at ne st1 l1) in
    (
      record s { current_time = clock; prev_time = set s.prev_time p clock; stats = st2 },
      rw (at, e1, prev_at, e2, store-eq-set s.prev_time p clock (omega (arith, v.prev))),
      record {
        table = v.table;
        stats = l2;
        prev = length-set s.prev_time p clock ∙ v.prev;
        prev_hw = v.prev_hw;
      },
    )
  where
    jitter :
        (t : ℕ)
        → get_elem? s.prev_time p ≡ some t
        → (t == 0) ≡ false
        → (st : StatisticCore) → Live st (length fs) k
        → (s' : StatisticCore) × ((s.flow >>= λ i.
              load_flow s.state i >>= λ f. update_jitter_sw_st st p t clock f.period)
            ≡ some s')
          × Live s' (length fs) k
    jitter t e ne st l = elim ptr [
      | inl (i, fl, lt) ↦
          let (f, fe) = get_elem?-some fs i lt in
          let (st', u, l') =
            update_jitter_sw_st-Live st (length fs) k p l (omega arith) t clock f.period in
          (
            st',
            ap
                  (λ o. o >>= λ i.
                    load_flow s.state i >>= λ f. update_jitter_sw_st st p t clock f.period)
                  fl
                ∙ (ap (λ o. o >>= λ f. update_jitter_sw_st st p t clock f.period)
                      (load_flow-Represents s.state fs i v.table lt ∙ fe)
                    ∙ u),
            l',
          )
      | inr zeros ↦ absurd (cc (zeros p h, e, ne))
    ]

-- The state that `advance_timer` leaves, at the flow `f`.
abbrev advanced : TxState → ℕ → Flow → TxState
advanced s i f = record s {
  flow = some i;
  txtime = (inc_flow_timer f).sche_time;
  state = record (s.state) { flows = set s.state.flows i (some (inc_flow_timer f)) };
}

advance_timer-IsValid :
    (s : TxState) (fs : List Flow) (k i : ℕ) (f : Flow)
    → IsValid s fs k
    → i < length fs
    → get_elem? fs i ≡ some f
    → (advance_timer i s ≡ some (inc_flow_timer f, advanced s i f))
      × IsValid (advanced s i f) (set fs i (inc_flow_timer f)) k
unfolding advance_timer
advance_timer-IsValid s fs k i f v h e = (
  ap (λ o. o >>= λ g. some (inc_flow_timer g, advanced s i g))
      (load_flow-Represents s.state fs i v.table h ∙ e),
  record {
    table = set-Represents s.state fs i (inc_flow_timer f) v.table h;
    stats = subst (λ n. Live s.stats n k) (sym same) v.stats;
    prev = v.prev ∙ sym same;
    prev_hw = v.prev_hw ∙ sym same;
  },
)
  where
    same : length (set fs i (inc_flow_timer f)) ≡ length fs
    same = length-set fs i (inc_flow_timer f)

-- What a part of the loop that touches no flow guarantees.
abbrev Keeps : (TxState → Option TxState) → TxState → List Flow → ℕ → Type 0
Keeps f s fs k = (s' : TxState) × (f s ≡ some s') × IsValid s' fs k × (s'.flow ≡ s.flow)

module _ (s : TxState) (fs : List Flow) (i : ℕ) (h : i < length fs) where
  miss_deadline-IsValid : (k : ℕ) → IsValid s fs (suc (suc k)) → Keeps (miss_deadline i) s fs k
  unfolding miss_deadline
  miss_deadline-IsValid k v =
      let (st, e, l) = update_nums-Live s.stats (length fs) k i true false v.stats (omega arith) in
      (
        record s { stats = st; prev_hwtime = set s.prev_hwtime i 0 },
        rw (e, store-eq-set s.prev_hwtime i 0 (omega (arith, v.prev_hw))),
        record {
          table = v.table;
          stats = l;
          prev = v.prev;
          prev_hw = length-set s.prev_hwtime i 0 ∙ v.prev_hw;
        },
        refl,
      )

  record_hwtimestamp-IsValid :
      (k period ts : ℕ) → IsValid s fs k → Keeps (record_hwtimestamp i period ts) s fs k
  unfolding record_hwtimestamp
  record_hwtimestamp-IsValid k period ts v =
      let (st1, e1, l1) =
        update_time_hw-Live s.stats (length fs) k i ts s.txtime v.stats (omega arith) in
      let (t, at) = get_elem?-some s.prev_hwtime i (omega (arith, v.prev_hw)) in
      let (st2, e2, l2) =
        update_if (t == 0) st1 (update_jitter_hw_st st1 i t ts period) (length fs) k l1
          (λ _. update_jitter_hw_st-Live st1 (length fs) k i l1 (omega arith) t ts period) in
      (
        record s { stats = st2; prev_hwtime = set s.prev_hwtime i ts },
        rw (e1, at, e2, store-eq-set s.prev_hwtime i ts (omega (arith, v.prev_hw))),
        record {
          table = v.table;
          stats = l2;
          prev = v.prev;
          prev_hw = length-set s.prev_hwtime i ts ∙ v.prev_hw;
        },
        refl,
      )

module _ (s : TxState) (fs : List Flow) (i k : ℕ) (h : i < length fs)
    (v : IsValid s fs (suc (suc k))) where
  transmit-IsValid :
      (pit_hw : Bool) (period : ℕ) (r : Round) → Keeps (transmit pit_hw i period r) s fs k
  unfolding transmit
  transmit-IsValid pit_hw period r = elim (Bool-cases r.accepted) [
    | inr refused ↦
        let (st, e, l) =
          update_nums-Live s.stats (length fs) k i false true v.stats (omega arith) in
        (
          record s {
            current_time = r.clock_before_tx;
            stats = st;
            prev_hwtime = set s.prev_hwtime i 0;
          },
          rw (refused, e, store-eq-set s.prev_hwtime i 0 (omega (arith, v.prev_hw))),
          record {
            table = v.table;
            stats = l;
            prev = v.prev;
            prev_hw = length-set s.prev_hwtime i 0 ∙ v.prev_hw;
          },
          refl,
        )
    | inl sent ↦
        let (st, e, l) =
          update_nums-Live s.stats (length fs) k i false false v.stats (omega arith) in
        rw (sent, e)
          (stamped pit_hw (record s { current_time = r.clock_before_tx; stats = st }) r.hwtimestamp
            (record { table = v.table; stats = l; prev = v.prev; prev_hw = v.prev_hw }))
  ]
    where
      stamped :
          (hw : Bool) (s' : TxState) (ts : Option ℕ)
          → IsValid s' fs k
          → (s'' : TxState) × ((elim hw [
            | false ↦ some s'
            | true ↦ elim ts [ none ↦ some s' | some t ↦ record_hwtimestamp i period t s' ]
          ])
              ≡ some s'')
            × IsValid s'' fs k
            × (s''.flow ≡ s'.flow)
      stamped false s' ts v' = (s', refl, v', refl)
      stamped true s' none v' = (s', refl, v', refl)
      stamped true s' (some t) v' = record_hwtimestamp-IsValid s' fs i h k period t v'

-- What a round reports, of a flow whose timer has just advanced.
abbrev pub report_of : (flow_id : ℕ) → Flow → Round → Report
report_of i f r = record {
  flow_id = i;
  launch_time = f.sche_time;
  action = if is_late f r.clock then late else launch (sleep_time f r.clock) r.accepted;
}

module _ (pit_hw : Bool) (schedule : ScheduleState) (it p i k : ℕ) (r : Round) (s : TxState)
    (fs : List Flow) (f : Flow) (v : IsValid s fs (suc (suc k))) where
  -- A round on a valid state, for a schedule whose entries are flows of the table, does not fault, and
  -- advances the timer of its own flow by one period and no other.
  pub tx_frame-IsValid :
      PointerIsSafe s (length fs)
      → get_elem? schedule.order (previous_index schedule it) ≡ some p
      → p < length fs
      → get_elem? schedule.order it ≡ some i
      → i < length fs
      → get_elem? fs i ≡ some f
      → (s' : TxState) × (tx_frame pit_hw schedule it r s
          ≡ some (report_of i (inc_flow_timer f) r, s'))
        × IsValid s' (set fs i (inc_flow_timer f)) k
        × (s'.flow ≡ some i)
  unfolding tx_frame
  tx_frame-IsValid ptr pe pl ie il fe =
      let (s1, e1, v1) = observe_previous-IsValid s fs (suc (suc k)) p r.clock v ptr pl in
      let (e2, v2) = advance_timer-IsValid s1 fs (suc (suc k)) i f v1 il fe in
      let lt : i < length (set fs i (inc_flow_timer f)) =
        omega (arith, length-set fs i (inc_flow_timer f)) in
      elim (Bool-cases (is_late (inc_flow_timer f) r.clock)) [
        | inl missed ↦
            let (s3, e3, v3, fl) = miss_deadline-IsValid (advanced s1 i f) _ i lt k v2 in
            (s3, rw (pe, e1, ie, e2, ◌>>=◌, missed, e3), v3, fl)
        | inr timely ↦
            let (s3, e3, v3, fl) =
              transmit-IsValid (advanced s1 i f) _ i k lt v2 pit_hw (inc_flow_timer f).period r in
            (s3, rw (pe, e1, ie, e2, ◌>>=◌, timely, e3), v3, fl)
      ]
