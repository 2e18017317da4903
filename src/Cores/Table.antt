-- ===== src/Cores/Table.antt =====
-- However the rounds of the cores fall, no core faults, and the table holds the flows with one more
-- period for each round.
use rtgen_dpdk_next.Base.{
  update, ℕ, suc, ◌+◌, ◌<◌, ◌≤◌, ◌≡◌, refl, ap, sym, subst, ◌∙◌, inl, inr, Bool, Bool-cases, true,
  false, Option, none, some, List, [], ◌∷◌, arith, All, length, length-set, get_elem?,
  get_elem?-some, set, ltb, ltb→lt, ◌>>=◌, ◌==◌, if◌then◌else◌, ◌^◌,
}
use rtgen_dpdk_next.Flow.{Flow, FlowState, inc_flow_timer}
use rtgen_dpdk_next.Flow.Table.{Represents}
use rtgen_dpdk_next.Sche.{ScheduleState}
use rtgen_dpdk_next.Statistic.Live.{Live, Live-weaken}
use rtgen_dpdk_next.TxLoop.{
  TxState, is_running, Round, Report, tx_frame, next_frame, previous_index,
}
use rtgen_dpdk_next.TxLoop.Total.{IsValid, PointerIsSafe, report_of, tx_frame-IsValid}
use rtgen_dpdk_next.TxLoop.Cycle.{
  advance_all, advance_all_cons, advance_all_nil, needed, All-get, next_frame_lem,
  previous_index-lt,
}
use rtgen_dpdk_next.Cores.{Core, System, on, core_step, system_step, system_run, log}

-- A schedule for a table of `n` flows.
pub record Fits (n : ℕ) (schedule : ScheduleState) : Type 0 where
  pub count : schedule.num_frames_per_cycle ≡ length schedule.order
  pub small : length schedule.order < 2 ^ 31
  pub below : All (λ i. i < n) schedule.order

-- A core over the flows `fs`, with room for the reports of `k` more updates.
pub record CoreIsValid (table : FlowState) (core : Core) (fs : List Flow) (k : ℕ) : Type 0 where
  pub vars : IsValid (on table core.vars) fs k
  pub pointer : PointerIsSafe core.vars (length fs)

-- A system of `cores` cores whose table stands for `fs`.
pub record Holds (cores : ℕ) (sys : System) (fs : List Flow) (k : ℕ) : Type 0 where
  pub table : Represents sys.table fs
  pub each : (c : ℕ) → c < cores → CoreIsValid sys.table (sys.core c) fs k

-- What a step reports, does to the flows, and leaves in the pointer `flow`.
pub data Told (schedule : ScheduleState) (r : Round) (fs : List Flow) (p : Option ℕ)
    : Option Report → List Flow → Option ℕ → Type 0 where
  silent : Told schedule r fs p none fs p
  round :
      (k i : ℕ) (f : Flow)
      → get_elem? schedule.order k ≡ some i
      → get_elem? fs i ≡ some f
      → Told schedule r fs p
          (some (report_of i (inc_flow_timer f) r))
          (set fs i (inc_flow_timer f))
          (some i)

pub length-Told :
    {schedule : ScheduleState} {r : Round} {fs fs' : List Flow} {p p' : Option ℕ}
    {rep : Option Report}
    → Told schedule r fs p rep fs' p'
    → length fs' ≡ length fs
length-Told silent = refl
length-Told {fs} (round k i f o e) = length-set fs i (inc_flow_timer f)

-- The moves of other cores leave a core valid.
CoreIsValid-moved :
    (t t' : FlowState) (core : Core) (fs fs' : List Flow) (k m : ℕ)
    → m ≤ k
    → length fs' ≡ length fs
    → Represents t' fs'
    → CoreIsValid t core fs k
    → CoreIsValid t' core fs' m
CoreIsValid-moved t t' core fs fs' k m le len rep v = record {
  vars = record {
    table = rep;
    stats =
        subst (λ n. Live core.vars.stats n m) (sym len)
          (Live-weaken core.vars.stats (length fs) k m le v.vars.stats);
    prev = v.vars.prev ∙ sym len;
    prev_hw = v.vars.prev_hw ∙ sym len;
  };
  pointer = subst (PointerIsSafe core.vars) (sym len) v.pointer;
}

module _ (pit_hw : Bool) (schedule : ScheduleState) (base runtime : ℕ) where
  abbrev pub after : Core → Option (Report × TxState) → Option (Option Report × FlowState × Core)
  after core o = do
    (rep, s) ← o
    it' ← next_frame core.it_frame
    some (some rep, s.state, record { vars = s; it_frame = it'; ended = false })

  -- A step that is a round.
  pub core_step_round :
      (r : Round) (t : FlowState) (core : Core)
      → core.ended ≡ false
      → ltb core.it_frame schedule.num_frames_per_cycle ≡ true
      → core_step pit_hw schedule base runtime r t core
        ≡ after core (tx_frame pit_hw schedule core.it_frame r (on t core.vars))
  unfolding core_step
  core_step_round r t core e e' = rw (core_step, e, e')

  core_step-IsValid :
      (r : Round) (t : FlowState) (core : Core) (fs : List Flow) (k : ℕ)
      → Fits (length fs) schedule
      → CoreIsValid t core fs (suc (suc k))
      → (rep : Option Report) × (t' : FlowState) × (core' : Core) × (fs' : List Flow) × (core_step
            pit_hw schedule base runtime r t core
          ≡ some (rep, t', core'))
        × Told schedule r fs core.vars.flow rep fs' core'.vars.flow
        × CoreIsValid t' core' fs' k
  unfolding core_step
  core_step-IsValid r t core fs k fit v = elim (Bool-cases core.ended) [
    | inl e ↦ (none, t, core, fs, rw e, silent, weak core v)
    | inr e ↦ elim (Bool-cases (ltb core.it_frame schedule.num_frames_per_cycle)) [
      | inr e' ↦
          let next : Core = record {
            vars = core.vars;
            it_frame = 0;
            ended = if is_running base runtime core.vars.current_time then false else true;
          } in
          (
            none,
            t,
            next,
            fs,
            rw (core_step, e, e'),
            silent,
            weak next (record { vars = v.vars; pointer = v.pointer }),
          )
      | inl e' ↦
          let itl : core.it_frame < length schedule.order =
            omega (arith, ltb→lt _ _ e', fit.count) in
          let (i, ie) = get_elem?-some schedule.order core.it_frame itl in
          let (p, pe) =
            get_elem?-some schedule.order (previous_index schedule core.it_frame)
              (previous_index-lt schedule core.it_frame fit.count fit.small itl) in
          let il = All-get (λ j. j < length fs) schedule.order core.it_frame i fit.below ie in
          let pl = All-get (λ j. j < length fs) schedule.order _ p fit.below pe in
          let (f, fe) = get_elem?-some fs i il in
          let (s, run, good, fl) =
            tx_frame-IsValid pit_hw schedule core.it_frame p i k r (on t core.vars) fs f v.vars
              v.pointer pe pl ie il fe in
          (
            some (report_of i (inc_flow_timer f) r),
            s.state,
            record { vars = s; it_frame = core.it_frame + 1; ended = false },
            set fs i (inc_flow_timer f),
            core_step_round r t core e e'
                ∙ ap (after core) run
                ∙ rw (next_frame_lem core.it_frame (length schedule.order) itl fit.small) refl,
            subst
                (Told schedule r fs core.vars.flow (some (report_of i (inc_flow_timer f) r))
                  (set fs i (inc_flow_timer f)))
                (sym fl) (round core.it_frame i f ie fe),
            record {
              vars = good;
              pointer = inl (i, fl, omega (arith, il, length-set fs i (inc_flow_timer f)));
            },
          )
    ]
  ]
    where
      weak : (core' : Core) → CoreIsValid t core' fs (suc (suc k)) → CoreIsValid t core' fs k
      weak core' w =
          CoreIsValid-moved t t core' fs fs (suc (suc k)) k (omega arith) refl w.vars.table w

-- The system after a step of core `c`.
abbrev pub moved : System → ℕ → FlowState → Core → System
moved sys c table core = record { table = table; core = update sys.core c core }

module _ (pit_hw : Bool) (schedules : List ScheduleState) (base runtime n : ℕ)
    (fit : All (Fits n) schedules) where
  -- A step of a valid system.
  pub record Stepped (c : ℕ) (r : Round) (sys : System) (fs : List Flow) (k : ℕ) : Type 0 where
    pub schedule : ScheduleState
    pub rep : Option Report
    pub table : FlowState
    pub core : Core
    pub flows : List Flow
    pub chosen : get_elem? schedules c ≡ some schedule
    pub ran :
        core_step pit_hw schedule base runtime r sys.table (sys.core c) ≡ some (rep, table, core)
    pub told : Told schedule r fs (sys.core c).vars.flow rep flows core.vars.flow
    pub holds : Holds (length schedules) (moved sys c table core) flows k
    pub result :
        system_step pit_hw schedules base runtime c r sys ≡ some (rep, moved sys c table core)

  pub system_step-Holds :
      (c : ℕ) (r : Round) (sys : System) (fs : List Flow) (k : ℕ)
      → c < length schedules
      → length fs ≡ n
      → Holds (length schedules) sys fs (suc (suc k))
      → Stepped c r sys fs k
  unfolding system_step
  system_step-Holds c r sys fs k lt len h =
      let (schedule, se) = get_elem?-some schedules c lt in
      let mine =
        subst (λ m. Fits m schedule) (sym len) (All-get (Fits n) schedules c schedule fit se) in
      let (rep, t', core', fs', run, told, v) =
        core_step-IsValid pit_hw schedule base runtime r sys.table (sys.core c) fs k mine
          (h.each c lt) in
      record {
        schedule = schedule;
        rep = rep;
        table = t';
        core = core';
        flows = fs';
        chosen = se;
        ran = run;
        told = told;
        holds = record {
          table = v.vars.table;
          each = λ d ld. elim (Bool-cases (c == d)) [
            | inl e ↦ rw e v
            | inr e ↦ rw e (
                CoreIsValid-moved sys.table t' (sys.core d) fs fs' (suc (suc k)) k (omega arith)
                  (length-Told told) v.vars.table (h.each d ld))
          ];
        };
        result = rw (se, run);
      }

-- The flows of the rounds, in their order.
abbrev pub ids_of : List (ℕ × Report) → List ℕ
ids_of [] = []
ids_of ((c, rep) ∷ trace) = rep.flow_id ∷ ids_of trace

-- Each round reports the launch time that its flow has reached.
abbrev pub IsTrace : List Flow → List (ℕ × Report) → Type 0
IsTrace fs [] = Unit
IsTrace fs ((c, rep) ∷ trace) =
    ((f : Flow) × (get_elem? fs rep.flow_id ≡ some f)
      × (rep.launch_time ≡ (inc_flow_timer f).sche_time))
    × IsTrace (advance_all (rep.flow_id ∷ []) fs) trace

advance_one :
    (i : ℕ) (fs : List Flow) (f : Flow)
    → get_elem? fs i ≡ some f
    → advance_all (i ∷ []) fs ≡ set fs i (inc_flow_timer f)
advance_one i fs f e = advance_all_cons i [] fs f e ∙ advance_all_nil _

-- The log of a step, with the trace of the steps behind it.
log-IsTrace :
    (c : ℕ) (schedule : ScheduleState) (r : Round) (fs fs' : List Flow) (p p' : Option ℕ)
    (rep : Option Report) (trace : List (ℕ × Report))
    → Told schedule r fs p rep fs' p'
    → IsTrace fs' trace
    → IsTrace fs (log c rep trace)
      × (advance_all (ids_of (log c rep trace)) fs ≡ advance_all (ids_of trace) fs')
log-IsTrace c schedule r fs fs' p p' rep trace silent t = (t, refl)
log-IsTrace c schedule r fs fs' p p' rep trace (round k i f o e) t = (
  ((f, e, refl), subst (λ l. IsTrace l trace) (sym (advance_one i fs f e)) t),
  advance_all_cons i (ids_of trace) fs f e,
)

module _ (pit_hw : Bool) (schedules : List ScheduleState) (base runtime n : ℕ)
    (fit : All (Fits n) schedules) where
  -- Every run of a valid system, whatever the order of its steps.
  pub system_run-Holds :
      (picks : List (ℕ × Round)) (sys : System) (fs : List Flow) (k : ℕ)
      → All (λ pick. pick.0 < length schedules) picks
      → length fs ≡ n
      → Holds (length schedules) sys fs (needed (length picks) k)
      → (trace : List (ℕ × Report)) × (sys' : System) × (system_run pit_hw schedules base runtime
            picks sys
          ≡ some (trace, sys'))
        × IsTrace fs trace
        × Holds (length schedules) sys' (advance_all (ids_of trace) fs) k
  unfolding system_run
  system_run-Holds [] sys fs k lt len h = ([], sys, refl, tt, rw (advance_all_nil fs) h)
  system_run-Holds ((c, r) ∷ picks) sys fs k lt len h =
      let st =
        system_step-Holds pit_hw schedules base runtime n fit c r sys fs (needed (length picks) k)
          lt.0 len h in
      let (trace, sys2, e2, t, h2) =
        system_run-Holds picks (moved sys c st.table st.core) st.flows k lt.1
          (length-Told st.told ∙ len) st.holds in
      let (t', same) =
        log-IsTrace c st.schedule r fs st.flows _ st.core.vars.flow st.rep trace st.told t in
      (log c st.rep trace, sys2, rw (st.result, e2), t', rw same h2)
