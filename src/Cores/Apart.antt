-- ===== src/Cores/Apart.antt =====
-- What a core does is the same whatever the other cores do between its rounds.
use mathlib.Core.Option
use rtgen_dpdk_next.Base.{
  ℕ, ◌<◌, ◌≡◌, refl, ap, sym, subst, ◌∙◌, inl, inr, Bool, Bool-cases, Option-cases, false, Option,
  none, some, List, length, get_elem?, get_elem?-set_ne, get_elem?-set_self, ℕ_discrete,
  lt_of_get_elem?, set, ltb,
}
use rtgen_dpdk_next.Flow.{Flow, FlowState, load_flow, inc_flow_timer}
use rtgen_dpdk_next.Flow.Table.{fresh_table}
use rtgen_dpdk_next.Sche.{ScheduleState}
use rtgen_dpdk_next.TxLoop.{TxState, Round, Report, next_frame}
use rtgen_dpdk_next.Cores.{Core, on, core_step}
use rtgen_dpdk_next.Cores.Same.{visible, tx_frame-on}
use rtgen_dpdk_next.Cores.Table.{Told, after, core_step_round, silent, round}

-- A core without the table.
abbrev pub clear : Core → Core
clear core = record core { vars = on fresh_table core.vars }

abbrev seen : Option (Option Report × FlowState × Core) → Option (Option Report × Core)
seen = Option.map (λ (rep, table, core). (rep, clear core))

-- The tables agree on the flows of a schedule.
abbrev pub Agree : ScheduleState → List Flow → List Flow → Type 0
Agree schedule fs fs' =
    (k i : ℕ) → get_elem? schedule.order k ≡ some i → get_elem? fs i ≡ get_elem? fs' i

-- The pointer `flow` leads to a flow of the schedule.
abbrev pub Mine : ScheduleState → Option ℕ → Type 0
Mine schedule p = (i : ℕ) → p ≡ some i → (k : ℕ) × (get_elem? schedule.order k ≡ some i)

module _ (pit_hw : Bool) (schedule : ScheduleState) (base runtime : ℕ) (r : Round) where
  -- What the pointer `state` holds in the variables does not count.
  core_step-clear :
      (t : FlowState) (a : Core)
      → seen (core_step pit_hw schedule base runtime r t a)
        ≡ seen (core_step pit_hw schedule base runtime r t (clear a))
  unfolding core_step
  core_step-clear t a = elim (Bool-cases a.ended) [
    | inl e ↦ rw (core_step, e)
    | inr e ↦ elim (Bool-cases (ltb a.it_frame schedule.num_frames_per_cycle)) [
      | inl e' ↦ rw (core_step, e, e')
      | inr e' ↦ rw (core_step, e, e')
    ]
  ]

  seen-after :
      (core : Core) (o o' : Option (Report × TxState))
      → visible o ≡ visible o'
      → seen (after pit_hw schedule base runtime core o)
        ≡ seen (after pit_hw schedule base runtime core o')
  seen-after core none none e = refl
  seen-after core none (some x) e = absurd (cc)
  seen-after core (some x) none e = absurd (cc)
  seen-after core (some (rep, s)) (some (rep', s')) e =
      elim (Option-cases (next_frame core.it_frame)) [
        | inl q ↦ rw q refl
        | inr (it', q) ↦ rw q (
            ap
              (Option.map (λ ((rep, s) : Report × TxState).
                (some rep, record { vars = s; it_frame = it'; ended = false })))
              e)
      ]

  core_step-tables :
      (t t' : FlowState) (a : Core)
      → ((i : ℕ) → a.vars.flow ≡ some i → load_flow t i ≡ load_flow t' i)
      → ((i : ℕ) → get_elem? schedule.order a.it_frame ≡ some i → load_flow t i ≡ load_flow t' i)
      → seen (core_step pit_hw schedule base runtime r t a)
        ≡ seen (core_step pit_hw schedule base runtime r t' a)
  unfolding core_step
  core_step-tables t t' a ptr here = elim (Bool-cases a.ended) [
    | inl e ↦ rw (core_step, e)
    | inr e ↦ elim (Bool-cases (ltb a.it_frame schedule.num_frames_per_cycle)) [
      | inr e' ↦ rw (core_step, e, e')
      | inl e' ↦
          ap seen (core_step_round pit_hw schedule base runtime r t a e e')
          ∙ (seen-after a _ _ (tx_frame-on t t' pit_hw schedule a.it_frame r a.vars ptr here)
              ∙ sym (ap seen (core_step_round pit_hw schedule base runtime r t' a e e')))
    ]
  ]

  pub core_step-clear_same :
      (t t' : FlowState) (a b a1 b1 : Core) (t1 t1' : FlowState) (rep rep' : Option Report)
      → clear a ≡ clear b
      → ((i : ℕ) → a.vars.flow ≡ some i → load_flow t i ≡ load_flow t' i)
      → ((i : ℕ) → get_elem? schedule.order a.it_frame ≡ some i → load_flow t i ≡ load_flow t' i)
      → core_step pit_hw schedule base runtime r t a ≡ some (rep, t1, a1)
      → core_step pit_hw schedule base runtime r t' b ≡ some (rep', t1', b1)
      → (rep ≡ rep') × (clear a1 ≡ clear b1)
  core_step-clear_same t t' a b a1 b1 t1 t1' rep rep' same ptr here e e' =
      let u : ◌≡◌ {A = Option (Option Report × Core)} (some (rep, clear a1))
          (some (rep', clear b1)) =
        sym (ap seen e)
        ∙ (core_step-tables t t' a ptr here
            ∙ (core_step-clear t' a
                ∙ (ap (λ c. seen (core_step pit_hw schedule base runtime r t' c)) same
                    ∙ (sym (core_step-clear t' b) ∙ ap seen e')))) in
      (cc, cc)

agree-set :
    (l l' : List Flow) (i j : ℕ) (v : Flow)
    → i < length l
    → i < length l'
    → get_elem? l j ≡ get_elem? l' j
    → get_elem? (set l i v) j ≡ get_elem? (set l' i v) j
agree-set l l' i j v h h' e = elim (ℕ_discrete i j) [
  | yes same ↦
      subst (λ m. get_elem? (set l i v) m ≡ get_elem? (set l' i v) m) same
        (get_elem?-set_self l i v h ∙ sym (get_elem?-set_self l' i v h'))
  | no other ↦ get_elem?-set_ne l v other ∙ (e ∙ sym (get_elem?-set_ne l' v other))
]

pub Agree-Told :
    (schedule : ScheduleState) (r : Round) (fs fs' fs1 fs1' : List Flow) (p p1 q q1 : Option ℕ)
    (rep rep' : Option Report)
    → Told schedule r fs p rep fs1 p1
    → Told schedule r fs' q rep' fs1' q1
    → rep ≡ rep'
    → Agree schedule fs fs'
    → Agree schedule fs1 fs1'
Agree-Told schedule r fs fs' fs1 fs1' p p1 q q1 rep rep' silent silent e h = h
Agree-Told schedule r fs fs' fs1 fs1' p p1 q q1 rep rep' silent (round k i f o g) e h = absurd (cc)
Agree-Told schedule r fs fs' fs1 fs1' p p1 q q1 rep rep' (round k i f o g) silent e h = absurd (cc)
Agree-Told schedule r fs fs' fs1 fs1' p p1 q q1 rep rep' (round k i f o g) (round k' i' f' o' g') e
      h =
    λ m j at.
      let ids : i ≡ i' = cc in
      let g'' : get_elem? fs' i ≡ some f' = cc in
      let u : f ≡ f' = let w : some f ≡ some f' = sym g ∙ (h k i o ∙ g'') in cc in
      subst
        (λ x.
          get_elem? (set fs i (inc_flow_timer f)) j ≡ get_elem? (set fs' x (inc_flow_timer f')) j)
        ids
        (subst
          (λ x.
            get_elem? (set fs i (inc_flow_timer f)) j ≡ get_elem? (set fs' i (inc_flow_timer x)) j)
          u
          (agree-set fs fs' i j (inc_flow_timer f) (lt_of_get_elem? fs i f g)
            (lt_of_get_elem? fs' i f' g'') (h m j at)))

pub Mine-Told :
    (schedule : ScheduleState) (r : Round) (fs fs1 : List Flow) (p p1 : Option ℕ)
    (rep : Option Report)
    → Told schedule r fs p rep fs1 p1
    → Mine schedule p
    → Mine schedule p1
Mine-Told schedule r fs fs1 p p1 rep silent m = m
Mine-Told schedule r fs fs1 p p1 rep (round k i f o e) m =
    λ j u. let same : i ≡ j = cc in (k, o ∙ ap some same)

-- A round for a flow that the schedule does not have.
pub other-Told :
    (schedule mine : ScheduleState) (r : Round) (fs fs' fs1 : List Flow) (p p1 : Option ℕ)
    (rep : Option Report)
    → ((k k' i : ℕ) → get_elem? schedule.order k ≡ some i → get_elem? mine.order k' ≡ some i → ⊥)
    → Told schedule r fs p rep fs1 p1
    → Agree mine fs fs'
    → Agree mine fs1 fs'
other-Told schedule mine r fs fs' fs1 p p1 rep apart silent h = h
other-Told schedule mine r fs fs' fs1 p p1 rep apart (round k i f o e) h = λ m j at.
    get_elem?-set_ne fs (inc_flow_timer f) (λ same. apart k m j (o ∙ ap some same) at) ∙ h m j at
