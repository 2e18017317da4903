-- ===== src/Cores/Alone.antt =====
-- A core in an interleaving with others against the core alone.
use rtgen_dpdk_next.Base.{
  update, update_self, ℕ, suc, ◌<◌, ◌≡◌, refl, ap, sym, subst, ◌∙◌, inl, inr, Bool, Bool-cases,
  true, false, Option, none, some, List, [], ◌∷◌, arith, All, length, get_elem?, ◌==◌, ==_iff,
}
use rtgen_dpdk_next.Flow.{Flow, load_flow}
use rtgen_dpdk_next.Flow.Table.{load_flow-Represents}
use rtgen_dpdk_next.Sche.{ScheduleState}
use rtgen_dpdk_next.TxLoop.{Round, Report}
use rtgen_dpdk_next.TxLoop.Cycle.{needed, All-get}
use rtgen_dpdk_next.Cores.{core_step, System, system_run, log, only}
use rtgen_dpdk_next.Cores.Table.{Fits, Holds, Told, length-Told, moved, Stepped, system_step-Holds}
use rtgen_dpdk_next.Cores.Apart.{
  clear, Agree, Mine, core_step-clear_same, Agree-Told, Mine-Told, other-Told,
}

-- No flow stands in the schedules of two cores.
abbrev pub AreApart : List ScheduleState → Type 0
AreApart schedules =
    (c d k k' i : ℕ) (x y : ScheduleState)
    → get_elem? schedules c ≡ some x
    → get_elem? schedules d ≡ some y
    → get_elem? x.order k ≡ some i
    → get_elem? y.order k' ≡ some i
    → c ≡ d

-- Core `c` in two systems whose tables agree on its flows.
pub record Twin (c : ℕ) (schedule : ScheduleState) (sys sys' : System) (fs fs' : List Flow)
    : Type 0 where
  pub core : clear (sys.core c) ≡ clear (sys'.core c)
  pub agree : Agree schedule fs fs'
  pub mine : Mine schedule (sys.core c).vars.flow

-- The run of a core among others, and the run of the same core alone.
pub record Alike (pit_hw : Bool) (schedules : List ScheduleState) (base runtime c : ℕ)
    (sys sys' : System) (picks : List (ℕ × Round)) : Type 0 where
  pub trace : List (ℕ × Report)
  pub alone : List (ℕ × Report)
  pub end : System
  pub end' : System
  pub together : system_run pit_hw schedules base runtime picks sys ≡ some (trace, end)
  pub by_itself : system_run pit_hw schedules base runtime (only c picks) sys' ≡ some (alone, end')
  pub reports : only c trace ≡ alone
  pub core : clear (end.core c) ≡ clear (end'.core c)

only_cons_same {ℓ} :
    {A : Type ℓ} (c : ℕ) (a : A) (l : List (ℕ × A)) → only c ((c, a) ∷ l) ≡ (c, a) ∷ only c l
unfolding only
only_cons_same c a l = let e : (c == c) ≡ true = ground arith in rw (only, e)

only_cons_other {ℓ} :
    {A : Type ℓ} (c d : ℕ) (a : A) (l : List (ℕ × A))
    → (d == c) ≡ false
    → only c ((d, a) ∷ l) ≡ only c l
unfolding only
only_cons_other c d a l e = rw (only, e)

only-log_same :
    (c : ℕ) (rep : Option Report) (l : List (ℕ × Report))
    → only c (log c rep l) ≡ log c rep (only c l)
only-log_same c none l = refl
only-log_same c (some rep) l = only_cons_same c rep l

only-log_other :
    (c d : ℕ) (rep : Option Report) (l : List (ℕ × Report))
    → (d == c) ≡ false
    → only c (log d rep l) ≡ only c l
only-log_other c d none l e = refl
only-log_other c d (some rep) l e = only_cons_other c d rep l e

module _ (pit_hw : Bool) (schedules : List ScheduleState) (base runtime n : ℕ)
    (fit : All (Fits n) schedules) (apart : AreApart schedules) (c : ℕ) (schedule : ScheduleState)
    (chosen : get_elem? schedules c ≡ some schedule) where
  -- The flows of the schedule are the same in the two tables.
  loads :
      (sys sys' : System) (fs fs' : List Flow) (k k' m i : ℕ)
      → length fs ≡ n
      → length fs' ≡ n
      → Holds (length schedules) sys fs k
      → Holds (length schedules) sys' fs' k'
      → Agree schedule fs fs'
      → get_elem? schedule.order m ≡ some i
      → load_flow sys.table i ≡ load_flow sys'.table i
  loads sys sys' fs fs' k k' m i len len' h h' agree at =
      let below : i < n =
        All-get (λ j. j < n) schedule.order m i
          (All-get (Fits n) schedules c schedule fit chosen).below at in
      load_flow-Represents sys.table fs i h.table (omega arith)
      ∙ (agree m i at ∙ sym (load_flow-Represents sys'.table fs' i h'.table (omega arith)))

  -- A step of the core itself, in both systems.
  both-Twin :
      (r : Round) (sys sys' : System) (fs fs' : List Flow) (k k' : ℕ)
      → length fs ≡ n
      → length fs' ≡ n
      → Holds (length schedules) sys fs (suc (suc k))
      → Holds (length schedules) sys' fs' (suc (suc k'))
      → Twin c schedule sys sys' fs fs'
      → (st : Stepped pit_hw schedules base runtime n fit c r sys fs k)
        (st' : Stepped pit_hw schedules base runtime n fit c r sys' fs' k')
      → (st.rep ≡ st'.rep)
        × Twin c schedule
            (moved sys c st.table st.core)
            (moved sys' c st'.table st'.core)
            st.flows
            st'.flows
  both-Twin r sys sys' fs fs' k k' len len' h h' tw st st' =
      let e : st.schedule ≡ schedule = let u = sym st.chosen ∙ chosen in cc in
      let e' : st'.schedule ≡ schedule = let u = sym st'.chosen ∙ chosen in cc in
      let (reps, cores) =
        core_step-clear_same pit_hw schedule base runtime r sys.table sys'.table (sys.core c)
          (sys'.core c) st.core st'.core st.table st'.table st.rep st'.rep tw.core
          (λ i p.
            let (m, at) = tw.mine i p in loads sys sys' fs fs' _ _ m i len len' h h' tw.agree at)
          (λ i at. loads sys sys' fs fs' _ _ _ i len len' h h' tw.agree at)
          (subst
            (λ x.
              core_step pit_hw x base runtime r sys.table (sys.core c)
              ≡ some (st.rep, st.table, st.core))
            e st.ran)
          (subst
            (λ x.
              core_step pit_hw x base runtime r sys'.table (sys'.core c)
              ≡ some (st'.rep, st'.table, st'.core))
            e' st'.ran) in
      let told =
        subst (λ x. Told x r fs (sys.core c).vars.flow st.rep st.flows st.core.vars.flow) e
          st.told in
      let told' =
        subst (λ x. Told x r fs' (sys'.core c).vars.flow st'.rep st'.flows st'.core.vars.flow) e'
          st'.told in
      (
        reps,
        record {
          core =
              ap clear (update_self sys.core c st.core)
              ∙ (cores ∙ sym (ap clear (update_self sys'.core c st'.core)));
          agree =
              Agree-Told schedule r fs fs' st.flows st'.flows _ _ _ _ st.rep st'.rep told told' reps
                tw.agree;
          mine =
              subst (λ x. Mine schedule x.vars.flow) (sym (update_self sys.core c st.core))
                (Mine-Told schedule r fs st.flows _ _ st.rep told tw.mine);
        },
      )

  -- A step of another core, in one system.
  other-Twin :
      (d : ℕ) (r : Round) (sys sys' : System) (fs fs' : List Flow) (k : ℕ)
      → (d == c) ≡ false
      → Twin c schedule sys sys' fs fs'
      → (st : Stepped pit_hw schedules base runtime n fit d r sys fs k)
      → Twin c schedule (moved sys d st.table st.core) sys' st.flows fs'
  other-Twin d r sys sys' fs fs' k ne tw st =
      let still : update sys.core d st.core c ≡ sys.core c = rw ne in
      record {
        core = ap clear still ∙ tw.core;
        agree =
            other-Told st.schedule schedule r fs fs' st.flows _ _ st.rep
              (λ m m' i o o'.
                let same = apart d c m m' i st.schedule schedule st.chosen chosen o o' in
                absurd (ground (arith, same, ne)))
              st.told tw.agree;
        mine = subst (λ x. Mine schedule x.vars.flow) (sym still) tw.mine;
      }

  pub system_run-Alike :
      (picks : List (ℕ × Round)) (sys sys' : System) (fs fs' : List Flow) (k k' : ℕ)
      → All (λ pick. pick.0 < length schedules) picks
      → length fs ≡ n
      → length fs' ≡ n
      → Holds (length schedules) sys fs (needed (length picks) k)
      → Holds (length schedules) sys' fs' (needed (length (only c picks)) k')
      → Twin c schedule sys sys' fs fs'
      → Alike pit_hw schedules base runtime c sys sys' picks
  unfolding system_run only
  system_run-Alike [] sys sys' fs fs' k k' lt len len' h h' tw = record {
    trace = [];
    alone = [];
    end = sys;
    end' = sys';
    together = refl;
    by_itself = refl;
    reports = refl;
    core = tw.core;
  }
  system_run-Alike ((d, r) ∷ picks) sys sys' fs fs' k k' lt len len' h h' tw =
      elim (Bool-cases (d == c)) [
        | inr ne ↦
            let st =
              system_step-Holds pit_hw schedules base runtime n fit d r sys fs
                (needed (length picks) k) lt.0 len h in
            let kept = only_cons_other c d r picks ne in
            let rest =
              system_run-Alike picks (moved sys d st.table st.core) sys' st.flows fs' k k' lt.1
                (length-Told st.told ∙ len) len' st.holds
                (subst (λ l. Holds (length schedules) sys' fs' (needed (length l) k')) kept h')
                (other-Twin d r sys sys' fs fs' _ ne tw st) in
            record {
              trace = log d st.rep rest.trace;
              alone = rest.alone;
              end = rest.end;
              end' = rest.end';
              together = rw (system_run, st.result, rest.together);
              by_itself =
                  ap (λ l. system_run pit_hw schedules base runtime l sys') kept ∙ rest.by_itself;
              reports = only-log_other c d st.rep rest.trace ne ∙ rest.reports;
              core = rest.core;
            }
        | inl e ↦
            let same : d ≡ c = (==_iff d c).0 e in
            subst (λ x. Alike pit_hw schedules base runtime c sys sys' ((x, r) ∷ picks)) (sym same)
              (let lt' : c < length schedules = omega (arith, same, lt.0) in
                let kept = only_cons_same c r picks in
                let st =
                  system_step-Holds pit_hw schedules base runtime n fit c r sys fs
                    (needed (length picks) k) lt' len h in
                let h'' =
                  subst
                    (λ x.
                      Holds (length schedules) sys' fs'
                        (needed (length (only c ((x, r) ∷ picks))) k'))
                    same h' in
                let st' =
                  system_step-Holds pit_hw schedules base runtime n fit c r sys' fs'
                    (needed (length (only c picks)) k') lt' len'
                    (subst (λ l. Holds (length schedules) sys' fs' (needed (length l) k')) kept
                      h'') in
                let (reps, tw') =
                  both-Twin r sys sys' fs fs' _ _ len len' h
                    (subst (λ l. Holds (length schedules) sys' fs' (needed (length l) k')) kept h'')
                    tw st st' in
                let rest =
                  system_run-Alike picks (moved sys c st.table st.core)
                    (moved sys' c st'.table st'.core) st.flows st'.flows k k' lt.1
                    (length-Told st.told ∙ len) (length-Told st'.told ∙ len') st.holds st'.holds
                    tw' in
                record {
                  trace = log c st.rep rest.trace;
                  alone = log c st'.rep rest.alone;
                  end = rest.end;
                  end' = rest.end';
                  together = rw (system_run, st.result, rest.together);
                  by_itself =
                      ap (λ l. system_run pit_hw schedules base runtime l sys') kept
                      ∙ rw (system_run, st'.result, rest.by_itself);
                  reports =
                      only-log_same c st.rep rest.trace
                      ∙ (ap (log c st.rep) rest.reports ∙ ap (λ x. log c x rest.alone) reps);
                  core = rest.core;
                })
      ]
