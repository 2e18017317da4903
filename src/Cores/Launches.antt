-- ===== src/Cores/Launches.antt =====
-- The cores that `main` starts on the schedules of the queues.
use rtgen_dpdk_next.Base.{
  ℕ, zero, suc, ◌+◌, ◌*◌, ◌%◌, ◌<◌, ◌≤◌, ◌≡◌, refl, ap, ap₂, sym, subst, ◌∙◌, inl, inr, Bool,
  Bool-cases, Option-cases, true, false, some, List, [], ◌∷◌, arith, All, length, length-set,
  get_elem?, get_elem?-some, get_elem?-set, lt_of_get_elem?, set, ◌==◌, ==_iff, if◌then◌else◌,
  u64_mod, ◌^◌,
}
use rtgen_dpdk_next.Base.Int.{pos, ◌==ℤ◌, ==ℤ_iff}
use rtgen_dpdk_next.Flow.{Flow, FlowState, load_flow, inc_flow_timer}
use rtgen_dpdk_next.Flow.Table.{Represents, load_flow-Represents}
use rtgen_dpdk_next.Flow.Timer.{inc_times, inc_times-period, sche_time-inc_times}
use rtgen_dpdk_next.Sche.{ScheduleState}
use rtgen_dpdk_next.Sche.Occurrences.{occurrences, order-length, order-below}
use rtgen_dpdk_next.Sche.Frames.{in_queue}
use rtgen_dpdk_next.Sche.Build.{IsSchedule, AreSchedules}
use rtgen_dpdk_next.Sche.Instants.{order-in_queue}
use rtgen_dpdk_next.Launch.{enough, core_statistics}
use rtgen_dpdk_next.Launch.Queues.{HasNet}
use rtgen_dpdk_next.Statistic.{StatisticCore}
use rtgen_dpdk_next.TxLoop.{Round, Report, start}
use rtgen_dpdk_next.TxLoop.Cycle.{
  advance_all, advance_all_cons, advance_all_nil, get_elem?-advance_all, needed, All-get,
}
use rtgen_dpdk_next.TxLoop.Start.{start-IsValid}
use rtgen_dpdk_next.TxLoop.Total.{IsValid, PointerIsSafe}
use rtgen_dpdk_next.Cores.{System, system_start, system_run, only}
use rtgen_dpdk_next.Cores.Table.{Fits, Holds, IsTrace, ids_of, system_run-Holds}
use rtgen_dpdk_next.Cores.Alone.{AreApart, Alike, system_run-Alike}

get-AreSchedules :
    (q cycle : ℕ) (fs : List Flow) (xs : List ScheduleState) (c : ℕ) (x : ScheduleState)
    → AreSchedules q cycle fs xs
    → get_elem? xs c ≡ some x
    → IsSchedule x (q + c) cycle fs
get-AreSchedules q cycle fs [] c x h e = absurd (cc)
get-AreSchedules q cycle fs (y ∷ xs) zero x h e =
    let same : y ≡ x = cc in
    subst (λ m. IsSchedule x m cycle fs) (omega arith)
      (subst (λ z. IsSchedule z q cycle fs) same h.0)
get-AreSchedules q cycle fs (y ∷ xs) (suc c) x h e =
    subst (λ m. IsSchedule x m cycle fs) (omega arith)
      (get-AreSchedules (q + 1) cycle fs xs c x h.1 e)

in_queue_one : (c d : ℕ) (f : Flow) → in_queue c f ≡ true → in_queue d f ≡ true → c ≡ d
in_queue_one c d f h h' = elim (Option-cases f.net) [
  | inl e ↦ absurd (cc)
  | inr (net, e) ↦
      let a : (net.queue ==ℤ pos c) ≡ true = rw e at h in
      let a' : (net.queue ==ℤ pos d) ≡ true = rw e at h' in
      let u : pos c ≡ pos d =
        sym ((==ℤ_iff net.queue (pos c)).0 a) ∙ (==ℤ_iff net.queue (pos d)).0 a' in
      cc
]

AreSchedules-Fits :
    (q cycle : ℕ) (fs : List Flow) (xs : List ScheduleState)
    → AreSchedules q cycle fs xs
    → All (λ x. length x.order < 2 ^ 31) xs
    → All (Fits (length fs)) xs
AreSchedules-Fits q cycle fs [] h small = tt
AreSchedules-Fits q cycle fs (x ∷ xs) h small = (
  record {
    count = order-length x q cycle fs h.0;
    small = small.0;
    below = order-below x q cycle fs h.0;
  },
  AreSchedules-Fits (q + 1) cycle fs xs h.1 small.1,
)

AreSchedules-AreApart :
    (cycle : ℕ) (fs : List Flow) (xs : List ScheduleState)
    → AreSchedules 0 cycle fs xs
    → AreApart xs
AreSchedules-AreApart cycle fs xs h c d k k' i x y xe ye o o' =
    let sx = get-AreSchedules 0 cycle fs xs c x h xe in
    let sy = get-AreSchedules 0 cycle fs xs d y h ye in
    let (f, fe) =
      get_elem?-some fs i
        (All-get (λ j. j < length fs) x.order k i (order-below x (0 + c) cycle fs sx) o) in
    let u =
      in_queue_one (0 + c) (0 + d) f (order-in_queue x (0 + c) cycle fs sx k i f o fe)
        (order-in_queue y (0 + d) cycle fs sy k' i f o' fe) in
    omega (arith, u)

-- The launch times that a trace reports of flow `j`.
abbrev pub launch_times_of : ℕ → List (ℕ × Report) → List ℕ
launch_times_of j [] = []
launch_times_of j ((c, rep) ∷ trace) =
    let rest = launch_times_of j trace in if rep.flow_id == j then rep.launch_time ∷ rest else rest

-- The next `n` times after `x`, one period apart, in 64 bits.
abbrev pub instants : (x period n : ℕ) → List ℕ
instants x period zero = []
instants x period (suc n) = (x + period) % u64_mod ∷ instants (x + period) period n

IsTrace-launch_times_of :
    (trace : List (ℕ × Report)) (fs : List Flow) (j x : ℕ) (f : Flow)
    → IsTrace fs trace
    → get_elem? fs j ≡ some f
    → f.sche_time ≡ x % u64_mod
    → (All (λ i. i < length fs) (ids_of trace))
      × (launch_times_of j trace ≡ instants x f.period (occurrences j (ids_of trace)))
IsTrace-launch_times_of [] fs j x f t e now = (tt, refl)
IsTrace-launch_times_of ((c, rep) ∷ trace) fs j x f t e now =
    let (g, ge, launched) = t.0 in
    let fs' = set fs rep.flow_id (inc_flow_timer g) in
    let one : advance_all (rep.flow_id ∷ []) fs ≡ fs' =
      advance_all_cons rep.flow_id [] fs g ge ∙ advance_all_nil _ in
    let t' = subst (λ l. IsTrace l trace) one t.1 in
    let len = length-set fs rep.flow_id (inc_flow_timer g) in
    let at = get_elem?-set inc_flow_timer fs rep.flow_id j g f ge e in
    let step : (n : ℕ) → n ≡ x + f.period → (inc_flow_timer f).sche_time ≡ n % u64_mod =
      λ n u. sche_time-inc_times 1 f x now ∙ ap (λ m. m % u64_mod) (omega (arith, u)) in
    let lt = lt_of_get_elem? fs rep.flow_id g ge in
    let lower : All (λ i. i < length fs') (ids_of trace) → All (λ i. i < length fs) (ids_of trace) =
      subst (λ m. All (λ i. i < m) (ids_of trace)) len in
    elim (Bool-cases (rep.flow_id == j)) [
      | inl mine ↦
          let mine' : (j == rep.flow_id) ≡ true = ground (arith, mine) in
          let same : rep.flow_id ≡ j = (==_iff rep.flow_id j).0 mine in
          let fg : g ≡ f = let u : some g ≡ some f = sym ge ∙ (ap (get_elem? fs) same ∙ e) in cc in
          let at' : get_elem? fs' j ≡ some (inc_flow_timer f) = rw mine' at at in
          let n : ℕ = occurrences j (ids_of trace) in
          let z : suc n ≡ 1 + n = omega arith in
          let now' = step (x + f.period) refl in
          let (b, ih) =
            IsTrace-launch_times_of trace fs' j (x + f.period) (inc_flow_timer f) t' at' now' in
          (
            (lt, lower b),
            rw mine (
                ap₂ (λ a l. a ∷ l) (launched ∙ (ap (λ h. (inc_flow_timer h).sche_time) fg ∙ now'))
                  (ih ∙ ap (λ p. instants (x + f.period) p n) (inc_times-period 1 f))
                ∙ ap (instants x f.period) z),
          )
      | inr other ↦
          let other' : (j == rep.flow_id) ≡ false = ground (arith, other) in
          let at' : get_elem? fs' j ≡ some f = rw other' at at in
          let (b, ih) = IsTrace-launch_times_of trace fs' j x f t' at' now in
          ((lt, lower b), rw other (ih ∙ ap (instants x f.period) (omega arith)))
    ]

needed_suc : (n k : ℕ) → needed n (k + 1) ≡ needed n k + 1
needed_suc zero k = refl
needed_suc (suc n) k = omega (arith, needed_suc n k)

needed-only :
    {A : Type 0} (c : ℕ) (l : List (ℕ × A)) (k : ℕ)
    → needed (length (only c l)) k ≤ needed (length l) k
unfolding only
needed-only c [] k = omega arith
needed-only c ((d, a) ∷ l) k = elim (Bool-cases (d == c)) [
  | inl e ↦ rw (only, e) (omega (arith, needed-only c l k))
  | inr e ↦ rw (only, e) (omega (arith, needed-only c l k))
]

module _ (pit_hw : Bool) (schedules : List ScheduleState) (base runtime cycle : ℕ)
    (table : FlowState) (fs : List Flow) (stats : ℕ → StatisticCore) (clock : ℕ → ℕ) where
  -- The statistics of the cores are those that `main` makes, malloc giving memory.
  abbrev pub AreFresh : Type 0
  AreFresh = (c : ℕ) → c < length schedules → core_statistics enough table c ≡ some (stats c)

  system_start-Holds :
      (k : ℕ)
      → Represents table fs
      → All HasNet fs
      → AreFresh
      → k + 1 < u64_mod
      → Holds (length schedules) (system_start schedules table stats clock) fs k
  unfolding system_start start
  system_start-Holds k r nets fresh small = record {
    table = r;
    each = λ c lt.
        let (st, e, v, p) = start-IsValid table fs c (clock c) k r nets small in
        let same : st ≡ stats c = let u : some st ≡ some (stats c) = sym e ∙ fresh c lt in cc in
        record {
          vars = subst (λ s. IsValid (start table s (clock c)) fs k) same v;
          pointer = subst (λ s. PointerIsSafe (start table s (clock c)) (length fs)) same p;
        };
  }

  module _ (r : Represents table fs) (scheds : AreSchedules 0 cycle fs schedules)
      (nets : All HasNet fs) (small : All (λ s. length s.order < 2 ^ 31) schedules)
      (fresh : AreFresh) where
    -- Start the cores on the schedules of the queues of one table of flows with
    -- interfaces, of fewer than 2 ^ 31 frames each, each with the statistics that `main` makes for it. Then no
    -- order of their steps, fewer than 2 ^ 63 - 1, makes one of them fault: the run ends, and for
    -- each flow the launch times that the cores report are one period apart, from the flow's timer on,
    -- with as many of them as the run has rounds of the flow, in 64 bits.
    pub system_run-instants :
        (picks : List (ℕ × Round)) (j x : ℕ) (f : Flow)
        → All (λ pick. pick.0 < length schedules) picks
        → needed (length picks) 1 < u64_mod
        → get_elem? fs j ≡ some f
        → f.sche_time ≡ x % u64_mod
        → (trace : List (ℕ × Report)) × (sys' : System) × (f' : Flow) × (system_run pit_hw schedules
              base runtime picks
              (system_start schedules table stats clock)
            ≡ some (trace, sys'))
          × (launch_times_of j trace ≡ instants x f.period (occurrences j (ids_of trace)))
          × (load_flow sys'.table j ≡ some f')
          × (f'.sche_time ≡ (x + occurrences j (ids_of trace) * f.period) % u64_mod)
    system_run-instants picks j x f lt room fe now =
        let (trace, sys', e, t, h) =
          system_run-Holds pit_hw schedules base runtime (length fs)
            (AreSchedules-Fits 0 cycle fs schedules scheds small) picks
            (system_start schedules table stats clock) fs 0 lt refl
            (system_start-Holds (needed (length picks) 0) r nets fresh
              (omega (arith, needed_suc (length picks) 0, room))) in
        let (below, launched) = IsTrace-launch_times_of trace fs j x f t fe now in
        let n : ℕ = occurrences j (ids_of trace) in
        let at = get_elem?-advance_all (ids_of trace) fs j f below fe in
        (
          trace,
          sys',
          inc_times n f,
          e,
          launched,
          load_flow-Represents sys'.table (advance_all (ids_of trace) fs) j h.table
                (lt_of_get_elem? (advance_all (ids_of trace) fs) j (inc_times n f) at)
              ∙ at,
          sche_time-inc_times n f x now,
        )

    -- Start the cores on the schedules of the queues of one table of flows with
    -- interfaces, of fewer than 2 ^ 31 frames each, each with the statistics that `main` makes for it, and let
    -- them take fewer than 2 ^ 63 - 1 steps in any order. Then neither that run nor the run of one core's
    -- steps alone faults, the core reports the same in both, round by round, and it ends with the same
    -- variables and statistics, at the same place of its loops.
    pub system_run-alone :
        (picks : List (ℕ × Round)) (c : ℕ)
        → All (λ pick. pick.0 < length schedules) picks
        → needed (length picks) 1 < u64_mod
        → c < length schedules
        → Alike pit_hw schedules base runtime c
            (system_start schedules table stats clock)
            (system_start schedules table stats clock)
            picks
    unfolding system_start start
    system_run-alone picks c lt room cl =
        let (schedule, chosen) = get_elem?-some schedules c cl in
        system_run-Alike pit_hw schedules base runtime (length fs)
          (AreSchedules-Fits 0 cycle fs schedules scheds small)
          (AreSchedules-AreApart cycle fs schedules scheds) c schedule chosen picks
          (system_start schedules table stats clock) (system_start schedules table stats clock) fs
          fs 0 0 lt refl refl
          (system_start-Holds _ r nets fresh (omega (arith, needed_suc (length picks) 0, room)))
          (system_start-Holds _ r nets fresh
            (omega (arith, needed-only c picks 0, needed_suc (length picks) 0, room)))
          (record { core = refl; agree = λ k i e. refl; mine = λ i e. absurd (cc) })
