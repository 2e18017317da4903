-- ===== src/Flow/Timer.antt =====
-- The flow timers: where they start and how they advance.
use rtgen_dpdk_next.Base.{
  ℕ, zero, suc, ◌+◌, ◌*◌, ◌-◌, ◌%◌, ◌≡◌, refl, ap, ◌∙◌, Option, none, some, List, [], ◌∷◌, ◌++◌,
  map, arith, length, length-append, set-append, get_elem?-append, u64_mod, append_assoc, replicate,
  length-map,
}
use rtgen_dpdk_next.Flow.{
  Flow, FlowState, one_second_in_ns, max_num_flows, init_flow_timer, inc_flow_timer,
  init_timers_from, init_flowset_timer, load_flow,
}
use rtgen_dpdk_next.Flow.Table.{Represents}

abbrev table : ℕ → List (Option Flow) → FlowState
table n slots = record { flows = slots; num_flows = n }

-- Rounds on the flows behind `pre`, which are done already.
init_timers_from-map :
    (base : ℕ) (pre : List (Option Flow)) (fs : List Flow) (rest : List (Option Flow)) (n i : ℕ)
    → i ≡ length pre
    → init_timers_from (length fs) i base (table n (pre ++ (map some fs ++ rest)))
      ≡ some (table n (pre ++ (map some (map (init_flow_timer base) fs) ++ rest)))
unfolding init_timers_from
init_timers_from-map base pre [] rest n i e = refl
init_timers_from-map base pre (f ∷ fs) rest n i e =
    rw (get_elem?-append pre (some f) (map some fs ++ rest) i e, load_flow)
      (ap (λ l. init_timers_from (length fs) (i + 1) base (table n l))
          (set-append pre (some f) _ i v e)
        ∙ init_timers_from-map base (pre ++ (v ∷ [])) fs rest n (i + 1)
            (omega (arith, length-append pre (v ∷ [])))
        ∙ ap (λ l. some (table n l)) (append_assoc pre (v ∷ []) _))
  where
    v : Option Flow
    v = some (init_flow_timer base f)

-- `init_flowset_timer` faults on no table that represents a list of flows; it starts the timer of
-- each flow and changes nothing else.
pub init_flowset_timer-Represents :
    (s : FlowState) (fs : List Flow) (base : ℕ)
    → Represents s fs
    → (s' : FlowState) × (init_flowset_timer s base ≡ some s')
      × Represents s' (map (init_flow_timer base) fs)
unfolding init_flowset_timer
init_flowset_timer-Represents s fs base r = (
  table s.num_flows (map some (map (init_flow_timer base) fs) ++ rest),
  ap (λ n. init_timers_from n 0 base s) r.count
      ∙ ap (λ l. init_timers_from (length fs) 0 base (table s.num_flows l)) r.slots
      ∙ init_timers_from-map base [] fs rest s.num_flows 0 refl,
  record {
    slots =
        ap (λ n. map some (map (init_flow_timer base) fs) ++ replicate (max_num_flows - n) none)
          (same);
    count = omega (arith, r.count, same);
    room = omega (arith, r.room, same);
  },
)
  where
    rest : List (Option Flow)
    rest = replicate (max_num_flows - length fs) none

    same : length fs ≡ length (map (init_flow_timer base) fs)
    same = omega (arith, length-map fs (init_flow_timer base))

-- `n` times `inc_flow_timer`.
abbrev pub inc_times : ℕ → Flow → Flow
inc_times zero f = f
inc_times (suc n) f = inc_times n (inc_flow_timer f)

pub inc_times-period : (n : ℕ) (f : Flow) → (inc_times n f).period ≡ f.period
unfolding inc_flow_timer
inc_times-period zero f = refl
inc_times-period (suc n) f = inc_times-period n (inc_flow_timer f)

pub sche_time-inc_times :
    (n : ℕ) (f : Flow) (x : ℕ)
    → f.sche_time ≡ x % u64_mod
    → (inc_times n f).sche_time ≡ (x + n * f.period) % u64_mod
unfolding inc_flow_timer
sche_time-inc_times zero f x h = omega arith
sche_time-inc_times (suc n) f x h =
    omega (arith, sche_time-inc_times n (inc_flow_timer f) (x + f.period) (omega arith))

-- After `init_flow_timer` and `n` increments a flow's launch time is its offset behind the base,
-- and `n` periods on, in 64-bit arithmetic.
pub sche_time_lem :
    (base n : ℕ) (f : Flow)
    → (inc_times n (init_flow_timer base f)).sche_time
      ≡ (base + f.offset_sec * one_second_in_ns + f.offset_nsec + n * f.period) % u64_mod
unfolding init_flow_timer
sche_time_lem base n f =
    sche_time-inc_times n (init_flow_timer base f)
      (base + f.offset_sec * one_second_in_ns + f.offset_nsec) (omega arith)
