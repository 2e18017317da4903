-- ===== src/Flow/Table.antt =====
-- The table of flows against the list of flows that it stands for.
use mathlib.Core.Path.{fun_ext}
use rtgen_dpdk_next.Base.{
  take, take-nil, take-cons, subst, append-nil, append_assoc, dec_lt, ℕ, zero, suc, ◌+◌, ◌-◌, ◌≤◌,
  ◌<◌, ◌≡◌, refl, ap, ◌∙◌, Option, none, some, List, [], ◌∷◌, ◌++◌, map, arith, length,
  length-append, length-map, replicate, set, set-append, length-set, get_elem?, ◌>>=◌, sym, le→leb,
  lt→leb,
}
use rtgen_dpdk_next.Flow.{
  Flow, FlowState, max_num_flows, create_flow_state, add_flow, load_flow, for_flows_from, for_flows,
}

-- The first `num_flows` slots hold the flows in order, and the others are NULL.
pub record Represents (s : FlowState) (fs : List Flow) : Type 0 where
  pub slots : s.flows ≡ map some fs ++ replicate (max_num_flows - length fs) none
  pub count : s.num_flows ≡ length fs
  pub room : length fs ≤ max_num_flows

pub fresh_table : FlowState
fresh_table = record { flows = replicate max_num_flows none; num_flows = 0 }

pub create_flow_state-fresh_table : (m : FlowState) → create_flow_state (some m) ≡ some fresh_table
unfolding create_flow_state fresh_table
create_flow_state-fresh_table m = refl

pub fresh_table-Represents : Represents fresh_table []
unfolding fresh_table
fresh_table-Represents = record { slots = refl; count = refl; room = omega arith }

map-append_one {ℓ κ} :
    {A : Type ℓ} {B : Type κ} (f : A → B) (xs : List A) (x : A)
    → map f (xs ++ (x ∷ [])) ≡ map f xs ++ (f x ∷ [])
map-append_one f [] x = refl
map-append_one f (y ∷ xs) x = ap (◌∷◌ (f y)) (map-append_one f xs x)

replicate-pred {ℓ} : {A : Type ℓ} (n : ℕ) (a : A) → 0 < n → replicate n a ≡ a ∷ replicate (n - 1) a
replicate-pred zero a h = elim h [ ]
replicate-pred (suc n) a h = ap (λ k. a ∷ replicate k a) (omega arith)

pub add_flow-Represents :
    (s : FlowState) (fs : List Flow) (f : Flow)
    → Represents s fs
    → length fs < max_num_flows
    → Represents (add_flow s (some f)) (fs ++ (f ∷ []))
unfolding add_flow
add_flow-Represents s fs f r h =
    rw (lt→leb s.num_flows max_num_flows (omega (arith, r.count))) (record {
      slots = slots_lem;
      count = omega (arith, r.count, length-append fs (f ∷ []));
      room = omega (arith, length-append fs (f ∷ []));
    })
  where
    slots_lem :
        set s.flows s.num_flows (some f)
        ≡ map some (fs ++ (f ∷ [])) ++ replicate (max_num_flows - length (fs ++ (f ∷ []))) none
    slots_lem =
        rw
          (
            r.slots,
            replicate-pred {A = Option Flow} (max_num_flows - length fs) none (omega arith),
            map-append_one some fs f,
          )
          (set-append (map some fs) none _ s.num_flows (some f) (r.count ∙ sym (length-map fs some))
            ∙ ap (λ k. (map some fs ++ (some f ∷ [])) ++ replicate k none)
                (omega (arith, length-append fs (f ∷ []))))

pub add_flow_full :
    (s : FlowState) (fs : List Flow) (f : Option Flow)
    → Represents s fs
    → length fs ≡ max_num_flows
    → add_flow s f ≡ s
unfolding add_flow
add_flow_full s fs f r h = rw (le→leb max_num_flows s.num_flows (omega (arith, r.count)))

get_elem?-map-some :
    (fs : List Flow) (i : ℕ) (rest : List (Option Flow))
    → i < length fs
    → (f : Flow) × (get_elem? (map some fs ++ rest) i ≡ some (some f)) × (get_elem? fs i ≡ some f)
get_elem?-map-some [] i rest h = elim h [ ]
get_elem?-map-some (f ∷ fs) zero rest h = (f, refl, refl)
get_elem?-map-some (f ∷ fs) (suc i) rest h = get_elem?-map-some fs i rest (omega arith)

-- A slot below the count is read with no fault.
pub load_flow-Represents :
    (s : FlowState) (fs : List Flow) (i : ℕ)
    → Represents s fs
    → i < length fs
    → load_flow s i ≡ get_elem? fs i
load_flow-Represents s fs i r h =
    let (f, slot, entry) = get_elem?-map-some fs i (replicate (max_num_flows - length fs) none) h in
    let at : get_elem? s.flows i ≡ some (some f) = rw r.slots slot in cc (at, entry)

-- The same loop over the list.
unfoldable pub fold_flows {ℓ} :
    {S : Type ℓ} → (ℕ → Flow → S → Option S) → ℕ → List Flow → S → Option S
fold_flows body i [] acc = some acc
fold_flows body i (f ∷ fs) acc = do acc' ← body i f acc; fold_flows body (i + 1) fs acc'

for_flows_from-fold_flows {ℓ} :
    {S : Type ℓ} (s : FlowState) (body : ℕ → Flow → S → Option S) (fs : List Flow) (i : ℕ) (acc : S)
    → ((j : ℕ) → j < length fs → load_flow s (i + j) ≡ get_elem? fs j)
    → for_flows_from s body (length fs) i acc ≡ fold_flows body i fs acc
unfolding for_flows_from fold_flows
for_flows_from-fold_flows s body [] i acc h = refl
for_flows_from-fold_flows s body (f ∷ fs) i acc h =
    rw (here, ◌>>=◌)
      (ap (λ k. body i f acc >>= k)
        (fun_ext (λ acc'. for_flows_from-fold_flows s body fs (i + 1) acc' later)))
  where
    here : load_flow s i ≡ some f
    here = ap (load_flow s) (omega arith) ∙ h 0 (omega arith)

    later : (j : ℕ) → j < length fs → load_flow s (i + 1 + j) ≡ get_elem? fs j
    later j p = ap (load_flow s) (omega arith) ∙ h (suc j) (omega arith)

-- A loop over a table that represents `fs` reads each flow of `fs` once, in order.
pub for_flows-fold_flows {ℓ} :
    {S : Type ℓ} (s : FlowState) (body : ℕ → Flow → S → Option S) (fs : List Flow) (acc : S)
    → Represents s fs
    → for_flows s body acc ≡ fold_flows body 0 fs acc
for_flows-fold_flows s body fs acc r =
    ap (λ n. for_flows_from s body n 0 acc) r.count
    ∙ for_flows_from-fold_flows s body fs 0 acc
        (λ j p. ap (load_flow s) (omega arith) ∙ load_flow-Represents s fs j r p)

-- `add_flow` for each flow of a list, in order.
abbrev pub add_flows : FlowState → List Flow → FlowState
add_flows s [] = s
add_flows s (f ∷ fs) = add_flows (add_flow s (some f)) fs

add_flows_full :
    (s : FlowState) (gs fs : List Flow)
    → Represents s gs
    → length gs ≡ max_num_flows
    → add_flows s fs ≡ s
add_flows_full s gs [] r h = refl
add_flows_full s gs (f ∷ fs) r h =
    ap (λ t. add_flows t fs) (add_flow_full s gs (some f) r h) ∙ add_flows_full s gs fs r h

pub add_flows-Represents :
    (s : FlowState) (gs fs : List Flow)
    → Represents s gs
    → Represents (add_flows s fs) (gs ++ take (max_num_flows - length gs) fs)
add_flows-Represents s gs [] r =
    subst (Represents s)
      (sym (ap (λ l. gs ++ l) (take-nil (max_num_flows - length gs)) ∙ append-nil gs)) r
add_flows-Represents s gs (f ∷ fs) r = elim (dec_lt (length gs) max_num_flows) [
  | yes p ↦
      subst (Represents (add_flows (add_flow s (some f)) fs))
        (append_assoc gs (f ∷ []) _
          ∙ ap (λ l. gs ++ l)
              (ap (λ n. f ∷ take n fs) (omega (arith, length-append gs (f ∷ [])))
                ∙ sym (take-cons (max_num_flows - length gs) f fs (omega arith))))
        (add_flows-Represents (add_flow s (some f)) (gs ++ (f ∷ [])) fs
          (add_flow-Represents s gs f r p))
  | no p ↦
      let z : max_num_flows - length gs ≡ 0 = omega (arith, r.room) in
      subst (Represents (add_flows s (f ∷ fs)))
        (sym (ap (λ n. gs ++ take n (f ∷ fs)) z ∙ append-nil gs))
        (subst (λ t. Represents t gs) (sym (add_flows_full s gs (f ∷ fs) r (omega (arith, r.room))))
          r)
]

-- Adding flows to a new table keeps the first 128 of them, in order; the others are dropped.
pub add_flows_lem :
    (m : FlowState) (fs : List Flow)
    → (s : FlowState) × (create_flow_state (some m) ≡ some s)
      × Represents (add_flows s fs) (take max_num_flows fs)
add_flows_lem m fs = (
  fresh_table,
  create_flow_state-fresh_table m,
  add_flows-Represents fresh_table [] fs fresh_table-Represents,
)

set-map-some :
    (fs : List Flow) (rest : List (Option Flow)) (i : ℕ) (f : Flow)
    → i < length fs
    → set (map some fs ++ rest) i (some f) ≡ map some (set fs i f) ++ rest
set-map-some [] rest i f h = elim h [ ]
set-map-some (g ∷ fs) rest zero f h = refl
set-map-some (g ∷ fs) rest (suc i) f h = ap (◌∷◌ (some g)) (set-map-some fs rest i f (omega arith))

-- Changing a flow through its pointer.
pub set-Represents :
    (s : FlowState) (fs : List Flow) (i : ℕ) (f : Flow)
    → Represents s fs
    → i < length fs
    → Represents (record s { flows = set s.flows i (some f) }) (set fs i f)
set-Represents s fs i f r h = record {
  slots =
      ap (λ l. set l i (some f)) r.slots
      ∙ set-map-some fs _ i f h
      ∙ ap (λ n. map some (set fs i f) ++ replicate (max_num_flows - n) none)
          (sym (length-set fs i f));
  count = r.count ∙ sym (length-set fs i f);
  room = omega (arith, length-set fs i f, r.room);
}
