-- ===== src/Statistic/Counts.antt =====
-- The counters of a run: every packet is counted once, for its flow and for the core.
use rtgen_dpdk_next.Base.{
  ◌&&◌, ◌||◌, Bool-cases, inl, inr, ne→==-false, ==_iff, All, get_elem?-set, ℕ, zero, suc, ◌+◌, ◌*◌,
  ◌<◌, ◌≤◌, ◌≡◌, refl, ap, ◌∙◌, Bool, true, false, Option, some, List, [], ◌∷◌, arith, length,
  get_elem?, set, ◌==◌, if◌then◌else◌, ◌>>=◌, u64_mod,
}
use rtgen_dpdk_next.Base.Int.{ℤ}
use rtgen_dpdk_next.Statistic.{
  StatSt, StatisticCore, initial_st, initial_from, init_statistics, st_bytes, size_of_stat_st,
  bump_nums, update_at, update_nums_st, update_nums,
}

length-initial_from : (n i : ℕ) → length (initial_from n i) ≡ n
unfolding initial_from
length-initial_from zero i = refl
length-initial_from (suc n) i = ap suc (length-initial_from n (i + 1))

get_elem?-initial_from :
    (n i j : ℕ) → j < n → get_elem? (initial_from n i) j ≡ some (initial_st (i + j))
unfolding initial_from
get_elem?-initial_from zero i j h = elim h [ ]
get_elem?-initial_from (suc n) i zero h = ap (λ k. some (initial_st k)) (omega arith)
get_elem?-initial_from (suc n) i (suc j) h =
    get_elem?-initial_from n (i + 1) j (omega arith) ∙ ap (λ k. some (initial_st k)) (omega arith)

-- When both mallocs succeed, `init_statistics` writes one element more than the flows and the core
-- need, and still stays inside the bytes that it asked for.
pub init_statistics_bytes :
    (n : ℕ) (core queue : ℤ)
    → (s : StatisticCore) × (init_statistics true true n core queue ≡ some s)
      × (length s.st ≡ n + 2)
      × (length s.st * size_of_stat_st ≤ st_bytes n)
unfolding init_statistics
init_statistics_bytes n core queue =
    (_, refl, length-initial_from (n + 2) 0, omega (arith, length-initial_from (n + 2) 0))

-- What became of a packet, as the transmit loop reports it.
pub data Outcome : Type 0 where
  late failed sent : Outcome

abbrev pub is_late : Outcome → Bool
is_late late = true
is_late failed = false
is_late sent = false

abbrev pub is_failed : Outcome → Bool
is_failed late = false
is_failed failed = true
is_failed sent = false

abbrev pub is_sent : Outcome → Bool
is_sent late = false
is_sent failed = false
is_sent sent = true

-- The flow of a packet and its outcome.
abbrev pub Event : Type 0
Event = ℕ × Outcome

unfoldable pub run_nums : StatisticCore → List Event → Option StatisticCore
run_nums s [] = some s
run_nums s ((i, o) ∷ evs) = do s' ← update_nums s i (is_late o) (is_failed o); run_nums s' evs

-- The element `n` stands for the whole core.
abbrev pub hits : (n i j : ℕ) → Bool
hits n i j = j == i || j == n

abbrev pub tally : (Outcome → Bool) → (n j : ℕ) → List Event → ℕ
tally p n j [] = 0
tally p n j ((i, o) ∷ evs) = (if hits n i j && p o then 1 else 0) + tally p n j evs

abbrev pub any_outcome : Outcome → Bool
any_outcome o = true

pub record Counted (x : StatSt) (n j : ℕ) (evs : List Event) : Type 0 where
  pub total : x.num_pkt_total ≡ tally any_outcome n j evs
  pub misdl : x.num_pkt_misdl ≡ tally is_late n j evs
  pub drop : x.num_pkt_drop ≡ tally is_failed n j evs
  pub send : x.num_pkt_send ≡ 1 + tally is_sent n j evs

abbrev bump_if : Bool → Outcome → StatSt → StatSt
bump_if b o x = if b then bump_nums (is_late o) (is_failed o) x else x

-- All updates of element `j`.
bumps : (n j : ℕ) → List Event → StatSt → StatSt
bumps n j [] x = x
bumps n j ((i, o) ∷ evs) x = bumps n j evs (bump_if (hits n i j) o x)

record HasEntries (s : StatisticCore) (n : ℕ) : Type 0 where
  flows : s.num_flows ≡ n
  entry : (j : ℕ) → j ≤ n → (x : StatSt) × (get_elem? s.st j ≡ some x)

update_at-eq :
    (s : StatisticCore) (i : ℕ) (f : StatSt → Option StatSt) (x y : StatSt)
    → get_elem? s.st i ≡ some x
    → f x ≡ some y
    → update_at s i f ≡ some (record s { st = set s.st i y })
unfolding update_at
update_at-eq s i f x y h e = rw (h, e)

-- One write, at `i`.
update_nums_st_lem :
    (s : StatisticCore) (n i : ℕ) (o : Outcome)
    → HasEntries s n
    → i ≤ n
    → (s' : StatisticCore) × (update_nums_st s i (is_late o) (is_failed o) ≡ some s')
      × HasEntries s' n
      × ((j : ℕ) (x : StatSt)
          → get_elem? s.st j ≡ some x
          → get_elem? s'.st j ≡ some (bump_if (j == i) o x))
unfolding update_nums_st
update_nums_st_lem s n i o h le =
    let (v, at) = h.entry i le in
    let read : (j : ℕ) (x : StatSt)
        → get_elem? s.st j ≡ some x
        → get_elem? (set s.st i (bump_if true o v)) j ≡ some (bump_if (j == i) o x) =
      λ j x. get_elem?-set (bump_if true o) s.st i j v x at in
    (
      record s { st = set s.st i (bump_if true o v) },
      update_at-eq s i (λ x. some (bump_if true o x)) v _ at refl,
      record {
        flows = h.flows;
        entry = λ j lj. let (x, e) = h.entry j lj in (bump_if (j == i) o x, read j x e);
      },
      read,
    )

bump_if_twice :
    (n i j : ℕ) (o : Outcome) (x : StatSt)
    → i < n
    → bump_if (j == n) o (bump_if (j == i) o x) ≡ bump_if (hits n i j) o x
bump_if_twice n i j o x h = elim (Bool-cases (j == i)) [
  | inl e ↦ rw (e, ne→==-false j n (λ q. absurd (omega (arith, (==_iff j i).0 e, q))))
  | inr e ↦ rw e
]

update_nums_lem :
    (s : StatisticCore) (n i : ℕ) (o : Outcome)
    → HasEntries s n
    → i < n
    → (s' : StatisticCore) × (update_nums s i (is_late o) (is_failed o) ≡ some s')
      × HasEntries s' n
      × ((j : ℕ) (x : StatSt)
          → get_elem? s.st j ≡ some x
          → get_elem? s'.st j ≡ some (bump_if (hits n i j) o x))
unfolding update_nums
update_nums_lem s n i o h lt =
    let (s1, e1, h1, read1) = update_nums_st_lem s n i o h (omega arith) in
    let (s2, e2, h2, read2) = update_nums_st_lem s1 n n o h1 (omega arith) in
    (
      s2,
      rw (e1, h1.flows) e2,
      h2,
      λ j x e. read2 j _ (read1 j x e) ∙ ap some (bump_if_twice n i j o x lt),
    )

run_nums-bumps :
    (s : StatisticCore) (n : ℕ) (evs : List Event)
    → HasEntries s n
    → All (λ ev. ev.0 < n) evs
    → (s' : StatisticCore) × (run_nums s evs ≡ some s')
      × ((j : ℕ) (x : StatSt)
          → get_elem? s.st j ≡ some x
          → get_elem? s'.st j ≡ some (bumps n j evs x))
unfolding run_nums bumps
run_nums-bumps s n [] h b = (s, refl, λ j x e. e)
run_nums-bumps s n ((i, o) ∷ evs) h b =
    let (s1, e1, h1, read1) = update_nums_lem s n i o h b.0 in
    let (s2, e2, read2) = run_nums-bumps s1 n evs h1 b.1 in
    (s2, rw e1 e2, λ j x e. read2 j _ (read1 j x e))

tally-le-length : (p : Outcome → Bool) (n j : ℕ) (evs : List Event) → tally p n j evs ≤ length evs
tally-le-length p n j [] = omega arith
tally-le-length p n j ((i, o) ∷ evs) = ground (arith, tally-le-length p n j evs)

-- Counters behind those that a run starts with.
record CountedFrom (x y : StatSt) (n j : ℕ) (evs : List Event) : Type 0 where
  total : y.num_pkt_total ≡ x.num_pkt_total + tally any_outcome n j evs
  misdl : y.num_pkt_misdl ≡ x.num_pkt_misdl + tally is_late n j evs
  drop : y.num_pkt_drop ≡ x.num_pkt_drop + tally is_failed n j evs
  send : y.num_pkt_send ≡ x.num_pkt_send + tally is_sent n j evs

-- Room for so many more packets in each counter.
record HasRoom (x : StatSt) (k : ℕ) : Type 0 where
  total : x.num_pkt_total + k < u64_mod
  misdl : x.num_pkt_misdl + k < u64_mod
  drop : x.num_pkt_drop + k < u64_mod
  send : x.num_pkt_send + k < u64_mod

bump_if-CountedFrom :
    (x : StatSt) (n i j : ℕ) (o : Outcome)
    → HasRoom x 1
    → CountedFrom x (bump_if (hits n i j) o x) n j ((i, o) ∷ [])
unfolding bump_nums
bump_if-CountedFrom x n i j late r = ground arith
bump_if-CountedFrom x n i j failed r = ground arith
bump_if-CountedFrom x n i j sent r = ground arith

bumps-CountedFrom :
    (x : StatSt) (n j : ℕ) (evs : List Event)
    → HasRoom x (length evs)
    → CountedFrom x (bumps n j evs x) n j evs
unfolding bumps
bumps-CountedFrom x n j [] r = omega arith
bumps-CountedFrom x n j ((i, o) ∷ evs) r =
    let y : StatSt = bump_if (hits n i j) o x in
    let first : CountedFrom x y n j ((i, o) ∷ []) = bump_if-CountedFrom x n i j o (omega arith) in
    let room : HasRoom y (length evs) = omega (
      arith,
      tally-le-length any_outcome n j ((i, o) ∷ []),
      tally-le-length is_late n j ((i, o) ∷ []),
      tally-le-length is_failed n j ((i, o) ∷ []),
      tally-le-length is_sent n j ((i, o) ∷ []),
    ) in
    let rest : CountedFrom y (bumps n j evs y) n j evs = bumps-CountedFrom y n j evs room in
    omega arith

-- What `init_statistics` leaves where the flows and the core are counted.
pub init_statistics_lem :
    (n : ℕ) (core queue : ℤ)
    → (s : StatisticCore) × (init_statistics true true n core queue ≡ some s)
      × (s.num_flows ≡ n)
      × ((j : ℕ) → j ≤ n → get_elem? s.st j ≡ some (initial_st j))
unfolding init_statistics
init_statistics_lem n core queue = (
  _,
  refl,
  refl,
  λ j h.
      get_elem?-initial_from (n + 2) 0 j (omega arith)
      ∙ ap (λ k. some (initial_st k)) (omega arith),
)

-- For every run of fewer than 2 ^ 64 - 1 reports about packets of the flows below `n`, on fresh
-- statistics, no update faults; afterwards the counters of each element `j` up to `n` are the numbers
-- of packets, late, failed and sent ones, of the flow `j`, or over all flows for `j = n`, but for
-- `num_pkt_send`, which is one more than the number of packets sent.
pub run_nums-Counted :
    (n j : ℕ) (core queue : ℤ) (evs : List Event)
    → All (λ ev. ev.0 < n) evs
    → length evs + 1 < u64_mod
    → j ≤ n
    → (s : StatisticCore) × (s' : StatisticCore) × (x : StatSt) × (init_statistics true true n core
          queue
        ≡ some s)
      × (run_nums s evs ≡ some s')
      × (get_elem? s'.st j ≡ some x)
      × Counted x n j evs
run_nums-Counted n j core queue evs b short lj =
    let (s, e, num, fresh) = init_statistics_lem n core queue in
    let entries : HasEntries s n = record {
      flows = num;
      entry = λ i h. (initial_st i, fresh i h);
    } in
    let (s', run, read) = run_nums-bumps s n evs entries b in
    let c : CountedFrom (initial_st j) (bumps n j evs (initial_st j)) n j evs =
      bumps-CountedFrom (initial_st j) n j evs (omega arith) in
    (s, s', bumps n j evs (initial_st j), e, run, read j _ (fresh j lj), omega arith)
