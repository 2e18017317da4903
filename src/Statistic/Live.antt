-- ===== src/Statistic/Live.antt =====
-- No update faults while every element counts a packet as sent and has room for more.
use rtgen_dpdk_next.Base.{
  ℕ, suc, ◌+◌, ◌<◌, ◌≤◌, ◌≡◌, refl, ◌∙◌, ap, Bool, true, false, Option, some, arith, get_elem?,
  get_elem?-set, set, ◌==◌, if◌then◌else◌, ◌>>=◌, u64_mod, ne→==-false, add64, mul64, sub64, ◌/◌,
}
use rtgen_dpdk_next.Statistic.{
  StatSt, StatisticCore, bump_nums, update_at, update_nums_st, update_nums, running_avg, time_sw,
  time_hw, jitter_sw_of, jitter_hw_of, update_time_sw_st, update_time_hw_st, update_jitter_sw_st,
  update_jitter_hw_st, update_time_sw, update_time_hw, abs_diff, jitter_of, max_of,
}

pub record LiveSt (x : StatSt) (k : ℕ) : Type 0 where
  pub send_pos : 0 < x.num_pkt_send
  pub room : x.num_pkt_send + k < u64_mod

-- The elements of the flows below `n` and of the core are there, with room for `k` more packets.
pub record Live (s : StatisticCore) (n k : ℕ) : Type 0 where
  pub flows : s.num_flows ≡ n
  pub entry : (j : ℕ) → j ≤ n → (x : StatSt) × (get_elem? s.st j ≡ some x) × LiveSt x k

LiveSt-weaken : (x : StatSt) (k m : ℕ) → m ≤ k → LiveSt x k → LiveSt x m
LiveSt-weaken x k m h l = omega arith

-- An update of one element that turns room for `k` into room for `m`.
pub update_at-Live :
    (s : StatisticCore) (n k m i : ℕ) (f : StatSt → Option StatSt)
    → m ≤ k
    → Live s n k
    → i ≤ n
    → ((x : StatSt) → LiveSt x k → (y : StatSt) × (f x ≡ some y) × LiveSt y m)
    → (s' : StatisticCore) × (update_at s i f ≡ some s') × Live s' n m
unfolding update_at
update_at-Live s n k m i f le l h step =
    let (v, at, lv) = l.entry i h in
    let (y, e, ly) = step v lv in
    (
      record s { st = set s.st i y },
      rw (at, e),
      record {
        flows = l.flows;
        entry = λ j lj.
            let (x, ej, lx) = l.entry j lj in
            (
              if j == i then y else x,
              get_elem?-set (λ _. y) s.st i j v x at ej,
              choose (j == i) y x ly (LiveSt-weaken x k m le lx),
            );
      },
    )
  where
    choose : (b : Bool) (y x : StatSt) → LiveSt y m → LiveSt x m → LiveSt (if b then y else x) m
    choose true y x p q = p
    choose false y x p q = q

bump_nums-LiveSt :
    (missed failed : Bool) (x : StatSt) (k : ℕ)
    → LiveSt x (suc k)
    → (y : StatSt) × (◌≡◌ {A = Option StatSt} (some (bump_nums missed failed x)) (some y))
      × LiveSt y k
unfolding bump_nums
bump_nums-LiveSt missed failed x k l = (bump_nums missed failed x, refl, ground arith)

pub update_nums-Live :
    (s : StatisticCore) (n k i : ℕ) (missed failed : Bool)
    → Live s n (suc (suc k))
    → i ≤ n
    → (s' : StatisticCore) × (update_nums s i missed failed ≡ some s') × Live s' n k
unfolding update_nums update_nums_st
update_nums-Live s n k i missed failed l h =
    let (s1, e1, l1) =
      update_at-Live s n (suc (suc k)) (suc k) i (λ x. some (bump_nums missed failed x))
        (omega arith) l h (λ x lx. bump_nums-LiveSt missed failed x (suc k) lx) in
    let (s2, e2, l2) =
      update_at-Live s1 n (suc k) k n (λ x. some (bump_nums missed failed x)) (omega arith) l1
        (omega arith) (λ x lx. bump_nums-LiveSt missed failed x k lx) in
    (
      s2,
      ap (λ o. o >>= λ t. update_nums_st t t.num_flows missed failed) e1
          ∙ (ap (λ m. update_nums_st s1 m missed failed) l1.flows ∙ e2),
      l2,
    )

running_avg-some :
    (avg n x : ℕ) → 0 < n → running_avg avg n x ≡ some (add64 (mul64 avg (sub64 n 1)) x / n)
running_avg-some avg n x h = rw (ne→==-false n 0 (omega arith))

module _ (k : ℕ) (x : StatSt) (l : LiveSt x k) where
  time_sw-LiveSt : (t u : ℕ) → (y : StatSt) × (time_sw t u x ≡ some y) × LiveSt y k
  unfolding time_sw
  time_sw-LiveSt t u =
      let e = running_avg-some x.avg_delta_sw x.num_pkt_send (abs_diff t u) l.send_pos in
      (
        record x {
          delta_sw = abs_diff t u;
          avg_delta_sw =
              add64 (mul64 x.avg_delta_sw (sub64 x.num_pkt_send 1)) (abs_diff t u) / x.num_pkt_send;
          max_delta_sw = max_of x.max_delta_sw (abs_diff t u);
        },
        rw e,
        record { send_pos = l.send_pos; room = l.room },
      )

  time_hw-LiveSt : (t u : ℕ) → (y : StatSt) × (time_hw t u x ≡ some y) × LiveSt y k
  unfolding time_hw
  time_hw-LiveSt t u =
      let e = running_avg-some x.avg_delta_hw x.num_pkt_send (abs_diff t u) l.send_pos in
      (
        record x {
          delta_hw = abs_diff t u;
          avg_delta_hw =
              add64 (mul64 x.avg_delta_hw (sub64 x.num_pkt_send 1)) (abs_diff t u) / x.num_pkt_send;
          max_delta_hw = max_of x.max_delta_hw (abs_diff t u);
        },
        rw e,
        record { send_pos = l.send_pos; room = l.room },
      )

  jitter_sw_of-LiveSt : (t u p : ℕ) → (y : StatSt) × (jitter_sw_of t u p x ≡ some y) × LiveSt y k
  unfolding jitter_sw_of
  jitter_sw_of-LiveSt t u p =
      let e = running_avg-some x.avg_jitter_sw x.num_pkt_send (jitter_of t u p) l.send_pos in
      (
        record x {
          jitter_sw = jitter_of t u p;
          avg_jitter_sw =
              add64 (mul64 x.avg_jitter_sw (sub64 x.num_pkt_send 1)) (jitter_of t u p)
              / x.num_pkt_send;
          max_jitter_sw = max_of x.max_jitter_sw (jitter_of t u p);
        },
        rw e,
        record { send_pos = l.send_pos; room = l.room },
      )

  jitter_hw_of-LiveSt : (t u p : ℕ) → (y : StatSt) × (jitter_hw_of t u p x ≡ some y) × LiveSt y k
  unfolding jitter_hw_of
  jitter_hw_of-LiveSt t u p =
      let e = running_avg-some x.avg_jitter_hw x.num_pkt_send (jitter_of t u p) l.send_pos in
      (
        record x {
          jitter_hw = jitter_of t u p;
          avg_jitter_hw =
              add64 (mul64 x.avg_jitter_hw (sub64 x.num_pkt_send 1)) (jitter_of t u p)
              / x.num_pkt_send;
          max_jitter_hw = max_of x.max_jitter_hw (jitter_of t u p);
        },
        rw e,
        record { send_pos = l.send_pos; room = l.room },
      )

abbrev Updated : (StatisticCore → Option StatisticCore) → StatisticCore → ℕ → ℕ → Type 0
Updated f s n k = (s' : StatisticCore) × (f s ≡ some s') × Live s' n k

module _ (s : StatisticCore) (n k i : ℕ) (l : Live s n k) (h : i ≤ n) where
  update_time_sw_st-Live : (t u : ℕ) → Updated (λ s. update_time_sw_st s i t u) s n k
  unfolding update_time_sw_st
  update_time_sw_st-Live t u =
      update_at-Live s n k k i (time_sw t u) (omega arith) l h (λ x lx. time_sw-LiveSt k x lx t u)

  update_time_hw_st-Live : (t u : ℕ) → Updated (λ s. update_time_hw_st s i t u) s n k
  unfolding update_time_hw_st
  update_time_hw_st-Live t u =
      update_at-Live s n k k i (time_hw t u) (omega arith) l h (λ x lx. time_hw-LiveSt k x lx t u)

  pub update_jitter_sw_st-Live :
      (t u p : ℕ) → (s' : StatisticCore) × (update_jitter_sw_st s i t u p ≡ some s') × Live s' n k
  unfolding update_jitter_sw_st
  update_jitter_sw_st-Live t u p =
      update_at-Live s n k k i (jitter_sw_of t u p) (omega arith) l h
        (λ x lx. jitter_sw_of-LiveSt k x lx t u p)

  pub update_jitter_hw_st-Live :
      (t u p : ℕ) → (s' : StatisticCore) × (update_jitter_hw_st s i t u p ≡ some s') × Live s' n k
  unfolding update_jitter_hw_st
  update_jitter_hw_st-Live t u p =
      update_at-Live s n k k i (jitter_hw_of t u p) (omega arith) l h
        (λ x lx. jitter_hw_of-LiveSt k x lx t u p)

pub update_time_sw-Live :
    (s : StatisticCore) (n k i t u : ℕ)
    → Live s n k
    → i ≤ n
    → (s' : StatisticCore) × (update_time_sw s i t u ≡ some s') × Live s' n k
unfolding update_time_sw
update_time_sw-Live s n k i t u l h =
    let (s1, e1, l1) = update_time_sw_st-Live s n k i l h t u in
    let (s2, e2, l2) = update_time_sw_st-Live s1 n k n l1 (omega arith) t u in
    (
      s2,
      ap (λ o. o >>= λ r. update_time_sw_st r r.num_flows t u) e1
          ∙ (ap (λ m. update_time_sw_st s1 m t u) l1.flows ∙ e2),
      l2,
    )

pub update_time_hw-Live :
    (s : StatisticCore) (n k i t u : ℕ)
    → Live s n k
    → i ≤ n
    → (s' : StatisticCore) × (update_time_hw s i t u ≡ some s') × Live s' n k
unfolding update_time_hw
update_time_hw-Live s n k i t u l h =
    let (s1, e1, l1) = update_time_hw_st-Live s n k i l h t u in
    let (s2, e2, l2) = update_time_hw_st-Live s1 n k n l1 (omega arith) t u in
    (
      s2,
      ap (λ o. o >>= λ r. update_time_hw_st r r.num_flows t u) e1
          ∙ (ap (λ m. update_time_hw_st s1 m t u) l1.flows ∙ e2),
      l2,
    )

-- Room for more is room for less.
pub Live-weaken : (s : StatisticCore) (n k m : ℕ) → m ≤ k → Live s n k → Live s n m
Live-weaken s n k m h l = record {
  flows = l.flows;
  entry = λ j lj. let (x, e, lx) = l.entry j lj in (x, e, LiveSt-weaken x k m h lx);
}
