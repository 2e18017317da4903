-- ===== src/Launch/Queues.antt =====
-- Which cores `main` of src/talker.c starts, and with what statistics.
use rtgen_dpdk_next.Base.{
  ℕ, suc, ◌+◌, ◌<◌, ◌≤◌, ◌≡◌, refl, ap, subst, ◌∙◌, Bool-cases, true, false, inl, inr, Option, some,
  List, [], ◌∷◌, ◌++◌, arith, All, length, get_elem?, get_elem?-append, append_assoc, length-append,
  get_elem?-set_self, get_elem?-set_ne, lt_of_get_elem?, set, lt→ltb, u64_mod, ◌==◌, ◌>>=◌,
}
use rtgen_dpdk_next.Base.Int.{ℤ, pos}
use rtgen_dpdk_next.Flow.{Flow, FlowState, InterfaceConfig}
use rtgen_dpdk_next.Flow.Table.{Represents, fold_flows, for_flows-fold_flows}
use rtgen_dpdk_next.Ports.{num_tx_queue}
use rtgen_dpdk_next.Sche.{ScheduleState}
use rtgen_dpdk_next.Statistic.{StatSt, StatisticCore, init_statistics, initial_st, update_at}
use rtgen_dpdk_next.Statistic.Counts.{init_statistics_lem}
use rtgen_dpdk_next.Statistic.Live.{Live, update_at-Live}
use rtgen_dpdk_next.Launch.{
  CoreStart, enough, core_args, name_queues, core_statistics, launch_from, launch_queues,
  first_lcore,
}

abbrev pub HasNet : Flow → Type 0
HasNet f = (net : InterfaceConfig) × (f.net ≡ some net)

-- The entries from `i` on are the initial ones, with the queues of the flows.
abbrev pub AreNamed : StatisticCore → ℕ → List Flow → Type 0
AreNamed s i [] = Unit
AreNamed s i (f ∷ fs) =
    ((net : InterfaceConfig) × (f.net ≡ some net)
      × (get_elem? s.st i ≡ some (record (initial_st i) { queue_id = net.queue })))
    × AreNamed s (i + 1) fs

name_one : ℕ → Flow → StatisticCore → Option StatisticCore
name_one i f st = do net ← f.net; update_at st i (λ x. some (record x { queue_id = net.queue }))

name_one-some :
    (i : ℕ) (f : Flow) (st : StatisticCore) (h : HasNet f)
    → get_elem? st.st i ≡ some (initial_st i)
    → name_one i f st
      ≡ some (record st { st = set st.st i (record (initial_st i) { queue_id = h.0.queue }) })
unfolding name_one update_at
name_one-some i f st h e = rw (h.1, ◌>>=◌, e, ◌>>=◌) refl

fold-AreNamed :
    (fs : List Flow) (i : ℕ) (st : StatisticCore)
    → All HasNet fs
    → ((j : ℕ) → i ≤ j → j < i + length fs → get_elem? st.st j ≡ some (initial_st j))
    → (st' : StatisticCore) × (fold_flows name_one i fs st ≡ some st')
      × AreNamed st' i fs
      × ((j : ℕ) → j < i → get_elem? st'.st j ≡ get_elem? st.st j)
unfolding fold_flows
fold-AreNamed [] i st h fresh = (st, refl, tt, λ j p. refl)
fold-AreNamed (f ∷ fs) i st h fresh =
    let here : get_elem? st.st i ≡ some (initial_st i) = fresh i (omega arith) (omega arith) in
    let x : StatSt = record (initial_st i) { queue_id = h.0.0.queue } in
    let st1 : StatisticCore = record st { st = set st.st i x } in
    let e1 = name_one-some i f st h.0 here in
    let later : (j : ℕ)
        → i + 1 ≤ j
        → j < i + 1 + length fs
        → get_elem? st1.st j ≡ some (initial_st j) =
      λ j p q.
        get_elem?-set_ne st.st x (λ e. absurd (omega arith))
        ∙ fresh j (omega arith) (omega arith) in
    let (st2, e2, named, kept) = fold-AreNamed fs (i + 1) st1 h.1 later in
    (
      st2,
      rw (e1, ◌>>=◌) e2,
      (
        (
          h.0.0,
          h.0.1,
          kept i (omega arith) ∙ get_elem?-set_self st.st i x (lt_of_get_elem? st.st i _ here),
        ),
        named,
      ),
      λ j p. kept j (omega arith) ∙ get_elem?-set_ne st.st x (λ e. absurd (omega arith)),
    )

core_statistics-AreNamed :
    (state : FlowState) (fs : List Flow) (q : ℕ)
    → Represents state fs
    → All HasNet fs
    → (st : StatisticCore) × (core_statistics enough state q ≡ some st) × AreNamed st 0 fs
unfolding core_statistics name_queues name_one
core_statistics-AreNamed state fs q r h =
    let (st, e, n, fresh) = init_statistics_lem (length fs) (pos q) (pos q) in
    let (st', e', named, kept) = fold-AreNamed fs 0 st h (λ j p k. fresh j (omega arith)) in
    (
      st',
      ap (λ n. init_statistics true true n (pos q) (pos q) >>= λ x. name_queues state x) r.count
          ∙ ap (λ o. o >>= λ x. name_queues state x) e
          ∙ for_flows-fold_flows state name_one fs st r
          ∙ e',
      named,
    )

fold-Live :
    (fs : List Flow) (i n k : ℕ) (st : StatisticCore)
    → All HasNet fs
    → i + length fs ≤ n
    → Live st n k
    → (st' : StatisticCore) × (fold_flows name_one i fs st ≡ some st') × Live st' n k
unfolding fold_flows name_one
fold-Live [] i n k st h room l = (st, refl, l)
fold-Live (f ∷ fs) i n k st h room l =
    let (st1, e1, l1) =
      update_at-Live st n k k i (λ x. some (record x { queue_id = h.0.0.queue })) (omega arith) l
        (omega arith) (λ x lx. (_, refl, record { send_pos = lx.send_pos; room = lx.room })) in
    let (st2, e2, l2) = fold-Live fs (i + 1) n k st1 h.1 (omega arith) l1 in
    (st2, rw (h.0.1, ◌>>=◌, e1, ◌>>=◌) e2, l2)

-- The statistics that a core starts with, malloc giving memory, have room for any number of updates
-- that leaves the counters below 2 ^ 64.
pub core_statistics-Live :
    (state : FlowState) (fs : List Flow) (q k : ℕ)
    → Represents state fs
    → All HasNet fs
    → k + 1 < u64_mod
    → (st : StatisticCore) × (core_statistics enough state q ≡ some st) × Live st (length fs) k
unfolding core_statistics name_queues name_one
core_statistics-Live state fs q k r h small =
    let (st, e, n, fresh) = init_statistics_lem (length fs) (pos q) (pos q) in
    let l : Live st (length fs) k = record {
      flows = n;
      entry =
          λ j p. (initial_st j, fresh j p, record { send_pos = omega arith; room = omega arith });
    } in
    let (st', e', l') = fold-Live fs 0 (length fs) k st h (omega arith) l in
    (
      st',
      ap (λ n. init_statistics true true n (pos q) (pos q) >>= λ x. name_queues state x) r.count
          ∙ ap (λ o. o >>= λ x. name_queues state x) e
          ∙ for_flows-fold_flows state name_one fs st r
          ∙ e',
      l',
    )

-- What a core is started with.
abbrev started : (port_id : ℤ) (base_time queue_id lcore : ℕ) → StatisticCore → CoreStart
started port base q lcore st = record {
  lcore = lcore;
  port_id = port;
  queue_id = q;
  base_time = base;
  stats = st;
}

core_args-started :
    (port : ℤ) (base q lcore : ℕ) (st : StatisticCore)
    → q < num_tx_queue
    → core_args true enough port base q lcore st ≡ some (started port base q lcore st)
unfolding core_args
core_args-started port base q lcore st h = rw (lt→ltb q num_tx_queue h) refl

-- The schedules of the queues from `q` on, and the cores that are started for them, from `lcore` on: a
-- queue with no frames gets no core, and each other queue the next one.
pub data Started (port_id : ℤ) (base_time : ℕ) (fs : List Flow)
    : List ScheduleState → (q lcore : ℕ) → List CoreStart → Type 0 where
  no_queue : (q lcore : ℕ) → Started port_id base_time fs [] q lcore []
  idle :
      (s : ScheduleState) (ss : List ScheduleState) (q lcore : ℕ) (cs : List CoreStart)
      → (s.num_frames_per_cycle == 0) ≡ true
      → Started port_id base_time fs ss (q + 1) lcore cs
      → Started port_id base_time fs (s ∷ ss) q lcore cs
  busy :
      (s : ScheduleState) (ss : List ScheduleState) (q lcore : ℕ) (st : StatisticCore)
      (cs : List CoreStart)
      → (s.num_frames_per_cycle == 0) ≡ false
      → AreNamed st 0 fs
      → Started port_id base_time fs ss (q + 1) (lcore + 1) cs
      → Started port_id base_time fs (s ∷ ss) q lcore (started port_id base_time q lcore st ∷ cs)

launch_from-idle :
    (port : ℤ) (base : ℕ) (state : FlowState) (schedule : List ScheduleState) (n q lcore : ℕ)
    (s : ScheduleState)
    → get_elem? schedule q ≡ some s
    → (s.num_frames_per_cycle == 0) ≡ true
    → launch_from true (λ q. enough) port base state schedule (suc n) q lcore
      ≡ launch_from true (λ q. enough) port base state schedule n (q + 1) lcore
unfolding launch_from
launch_from-idle port base state schedule n q lcore s here e = rw (here, ◌>>=◌, e) refl

launch_from-busy :
    (port : ℤ) (base : ℕ) (state : FlowState) (schedule : List ScheduleState) (n q lcore : ℕ)
    (s : ScheduleState) (st : StatisticCore) (cs : List CoreStart)
    → get_elem? schedule q ≡ some s
    → (s.num_frames_per_cycle == 0) ≡ false
    → core_statistics enough state q ≡ some st
    → q < num_tx_queue
    → launch_from true (λ q. enough) port base state schedule n (q + 1) (lcore + 1) ≡ some cs
    → launch_from true (λ q. enough) port base state schedule (suc n) q lcore
      ≡ some (started port base q lcore st ∷ cs)
unfolding launch_from
launch_from-busy port base state schedule n q lcore s st cs here e has room later =
    rw (here, ◌>>=◌, e, has, ◌>>=◌, core_args-started port base q lcore st room, ◌>>=◌)
      (ap (λ o. o >>= λ r. some (started port base q lcore st ∷ r)) later)

launch_from-Started :
    (port : ℤ) (base : ℕ) (state : FlowState) (fs : List Flow) (done rest : List ScheduleState)
    (q lcore : ℕ)
    → Represents state fs
    → All HasNet fs
    → q ≡ length done
    → q + length rest ≤ num_tx_queue
    → (cs : List CoreStart) × (launch_from true
          (λ q. enough)
          port
          base
          state
          (done ++ rest)
          (length rest)
          q
          lcore
        ≡ some cs)
      × Started port base fs rest q lcore cs
unfolding launch_from
launch_from-Started port base state fs done [] q lcore r h at room =
    ([], refl, Started.no_queue q lcore)
launch_from-Started port base state fs done (s ∷ rest) q lcore r h at room =
    let here = get_elem?-append done s rest q at in
    let next : q + 1 ≡ length (done ++ (s ∷ [])) = omega (arith, length-append done (s ∷ [])) in
    let same = append_assoc done (s ∷ []) rest in
    elim (Bool-cases (s.num_frames_per_cycle == 0)) [
      | inl e ↦
          let (cs, q1, p) =
            launch_from-Started port base state fs (done ++ (s ∷ [])) rest (q + 1) lcore r h next
              (omega arith) in
          (
            cs,
            launch_from-idle port base state (done ++ (s ∷ rest)) (length rest) q lcore s here e
                ∙ subst
                    (λ l.
                      launch_from true (λ q. enough) port base state l (length rest) (q + 1) lcore
                      ≡ some cs)
                    same q1,
            Started.idle s rest q lcore cs e p,
          )
      | inr e ↦
          let (cs, q1, p) =
            launch_from-Started port base state fs (done ++ (s ∷ [])) rest (q + 1) (lcore + 1) r h
              next (omega arith) in
          let (st, has, named) = core_statistics-AreNamed state fs q r h in
          (
            started port base q lcore st ∷ cs,
            launch_from-busy port base state (done ++ (s ∷ rest)) (length rest) q lcore s st cs here
                e has (omega arith)
                (subst
                  (λ l.
                    launch_from true (λ q. enough) port base state l (length rest) (q + 1)
                      (lcore + 1)
                    ≡ some cs)
                  same q1),
            Started.busy s rest q lcore st cs e named p,
          )
    ]

-- With one schedule for each transmit queue, of which there are at most 2, flows that have their
-- interfaces, and memory from malloc, `main` starts a core for
-- exactly the queues whose schedule has frames, in order, on core 9 and those after it with no gap, with the port, the queue and the base
-- time; the statistics of each are fresh and name the queue of every flow.
pub launch_queues-Started :
    (port : ℤ) (base : ℕ) (state : FlowState) (fs : List Flow) (schedule : List ScheduleState)
    → Represents state fs
    → All HasNet fs
    → length schedule ≤ num_tx_queue
    → (cs : List CoreStart) × (launch_queues true
          (λ q. enough)
          port
          base
          state
          schedule
          (length schedule)
        ≡ some cs)
      × Started port base fs schedule 0 first_lcore cs
unfolding launch_queues
launch_queues-Started port base state fs schedule r h room =
    launch_from-Started port base state fs [] schedule 0 first_lcore r h refl (omega arith)
