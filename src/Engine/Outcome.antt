-- ===== src/Engine/Outcome.antt =====
-- How the set-up of the ports ends: with every call done, or at the first that fails.
use rtgen_dpdk_next.Base.{
  ℕ, ◌≡◌, refl, ap, sym, subst, ◌∙◌, ◌⊎◌, inl, inr, Bool-cases, true, false, List, [], ◌∷◌, ◌++◌,
  append-nil, append_assoc, length, if◌then◌else◌,
}
use rtgen_dpdk_next.Base.Int.{ℤ, pos, ◌==ℤ◌, ==ℤ_iff}
use rtgen_dpdk_next.Ports.{
  SetupCall, num_tx_queue, num_rx_queue, configure_port, configure_rx_queue, configure_tx_queue,
  start_port, check_offload_capabilities, enable_synchronization,
}
use rtgen_dpdk_next.Engine.Calls.{
  DpdkCall, Exit, Dpdk, Result, exited, returned, ◌>>=◌, must, perform, perform_all, dev_configure,
  adjust_nb_desc, tx_queue_setup, rx_queue_setup, dev_start, timesync_enable, promiscuous_enable,
  cannot_configure, invalid_descriptors, cannot_setup_tx, cannot_setup_rx, cannot_start,
  no_timestamping, cannot_timesync, cannot_promiscuous, num_sync_desc, configure, setup_tx_queue,
  setup_rx_queue, start, check_offloads, enable_sync,
}

-- What must hold for the program to go on: a call returns 0, or a port can send at a timestamp.
pub data Demand : Type 0 where
  call : DpdkCall → (ℤ → Exit) → Demand
  can_timestamp : (port : ℕ) → Demand

-- What each call of `main` demands, in order.
pub demands : Dpdk → SetupCall → List Demand
demands d (configure_port p) =
    let capa = d.capabilities p in
    call (dev_configure p num_rx_queue num_tx_queue true capa.tx_multi_segs capa.rx_timestamp)
      (λ ret. cannot_configure ret p)
    ∷ call (adjust_nb_desc p num_sync_desc num_sync_desc) (λ ret. invalid_descriptors)
    ∷ []
demands d (configure_rx_queue p q n) =
    call (rx_queue_setup p q n) (λ ret. cannot_setup_rx q p ret) ∷ []
demands d (configure_tx_queue p q n) =
    call (tx_queue_setup p q n) (λ ret. cannot_setup_tx q p ret) ∷ []
demands d (start_port p) = call (dev_start p) (λ ret. cannot_start p ret) ∷ []
demands d (check_offload_capabilities p) = can_timestamp p ∷ []
demands d (enable_synchronization p) =
    call (timesync_enable p) (λ ret. cannot_timesync 0 ret)
    ∷ call (promiscuous_enable p) (λ ret. cannot_promiscuous 0 ret)
    ∷ []

pub all_demands : Dpdk → List SetupCall → List Demand
all_demands d [] = []
all_demands d (c ∷ cs) = demands d c ++ all_demands d cs

-- The calls made by demands that are met.
abbrev pub calls_of : List Demand → List DpdkCall
calls_of [] = []
calls_of (call c m ∷ ds) = c ∷ calls_of ds
calls_of (can_timestamp p ∷ ds) = calls_of ds

-- The demands are met, after the calls `before`.
pub data IsMet (d : Dpdk) : List DpdkCall → List Demand → Type 0 where
  done : (before : List DpdkCall) → IsMet d before []
  zero_returned :
      (before : List DpdkCall) (c : DpdkCall) (m : ℤ → Exit) (ds : List Demand)
      → d.returns (length before) c ≡ pos 0
      → IsMet d (before ++ (c ∷ [])) ds
      → IsMet d before (call c m ∷ ds)
  capable :
      (before : List DpdkCall) (p : ℕ) (ds : List Demand)
      → (d.capabilities p).tx_send_on_timestamp ≡ true
      → IsMet d before ds
      → IsMet d before (can_timestamp p ∷ ds)

-- A demand is not met, with the message `e` and the last call included in `calls`.
pub data Fails (d : Dpdk) (before : List DpdkCall) : Demand → Exit → List DpdkCall → Type 0 where
  nonzero :
      (c : DpdkCall) (m : ℤ → Exit)
      → (d.returns (length before) c ==ℤ pos 0) ≡ false
      → Fails d before (call c m) (m (d.returns (length before) c)) (before ++ (c ∷ []))
  incapable :
      (p : ℕ)
      → (d.capabilities p).tx_send_on_timestamp ≡ false
      → Fails d before (can_timestamp p) (no_timestamping p) before

-- The demands one after another, up to the first that is not met.
meet : Dpdk → List Demand → List DpdkCall → Result
meet d [] before = returned before
meet d (call c m ∷ ds) before = must d c m before >>= meet d ds
meet d (can_timestamp p ∷ ds) before =
    let rest = meet d ds before in
    if (d.capabilities p).tx_send_on_timestamp then rest else exited (no_timestamping p) before

bind_returned : (r : Result) → (r >>= returned) ≡ r
bind_returned (exited e calls) = refl
bind_returned (returned calls) = refl

bind_same :
    (r : Result) (f g : List DpdkCall → Result)
    → ((calls : List DpdkCall) → f calls ≡ g calls)
    → (r >>= f) ≡ (r >>= g)
bind_same (exited e calls) f g h = refl
bind_same (returned calls) f g h = h calls

meet-append :
    (d : Dpdk) (ds es : List Demand) (before : List DpdkCall)
    → meet d (ds ++ es) before ≡ (meet d ds before >>= meet d es)
unfolding meet
meet-append d [] es before = refl
meet-append d (call c m ∷ ds) es before =
    elim (Bool-cases (d.returns (length before) c ==ℤ pos 0)) [
      | inl e ↦ rw e (meet-append d ds es (before ++ (c ∷ [])))
      | inr e ↦ rw e
    ]
meet-append d (can_timestamp p ∷ ds) es before =
    elim (Bool-cases (d.capabilities p).tx_send_on_timestamp) [
      | inl e ↦ rw e (meet-append d ds es before)
      | inr e ↦ rw e
    ]

meet_two :
    (d : Dpdk) (c c' : DpdkCall) (m m' : ℤ → Exit) (before : List DpdkCall)
    → (must d c m before >>= must d c' m') ≡ meet d (call c m ∷ call c' m' ∷ []) before
unfolding meet
meet_two d c c' m m' before =
    bind_same (must d c m before) (must d c' m') (meet d (call c' m' ∷ []))
      (λ calls. sym (bind_returned (must d c' m' calls)))

perform-meet :
    (d : Dpdk) (c : SetupCall) (before : List DpdkCall)
    → perform d c before ≡ meet d (demands d c) before
unfolding perform meet demands configure setup_rx_queue setup_tx_queue start check_offloads
    enable_sync
perform-meet d (configure_port p) before =
    meet_two d
      (dev_configure p num_rx_queue num_tx_queue true (d.capabilities p).tx_multi_segs
        (d.capabilities p).rx_timestamp)
      (adjust_nb_desc p num_sync_desc num_sync_desc) (λ ret. cannot_configure ret p)
      (λ ret. invalid_descriptors) before
perform-meet d (configure_rx_queue p q n) before = sym (bind_returned _)
perform-meet d (configure_tx_queue p q n) before = sym (bind_returned _)
perform-meet d (start_port p) before = sym (bind_returned _)
perform-meet d (check_offload_capabilities p) before = refl
perform-meet d (enable_synchronization p) before =
    meet_two d (timesync_enable p) (promiscuous_enable p) (λ ret. cannot_timesync 0 ret)
      (λ ret. cannot_promiscuous 0 ret) before

perform_all-meet :
    (d : Dpdk) (cs : List SetupCall) (before : List DpdkCall)
    → perform_all d cs before ≡ meet d (all_demands d cs) before
unfolding perform_all all_demands meet
perform_all-meet d [] before = refl
perform_all-meet d (c ∷ cs) before =
    ap (λ r. r >>= perform_all d cs) (perform-meet d c before)
    ∙ (bind_same (meet d (demands d c) before) _ _ (perform_all-meet d cs)
        ∙ sym (meet-append d (demands d c) (all_demands d cs) before))

-- The demands `ds` up to one that is not met.
pub record Stops (d : Dpdk) (before : List DpdkCall) (ds : List Demand) (r : Result) : Type 0 where
  pub met : List Demand
  pub failed : Demand
  pub untried : List Demand
  pub message : Exit
  pub calls : List DpdkCall
  pub parts : ds ≡ met ++ (failed ∷ untried)
  pub good : IsMet d before met
  pub bad : Fails d (before ++ calls_of met) failed message calls
  pub result : r ≡ exited message calls

meet-outcome :
    (d : Dpdk) (ds : List Demand) (before : List DpdkCall)
    → (IsMet d before ds × (meet d ds before ≡ returned (before ++ calls_of ds)))
      ⊎ Stops d before ds (meet d ds before)
unfolding meet
meet-outcome d [] before = inl (done before, ap returned (sym (append-nil before)))
meet-outcome d (call c m ∷ ds) before = elim (Bool-cases (d.returns (length before) c ==ℤ pos 0)) [
  | inr e ↦ inr (record {
    met = [];
    failed = call c m;
    untried = ds;
    message = m (d.returns (length before) c);
    calls = before ++ (c ∷ []);
    parts = refl;
    good = done before;
    bad = rw (append-nil before) (nonzero c m e);
    result = rw e;
  })
  | inl e ↦
      let zero : d.returns (length before) c ≡ pos 0 = (==ℤ_iff _ _).0 e in
      elim (meet-outcome d ds (before ++ (c ∷ []))) [
        | inl (g, r) ↦ inl (
          zero_returned before c m ds zero g,
          rw e (r ∙ ap returned (append_assoc before (c ∷ []) (calls_of ds))),
        )
        | inr st ↦ inr (record {
          met = call c m ∷ st.met;
          failed = st.failed;
          untried = st.untried;
          message = st.message;
          calls = st.calls;
          parts = ap (λ l. call c m ∷ l) st.parts;
          good = zero_returned before c m st.met zero st.good;
          bad =
              subst (λ l. Fails d l st.failed st.message st.calls)
                (append_assoc before (c ∷ []) (calls_of st.met)) st.bad;
          result = rw e st.result;
        })
      ]
]
meet-outcome d (can_timestamp p ∷ ds) before =
    elim (Bool-cases (d.capabilities p).tx_send_on_timestamp) [
      | inr e ↦ inr (record {
        met = [];
        failed = can_timestamp p;
        untried = ds;
        message = no_timestamping p;
        calls = before;
        parts = refl;
        good = done before;
        bad = rw (append-nil before) (incapable p e);
        result = rw e;
      })
      | inl e ↦ elim (meet-outcome d ds before) [
        | inl (g, r) ↦ inl (capable before p ds e g, rw e r)
        | inr st ↦ inr (record {
          met = can_timestamp p ∷ st.met;
          failed = st.failed;
          untried = st.untried;
          message = st.message;
          calls = st.calls;
          parts = ap (λ l. can_timestamp p ∷ l) st.parts;
          good = capable before p st.met e st.good;
          bad = st.bad;
          result = rw e st.result;
        })
      ]
    ]

-- The calls of `main` into the engine end in one of two ways. Either every call into DPDK returned 0 and
-- every port that was asked can send at a timestamp, and all the calls were made, in order; or the
-- program has ended with the message of the first demand that is not met, after exactly the calls
-- before it and, if it is a call, that one.
pub perform_all-outcome :
    (d : Dpdk) (cs : List SetupCall)
    → (IsMet d [] (all_demands d cs)
        × (perform_all d cs [] ≡ returned (calls_of (all_demands d cs))))
      ⊎ Stops d [] (all_demands d cs) (perform_all d cs [])
perform_all-outcome d cs = rw (perform_all-meet d cs []) (meet-outcome d (all_demands d cs) [])
