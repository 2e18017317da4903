-- ===== src/Ports/Order.antt =====
-- The order of the calls into the engine, by the state of the port alone: a port is configured before its
-- queues, its queues are set up before it is started, and it is synchronized once it runs. Which of its
-- queues are set up when it is started, and in which order, is not looked at.
use rtgen_dpdk_next.Base.{
  ℕ, ◌+◌, ◌<◌, ◌≡◌, refl, ap, sym, subst, ◌∙◌, ◌⊎◌, ◌≢◌, inl, inr, Bool, Bool-cases, true, false,
  not, ◌&&◌, Option, none, some, List, [], ◌∷◌, ◌++◌, arith, length, length-set, get_elem?,
  get_elem?-set_self, get_elem?-set_ne, get_elem?-some, lt_of_get_elem?, ℕ_discrete, set, ◌==◌,
  ==_iff, ne→==-false, update, update_self, if◌then◌else◌, ◌>>=◌,
}
use rtgen_dpdk_next.Ports.{
  Setup, SetupCall, DevState, max_available_ports, num_tx_queue, ensure_port, ensure_queue,
  todo_port, todo_queue, set_up_port, set_up_queue, configure_port, configure_rx_queue,
  configure_tx_queue, start_port, check_offload_capabilities, enable_synchronization,
}

-- What DPDK knows of a port.
pub record PortStatus : Type 0 where
  pub configured : Bool
  pub started : Bool

abbrev pub unborn : ℕ → PortStatus
unborn p = record { configured = false; started = false }

-- When DPDK takes a call: a port is configured while it is stopped, its queues are set up when it is
-- configured and stopped, and it can be synchronized while it runs.
abbrev pub allowed : SetupCall → (ℕ → PortStatus) → Bool
allowed (configure_port p) st = not (st p).started
allowed (configure_rx_queue p q n) st = (st p).configured && not (st p).started
allowed (configure_tx_queue p q n) st = (st p).configured && not (st p).started
allowed (start_port p) st = (st p).configured && not (st p).started
allowed (check_offload_capabilities p) st = true
allowed (enable_synchronization p) st = (st p).started

abbrev pub after : SetupCall → (ℕ → PortStatus) → ℕ → PortStatus
after (configure_port p) st = update st p (record (st p) { configured = true })
after (start_port p) st = update st p (record (st p) { started = true })
after (configure_rx_queue p q n) st = st
after (configure_tx_queue p q n) st = st
after (check_offload_capabilities p) st = st
after (enable_synchronization p) st = st

unfoldable pub accepts : List SetupCall → (ℕ → PortStatus) → Option (ℕ → PortStatus)
accepts [] st = some st
accepts (c ∷ cs) st = let rest = accepts cs (after c st) in if allowed c st then rest else none

pub accepts-append :
    (cs ds : List SetupCall) (st : ℕ → PortStatus)
    → accepts (cs ++ ds) st ≡ (accepts cs st >>= accepts ds)
unfolding accepts
accepts-append [] ds st = refl
accepts-append (c ∷ cs) ds st = elim (Bool-cases (allowed c st)) [
  | inl e ↦ rw e (accepts-append cs ds (after c st))
  | inr e ↦ rw e
]

-- A device and what DPDK knows of its port.
pub record DevIs (present : Bool) (st : PortStatus) (dev : DevState) : Type 0 where
  pub existed : dev.is_existed ≡ present
  pub queues : length dev.txq_state ≡ num_tx_queue
  pub configured : st.configured ≡ dev.is_configured
  pub started : st.started ≡ dev.is_running

-- DPDK has taken the calls so far, and the flags say what it knows; `present` are the ports that exist.
pub record InOrder (present : ℕ → Bool) (s : Setup) (st : ℕ → PortStatus) : Type 0 where
  pub accepted : accepts s.calls unborn ≡ some st
  pub ports : length s.devs ≡ max_available_ports
  pub dev : (p : ℕ) (d : DevState) → get_elem? s.devs p ≡ some d → DevIs (present p) (st p) d

get-set {ℓ} :
    {A : Type ℓ} (l : List A) (i j : ℕ) (v x : A)
    → get_elem? (set l i v) j ≡ some x
    → ((i ≡ j) × (v ≡ x)) ⊎ ((i ≢ j) × (get_elem? l j ≡ some x))
get-set l i j v x e = elim (ℕ_discrete i j) [
  | yes same ↦
      let lt : i < length l =
        omega (arith, lt_of_get_elem? (set l i v) j x e, length-set l i v, same) in
      let u : some v ≡ some x =
        sym (get_elem?-set_self l i v lt) ∙ (ap (get_elem? (set l i v)) same ∙ e) in
      inl (same, cc)
  | no other ↦ inr (other, sym (get_elem?-set_ne l v other) ∙ e)
]

pub update_ne {ℓ} : {A : Type ℓ} (f : ℕ → A) (i j : ℕ) (a : A) → i ≢ j → update f i a j ≡ f j
update_ne f i j a h = let e = ne→==-false i j h in rw e

module _ (present : ℕ → Bool) where
  -- New calls on one port, with what they do to its flags.
  pub extend :
      (s : Setup) (st st' : ℕ → PortStatus) (p : ℕ) (d' : DevState) (new : List SetupCall)
      (tx rx : ℕ)
      → InOrder present s st
      → accepts new st ≡ some st'
      → DevIs (present p) (st' p) d'
      → ((i : ℕ) → p ≢ i → st' i ≡ st i)
      → InOrder present
          (record {
            devs = set s.devs p d';
            calls = s.calls ++ new;
            tx_queue_nums = tx;
            rx_queue_nums = rx;
          })
          st'
  extend s st st' p d' new tx rx h e is other = record {
    accepted = accepts-append s.calls new unborn ∙ (ap (λ o. o >>= accepts new) h.accepted ∙ e);
    ports = length-set s.devs p d' ∙ h.ports;
    dev = λ i d at. elim (get-set s.devs p i d' d at) [
      | inl (same, eq) ↦
          subst (λ x. DevIs (present i) (st' i) x) eq
            (subst (λ m. DevIs (present m) (st' m) d') same is)
      | inr (ne, at') ↦ subst (λ x. DevIs (present i) x d) (sym (other i ne)) (h.dev i d at')
    ];
  }

  -- A port that exists, after its turn.
  pub ensure_port-InOrder :
      (p : ℕ) (s : Setup) (st : ℕ → PortStatus)
      → InOrder present s st
      → p < max_available_ports
      → present p ≡ true
      → (st p).started ≡ false
      → (s' : Setup) × (st' : ℕ → PortStatus) × (ensure_port p s ≡ some s')
        × InOrder present s' st'
        × ((st' p).configured ≡ true)
        × ((i : ℕ) → (st' i).started ≡ (st i).started)
  unfolding ensure_port accepts
  ensure_port-InOrder p s st h lt here stopped =
      let (d, at) = get_elem?-some s.devs p (omega (arith, lt, h.ports)) in
      let is = h.dev p d at in
      elim (Bool-cases d.is_configured) [
        | inl e ↦
            let idle : todo_port d ≡ false = rw (is.existed, here, e) in
            (s, st, rw (at, ◌>>=◌, idle), h, is.configured ∙ e, λ i. refl)
        | inr e ↦
            let busy : todo_port d ≡ true = rw (is.existed, here, e) in
            let st' = after (configure_port p) st in
            let mine : st' p ≡ record (st p) { configured = true } = update_self st p _ in
            let new = configure_port p ∷ configure_rx_queue p 0 256 ∷ [] in
            let taken : accepts new st ≡ some st' =
              let same : (p == p) ≡ true = (==_iff p p).1 refl in rw (stopped, same) in
            (
              set_up_port p d s,
              st',
              rw (at, ◌>>=◌, busy),
              extend s st st' p (record d { is_configured = true }) new s.tx_queue_nums
                  (s.rx_queue_nums + 1) h taken
                  (record {
                    existed = is.existed;
                    queues = is.queues;
                    configured = ap (λ x. x.configured) mine;
                    started = ap (λ x. x.started) mine ∙ is.started;
                  })
                  (λ i ne. update_ne st p i _ ne),
              ap (λ x. x.configured) mine,
              λ i. elim (ℕ_discrete p i) [
                | yes same ↦
                    subst (λ m. (st' m).started ≡ (st m).started) same (ap (λ x. x.started) mine)
                | no ne ↦ ap (λ x. x.started) (update_ne st p i _ ne)
              ],
            )
      ]

  -- The set-up of a transmit queue of a port that is configured and does not run.
  pub queue-InOrder :
      (s : Setup) (st : ℕ → PortStatus) (p q n : ℕ) (d d' : DevState) (tx : ℕ)
      → InOrder present s st
      → (st p).configured ≡ true
      → (st p).started ≡ false
      → DevIs (present p) (st p) d'
      → InOrder present
          (record s {
            devs = set s.devs p d';
            calls = s.calls ++ (configure_tx_queue p q n ∷ []);
            tx_queue_nums = tx;
          })
          st
  unfolding accepts
  queue-InOrder s st p q n d d' tx h conf stopped is =
      extend s st st p d' (configure_tx_queue p q n ∷ []) tx s.rx_queue_nums h (rw (conf, stopped))
        is (λ i ne. refl)

  pub ensure_queue-InOrder :
      (p q : ℕ) (s : Setup) (st : ℕ → PortStatus)
      → InOrder present s st
      → p < max_available_ports
      → q < num_tx_queue
      → (st p).configured ≡ true
      → (st p).started ≡ false
      → (s' : Setup) × (ensure_queue p q s ≡ some s') × InOrder present s' st
  unfolding ensure_queue
  ensure_queue-InOrder p q s st h lt lq conf stopped =
      let (d, at) = get_elem?-some s.devs p (omega (arith, lt, h.ports)) in
      let is = h.dev p d at in
      let (x, xat) = get_elem?-some d.txq_state q (omega (arith, lq, is.queues)) in
      elim (Bool-cases (todo_queue x)) [
        | inr e ↦ (s, rw (at, ◌>>=◌, xat, e), h)
        | inl e ↦ (
          set_up_queue p q d x s,
          rw (at, ◌>>=◌, xat, e),
          queue-InOrder s st p q 32 d
              (record d { txq_state = set d.txq_state q (record x { is_configured = true }) })
              (s.tx_queue_nums + 1) h conf stopped
              (record {
                existed = is.existed;
                queues = length-set d.txq_state q _ ∙ is.queues;
                configured = is.configured;
                started = is.started;
              }),
        )
      ]
