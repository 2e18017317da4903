-- ===== src/Ports/Once.antt =====
-- A port and a queue are configured once.
use rtgen_dpdk_next.Base.{
  ℕ, zero, suc, ◌≡◌, refl, ap, sym, ◌∙◌, ◌++◌, append-nil, inl, inr, Bool, Bool-cases, true, false,
  not, ◌&&◌, some, List, [], ◌∷◌, get_elem?, set, ◌>>=◌,
}
use rtgen_dpdk_next.Base.Int.{pos}
use rtgen_dpdk_next.Flow.{InterfaceConfig}
use rtgen_dpdk_next.Ports.{
  Setup, SetupCall, DevState, QueueState, ensure_port, ensure_queue, configure_flow, todo_port,
  todo_queue, set_up_port, set_up_queue,
}

-- The queue `q` of the port `p` has an entry; what its flags say.
pub record HasQueue (s : Setup) (p q : ℕ) : Type 0 where
  pub dev : DevState
  pub queue : QueueState
  pub dev_at : get_elem? s.devs p ≡ some dev
  pub queue_at : get_elem? dev.txq_state q ≡ some queue

done : (b : Bool) → (b && not true) ≡ false
done true = refl
done false = refl

set_self {ℓ} :
    {A : Type ℓ} (xs : List A) (i : ℕ) (x v : A)
    → get_elem? xs i ≡ some x
    → get_elem? (set xs i v) i ≡ some v
set_self [] i x v e = absurd (cc)
set_self (y ∷ ys) zero x v e = refl
set_self (y ∷ ys) (suc i) x v e = set_self ys i x v e

-- The calls that a port and a transmit queue need that are marked as configured or not.
abbrev pub port_calls : (configured : Bool) (port_id : ℕ) → List SetupCall
port_calls true p = []
port_calls false p = SetupCall.configure_port p ∷ SetupCall.configure_rx_queue p 0 256 ∷ []

abbrev pub queue_calls : (configured : Bool) (port_id queue_id : ℕ) → List SetupCall
queue_calls true p q = []
queue_calls false p q = SetupCall.configure_tx_queue p q 32 ∷ []

-- After the port's turn it needs no more work, and the queue still has its entry.
ensure_port_lem :
    (s : Setup) (p q : ℕ) (h : HasQueue s p q)
    → h.dev.is_existed ≡ true
    → (s' : Setup) × (ensure_port p s ≡ some s')
      × (h' : HasQueue s' p q) × (todo_port h'.dev ≡ false)
      × (h'.queue ≡ h.queue)
      × (s'.calls ≡ s.calls ++ port_calls h.dev.is_configured p)
unfolding ensure_port
ensure_port_lem s p q h ex = elim (Bool-cases h.dev.is_configured) [
  | inl e ↦ (
    s,
    rw (h.dev_at, ◌>>=◌, ex, e) refl,
    h,
    rw (ex, e) refl,
    refl,
    rw e (sym (append-nil s.calls)),
  )
  | inr e ↦ (
    set_up_port p h.dev s,
    rw (h.dev_at, ◌>>=◌, ex, e) refl,
    record {
      dev = record (h.dev) { is_configured = true };
      queue = h.queue;
      dev_at = set_self s.devs p h.dev (record (h.dev) { is_configured = true }) h.dev_at;
      queue_at = h.queue_at;
    },
    done h.dev.is_existed,
    refl,
    rw e refl,
  )
]

-- After the queue's turn neither needs more work.
ensure_queue_lem :
    (s : Setup) (p q : ℕ) (h : HasQueue s p q)
    → todo_port h.dev ≡ false
    → h.queue.is_existed ≡ true
    → (s' : Setup) × (ensure_queue p q s ≡ some s')
      × (h' : HasQueue s' p q) × (todo_port h'.dev ≡ false)
      × (todo_queue h'.queue ≡ false)
      × (s'.calls ≡ s.calls ++ queue_calls h.queue.is_configured p q)
unfolding ensure_queue
ensure_queue_lem s p q h t ex = elim (Bool-cases h.queue.is_configured) [
  | inl e ↦ (
    s,
    rw (h.dev_at, ◌>>=◌, h.queue_at, ex, e) refl,
    h,
    t,
    rw (ex, e) refl,
    rw e (sym (append-nil s.calls)),
  )
  | inr e ↦
      let queue' : QueueState = record (h.queue) { is_configured = true } in
      let dev' : DevState = record (h.dev) { txq_state = set h.dev.txq_state q queue' } in
      (
        set_up_queue p q h.dev h.queue s,
        rw (h.dev_at, ◌>>=◌, h.queue_at, ex, e) refl,
        record {
          dev = dev';
          queue = queue';
          dev_at = set_self s.devs p h.dev dev' h.dev_at;
          queue_at = set_self h.dev.txq_state q h.queue queue' h.queue_at;
        },
        t,
        done h.queue.is_existed,
        rw e refl,
      )
]

configured_already :
    (s : Setup) (p q : ℕ) (h : HasQueue s p q)
    → todo_port h.dev ≡ false
    → todo_queue h.queue ≡ false
    → (ensure_port p s >>= λ t. ensure_queue p q t) ≡ some s
unfolding ensure_port ensure_queue
configured_already s p q h t u = rw (h.dev_at, ◌>>=◌, t, h.dev_at, ◌>>=◌, h.queue_at, u)

-- Let a port and a queue have entries and be marked as existing. Then the round of `main` that configures
-- them for a flow does not fault. It calls for the configuration of the port and its receive queue
-- exactly if the port was not marked as configured, and behind that for the configuration of the
-- transmit queue exactly if that was not; and the round for any other flow of the same port and queue
-- that comes after it makes no call and changes nothing.
pub configure_flow-once :
    (net other : InterfaceConfig) (s : Setup) (p q : ℕ)
    → net.port ≡ pos p
    → net.queue ≡ pos q
    → other.port ≡ pos p
    → other.queue ≡ pos q
    → (h : HasQueue s p q) → h.dev.is_existed ≡ true
    → h.queue.is_existed ≡ true
    → (s' : Setup) × (configure_flow net s ≡ some s')
      × (s'.calls
          ≡ (s.calls ++ port_calls h.dev.is_configured p) ++ queue_calls h.queue.is_configured p q)
      × (configure_flow other s' ≡ some s')
unfolding configure_flow
configure_flow-once net other s p q ep eq op oq h de qe =
    let (s1, e1, h1, t1, same, c1) = ensure_port_lem s p q h de in
    let (s2, e2, h2, t2, u2, c2) =
      ensure_queue_lem s1 p q h1 t1 (ap (λ x. x.is_existed) same ∙ qe) in
    (
      s2,
      rw (ep, eq, ◌>>=◌, e1, e2),
      c2
          ∙ ap (λ l. l ++ queue_calls h1.queue.is_configured p q) c1
          ∙ ap
              (λ (x : QueueState).
                (s.calls ++ port_calls h.dev.is_configured p) ++ queue_calls x.is_configured p q)
              same,
      rw (op, oq) (configured_already s2 p q h2 t2 u2),
    )
