-- ===== src/Ports/Configuring.antt =====
-- The loop of `main` over the flows, and the queue for the PTP client: what DPDK is asked to configure.
use rtgen_dpdk_next.Base.{
  ℕ, ◌+◌, ◌<◌, ◌≡◌, ◌∙◌, inl, inr, Bool, Bool-cases, true, false, some, List, [], ◌∷◌, arith, All,
  length, length-set, get_elem?, get_elem?-some, set, ◌>>=◌,
}
use rtgen_dpdk_next.Base.Int.{pos}
use rtgen_dpdk_next.Flow.{Flow, InterfaceConfig}
use rtgen_dpdk_next.Flow.Table.{fold_flows}
use rtgen_dpdk_next.Ports.{
  Setup, QueueState, max_available_ports, num_tx_queue, index_of, configure_flow,
}
use rtgen_dpdk_next.Ports.SetUp.{
  configure_sync_queue, set_up_sync, sync_tx_queue_id, num_tx_sync_desc,
}
use rtgen_dpdk_next.Ports.Order.{
  PortStatus, InOrder, ensure_port-InOrder, queue-InOrder, ensure_queue-InOrder,
}

-- The flow's port exists, and its queue is one of the port's.
pub record UsesPort (present : ℕ → Bool) (f : Flow) : Type 0 where
  pub net : InterfaceConfig
  pub port : ℕ
  pub queue : ℕ
  pub has_net : f.net ≡ some net
  pub port_is : net.port ≡ pos port
  pub queue_is : net.queue ≡ pos queue
  pub port_lt : port < max_available_ports
  pub queue_lt : queue < num_tx_queue
  pub here : present port ≡ true

abbrev pub AllStopped : (ℕ → PortStatus) → Type 0
AllStopped st = (i : ℕ) → (st i).started ≡ false

module _ (present : ℕ → Bool) where
  configure_flow-InOrder :
      (s : Setup) (st : ℕ → PortStatus) (f : Flow) (u : UsesPort present f)
      → InOrder present s st
      → AllStopped st
      → (s' : Setup) × (st' : ℕ → PortStatus) × (configure_flow u.net s ≡ some s')
        × InOrder present s' st'
        × AllStopped st'
        × ((st' u.port).configured ≡ true)
  unfolding configure_flow
  configure_flow-InOrder s st f u h stopped =
      let (s1, st1, e1, h1, conf, still) =
        ensure_port-InOrder present u.port s st h u.port_lt u.here (stopped u.port) in
      let stopped1 : AllStopped st1 = λ i. still i ∙ stopped i in
      let (s2, e2, h2) =
        ensure_queue-InOrder present u.port u.queue s1 st1 h1 u.port_lt u.queue_lt conf
          (stopped1 u.port) in
      (s2, st1, rw (u.port_is, u.queue_is, ◌>>=◌, e1, e2), h2, stopped1, conf)

  pub fold-InOrder :
      (f : Flow) (fs : List Flow) (i : ℕ) (s : Setup) (st : ℕ → PortStatus)
      → All (UsesPort present) (f ∷ fs)
      → InOrder present s st
      → AllStopped st
      → (s' : Setup) × (st' : ℕ → PortStatus) × (p : ℕ) × (fold_flows
            (λ i f s. do net ← f.net; configure_flow net s)
            i
            (f ∷ fs)
            s
          ≡ some s')
        × InOrder present s' st'
        × AllStopped st'
        × ((get_elem? (f ∷ fs) (length fs) >>= λ g. g.net >>= λ net. index_of net.port) ≡ some p)
        × (p < max_available_ports)
        × ((st' p).configured ≡ true)
  unfolding fold_flows
  fold-InOrder f [] i s st u h stopped =
      let (s1, st1, e1, h1, stopped1, conf) = configure_flow-InOrder s st f u.0 h stopped in
      (
        s1,
        st1,
        u.0.port,
        rw (u.0.has_net, ◌>>=◌, e1),
        h1,
        stopped1,
        rw (u.0.has_net, ◌>>=◌, u.0.port_is),
        u.0.port_lt,
        conf,
      )
  fold-InOrder f (g ∷ fs) i s st u h stopped =
      let (s1, st1, e1, h1, stopped1, conf) = configure_flow-InOrder s st f u.0 h stopped in
      let (s2, st2, p, e2, h2, stopped2, last, lt, conf2) =
        fold-InOrder g fs (i + 1) s1 st1 u.1 h1 stopped1 in
      (s2, st2, p, rw (u.0.has_net, ◌>>=◌, e1, ◌>>=◌) e2, h2, stopped2, last, lt, conf2)

  -- The queue for the PTP client.
  pub configure_sync_queue-InOrder :
      (p : ℕ) (s : Setup) (st : ℕ → PortStatus)
      → InOrder present s st
      → AllStopped st
      → p < max_available_ports
      → (st p).configured ≡ true
      → (s' : Setup) × (configure_sync_queue p s ≡ some s') × InOrder present s' st
  unfolding configure_sync_queue
  configure_sync_queue-InOrder p s st h stopped lt conf =
      let (d, at) = get_elem?-some s.devs p (omega (arith, lt, h.ports)) in
      let is = h.dev p d at in
      let (x, xat) = get_elem?-some d.txq_state sync_tx_queue_id (omega (arith, is.queues)) in
      elim (Bool-cases x.is_configured) [
        | inl e ↦ (s, rw (at, ◌>>=◌, xat, e), h)
        | inr e ↦
            let x' : QueueState = record x { is_existed = true; is_configured = true } in
            (
              set_up_sync p d x s,
              rw (at, ◌>>=◌, xat, e),
              queue-InOrder present s st p sync_tx_queue_id num_tx_sync_desc d
                  (record d { txq_state = set d.txq_state sync_tx_queue_id x' })
                  (s.tx_queue_nums + 1) h conf (stopped p)
                  (record {
                    existed = is.existed;
                    queues = length-set d.txq_state sync_tx_queue_id x' ∙ is.queues;
                    configured = is.configured;
                    started = is.started;
                  }),
            )
      ]
