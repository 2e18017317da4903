-- ===== src/Ports/Whole.antt =====
-- The whole set-up of the ports: it does not fault, and DPDK takes its calls.
use rtgen_dpdk_next.Base.{
  ℕ, ◌-◌, ◌<◌, ◌≡◌, refl, ◌∙◌, inl, inr, Bool, Bool-cases, false, not, ◌&&◌, some, List, ◌∷◌, arith,
  All, length, get_elem?, ◌==◌, ne→==-false, ◌>>=◌,
}
use rtgen_dpdk_next.Flow.{Flow, FlowState}
use rtgen_dpdk_next.Flow.Table.{Represents, load_flow-Represents, for_flows-fold_flows}
use rtgen_dpdk_next.Ports.{Setup, max_available_ports, index_of, configure_flow, configure_flows}
use rtgen_dpdk_next.Ports.SetUp.{set_up, last_port}
use rtgen_dpdk_next.Ports.Order.{PortStatus, InOrder, unborn}
use rtgen_dpdk_next.Ports.Configuring.{UsesPort, fold-InOrder, configure_sync_queue-InOrder}
use rtgen_dpdk_next.Ports.Starting.{start_ports-InOrder, check_ports-InOrder, sync_ports-InOrder}

last_port-eq :
    (state : FlowState) (f : Flow) (fs : List Flow) (p : ℕ)
    → Represents state (f ∷ fs)
    → (get_elem? (f ∷ fs) (length fs) >>= λ g. g.net >>= λ net. index_of net.port) ≡ some p
    → last_port state ≡ some p
last_port-eq state f fs p r e =
    let n : state.num_flows - 1 ≡ length fs = omega (arith, r.count) in
    let some_flow : (state.num_flows == 0) ≡ false =
      ne→==-false state.num_flows 0 (omega (arith, r.count)) in
    let at = load_flow-Represents state (f ∷ fs) (length fs) r (omega arith) in
    rw (some_flow, n, at) e

-- Let the table hold at least one flow, let each flow's port exist and have the flow's queue, and let no
-- port be configured or running yet and no call be made. Then the set-up in `main` does not fault, DPDK takes
-- its calls in the order in which they are made, so that each port is configured while it is
-- stopped, the queues of a port are set up between its configuration and its start, and only running
-- ports are synchronized; and a configured port runs in the end.
pub set_up-InOrder :
    (present : ℕ → Bool) (state : FlowState) (f : Flow) (fs : List Flow) (s : Setup) (port : ℕ)
    → Represents state (f ∷ fs)
    → All (UsesPort present) (f ∷ fs)
    → InOrder present s unborn
    → port < max_available_ports
    → (s' : Setup) × (st : ℕ → PortStatus) × (set_up state s ≡ some s')
      × InOrder present s' st
      × (((st port).configured && not (st port).started) ≡ false)
unfolding set_up configure_flows
set_up-InOrder present state f fs s port r u h pl =
    let (s1, st1, p, e1, h1, stopped, last, lt, conf) =
      fold-InOrder present f fs 0 s unborn u h (λ i. refl) in
    let (s2, e2, h2) = configure_sync_queue-InOrder present p s1 st1 h1 stopped lt conf in
    let (s3, st3, e3, h3, run) =
      start_ports-InOrder present max_available_ports 0 s2 st1 refl h2
        (λ i lt. absurd (omega (arith, lt))) in
    let (s4, e4, h4) = check_ports-InOrder present max_available_ports 0 s3 st3 refl h3 in
    let (s5, e5, h5) = sync_ports-InOrder present max_available_ports 0 s4 st3 refl h4 run in
    let e0 : configure_flows state s ≡ some s1 =
      for_flows-fold_flows state (λ i f s. do net ← f.net; configure_flow net s) (f ∷ fs) s r
      ∙ e1 in
    (
      s5,
      st3,
      rw (e0, last_port-eq state f fs p r last, e2, e3, e4) e5,
      h5,
      elim (Bool-cases (st3 port).configured) [
        | inl c ↦ let t = run port pl c in rw (c, t)
        | inr c ↦ rw c
      ],
    )
