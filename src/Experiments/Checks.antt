-- ===== src/Experiments/Checks.antt =====
-- How `main` of the two files ends, and the results that `configure_port` puts together.
use Prim.Native.Nat.{bit_or}
use Prim.Native.String.{String}
use rtgen_dpdk_next.Base.{
  ℕ, zero, suc, ◌+◌, ◌≡◌, ◌↔◌, Bool, Bool-cases, inl, inr, not, List, [], ◌∷◌, All, ◌==◌,
  if◌then◌else◌, add64,
}
use rtgen_dpdk_next.Base.Bits.{bit_or-zero}
use rtgen_dpdk_next.Experiments.Multicore as Multicore
use rtgen_dpdk_next.Experiments.Multicore.{PortCall, setup_queues, configure_port}

-- The setups of the transmit queues from `i` on.
pub queue_calls : (rounds i : ℕ) → List PortCall
queue_calls zero i = []
queue_calls (suc n) i = PortCall.tx_queue_setup i 8 ∷ queue_calls n (i + 1)

pub port_calls : (num_queues : ℕ) → List PortCall
port_calls n =
    PortCall.dev_configure 1 n ∷ PortCall.rx_queue_setup 0 8 ∷ PortCall.dev_start ∷ queue_calls n 0

setup_queues-zero :
    (returns : PortCall → ℕ) (n i ret : ℕ)
    → (setup_queues returns n i ret ≡ 0) ↔ ((ret ≡ 0) × All (λ c. returns c ≡ 0) (queue_calls n i))
unfolding setup_queues queue_calls
setup_queues-zero returns zero i ret = (λ e. (e, tt), λ h. h.0)
setup_queues-zero returns (suc n) i ret =
    let rest =
      setup_queues-zero returns n (i + 1) (bit_or ret (returns (PortCall.tx_queue_setup i 8))) in
    (
      λ e.
          let (z, all) = rest.0 e in
          let (a, b) = bit_or-zero ret (returns (PortCall.tx_queue_setup i 8)) z in (a, (b, all)),
      λ h. let (a, (b, all)) = h in rest.1 (rw (a, b), all),
    )

-- `configure_port` gives 0 exactly if all its calls gave 0: the errors of the earlier calls are not
-- lost behind the later ones.
pub configure_port-zero :
    (returns : PortCall → ℕ) (num_queues : ℕ)
    → (configure_port returns num_queues ≡ 0) ↔ All (λ c. returns c ≡ 0) (port_calls num_queues)
unfolding configure_port port_calls
configure_port-zero returns n =
    let start = returns (PortCall.dev_configure 1 n) in
    let rx = returns (PortCall.rx_queue_setup 0 8) in
    let last = returns PortCall.dev_start in
    let queues = setup_queues-zero returns n 0 (bit_or start rx) in
    (
      λ e.
          let (a, b) = bit_or-zero (setup_queues returns n 0 (bit_or start rx)) last e in
          let (z, all) = queues.0 a in let (c, d) = bit_or-zero start rx z in (c, (d, (b, all))),
      λ h.
          let (c, (d, (b, all))) = h in
          let z : bit_or start rx ≡ 0 = rw (c, d) in let q = queues.1 (z, all) in rw (q, b),
    )

-- The message of the first check that fails.
abbrev pub first_failure {ℓ} : {A : Type ℓ} → List (Bool × String) → (String → A) → A → A
first_failure [] exit a = a
first_failure ((ok, message) ∷ checks) exit a =
    let rest = first_failure checks exit a in if ok then rest else exit message

-- The checks of `main` in .legacy/dac_exp_multicore.c, with their messages.
abbrev pub multicore_checks : Multicore.Answers → List (Bool × String)
multicore_checks a =
    (not a.eal_init_negative, "Error with EAL initialization\n")
    ∷ (a.has_mbuf_pool, "Cannot create mbuf pool\n")
    ∷ (configure_port a.port_call 2 == 0, "Port configuration failed\n")
    ∷ (a.can_send_on_timestamp, "Offload capabilities check failed\n")
    ∷ (a.dev_info_get == 0, "Cannot get device info\n")
    ∷ (a.timestamp_register == 0, "Timestamping registration failed\n")
    ∷ (a.timesync_enable == 0, "Hardware timesync enable failed\n")
    ∷ (a.remote_launch == 0, "Cannot launch tx_loop on lcore 0\n")
    ∷ []

-- `main` of .legacy/dac_exp_multicore.c ends with the message of the first of its checks that fails, and
-- if none does it launches the loop for queue 0 on core 9, two seconds after the clock.
pub main-first_failure :
    (a : Multicore.Answers)
    → Multicore.main a
      ≡ first_failure
          (multicore_checks a)
          Multicore.Ending.exited
          (Multicore.Ending.launched 0 (add64 a.clock 2000000000) 9)
unfolding Multicore.main
main-first_failure a = elim (Bool-cases a.eal_init_negative) [
  | inl e ↦ rw e
  | inr e ↦ elim (Bool-cases a.has_mbuf_pool) [
    | inr e1 ↦ rw (e, e1)
    | inl e1 ↦ elim (Bool-cases (configure_port a.port_call 2 == 0)) [
      | inr e2 ↦ rw (e, e1, e2)
      | inl e2 ↦ elim (Bool-cases a.can_send_on_timestamp) [
        | inr e3 ↦ rw (e, e1, e2, e3)
        | inl e3 ↦ elim (Bool-cases (a.dev_info_get == 0)) [
          | inr e4 ↦ rw (e, e1, e2, e3, e4)
          | inl e4 ↦ elim (Bool-cases (a.timestamp_register == 0)) [
            | inr e5 ↦ rw (e, e1, e2, e3, e4, e5)
            | inl e5 ↦ elim (Bool-cases (a.timesync_enable == 0)) [
              | inr e6 ↦ rw (e, e1, e2, e3, e4, e5, e6)
              | inl e6 ↦ elim (Bool-cases (a.remote_launch == 0)) [
                | inr e7 ↦ rw (e, e1, e2, e3, e4, e5, e6, e7)
                | inl e7 ↦ rw (e, e1, e2, e3, e4, e5, e6, e7)
              ]
            ]
          ]
        ]
      ]
    ]
  ]
]
