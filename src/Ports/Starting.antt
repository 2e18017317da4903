-- ===== src/Ports/Starting.antt =====
-- The loops of `main` that start, check and synchronize the ports.
use rtgen_dpdk_next.Base.{
  ℕ, zero, suc, ◌+◌, ◌<◌, ◌≡◌, refl, ap, sym, subst, ◌∙◌, inl, inr, Bool, Bool-cases, true, false,
  not, ◌&&◌, some, [], ◌∷◌, ◌++◌, arith, get_elem?-some, ℕ_discrete, update_self, ◌>>=◌,
}
use rtgen_dpdk_next.Ports.{
  Setup, DevState, max_available_ports, start_ports, check_ports, sync_ports, start_port,
  check_offload_capabilities, enable_synchronization,
}
use rtgen_dpdk_next.Ports.Order.{
  PortStatus, InOrder, accepts, after, extend, update_ne, accepts-append, unborn,
}

module _ (present : ℕ → Bool) where
  -- Below `n` the configured ports run.
  abbrev pub RunBelow : ℕ → (ℕ → PortStatus) → Type 0
  RunBelow n st = (i : ℕ) → i < n → (st i).configured ≡ true → (st i).started ≡ true

  pub start_ports-InOrder :
      (n p : ℕ) (s : Setup) (st : ℕ → PortStatus)
      → p + n ≡ max_available_ports
      → InOrder present s st
      → RunBelow p st
      → (s' : Setup) × (st' : ℕ → PortStatus) × (start_ports n p s ≡ some s')
        × InOrder present s' st'
        × RunBelow max_available_ports st'
  unfolding start_ports accepts
  start_ports-InOrder zero p s st e h run =
      (s, st, refl, h, subst (λ m. RunBelow m st) (omega (arith, e)) run)
  start_ports-InOrder (suc n) p s st e h run =
      let (d, at) = get_elem?-some s.devs p (omega (arith, e, h.ports)) in
      let is = h.dev p d at in
      elim (Bool-cases (d.is_configured && not d.is_running)) [
        | inr idle ↦
            let (s', st', run', h', all) =
              start_ports-InOrder n (p + 1) s st (omega (arith, e)) h (λ i lt conf.
                elim (ℕ_discrete p i) [
                  | yes same ↦
                      let conf' = ap (λ m. (st m).configured) same ∙ conf in
                      subst (λ m. (st m).started ≡ true) same
                        (is.started ∙ runs d (sym is.configured ∙ conf') idle)
                  | no ne ↦ run i (omega (arith, lt, ne)) conf
                ]) in
            (s', st', rw (at, ◌>>=◌, idle) run', h', all)
        | inl busy ↦
            let (conf, stopped) = both d busy in
            let st1 = after (start_port p) st in
            let mine : st1 p ≡ record (st p) { started = true } = update_self st p _ in
            let taken : accepts (start_port p ∷ []) st ≡ some st1 =
              let c = is.configured ∙ conf in let t = is.started ∙ stopped in rw (c, t) in
            let (s', st', run', h', all) =
              start_ports-InOrder n (p + 1) _ st1 (omega (arith, e))
                (extend present s st st1 p (record d { is_running = true }) (start_port p ∷ [])
                  s.tx_queue_nums s.rx_queue_nums h taken
                  (record {
                    existed = is.existed;
                    queues = is.queues;
                    configured = ap (λ x. x.configured) mine ∙ is.configured;
                    started = ap (λ x. x.started) mine;
                  })
                  (λ i ne. update_ne st p i _ ne))
                (λ i lt c. elim (ℕ_discrete p i) [
                  | yes same ↦ subst (λ m. (st1 m).started ≡ true) same (ap (λ x. x.started) mine)
                  | no ne ↦
                      let z = update_ne st p i (record (st p) { started = true }) ne in
                      ap (λ x. x.started) z
                      ∙ run i (omega (arith, lt, ne)) (sym (ap (λ x. x.configured) z) ∙ c)
                ]) in
            (s', st', rw (at, ◌>>=◌, busy) run', h', all)
      ]
    where
      runs :
          (d : DevState)
          → d.is_configured ≡ true
          → (d.is_configured && not d.is_running) ≡ false
          → d.is_running ≡ true
      runs d c e = elim (Bool-cases d.is_running) [
        | inl r ↦ r
        | inr r ↦ absurd (let u = rw (c, r) at e in cc)
      ]

      both :
          (d : DevState)
          → (d.is_configured && not d.is_running) ≡ true
          → (d.is_configured ≡ true) × (d.is_running ≡ false)
      both d e = elim (Bool-cases d.is_configured) [
        | inr c ↦ absurd (let u = rw c at e in cc)
        | inl c ↦ elim (Bool-cases d.is_running) [
          | inl r ↦ absurd (let u = rw (c, r) at e in cc)
          | inr r ↦ (c, r)
        ]
      ]

  pub check_ports-InOrder :
      (n p : ℕ) (s : Setup) (st : ℕ → PortStatus)
      → p + n ≡ max_available_ports
      → InOrder present s st
      → (s' : Setup) × (check_ports n p s ≡ some s') × InOrder present s' st
  unfolding check_ports accepts
  check_ports-InOrder zero p s st e h = (s, refl, h)
  check_ports-InOrder (suc n) p s st e h =
      let (d, at) = get_elem?-some s.devs p (omega (arith, e, h.ports)) in
      elim (Bool-cases d.is_configured) [
        | inr c ↦
            let (s', run, h') = check_ports-InOrder n (p + 1) s st (omega (arith, e)) h in
            (s', rw (at, ◌>>=◌, c) run, h')
        | inl c ↦
            let (s', run, h') =
              check_ports-InOrder n (p + 1)
                (record s { calls = s.calls ++ (check_offload_capabilities p ∷ []) }) st
                (omega (arith, e))
                (record {
                  accepted =
                      accepts-append s.calls (check_offload_capabilities p ∷ []) unborn
                      ∙ ap (λ o. o >>= accepts (check_offload_capabilities p ∷ [])) h.accepted;
                  ports = h.ports;
                  dev = h.dev;
                }) in
            (s', rw (at, ◌>>=◌, c) run, h')
      ]

  pub sync_ports-InOrder :
      (n p : ℕ) (s : Setup) (st : ℕ → PortStatus)
      → p + n ≡ max_available_ports
      → InOrder present s st
      → RunBelow max_available_ports st
      → (s' : Setup) × (sync_ports n p s ≡ some s') × InOrder present s' st
  unfolding sync_ports accepts
  sync_ports-InOrder zero p s st e h run = (s, refl, h)
  sync_ports-InOrder (suc n) p s st e h run =
      let (d, at) = get_elem?-some s.devs p (omega (arith, e, h.ports)) in
      let is = h.dev p d at in
      elim (Bool-cases (d.is_configured && not d.is_synced)) [
        | inr c ↦
            let (s', go, h') = sync_ports-InOrder n (p + 1) s st (omega (arith, e)) h run in
            (s', rw (at, ◌>>=◌, c) go, h')
        | inl c ↦
            let started : (st p).started ≡ true =
              run p (omega (arith, e)) (is.configured ∙ first d c) in
            let (s', go, h') =
              sync_ports-InOrder n (p + 1) _ st (omega (arith, e))
                (extend present s st st p (record d { is_synced = true })
                  (enable_synchronization p ∷ []) s.tx_queue_nums s.rx_queue_nums h (rw started)
                  (record {
                    existed = is.existed;
                    queues = is.queues;
                    configured = is.configured;
                    started = is.started;
                  })
                  (λ i ne. refl))
                run in
            (s', rw (at, ◌>>=◌, c) go, h')
      ]
    where
      first : (d : DevState) → (d.is_configured && not d.is_synced) ≡ true → d.is_configured ≡ true
      first d e = elim (Bool-cases d.is_configured) [
        | inl c ↦ c
        | inr c ↦ absurd (let u = rw c at e in cc)
      ]
