-- ===== src/Ports/Marks.antt =====
-- Which entries of the array of queues `setup_EAL` writes.
use rtgen_dpdk_next.Base.{
  ℕ, zero, suc, ◌+◌, ◌<◌, ◌≤◌, ◌≡◌, refl, ◌∙◌, true, none, some, List, [], ◌∷◌, arith, length,
  length-set, get_elem?, get_elem?-some, set, ◌>>=◌, inl, inr, dec_lt, ◌↔◌, ◌⊎◌,
}
use rtgen_dpdk_next.Ports.{QueueState, DevState, Device, mark_queues, setup_device}

get_elem?-none : (qs : List QueueState) (i : ℕ) → length qs ≤ i → get_elem? qs i ≡ none
get_elem?-none [] i h = refl
get_elem?-none (x ∷ xs) zero h = absurd (omega arith)
get_elem?-none (x ∷ xs) (suc i) h = get_elem?-none xs i (omega arith)

mark_queues-none :
    (n i : ℕ) (qs : List QueueState) → i ≤ length qs → length qs < i + n → mark_queues n i qs ≡ none
unfolding mark_queues
mark_queues-none zero i qs le h = absurd (omega arith)
mark_queues-none (suc n) i qs le h = elim (dec_lt i (length qs)) [
  | no p ↦ rw (mark_queues, get_elem?-none qs i (omega arith))
  | yes p ↦
      let (x, e) = get_elem?-some qs i p in
      let same = length-set qs i (record x { is_existed = true }) in
      rw (mark_queues, e, ◌>>=◌)
        (mark_queues-none n (i + 1) (set qs i (record x { is_existed = true }))
          (omega (arith, same)) (omega (arith, same)))
]

-- Rounds that stay inside the array mark their entries and no others.
mark_queues_lem :
    (n i : ℕ) (qs : List QueueState)
    → i + n ≤ length qs
    → (qs' : List QueueState) × (mark_queues n i qs ≡ some qs') × (length qs' ≡ length qs)
unfolding mark_queues
mark_queues_lem zero i qs h = (qs, refl, refl)
mark_queues_lem (suc n) i qs h =
    let (x, e) = get_elem?-some qs i (omega arith) in
    let same = length-set qs i (record x { is_existed = true }) in
    let (qs', r, l) =
      mark_queues_lem n (i + 1) (set qs i (record x { is_existed = true })) (omega (arith, same)) in
    (qs', rw (mark_queues, e, ◌>>=◌) r, l ∙ same)

-- For a device whose port has an entry, `setup_EAL` faults if and only if the device has more transmit
-- queues or more receive queues than the entry has room for.
pub setup_device-faults :
    (d : Device) (devs : List DevState) (dev : DevState)
    → get_elem? devs d.port_id ≡ some dev
    → (setup_device d devs ≡ none)
      ↔ ((length dev.txq_state < d.max_tx_queues) ⊎ (length dev.rxq_state < d.max_rx_queues))
unfolding setup_device
setup_device-faults d devs dev e = (forth, back)
  where
    back :
        (length dev.txq_state < d.max_tx_queues) ⊎ (length dev.rxq_state < d.max_rx_queues)
        → setup_device d devs ≡ none
    back h = elim (dec_lt (length dev.txq_state) d.max_tx_queues) [
      | yes p ↦ rw (
        setup_device,
        e,
        ◌>>=◌,
        mark_queues-none d.max_tx_queues 0 dev.txq_state (omega arith) (omega (arith, p)),
      )
      | no p ↦
          let (tx, t, _) = mark_queues_lem d.max_tx_queues 0 dev.txq_state (omega arith) in
          rw (
            setup_device,
            e,
            ◌>>=◌,
            t,
            mark_queues-none d.max_rx_queues 0 dev.rxq_state (omega arith) (omega (arith, h)),
          )
    ]

    forth :
        setup_device d devs ≡ none
        → (length dev.txq_state < d.max_tx_queues) ⊎ (length dev.rxq_state < d.max_rx_queues)
    forth h = elim (dec_lt (length dev.txq_state) d.max_tx_queues) [
      | yes p ↦ inl p
      | no p ↦ elim (dec_lt (length dev.rxq_state) d.max_rx_queues) [
        | yes q ↦ inr q
        | no q ↦
            let (tx, t, _) = mark_queues_lem d.max_tx_queues 0 dev.txq_state (omega arith) in
            let (rx, r, _) = mark_queues_lem d.max_rx_queues 0 dev.rxq_state (omega arith) in
            let made : setup_device d devs
                ≡ some (
                    set devs d.port_id
                      (record dev { is_existed = true; txq_state = tx; rxq_state = rx })) =
              rw (setup_device, e, ◌>>=◌, t, r) in
            absurd (cc)
      ]
    ]
