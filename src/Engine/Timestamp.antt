-- ===== src/Engine/Timestamp.antt =====
-- When a hardware timestamp is found.
use rtgen_dpdk_next.Base.{
  ℕ, zero, suc, ◌+◌, ◌<◌, ◌≡◌, refl, ◌⊎◌, inl, inr, Option, Option-cases, none, some, arith,
  ne→==-false, dec_lt, ap, subst, ◌∙◌,
}
use rtgen_dpdk_next.Base.Int.{pos, negsuc}
use rtgen_dpdk_next.Engine.{
  HwTimespec, Reads, read_until, hw_timestamp_try_times, ns_of, timestamp_of,
  get_tx_hardware_timestamp,
}

-- The i-th read is the first that succeeds, and gives `ts`.
pub record IsFirst (reads : Reads) (i : ℕ) (ts : HwTimespec) : Type 0 where
  pub found : reads i ≡ some ts
  pub first : (j : ℕ) → j < i → reads j ≡ none

read_until-some :
    (reads : Reads) (n count : ℕ) (ts : HwTimespec)
    → reads count ≡ some ts
    → read_until reads (suc n) count ≡ (count, some ts)
unfolding read_until
read_until-some reads n count ts e = rw (read_until, e)

read_until-none :
    (reads : Reads) (n count : ℕ)
    → reads count ≡ none
    → read_until reads (suc n) count ≡ read_until reads n (count + 1)
unfolding read_until
read_until-none reads n count e = rw (read_until, e)

read_until_zero : (reads : Reads) (count : ℕ) → read_until reads 0 count ≡ (count, reads count)
unfolding read_until
read_until_zero reads count = refl

read_until-cases :
    (reads : Reads) (n count : ℕ)
    → ((j : ℕ) → j < count → reads j ≡ none)
    → ((i : ℕ) × (ts : HwTimespec) × (i < count + n)
        × IsFirst reads i ts
        × (read_until reads n count ≡ (i, some ts)))
      ⊎ (((j : ℕ) → j < count + n → reads j ≡ none)
          × ((r : Option HwTimespec) × (read_until reads n count ≡ (count + n, r))))
read_until-cases reads zero count before = inr (
  λ j h. before j (omega arith),
  (reads count, read_until_zero reads count ∙ ap (λ c. (c, reads count)) (omega arith)),
)
read_until-cases reads (suc n) count before = elim (Option-cases (reads count)) [
  | inr (ts, e) ↦ inl (
    count,
    ts,
    omega arith,
    record { found = e; first = before },
    read_until-some reads n count ts e,
  )
  | inl e ↦ elim (read_until-cases reads n (count + 1) (next e)) [
    | inl (i, ts, h, f, q) ↦ inl (i, ts, omega arith, f, read_until-none reads n count e ∙ q)
    | inr (all, (r, q)) ↦ inr (
      λ j h. all j (omega arith),
      (r, read_until-none reads n count e ∙ q ∙ ap (λ c. (c, r)) (omega arith)),
    )
  ]
]
  where
    next : reads count ≡ none → (j : ℕ) → j < count + 1 → reads j ≡ none
    next e j h = elim (dec_lt j count) [
      | yes p ↦ before j p
      | no p ↦ let q : count ≡ j = omega arith in subst (λ k. reads k ≡ none) q e
    ]

-- Of the reads of a transmit timestamp, the first 10000 count: if the i-th of them is the first that
-- succeeds, 0 is returned with its time in ns, and if all fail, -1 with the time 0, whatever the next
-- read gives.
pub get_tx_hardware_timestamp-cases :
    (reads : Reads)
    → ((i : ℕ) × (ts : HwTimespec) × (i < hw_timestamp_try_times)
        × IsFirst reads i ts
        × (get_tx_hardware_timestamp reads ≡ some (pos 0, ns_of ts)))
      ⊎ (((j : ℕ) → j < hw_timestamp_try_times → reads j ≡ none)
          × (get_tx_hardware_timestamp reads ≡ some (negsuc 0, 0)))
unfolding get_tx_hardware_timestamp
get_tx_hardware_timestamp-cases reads =
    elim (read_until-cases reads hw_timestamp_try_times 0 (λ j h. absurd (omega (arith, h)))) [
      | inl (i, ts, h, f, q) ↦
          inl (
            i,
            ts,
            h,
            f,
            ap timestamp_of q ∙ rw (ne→==-false i hw_timestamp_try_times (omega arith)),
          )
      | inr (all, (r, q)) ↦ inr (all, ap timestamp_of q)
    ]
