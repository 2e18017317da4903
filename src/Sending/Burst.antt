-- ===== src/Sending/Burst.antt =====
-- `sche_single` of src/engine_dpdk.c: a packet is offered to the device until it takes it or the time
-- for it is over.
use Prim.Native.String.{String}
use rtgen_dpdk_next.Base.{
  ℕ, zero, suc, ◌+◌, ◌<◌, ◌≤◌, ◌≡◌, ◌≢◌, ◌⊎◌, inl, inr, refl, ◌∙◌, Bool, true, false, some, List,
  arith, ◌==◌, ltb, ◌&&◌, sub64, Bool-cases, dec_lt, ◌-◌, subst, sym, ◌>>=◌,
}
use rtgen_dpdk_next.Base.Int.{pos}
use rtgen_dpdk_next.Flow.{InterfaceConfig, fudge_factor}
use rtgen_dpdk_next.Packet.{Mbuf, Dpdk}
use rtgen_dpdk_next.Sending.{tx_retry, sche_single}

zero_right : (n : ℕ) → n + 0 ≡ n
zero_right n = omega arith

zero_left : (n : ℕ) → n ≡ 0 + n
zero_left n = omega arith

-- The loop ends in round `k`, counted from `from`: the rounds before it sent nothing and were in time,
-- and round `k` sent a packet or was past the time.
pub record Stopped (sends clock : ℕ → ℕ) (start from last k : ℕ) : Type 0 where
  pub from_first : from ≤ k
  pub by_last : k ≤ last
  pub earlier : (j : ℕ) → from ≤ j → j < k → (sends j ≡ 0) × (sub64 (clock j) start < fudge_factor)
  pub stops : (sends k ≢ 0) ⊎ (fudge_factor ≤ sub64 (clock k) start)

again : ℕ → ℕ → Bool
again sent spent = sent == 0 && ltb spent fudge_factor

again-true : (sent spent : ℕ) → again sent spent ≡ true → (sent ≡ 0) × (spent < fudge_factor)
unfolding again
again-true sent spent h = ground arith

again-false : (sent spent : ℕ) → again sent spent ≡ false → (sent ≢ 0) ⊎ (fudge_factor ≤ spent)
unfolding again
again-false zero spent h = inr (ground arith)
again-false (suc n) spent h = inl (λ e. absurd (omega arith))

tx_retry-again :
    (sends clock : ℕ → ℕ) (start n i : ℕ)
    → again (sends i) (sub64 (clock i) start) ≡ true
    → tx_retry sends clock start (suc n) i ≡ tx_retry sends clock start n (i + 1)
unfolding tx_retry again
tx_retry-again sends clock start n i h = rw (tx_retry, h) refl

tx_retry-stop :
    (sends clock : ℕ → ℕ) (start n i : ℕ)
    → again (sends i) (sub64 (clock i) start) ≡ false
    → tx_retry sends clock start (suc n) i ≡ some (sends i)
unfolding tx_retry again
tx_retry-stop sends clock start n i h = rw (tx_retry, h) refl

Stopped-later :
    (sends clock : ℕ → ℕ) (start i d k : ℕ)
    → (sends i ≡ 0) × (sub64 (clock i) start < fudge_factor)
    → 0 < d
    → Stopped sends clock start (i + 1) (i + 1 + (d - 1)) k
    → Stopped sends clock start i (i + d) k
Stopped-later sends clock start i d k here p s = record {
  from_first = omega (arith, s.from_first);
  by_last = omega (arith, s.by_last);
  earlier = λ j a b. elim (dec_lt i j) [
    | yes q ↦ s.earlier j (omega arith) b
    | no q ↦
        let e : i ≡ j = omega arith in
        subst (λ n. (sends n ≡ 0) × (sub64 (clock n) start < fudge_factor)) e here
  ];
  stops = s.stops;
}

-- Where the clock reading of round `i + d` is past the time, the loop ends in that round or before.
pub tx_retry-Stopped :
    (sends clock : ℕ → ℕ) (start fuel i d : ℕ)
    → fudge_factor ≤ sub64 (clock (i + d)) start
    → d < fuel
    → (k : ℕ) × (tx_retry sends clock start fuel i ≡ some (sends k))
      × Stopped sends clock start i (i + d) k
tx_retry-Stopped sends clock start zero i d over enough = absurd (omega arith)
tx_retry-Stopped sends clock start (suc n) i d over enough =
    elim (Bool-cases (again (sends i) (sub64 (clock i) start))) [
      | inl h ↦
          let here = again-true (sends i) (sub64 (clock i) start) h in
          let p : 0 < d = later d over here.1 in
          let e : i + d ≡ i + 1 + (d - 1) = omega arith in
          let over' = subst (λ m. fudge_factor ≤ sub64 (clock m) start) e over in
          let (k, r, s) =
            tx_retry-Stopped sends clock start n (i + 1) (d - 1) over' (omega arith) in
          (
            k,
            tx_retry-again sends clock start n i h ∙ r,
            Stopped-later sends clock start i d k here p s,
          )
      | inr h ↦ (
        i,
        tx_retry-stop sends clock start n i h,
        record {
          from_first = omega arith;
          by_last = omega arith;
          earlier = λ j a b. absurd (omega arith);
          stops = again-false (sends i) (sub64 (clock i) start) h;
        },
      )
    ]
  where
    later :
        (d : ℕ)
        → fudge_factor ≤ sub64 (clock (i + d)) start
        → sub64 (clock i) start < fudge_factor
        → 0 < d
    later zero o h =
        absurd
          (omega (arith, subst (λ m. fudge_factor ≤ sub64 (clock m) start) (zero_right i) o, h))
    later (suc d) o h = omega arith

-- A prepared packet, with no new message, as `tx_loop` sends it: if the clock passes the time in round
-- `d`, the loop ends in that round or before, either with a packet sent or past the time, and each
-- round before it sent nothing and was in time; the packet keeps its bytes and has the launch time.
pub sche_single-Stopped :
    (l : Dpdk) (is_default : Bool) (dev_mac : String) (m : Mbuf) (net : InterfaceConfig)
    (txtime : ℕ) (msg : List ℕ) (sends clock : ℕ → ℕ) (start fuel d : ℕ)
    → 0 < m.pkt_len
    → fudge_factor ≤ sub64 (clock d) start
    → d < fuel
    → (k : ℕ) × (sche_single l is_default dev_mac m net txtime msg (pos 0) sends clock start fuel
        ≡ some (sends k, record m { txtime = txtime }, net))
      × Stopped sends clock start 0 d k
unfolding sche_single
sche_single-Stopped l is_default dev_mac m net txtime msg sends clock start fuel d full over
      enough =
    let over' = subst (λ n. fudge_factor ≤ sub64 (clock n) start) (zero_left d) over in
    let (k, e, s) = tx_retry-Stopped sends clock start fuel 0 d over' enough in
    let has : (m.pkt_len == 0) ≡ false = ground arith in
    (
      k,
      rw (has, ◌>>=◌, e, ◌>>=◌) refl,
      subst (λ n. Stopped sends clock start 0 n k) (sym (zero_left d)) s,
    )
