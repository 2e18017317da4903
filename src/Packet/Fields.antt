-- ===== src/Packet/Fields.antt =====
-- The fields that the code packs from bits: the tag of a VLAN in src/header_dpdk.c, and the address that
-- `ip_addr_from_string` of src/utility.c gives.
use Prim.Native.Nat.{bit_or}
use Prim.Native.String.{String}
use rtgen_dpdk_next.Base.{ℕ, ◌+◌, ◌*◌, ◌/◌, ◌%◌, ◌^◌, ◌<◌, ◌≡◌, ap, ◌∙◌, arith}
use rtgen_dpdk_next.Base.Bits.{bit_or-disjoint, bit_or-disjoint_high}
use rtgen_dpdk_next.Packet.{Dpdk, vlan_tci_of, ip_addr_from_string}

vlan_tci_of-sum : (id prio : ℕ) → id < 8192 → prio < 8 → vlan_tci_of id prio ≡ id + prio * 8192
unfolding vlan_tci_of
vlan_tci_of-sum id prio h k = omega (arith, bit_or-disjoint 13 id prio h)

-- A tag of an identifier of 12 bits and a priority of 3 bits is read back: the identifier from the low
-- 12 bits, the priority from the top 3.
pub vlan_tci_of-decode :
    (id prio : ℕ)
    → id < 4096
    → prio < 8
    → (vlan_tci_of id prio % 4096 ≡ id) × (vlan_tci_of id prio / 8192 ≡ prio)
vlan_tci_of-decode id prio h k =
    let e = vlan_tci_of-sum id prio (omega arith) k in (omega (arith, e), omega (arith, e))

sum_of_bytes :
    (a b c d : ℕ)
    → b < 256
    → c < 256
    → d < 256
    → bit_or (bit_or (bit_or (a * 2 ^ 24) (b * 2 ^ 16)) (c * 2 ^ 8)) d
      ≡ ((a * 256 + b) * 256 + c) * 256 + d
sum_of_bytes a b c d hb hc hd =
    let e : a * 2 ^ 24 + b * 2 ^ 16 ≡ (a * 256 + b) * 2 ^ 16 = omega arith in
    let e' : (a * 256 + b) * 2 ^ 16 + c * 2 ^ 8 ≡ ((a * 256 + b) * 256 + c) * 2 ^ 8 = omega arith in
    ap (λ x. bit_or (bit_or x (c * 2 ^ 8)) d)
      (bit_or-disjoint_high 24 a (b * 2 ^ 16) (omega arith) ∙ e)
    ∙ ap (λ x. bit_or x d) (bit_or-disjoint_high 16 (a * 256 + b) (c * 2 ^ 8) (omega arith) ∙ e')
    ∙ bit_or-disjoint_high 8 ((a * 256 + b) * 256 + c) d (omega arith)

-- The address of four bytes has them as its digits to base 256, the first the highest.
pub ip_addr_from_string-bytes :
    (l : Dpdk) (s : String) (a b c d : ℕ)
    → l.read_ip s ≡ (a, b, c, d)
    → a < 256
    → b < 256
    → c < 256
    → d < 256
    → (ip_addr_from_string l s / 256 ^ 3 ≡ a)
      × (ip_addr_from_string l s / 256 ^ 2 % 256 ≡ b)
      × (ip_addr_from_string l s / 256 % 256 ≡ c)
      × (ip_addr_from_string l s % 256 ≡ d)
unfolding ip_addr_from_string
ip_addr_from_string-bytes l s a b c d e ha hb hc hd =
    let value : ip_addr_from_string l s ≡ ((a * 256 + b) * 256 + c) * 256 + d =
      rw (e) (omega (arith, sum_of_bytes a b c d hb hc hd)) in
    (omega (arith, value), omega (arith, value), omega (arith, value), omega (arith, value))
