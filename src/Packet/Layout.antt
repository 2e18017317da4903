-- ===== src/Packet/Layout.antt =====
-- Where the pieces of a packet stand: the documented behaviour of `rte_pktmbuf_append`, and what one
-- `push` and one write to a header do to a packet whose pieces stand one behind the other.
use rtgen_dpdk_next.Base.{
  ℕ, ◌+◌, ◌^◌, ◌<◌, ◌≤◌, ◌≡◌, refl, ap, sym, ◌∙◌, some, List, [], ◌∷◌, ◌++◌, arith, length, All,
}
use rtgen_dpdk_next.Packet.{Piece, Mbuf, Dpdk, push, write_piece, rewrite_piece}

-- The bytes of the headers, as the structs of DPDK have them, and those of the message.
abbrev pub size_of : Piece → ℕ
size_of (Piece.ether h) = 14
size_of (Piece.vlan h) = 4
size_of (Piece.ipv4 h) = 20
size_of (Piece.udp h) = 8
size_of (Piece.payload msg) = length msg

-- Pieces one behind the other, the first at offset `at`.
abbrev pub place : ℕ → List Piece → List (ℕ × Piece)
place at [] = []
place at (x ∷ xs) = (at, x) ∷ place (at + size_of x) xs

abbrev pub total : List Piece → ℕ
total [] = 0
total (x ∷ xs) = size_of x + total xs

pub total-append : (xs ys : List Piece) → total (xs ++ ys) ≡ total xs + total ys
total-append [] ys = omega arith
total-append (x ∷ xs) ys = omega (arith, total-append xs ys)

place-append :
    (at : ℕ) (xs ys : List Piece) → place at (xs ++ ys) ≡ place at xs ++ place (at + total xs) ys
place-append at [] ys = ap (λ n. place n ys) (omega arith)
place-append at (x ∷ xs) ys =
    ap (λ l. (at, x) ∷ l)
      (place-append (at + size_of x) xs ys
        ∙ ap (λ n. place (at + size_of x) xs ++ place n ys) (omega arith))

-- `rte_pktmbuf_append` of DPDK: with room for `n` bytes behind the data, it gives the place behind them
-- and counts the bytes in both lengths. The sizes are those of the structs,
-- and the conversions to big-endian order have those from it as their inverses.
pub record AppendLaws (l : Dpdk) (room : ℕ) : Type 0 where
  pub fits :
      (m : Mbuf) (n : ℕ)
      → m.data_len + n ≤ room
      → l.append m n
        ≡ (some m.data_len, record m { data_len = m.data_len + n; pkt_len = m.pkt_len + n })
  pub ether_bytes : l.ether_size ≡ 14
  pub vlan_bytes : l.vlan_size ≡ 4
  pub ipv4_bytes : l.ipv4_size ≡ 20
  pub udp_bytes : l.udp_size ≡ 8
  pub order_16 : (n : ℕ) → n < 2 ^ 16 → l.be_to_cpu_16 (l.cpu_to_be_16 n) ≡ n
  pub order_32 : (n : ℕ) → n < 2 ^ 32 → l.be_to_cpu_32 (l.cpu_to_be_32 n) ≡ n

-- The packet's data are the pieces `ps`, one behind the other from the start.
pub record Holds (m : Mbuf) (ps : List Piece) : Type 0 where
  pub at_offsets : m.pieces ≡ place 0 ps
  pub filled : m.data_len ≡ total ps

pub fresh-Holds : (m : Mbuf) → m.data_len ≡ 0 → m.pieces ≡ [] → Holds m []
fresh-Holds m h k = record { at_offsets = k; filled = h }

module _ (l : Dpdk) (room : ℕ) (laws : AppendLaws l room) where
  pub push-Holds :
      (m : Mbuf) (ps : List Piece) (n : ℕ) (x : Piece)
      → Holds m ps
      → n ≡ size_of x
      → total ps + n ≤ room
      → (m' : Mbuf) × (push l n x m ≡ some (total ps, m'))
        × Holds m' (ps ++ (x ∷ []))
        × (m'.pkt_len ≡ m.pkt_len + n)
  push-Holds m ps n x h e fit =
      let grown : Mbuf = record m { data_len = m.data_len + n; pkt_len = m.pkt_len + n } in
      let m' : Mbuf = record grown { pieces = m.pieces ++ ((m.data_len, x) ∷ []) } in
      (
        m',
        ap (write_piece x) (laws.fits m n (omega (arith, h.filled)))
            ∙ ap (λ at. some (at, m')) h.filled,
        record {
          at_offsets =
              ap (λ p. p ++ ((m.data_len, x) ∷ [])) h.at_offsets
              ∙ ap (λ at. place 0 ps ++ ((at, x) ∷ [])) (h.filled ∙ omega arith)
              ∙ sym (place-append 0 ps (x ∷ []));
          filled = omega (arith, h.filled, e, total-append ps (x ∷ []));
        },
        refl,
      )

-- A write to what stands behind leaves the pieces before it.
rewrite_piece-later :
    (at from : ℕ) (y : Piece) (xs : List Piece)
    → at < from
    → rewrite_piece at y (place from xs) ≡ place from xs
unfolding rewrite_piece
rewrite_piece-later at from y [] h = refl
rewrite_piece-later at from y (x ∷ xs) h =
    ground (arith, rewrite_piece-later at (from + size_of x) y xs (omega arith))

rewrite_piece-place_from :
    (from at : ℕ) (ps : List Piece) (x y : Piece) (qs : List Piece)
    → at ≡ from + total ps
    → All (λ p. 0 < size_of p) (ps ++ (x ∷ qs))
    → size_of x ≡ size_of y
    → rewrite_piece at y (place from (ps ++ (x ∷ qs))) ≡ place from (ps ++ (y ∷ qs))
unfolding rewrite_piece
rewrite_piece-place_from from at [] x y qs e h same =
    let later = rewrite_piece-later at (from + size_of x) y qs (omega (arith, h.0)) in
    let here : from ≡ at = omega arith in
    let to : place (from + size_of x) qs ≡ place (from + size_of y) qs =
      ap (λ n. place (from + n) qs) same in
    ground (arith, later, here, to)
rewrite_piece-place_from from at (p ∷ ps) x y qs e h same =
    let rest = rewrite_piece-place_from (from + size_of p) at ps x y qs (omega arith) h.1 same in
    let pos = h.0 in ground (arith, rest, pos)

-- A write to one header changes that header alone.
pub rewrite_piece-place :
    (ps : List Piece) (x y : Piece) (qs : List Piece)
    → All (λ p. 0 < size_of p) (ps ++ (x ∷ qs))
    → size_of x ≡ size_of y
    → rewrite_piece (total ps) y (place 0 (ps ++ (x ∷ qs))) ≡ place 0 (ps ++ (y ∷ qs))
rewrite_piece-place ps x y qs h same =
    rewrite_piece-place_from 0 (total ps) ps x y qs (omega arith) h same
