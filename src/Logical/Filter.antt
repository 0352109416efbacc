-- ===== src/Logical/Filter.antt =====
-- Which packets the filter lets through.
use redes1grupal.Base.{
  ℕ, zero, suc, ◌≡◌, ◌≢◌, ◌↔◌, ◌⊎◌, refl, arith, true, false, some, List, [], ◌∷◌, ◌==◌, length,
  Bool-cases, inl, inr,
}
use redes1grupal.Logical.{differs, mac_addresses_filter, mac_len, broadcast}
use redes1grupal.SelfPacket.{SelfPacket}

-- Two arrays of `n` bytes differ in a byte or are the same.
differs-cases :
    (n : ℕ) (xs ys : List ℕ)
    → length xs ≡ n
    → length ys ≡ n
    → ((differs n xs ys ≡ some true) × (xs ≢ ys)) ⊎ ((differs n xs ys ≡ some false) × (xs ≡ ys))
unfolding differs
differs-cases zero [] [] h k = inr (refl, refl)
differs-cases zero [] (y ∷ ys) h k = absurd (omega arith)
differs-cases zero (x ∷ xs) ys h k = absurd (omega arith)
differs-cases (suc n) [] ys h k = absurd (omega arith)
differs-cases (suc n) (x ∷ xs) [] h k = absurd (omega arith)
differs-cases (suc n) (x ∷ xs) (y ∷ ys) h k =
    elim (differs-cases n xs ys (omega arith) (omega arith)) [
      | inl (e, ne) ↦ inl (ground (arith, e), λ same. ne (ground (arith, same)))
      | inr (e, same) ↦ elim (Bool-cases (x == y)) [
        | inl eq ↦ inr (ground (arith, e, eq), ground (arith, eq, same))
        | inr neq ↦ inl (ground (arith, e, neq), λ all. ground (arith, neq, all))
      ]
    ]

-- A received packet with two addresses of six bytes is let through exactly when it was not sent from
-- our address, and was sent to our address or to the broadcast address.
pub mac_addresses_filter_iff :
    (src_mac src dst : List ℕ) (p : SelfPacket)
    → length src_mac ≡ mac_len
    → length src ≡ mac_len
    → length dst ≡ mac_len
    → p.mac_src ≡ some src
    → p.mac_dst ≡ some dst
    → (mac_addresses_filter src_mac p ≡ some true)
      ↔ ((src ≢ src_mac) × ((dst ≡ src_mac) ⊎ (dst ≡ broadcast)))
unfolding mac_addresses_filter
mac_addresses_filter_iff src_mac src dst p own from to src_set dst_set = ground (
  arith,
  differs-cases mac_len src src_mac from own,
  differs-cases mac_len dst src_mac to own,
  differs-cases mac_len dst broadcast to refl,
)
