-- ===== src/Addresses/Dotted.antt =====
-- An address written in dotted decimal.
use redes1grupal.Addresses.{
  to_bytes, digit, all_pieces, is_dot, digits, ip_bytes, is_valid_ip_address, split, parse_int,
  is_octet,
}
use redes1grupal.Base.{
  ◌%◌, ◌/◌, refl, [], ◌+◌, false, ltb, ◌∷◌, some, true, arith, All, if◌then◌else◌, ◌≡◌, ◌++◌, Bool,
  ◌<◌, List, ℕ,
}

-- No zero in front.
unfoldable pub decimal : ℕ → List ℕ
decimal v =
    if ltb v 10
    then (b'0' + v) ∷ []
    else if ltb v 100
    then (b'0' + v / 10) ∷ (b'0' + v % 10) ∷ []
    else (b'0' + v / 100) ∷ (b'0' + v / 10 % 10) ∷ (b'0' + v % 10) ∷ []

abbrev pub dotted : ℕ → ℕ → ℕ → ℕ → List ℕ
dotted a b c d = decimal a ++ (b'.' ∷ (decimal b ++ (b'.' ∷ (decimal c ++ (b'.' ∷ decimal d)))))

-- A piece has no separator in it.
abbrev IsPiece : (ℕ → Bool) → List ℕ → Type 0
IsPiece sep xs = All (λ c. sep c ≡ false) xs

split-last : (sep : ℕ → Bool) (xs : List ℕ) → IsPiece sep xs → split sep xs ≡ xs ∷ []
unfolding split
split-last sep [] h = refl
split-last sep (x ∷ xs) (first, h) = ground (arith, first, split-last sep xs h)

split-piece :
    (sep : ℕ → Bool) (xs : List ℕ) (c : ℕ) (rest : List ℕ)
    → IsPiece sep xs
    → sep c ≡ true
    → split sep (xs ++ (c ∷ rest)) ≡ xs ∷ split sep rest
unfolding split
split-piece sep [] c rest h is_sep = ground (arith, is_sep)
split-piece sep (x ∷ xs) c rest (first, h) is_sep =
    ground (arith, first, split-piece sep xs c rest h is_sep)

decimal-IsPiece : (v : ℕ) → v < 256 → IsPiece is_dot (decimal v)
unfolding decimal
decimal-IsPiece v h = ground arith

is_octet-decimal : (v : ℕ) → v < 256 → is_octet (decimal v) ≡ true
unfolding is_octet decimal
is_octet-decimal v h = ground arith

parse_int-decimal : (v : ℕ) → v < 256 → parse_int 10 (decimal v) ≡ some v
unfolding parse_int digits digit decimal
parse_int-decimal v h = ground arith

split-dotted :
    (a b c d : ℕ)
    → a < 256
    → b < 256
    → c < 256
    → d < 256
    → split is_dot (dotted a b c d) ≡ decimal a ∷ decimal b ∷ decimal c ∷ decimal d ∷ []
split-dotted a b c d ha hb hc hd =
    rw
      (
        split-piece is_dot (decimal a) b'.'
            (decimal b ++ (b'.' ∷ (decimal c ++ (b'.' ∷ decimal d)))) (decimal-IsPiece a ha) refl,
        split-piece is_dot (decimal b) b'.' (decimal c ++ (b'.' ∷ decimal d)) (decimal-IsPiece b hb)
            refl,
        split-piece is_dot (decimal c) b'.' (decimal d) (decimal-IsPiece c hc) refl,
        split-last is_dot (decimal d) (decimal-IsPiece d hd),
      )
      refl

-- An address in dotted decimal is valid, and is read as its four bytes.
pub ip_bytes-dotted :
    (a b c d : ℕ)
    → a < 256
    → b < 256
    → c < 256
    → d < 256
    → (is_valid_ip_address (dotted a b c d) ≡ true)
      × (ip_bytes (dotted a b c d) ≡ some (a ∷ b ∷ c ∷ d ∷ []))
unfolding is_valid_ip_address ip_bytes all_pieces to_bytes
ip_bytes-dotted a b c d ha hb hc hd =
    let parts = split-dotted a b c d ha hb hc hd in
    (
      rw
          (
            parts,
            is_octet-decimal a ha,
            is_octet-decimal b hb,
            is_octet-decimal c hc,
            is_octet-decimal d hd,
          )
          refl,
      rw
          (
            parts,
            parse_int-decimal a ha,
            parse_int-decimal b hb,
            parse_int-decimal c hc,
            parse_int-decimal d hd,
          )
          (ground arith),
    )
