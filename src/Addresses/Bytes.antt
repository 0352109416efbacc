-- ===== src/Addresses/Bytes.antt =====
-- The bytes of a valid address.
use redes1grupal.Addresses.{
  is_dot, between, is_separator, is_digit, split, digit, digits, mac_bytes, ip_bytes, parse_int,
  is_hex, to_bytes, is_valid_ip_address, is_octet, is_valid_mac_address, all_pieces, is_hex_pair,
}
use redes1grupal.Base.{
  refl, zero, ◌%◌, suc, ◌+◌, [], ◌*◌, ◌-◌, All, ◌∷◌, if◌then◌else◌, ◌<◌, length, arith, true, some,
  ◌≡◌, Bool, List, ℕ,
}

-- A piece that is read as a byte.
abbrev IsByte : ℕ → List ℕ → Type 0
IsByte radix p = (v : ℕ) × (parse_int radix p ≡ some v) × (v < 256)

octet-IsByte : (p : List ℕ) → is_octet p ≡ true → IsByte 10 p
unfolding is_octet parse_int digits digit
octet-IsByte [] e = absurd (ground (arith, e))
octet-IsByte (a ∷ []) e = (a - b'0', ground (arith, e), ground (arith, e))
octet-IsByte (a ∷ b ∷ []) e = ((a - b'0') * 10 + (b - b'0'), ground (arith, e), ground (arith, e))
octet-IsByte (a ∷ b ∷ c ∷ []) e =
    (((a - b'0') * 10 + (b - b'0')) * 10 + (c - b'0'), ground (arith, e), ground (arith, e))
octet-IsByte (a ∷ b ∷ c ∷ d ∷ p) e = absurd (ground (arith, e))

hex_value : (c : ℕ) → is_hex c ≡ true → (v : ℕ) × (digit 16 c ≡ some v) × (v < 16)
unfolding digit
hex_value c e =
    let v : ℕ = if is_digit c then c - b'0' else if between b'A' b'F' c then c - 55 else c - 87 in
    (v, ground (arith, e), ground (arith, e))

two_digits :
    (a b v w : ℕ)
    → digit 16 a ≡ some v
    → digit 16 b ≡ some w
    → v < 16
    → w < 16
    → parse_int 16 (a ∷ b ∷ []) ≡ some (v * 16 + w)
unfolding parse_int digits
two_digits a b v w first second v_small w_small = ground (arith, first, second)

hex_pair-IsByte : (p : List ℕ) → is_hex_pair p ≡ true → IsByte 16 p
unfolding is_hex_pair
hex_pair-IsByte [] e = absurd (ground (arith, e))
hex_pair-IsByte (a ∷ []) e = absurd (ground (arith, e))
hex_pair-IsByte (a ∷ b ∷ []) e =
    let (v, first, v_small) = hex_value a (ground (arith, e)) in
    let (w, second, w_small) = hex_value b (ground (arith, e)) in
    (v * 16 + w, two_digits a b v w first second v_small w_small, omega (arith, v_small, w_small))
hex_pair-IsByte (a ∷ b ∷ c ∷ p) e = absurd (ground (arith, e))

to_bytes-IsByte :
    (radix : ℕ) (form : List ℕ → Bool) (n : ℕ) (ps : List (List ℕ))
    → ((p : List ℕ) → form p ≡ true → IsByte radix p)
    → all_pieces form n ps ≡ true
    → (bytes : List ℕ) × (to_bytes radix n ps ≡ some bytes)
      × (length bytes ≡ n)
      × All (λ x. x < 256) bytes
unfolding all_pieces to_bytes
to_bytes-IsByte radix form zero ps h e = ([], refl, refl, tt)
to_bytes-IsByte radix form (suc n) [] h e = absurd (ground (arith, e))
to_bytes-IsByte radix form (suc n) (p ∷ ps) h e =
    let (v, read, small) = h p (ground (arith, e)) in
    let (bytes, rest, size, bs) = to_bytes-IsByte radix form n ps h (ground (arith, e)) in
    (v % 256 ∷ bytes, ground (arith, read, rest), omega (arith, size), (omega arith, bs))

-- Every address that `isValidIPAddress` accepts is read as four bytes, and every one that
-- `isValidMacAddress` accepts as six: no piece is missing, and `parseInt` throws nothing.
pub ip_bytes-valid :
    (text : List ℕ)
    → is_valid_ip_address text ≡ true
    → (bytes : List ℕ) × (ip_bytes text ≡ some bytes)
      × (length bytes ≡ 4)
      × All (λ x. x < 256) bytes
unfolding is_valid_ip_address ip_bytes
ip_bytes-valid text e = to_bytes-IsByte 10 is_octet 4 (split is_dot text) octet-IsByte e

pub mac_bytes-valid :
    (text : List ℕ)
    → is_valid_mac_address text ≡ true
    → (bytes : List ℕ) × (mac_bytes text ≡ some bytes)
      × (length bytes ≡ 6)
      × All (λ x. x < 256) bytes
unfolding is_valid_mac_address mac_bytes
mac_bytes-valid text e =
    to_bytes-IsByte 16 is_hex_pair 6 (split is_separator text) hex_pair-IsByte e
