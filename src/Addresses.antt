-- ===== src/Addresses.antt =====
-- The addresses that the user types: `isValidIPAddress` of src/r0p3/layers/Network.java and
-- src/r0p3/protocols/Arp.java, `isValidMacAddress` of src/r0p3/layers/Logical.java, and how these
-- classes make bytes of them. A text is the list of its characters, with no end of line in it.
pub mod Bytes
pub mod Dotted
use redes1grupal.Base.{
  ◌+◌, ◌%◌, ◌*◌, zero, ◌>>=◌, ◌^◌, ◌-◌, suc, false, ltb, none, some, ◌&&◌, [], true, ◌==◌,
  if◌then◌else◌, leb, ◌||◌, Option, ◌∷◌, Bool, List, ℕ,
}

abbrev pub between : ℕ → ℕ → ℕ → Bool
between low high c = leb low c && leb c high

-- `[0-9]`
abbrev pub is_digit : ℕ → Bool
is_digit c = between b'0' b'9' c

-- `25[0-5]|2[0-4][0-9]|[01]?[0-9][0-9]?`
unfoldable pub is_octet : List ℕ → Bool
is_octet (a ∷ []) = is_digit a
is_octet (a ∷ b ∷ []) = is_digit a && is_digit b
is_octet (a ∷ b ∷ c ∷ []) =
    (a == b'2' && (b == b'5' && between b'0' b'5' c))
    || ((a == b'2' && (between b'0' b'4' b && is_digit c))
        || (between b'0' b'1' a && (is_digit b && is_digit c)))
is_octet _ = false

-- `[\dA-Fa-f]`
abbrev pub is_hex : ℕ → Bool
is_hex c = is_digit c || (between b'A' b'F' c || between b'a' b'f' c)

unfoldable pub is_hex_pair : List ℕ → Bool
is_hex_pair (a ∷ b ∷ []) = is_hex a && is_hex b
is_hex_pair _ = false

abbrev pub is_dot : ℕ → Bool
is_dot c = c == b'.'

-- `[.:-]`
abbrev pub is_separator : ℕ → Bool
is_separator c = c == b'.' || (c == b':' || c == b'-')

abbrev pub cons_first : ℕ → List (List ℕ) → List (List ℕ)
cons_first c [] = (c ∷ []) ∷ []
cons_first c (p ∷ ps) = (c ∷ p) ∷ ps

-- `split`. It would leave empty pieces at the end out, but no valid address has an empty piece.
unfoldable pub split : (ℕ → Bool) → List ℕ → List (List ℕ)
split sep [] = [] ∷ []
split sep (c ∷ cs) = let rest = split sep cs in if sep c then [] ∷ rest else cons_first c rest

-- `n` pieces of a form.
unfoldable pub all_pieces : (List ℕ → Bool) → ℕ → List (List ℕ) → Bool
all_pieces form zero [] = true
all_pieces form zero (p ∷ ps) = false
all_pieces form (suc n) [] = false
all_pieces form (suc n) (p ∷ ps) = form p && all_pieces form n ps

-- The pattern has three octets with a dot behind each, and a fourth one.
unfoldable pub is_valid_ip_address : List ℕ → Bool
is_valid_ip_address text = all_pieces is_octet 4 (split is_dot text)

-- Five pairs with a separator behind each, and a sixth one.
unfoldable pub is_valid_mac_address : List ℕ → Bool
is_valid_mac_address text = all_pieces is_hex_pair 6 (split is_separator text)

-- `Character.digit` at these radixes
unfoldable pub digit : ℕ → ℕ → Option ℕ
digit radix c =
    let value =
      if is_digit c
      then c - b'0'
      else if between b'A' b'F' c
      then c - 55
      else if between b'a' b'f' c
      then c - 87
      else 255 in
    if ltb value radix then some value else none

-- The digits behind those of `sum`. A value of 2^31 or more is a `NumberFormatException`.
unfoldable pub digits : ℕ → ℕ → List ℕ → Option ℕ
digits radix sum [] = if ltb sum (2 ^ 31) then some sum else none
digits radix sum (c ∷ cs) = digit radix c >>= λ d. digits radix (sum * radix + d) cs

-- `Integer.parseInt`. A sign is in no valid address.
unfoldable pub parse_int : ℕ → List ℕ → Option ℕ
parse_int radix [] = none
parse_int radix (c ∷ cs) = digits radix 0 (c ∷ cs)

-- The loop over the array, with `(byte)`. A piece that is not there is an
-- `ArrayIndexOutOfBoundsException`.
unfoldable pub to_bytes : ℕ → ℕ → List (List ℕ) → Option (List ℕ)
to_bytes radix zero ps = some []
to_bytes radix (suc n) [] = none
to_bytes radix (suc n) (p ∷ ps) =
    parse_int radix p >>= λ v. to_bytes radix n ps >>= λ rest. some (v % 256 ∷ rest)

unfoldable pub ip_bytes : List ℕ → Option (List ℕ)
ip_bytes text = to_bytes 10 4 (split is_dot text)

unfoldable pub mac_bytes : List ℕ → Option (List ℕ)
mac_bytes text = to_bytes 16 6 (split is_separator text)
