-- ===== src/Base/Words.antt =====
-- The machine integers of C and Java as bit patterns: casts, and the byte order of the network.
use Prim.Native.Nat.{ℕ, ◌+◌, ◌-◌, ◌*◌, ◌/◌, ◌%◌, ◌^◌, ◌<◌}
use mathlib.Core.Path.{◌≡◌, ◌∙◌}
use mathlib.Core.Bool.{Bool}
use native.Mathlib.Omega.{arith}
use redes1grupal.Base.Tests.{ltb, if◌then◌else◌}

abbrev pub u8 : ℕ → ℕ
u8 n = n % 2 ^ 8

abbrev pub u16 : ℕ → ℕ
u16 n = n % 2 ^ 16

abbrev pub u32 : ℕ → ℕ
u32 n = n % 2 ^ 32

-- A signed 16-bit pattern widened to 32 bits.
abbrev pub sign_extend16 : ℕ → ℕ
sign_extend16 n = if ltb n (2 ^ 15) then n else n + (2 ^ 32 - 2 ^ 16)

-- `htons` and `ntohs` of a little-endian machine.
abbrev pub htons : ℕ → ℕ
htons v = v % 256 * 256 + v / 256 % 256

-- `htonl` and `ntohl` of a little-endian machine.
abbrev pub htonl : ℕ → ℕ
htonl v = v % 256 * 16777216 + v / 256 % 256 * 65536 + v / 65536 % 256 * 256 + v / 16777216 % 256

-- The number of a C condition.
abbrev pub flag : Bool → ℕ → ℕ
flag b n = if b then n else 0

pub htons-htons : (v : ℕ) → v < 2 ^ 16 → htons (htons v) ≡ v
htons-htons v h = omega arith

-- The bytes of a word that was swapped before it was stored, swapped after it was loaded.
pub htons_wire : (v : ℕ) → v < 2 ^ 16 → htons (htons v % 256 + htons v / 256 % 256 * 256) ≡ v
htons_wire v h = omega arith

word_of_bytes :
    (w : ℕ)
    → w < 2 ^ 32
    → w % 256 + w / 256 % 256 * 256 + (w / 65536 % 256 + w / 65536 / 256 % 256 * 256) * 65536 ≡ w
word_of_bytes w h = omega arith

htonl_digits :
    (a b c d : ℕ)
    → (a < 256) × (b < 256) × (c < 256) × (d < 256)
    → htonl (a * 16777216 + b * 65536 + c * 256 + d) ≡ d * 16777216 + c * 65536 + b * 256 + a
htonl_digits a b c d h = omega arith

pub htonl-lt : (v : ℕ) → htonl v < 2 ^ 32
htonl-lt v = omega arith

pub htonl-htonl : (v : ℕ) → v < 2 ^ 32 → htonl (htonl v) ≡ v
htonl-htonl v h =
    htonl_digits (v % 256) (v / 256 % 256) (v / 65536 % 256) (v / 16777216 % 256) (omega arith)
    ∙ omega arith

pub htonl_wire :
    (v : ℕ)
    → v < 2 ^ 32
    → htonl (
        htonl v % 256
        + htonl v / 256 % 256 * 256
        + (htonl v / 65536 % 256 + htonl v / 65536 / 256 % 256 * 256) * 65536)
      ≡ v
htonl_wire v h = rw (word_of_bytes (htonl v) (htonl-lt v)) (htonl-htonl v h)
