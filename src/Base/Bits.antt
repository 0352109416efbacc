-- ===== src/Base/Bits.antt =====
-- Masks on one byte as arithmetic, each checked at all 256 values.
use Prim.Native.Nat.{ℕ, zero, suc, ◌*◌, ◌/◌, ◌%◌, ◌<◌, bit_and}
use mathlib.Core.Path.{◌≡◌, refl}
use mathlib.Core.Bool.{Bool, true, false}
use native.Mathlib.Omega.{arith}
use redes1grupal.Base.Tests.{◌==◌, ltb, if◌then◌else◌}

agree_below : (ℕ → ℕ) → (ℕ → ℕ) → ℕ → Bool
agree_below f g zero = true
agree_below f g (suc n) = if f n == g n then agree_below f g n else false

agree_below→eq : (f g : ℕ → ℕ) (n i : ℕ) → agree_below f g n ≡ true → i < n → f i ≡ g i
unfolding agree_below
agree_below→eq f g zero i e h = absurd (omega arith)
agree_below→eq f g (suc n) i e h = ground (arith, agree_below→eq f g n i)

-- `(x & mask) > 0` for a mask of one bit.
abbrev pub has_bits : ℕ → ℕ → Bool
has_bits x mask = ltb 0 (bit_and x mask)

pub mask_bit0 : (x : ℕ) → x < 256 → bit_and x 0x01 ≡ x % 2
unfolding agree_below
mask_bit0 x = agree_below→eq (λ x. bit_and x 0x01) (λ x. x % 2) 256 x refl

pub mask_bit1 : (x : ℕ) → x < 256 → bit_and x 0x02 ≡ x / 2 % 2 * 2
unfolding agree_below
mask_bit1 x = agree_below→eq (λ x. bit_and x 0x02) (λ x. x / 2 % 2 * 2) 256 x refl

pub mask_bit2 : (x : ℕ) → x < 256 → bit_and x 0x04 ≡ x / 4 % 2 * 4
unfolding agree_below
mask_bit2 x = agree_below→eq (λ x. bit_and x 0x04) (λ x. x / 4 % 2 * 4) 256 x refl

pub mask_bit3 : (x : ℕ) → x < 256 → bit_and x 0x08 ≡ x / 8 % 2 * 8
unfolding agree_below
mask_bit3 x = agree_below→eq (λ x. bit_and x 0x08) (λ x. x / 8 % 2 * 8) 256 x refl

pub mask_bit4 : (x : ℕ) → x < 256 → bit_and x 0x10 ≡ x / 16 % 2 * 16
unfolding agree_below
mask_bit4 x = agree_below→eq (λ x. bit_and x 0x10) (λ x. x / 16 % 2 * 16) 256 x refl

pub mask_bit5 : (x : ℕ) → x < 256 → bit_and x 0x20 ≡ x / 32 % 2 * 32
unfolding agree_below
mask_bit5 x = agree_below→eq (λ x. bit_and x 0x20) (λ x. x / 32 % 2 * 32) 256 x refl

pub mask_bit6 : (x : ℕ) → x < 256 → bit_and x 0x40 ≡ x / 64 % 2 * 64
unfolding agree_below
mask_bit6 x = agree_below→eq (λ x. bit_and x 0x40) (λ x. x / 64 % 2 * 64) 256 x refl

pub mask_bit7 : (x : ℕ) → x < 256 → bit_and x 0x80 ≡ x / 128 % 2 * 128
unfolding agree_below
mask_bit7 x = agree_below→eq (λ x. bit_and x 0x80) (λ x. x / 128 % 2 * 128) 256 x refl

pub mask_high : (x : ℕ) → x < 65536 → bit_and x 0xff00 ≡ x / 256 * 256
unfolding agree_below
mask_high x = agree_below→eq (λ x. bit_and x 0xff00) (λ x. x / 256 * 256) 65536 x refl

pub mask_bit13 : (x : ℕ) → x < 65536 → bit_and x 0x2000 ≡ x / 8192 % 2 * 8192
unfolding agree_below
mask_bit13 x = agree_below→eq (λ x. bit_and x 0x2000) (λ x. x / 8192 % 2 * 8192) 65536 x refl

pub mask_bit14 : (x : ℕ) → x < 65536 → bit_and x 0x4000 ≡ x / 16384 % 2 * 16384
unfolding agree_below
mask_bit14 x = agree_below→eq (λ x. bit_and x 0x4000) (λ x. x / 16384 % 2 * 16384) 65536 x refl

pub mask_bit15 : (x : ℕ) → x < 65536 → bit_and x 0x8000 ≡ x / 32768 % 2 * 32768
unfolding agree_below
mask_bit15 x = agree_below→eq (λ x. bit_and x 0x8000) (λ x. x / 32768 % 2 * 32768) 65536 x refl
