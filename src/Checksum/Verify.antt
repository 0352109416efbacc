-- ===== src/Checksum/Verify.antt =====
-- A checksum that is stored over a zeroed field makes the whole region verify.
use redes1grupal.Base.{ℕ, ◌+◌, ◌*◌, ◌%◌, ◌^◌, ◌≤◌, ◌<◌, ◌≡◌, arith}
use redes1grupal.Memory.{Bytes}
use redes1grupal.Memory.Laws.{IsBytes}
use redes1grupal.Checksum.{fold, in_cksum}
use redes1grupal.Checksum.Sums.{word_total, word_total-le, sum_words-eq, word_total-word}

pub fold-lt : (s : ℕ) → fold s < 65536
unfolding fold
fold-lt s = omega arith

-- Adding the complement of a folded sum to the sum folds to zero.
pub fold-add-fold : (s : ℕ) → s < 2 ^ 31 → fold (s + fold s) ≡ 0
unfolding fold
fold-add-fold s h = omega arith

pub in_cksum-even :
    (f : Bytes)
    → IsBytes f
    → (a size : ℕ) → size % 2 ≡ 0
    → size < 2 ^ 15
    → in_cksum f a size ≡ fold (word_total f a size)
unfolding in_cksum
in_cksum-even f b a size even small = ground (arith, sum_words-eq f b a size 0 (omega arith))

-- The word of a region at an even offset holds the checksum of the region with a zero there.
pub record IsStamped (g f : Bytes) (a k size : ℕ) : Type 0 where
  pub inside : k * 2 + 1 < size
  pub before : (j : ℕ) → a ≤ j → j < a + k * 2 → f j ≡ g j
  pub after : (j : ℕ) → a + k * 2 + 2 ≤ j → j < a + size → f j ≡ g j
  pub zero_low : g (a + k * 2) ≡ 0
  pub zero_high : g (a + k * 2 + 1) ≡ 0

-- A region of even size verifies once `in_cksum` of it, taken with a zero field, stands in the
-- field: its own `in_cksum` is then 0.
pub in_cksum-IsStamped :
    (g f : Bytes) (a k size : ℕ)
    → IsBytes g
    → IsBytes f
    → size % 2 ≡ 0
    → size < 2 ^ 15
    → IsStamped g f a k size
    → f (a + k * 2) + f (a + k * 2 + 1) * 256 ≡ in_cksum g a size
    → in_cksum f a size ≡ 0
in_cksum-IsStamped g f a k size bg bf even small s e = ground (
  arith,
  in_cksum-even g bg a size,
  in_cksum-even f bf a size,
  word_total-word f g a k size s.inside s.before s.after s.zero_low s.zero_high,
  word_total-le g bg a size,
  fold-add-fold (word_total g a size),
)
