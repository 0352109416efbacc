-- ===== src/Checksum/Sums.antt =====
-- The sum of the words of a region, with no wrap, and what a store into the region does to it.
use redes1grupal.Base.{ℕ, zero, suc, ◌+◌, ◌*◌, ◌^◌, ◌≤◌, ◌<◌, ◌≡◌, refl, arith}
use redes1grupal.Memory.{Bytes, load16}
use redes1grupal.Memory.Laws.{IsBytes}
use redes1grupal.Checksum.{sum_words, add64}

-- The sum that the loop is meant to compute.
unfoldable pub word_total : Bytes → ℕ → ℕ → ℕ
word_total f a (suc (suc size)) = load16 a 0 f + word_total f (a + 2) size
word_total f a size = 0

pub word_total-le : (f : Bytes) → IsBytes f → (a size : ℕ) → word_total f a size ≤ 65535 * size
unfolding word_total
word_total-le f b a (suc (suc size)) =
    omega (arith, b (a + 0), b (a + (0 + 1)), word_total-le f b (a + 2) size)
word_total-le f b a zero = omega arith
word_total-le f b a (suc zero) = omega arith

-- The 64-bit sum does not wrap.
pub sum_words-eq :
    (f : Bytes)
    → IsBytes f
    → (a size sum : ℕ) → sum + 65535 * size < 2 ^ 64
    → sum_words f a size sum ≡ sum + word_total f a size
unfolding sum_words word_total
sum_words-eq f b a (suc (suc size)) sum h =
    ground
      (arith, b (a + 0), b (a + (0 + 1)), sum_words-eq f b (a + 2) size (add64 sum (load16 a 0 f)))
sum_words-eq f b a zero sum h = omega arith
sum_words-eq f b a (suc zero) sum h = omega arith

-- Memories that agree on the region have one sum.
pub word_total-ext :
    (f g : Bytes) (a size : ℕ)
    → ((j : ℕ) → a ≤ j → j < a + size → f j ≡ g j)
    → word_total f a size ≡ word_total g a size
unfolding word_total
word_total-ext f g a (suc (suc size)) h = ground (
  arith,
  h (a + 0),
  h (a + (0 + 1)),
  word_total-ext f g (a + 2) size (λ j p q. h j (omega arith) (omega arith)),
)
word_total-ext f g a zero h = refl
word_total-ext f g a (suc zero) h = refl

-- Memories that agree but for one aligned word, which is zero in the second, differ by that word.
pub word_total-word :
    (f g : Bytes) (a k size : ℕ)
    → k * 2 + 1 < size
    → ((j : ℕ) → a ≤ j → j < a + k * 2 → f j ≡ g j)
    → ((j : ℕ) → a + k * 2 + 2 ≤ j → j < a + size → f j ≡ g j)
    → g (a + k * 2) ≡ 0
    → g (a + k * 2 + 1) ≡ 0
    → word_total f a size ≡ word_total g a size + f (a + k * 2) + f (a + k * 2 + 1) * 256
unfolding word_total
word_total-word f g a k zero h before after z₀ z₁ = absurd (omega arith)
word_total-word f g a k (suc zero) h before after z₀ z₁ = absurd (omega arith)
word_total-word f g a zero (suc (suc size)) h before after z₀ z₁ =
    ground (arith, word_total-ext f g (a + 2) size (λ j p q. after j (omega arith) (omega arith)))
word_total-word f g a (suc k) (suc (suc size)) h before after z₀ z₁ =
    let shift : a + 2 + k * 2 ≡ a + suc k * 2 = omega arith in
    ground (
      arith,
      before (a + 0),
      before (a + (0 + 1)),
      shift,
      word_total-word f g (a + 2) k size (omega arith)
          (λ j p q. before j (omega arith) (omega arith))
          (λ j p q. after j (omega arith) (omega arith)) (rw shift z₀) (rw shift z₁),
    )
