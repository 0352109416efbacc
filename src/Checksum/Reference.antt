-- ===== src/Checksum/Reference.antt =====
-- The Internet checksum as RFC 1071 describes it, and how the code compares with it.
use redes1grupal.Base.{
  ℕ, zero, suc, ◌+◌, ◌-◌, ◌*◌, ◌%◌, ◌^◌, ◌<◌, ◌≡◌, ◌≢◌, refl, arith, ◌==◌, ltb, if◌then◌else◌,
  mask_high,
}
use redes1grupal.Memory.{Bytes, load16}
use redes1grupal.Memory.Laws.{IsBytes}
use redes1grupal.Checksum.{fold, in_cksum}
use redes1grupal.Checksum.Sums.{word_total, word_total-le, sum_words-eq, word_total-ext}
use redes1grupal.Checksum.Verify.{in_cksum-even}

-- One's complement addition of 16-bit words: the carry comes back at the end.
unfoldable pub ones_add : ℕ → ℕ → ℕ
ones_add x y = if ltb (x + y) 65536 then x + y else x + y - 65535

unfoldable pub ones_sum : Bytes → ℕ → ℕ → ℕ
ones_sum f a (suc (suc size)) = ones_add (load16 a 0 f) (ones_sum f (a + 2) size)
ones_sum f a size = 0

-- The 16-bit word that a sum folds to.
norm : ℕ → ℕ
norm t = if t == 0 then 0 else (t - 1) % 65535 + 1

fold-norm : (t : ℕ) → t < 2 ^ 31 → fold t ≡ 65535 - norm t
unfolding fold norm
fold-norm t h = ground arith

ones_add-norm : (x t : ℕ) → x < 65536 → ones_add x (norm t) ≡ norm (x + t)
unfolding ones_add norm
ones_add-norm x t h = ground arith

ones_sum-norm :
    (f : Bytes) → IsBytes f → (a size : ℕ) → ones_sum f a size ≡ norm (word_total f a size)
unfolding ones_sum word_total
ones_sum-norm f b a zero = unfold norm in refl
ones_sum-norm f b a (suc zero) = unfold norm in refl
ones_sum-norm f b a (suc (suc size)) =
    rw (ones_sum-norm f b (a + 2) size)
      (ones_add-norm _ _ (omega (arith, b (a + 0), b (a + (0 + 1)))))

-- Over a region of even size below 2 ^ 15 `in_cksum` is the complement of the one's complement sum of its
-- words.
pub in_cksum-ones_sum :
    (f : Bytes) (a size : ℕ)
    → IsBytes f
    → size % 2 ≡ 0
    → size < 2 ^ 15
    → in_cksum f a size ≡ 65535 - ones_sum f a size
in_cksum-ones_sum f a size b even small = omega (
  arith,
  in_cksum-even f b a size even small,
  ones_sum-norm f b a size,
  fold-norm (word_total f a size) (omega (arith, word_total-le f b a size)),
)

word_total_odd : (f : Bytes) (a n : ℕ) → word_total f a (n * 2 + 1) ≡ word_total f a (n * 2)
unfolding word_total
word_total_odd f a zero = refl
word_total_odd f a (suc n) =
    let odd : suc n * 2 + 1 ≡ suc (suc (n * 2 + 1)) = omega arith in
    let even : suc n * 2 ≡ suc (suc (n * 2)) = omega arith in
    rw (odd, even) (rw (word_total_odd f (a + 2) n))

in_cksum-odd :
    (f : Bytes) (a size : ℕ)
    → IsBytes f
    → size < 2 ^ 14
    → in_cksum f a (size * 2 + 1)
      ≡ fold (word_total f a (size * 2 + 1) + f (a + size * 2 + 1) * 256)
unfolding in_cksum
in_cksum-odd f a size b small = ground (
  arith,
  sum_words-eq f b a (size * 2 + 1) 0 (omega arith),
  word_total-le f b a (size * 2 + 1),
  b (a + size * 2),
  b (a + size * 2 + 1),
  mask_high (f (a + size * 2) + f (a + size * 2 + 1) * 256),
)

word_total_next :
    (f : Bytes) (a n : ℕ) → word_total f a (n * 2 + 2) ≡ word_total f a (n * 2) + load16 a (n * 2) f
unfolding word_total
word_total_next f a zero = ground arith
word_total_next f a (suc n) =
    let next : suc n * 2 + 2 ≡ suc (suc (n * 2 + 2)) = omega arith in
    let even : suc n * 2 ≡ suc (suc (n * 2)) = omega arith in
    let low : a + suc (suc (n * 2)) ≡ a + 2 + n * 2 = omega arith in
    let high : a + (suc (suc (n * 2)) + 1) ≡ a + 2 + (n * 2 + 1) = omega arith in
    rw (next, even) (rw (low, high) (omega (arith, word_total_next f (a + 2) n)))

-- Over a region of odd size of at most 2 ^ 15 - 3 bytes `in_cksum` gives what it gives over one byte more
-- with the last byte of the region cleared: it adds the byte behind the region in place of the last one,
-- which it does not see.
pub in_cksum_odd_ignores_last :
    (f g : Bytes) (a n : ℕ)
    → IsBytes f
    → IsBytes g
    → n * 2 + 2 < 2 ^ 15
    → ((j : ℕ) → j ≢ a + n * 2 → f j ≡ g j)
    → g (a + n * 2) ≡ 0
    → in_cksum f a (n * 2 + 1) ≡ in_cksum g a (n * 2 + 2)
in_cksum_odd_ignores_last f g a n bf bg small same cleared = ground (
  arith,
  in_cksum-odd f a n bf,
  in_cksum-even g bg a (n * 2 + 2),
  word_total_odd f a n,
  word_total_next g a n,
  word_total-ext f g a (n * 2) (λ j p q. same j (omega arith)),
  same (a + n * 2 + 1),
  cleared,
)
