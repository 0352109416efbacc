-- ===== src/Checksum/Segment.antt =====
-- `in_cksum2` over a segment of any size, with its pseudo header.
use redes1grupal.Base.{
  ℕ, ◌+◌, ◌-◌, ◌*◌, ◌%◌, ◌^◌, ◌≤◌, ◌<◌, ◌≡◌, arith, ◌==◌, if◌then◌else◌, ap, ◌∙◌, ◌⊎◌,
}
use redes1grupal.Memory.{Bytes}
use redes1grupal.Memory.Laws.{IsBytes}
use redes1grupal.Checksum.{fold, in_cksum2, pseudo_sum}
use redes1grupal.Checksum.Sums.{
  word_total, word_total-le, sum_words-eq, word_total-word, word_total-ext,
}
use redes1grupal.Checksum.Verify.{IsStamped, fold-lt, fold-add-fold}

-- The sum of the words of the segment, the odd last byte as the low half of a word.
unfoldable pub segment_total : Bytes → ℕ → ℕ → ℕ
segment_total f a size = word_total f a size + (if size % 2 == 1 then f (a + (size - 1)) else 0)

pseudo_sum-le : (f : Bytes) → IsBytes f → (ip len : ℕ) → pseudo_sum f ip len ≤ 65535 * 5 + len
unfolding pseudo_sum
pseudo_sum-le f b ip len = omega (
  arith,
  b (ip + 9),
  b (ip + 12),
  b (ip + 13),
  b (ip + 14),
  b (ip + 15),
  b (ip + 16),
  b (ip + 17),
  b (ip + 18),
  b (ip + 19),
)

-- The protocol and the addresses of the header at `ip`.
abbrev pub InPseudo : ℕ → ℕ → Type 0
InPseudo ip j = (j ≡ ip + 9) ⊎ ((ip + 12 ≤ j) × (j < ip + 20))

pub pseudo_sum-ext :
    (f g : Bytes) (ip len : ℕ)
    → ((j : ℕ) → InPseudo ip j → f j ≡ g j)
    → pseudo_sum f ip len ≡ pseudo_sum g ip len
unfolding pseudo_sum
pseudo_sum-ext f g ip len same = ground (
  arith,
  same (ip + 9),
  same (ip + 12),
  same (ip + 13),
  same (ip + 14),
  same (ip + 15),
  same (ip + 16),
  same (ip + 17),
  same (ip + 18),
  same (ip + 19),
)

pub in_cksum2-lt : (f : Bytes) (ip len a size : ℕ) → in_cksum2 f ip len a size < 65536
unfolding in_cksum2
in_cksum2-lt f ip len a size = fold-lt _

segment_total-le :
    (f : Bytes) → IsBytes f → (a size : ℕ) → segment_total f a size ≤ 65535 * size + 255
unfolding segment_total
segment_total-le f b a size = ground (arith, b (a + (size - 1)), word_total-le f b a size)

pub in_cksum2-eq :
    (f : Bytes)
    → IsBytes f
    → (ip len a size : ℕ) → len < 65536
    → size < 2 ^ 14
    → in_cksum2 f ip len a size ≡ fold (pseudo_sum f ip len + segment_total f a size)
unfolding in_cksum2 segment_total
in_cksum2-eq f b ip len a size hl small = ground (
  arith,
  pseudo_sum-le f b ip len,
  word_total-le f b a size,
  b (a + (size - 1)),
  sum_words-eq f b a size (pseudo_sum f ip len) (omega (arith, pseudo_sum-le f b ip len)),
)

-- The odd byte lies behind the stamped word, so it is the same in both memories.
segment_total-word :
    (g f : Bytes) (a k size : ℕ)
    → IsStamped g f a k size
    → segment_total f a size ≡ segment_total g a size + f (a + k * 2) + f (a + k * 2 + 1) * 256
unfolding segment_total
segment_total-word g f a k size s = ground (
  arith,
  s.inside,
  s.after (a + (size - 1)),
  word_total-word f g a k size s.inside s.before s.after s.zero_low s.zero_high,
)

-- What stands in the stamped word is added to the sum that was taken with a zero there.
pub in_cksum2-add_word :
    (g f : Bytes) (ip len a k size : ℕ)
    → IsBytes f
    → len < 65536
    → size < 2 ^ 14
    → IsStamped g f a k size
    → pseudo_sum f ip len ≡ pseudo_sum g ip len
    → in_cksum2 f ip len a size
      ≡ fold
          (pseudo_sum g ip len + segment_total g a size + (f (a + k * 2) + f (a + k * 2 + 1) * 256))
in_cksum2-add_word g f ip len a k size bf hl small s same =
    in_cksum2-eq f bf ip len a size hl small
    ∙ ap fold (omega (arith, segment_total-word g f a k size s, same))

fold-add-ones : (t : ℕ) → t < 2 ^ 31 → fold t ≡ 0 → fold (t + 65535) ≡ 0
unfolding fold
fold-add-ones t h e = ground arith

-- A checksum field holds what `in_cksum2` gave, or all ones in place of a zero.
abbrev pub Stands : ℕ → ℕ → Type 0
Stands word sum = (word ≡ sum) ⊎ ((sum ≡ 0) × (word ≡ 65535))

-- A segment verifies against its pseudo header once `in_cksum2` of it, taken with a zero field,
-- stands in the field.
pub in_cksum2-IsStamped :
    (g f : Bytes) (ip len a k size : ℕ)
    → IsBytes g
    → IsBytes f
    → len < 65536
    → size < 2 ^ 14
    → IsStamped g f a k size
    → pseudo_sum f ip len ≡ pseudo_sum g ip len
    → Stands (f (a + k * 2) + f (a + k * 2 + 1) * 256) (in_cksum2 g ip len a size)
    → in_cksum2 f ip len a size ≡ 0
in_cksum2-IsStamped g f ip len a k size bg bf hl small s same e = ground (
  arith,
  in_cksum2-eq g bg ip len a size,
  in_cksum2-add_word g f ip len a k size bf hl small s same,
  pseudo_sum-le g bg ip len,
  segment_total-le g bg a size,
  fold-add-fold (pseudo_sum g ip len + segment_total g a size),
  fold-add-ones (pseudo_sum g ip len + segment_total g a size),
)

-- Memories that agree on the pseudo header and on the segment have one checksum.
pub in_cksum2-ext :
    (f g : Bytes) (ip len a size : ℕ)
    → IsBytes f
    → IsBytes g
    → len < 65536
    → size < 2 ^ 14
    → ((j : ℕ) → InPseudo ip j → f j ≡ g j)
    → ((j : ℕ) → a ≤ j → j < a + size → f j ≡ g j)
    → in_cksum2 f ip len a size ≡ in_cksum2 g ip len a size
unfolding segment_total
in_cksum2-ext f g ip len a size bf bg hl small pseudo same = ground (
  arith,
  in_cksum2-eq f bf ip len a size,
  in_cksum2-eq g bg ip len a size,
  pseudo_sum-ext f g ip len pseudo,
  word_total-ext f g a size same,
  same (a + (size - 1)),
)
