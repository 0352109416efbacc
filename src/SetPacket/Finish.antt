-- ===== src/SetPacket/Finish.antt =====
-- The last step for an IPv4 packet: the byte order of two fields, and the header checksum.
use redes1grupal.Base.{ℕ, add_assoc, ◌+◌, ◌*◌, ◌<◌, ◌≡◌, ◌⊎◌, refl, arith, htons, ◌▷◌}
use redes1grupal.Memory.{Bytes, load16, store16, write8}
use redes1grupal.Memory.Laws.{write8_at, IsBytes, store16-IsBytes, load16-store16}
use redes1grupal.Checksum.{in_cksum}
use redes1grupal.Checksum.Verify.{IsStamped, fold-lt, in_cksum-IsStamped}
use redes1grupal.SetPacket.{finish_bytes}

in_cksum-lt : (f : Bytes) (a size : ℕ) → in_cksum f a size < 65536
unfolding in_cksum
in_cksum-lt f a size = fold-lt _

-- The header with its fields swapped and a zero checksum.
abbrev swapped : ℕ → Bytes → Bytes
swapped q f =
    f
    ▷ (λ g. store16 q 2 (htons (load16 q 2 g)) g)
    ▷ (λ g. store16 q 6 (htons (load16 q 6 g)) g)
    ▷ store16 q 10 0

swapped-IsBytes : (q : ℕ) (f : Bytes) → IsBytes f → IsBytes (swapped q f)
unfolding write8
swapped-IsBytes q f b j = ground (arith, b j)

pub finish-IsBytes : (q : ℕ) (f : Bytes) → IsBytes f → IsBytes (finish_bytes q f)
finish-IsBytes q f b = store16-IsBytes q 10 _ _ (swapped-IsBytes q f b)

finish-IsStamped : (q : ℕ) (f : Bytes) → IsStamped (swapped q f) (finish_bytes q f) q 5 20
finish-IsStamped q f = record {
  inside = omega arith;
  before = λ j r s. unfold write8 in ground arith;
  after = λ j r s. unfold write8 in ground arith;
  zero_low = unfold write8 in ground arith;
  zero_high = unfold write8 in ground arith;
}

stamped_word :
    (q : ℕ) (f : Bytes)
    → finish_bytes q f (q + 10) + finish_bytes q f (q + 10 + 1) * 256 ≡ in_cksum (swapped q f) q 20
stamped_word q f = rw (add_assoc q 10 1) (
    load16-store16 q 10 (in_cksum (swapped q f) q 20) (swapped q f)
      (in_cksum-lt (swapped q f) q 20))

-- The header verifies.
pub finish-verifies : (q : ℕ) (f : Bytes) → IsBytes f → in_cksum (finish_bytes q f) q 20 ≡ 0
finish-verifies q f b =
    in_cksum-IsStamped (swapped q f) (finish_bytes q f) q 5 20 (swapped-IsBytes q f b)
      (finish-IsBytes q f b) refl (omega arith) (finish-IsStamped q f) (stamped_word q f)

-- Only the length, the fragment field and the checksum change.
pub finish_ne :
    (q j : ℕ) (f : Bytes)
    → (j < q + 2) ⊎ ((q + 3 < j) × (j < q + 6) ⊎ ((q + 7 < j) × (j < q + 10) ⊎ (q + 11 < j)))
    → finish_bytes q f j ≡ f j
unfolding write8
finish_ne q j f h = ground arith

-- The two swapped fields.
pub finish_fields :
    (q : ℕ) (f : Bytes)
    → IsBytes f
    → let g = finish_bytes q f in
      (g (q + 2) ≡ f (q + 3))
      × (g (q + 3) ≡ f (q + 2))
      × (g (q + 6) ≡ f (q + 7))
      × (g (q + 7) ≡ f (q + 6))
finish_fields q f b = simp write8_at (omega (arith, b (q + 2), b (q + 3), b (q + 6), b (q + 7)))
