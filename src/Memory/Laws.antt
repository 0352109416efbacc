-- ===== src/Memory/Laws.antt =====
-- What a read sees of earlier writes.
use redes1grupal.Base.{
  ℕ, zero, suc, ◌+◌, ◌≤◌, ◌<◌, ◌≡◌, ◌⊎◌, refl, ◌∙◌, arith, List, [], ◌∷◌, length, if◌then◌else◌,
  ◌==◌, some, take, All, ◌*◌, length-take_le,
}
use redes1grupal.Memory.{
  Bytes, Mem, write8, read_bytes, write_bytes, storing, get_region, store8, store16,
}

-- Fields of one struct: the test between the offsets computes.
pub write8_at :
    (p i j v : ℕ) (f : Bytes) → write8 (p + i) v f (p + j) ≡ (if i == j then v else f (p + j))
unfolding write8
write8_at p i j v f = ground arith

pub write8_ne : (a j v : ℕ) (f : Bytes) → (j < a) ⊎ (a < j) → write8 a v f j ≡ f j
unfolding write8
write8_ne a j v f h = ground arith

pub write_bytes_ne :
    (a : ℕ) (xs : List ℕ) (f : Bytes) (j : ℕ)
    → (j < a) ⊎ (a + length xs ≤ j)
    → write_bytes a xs f j ≡ f j
unfolding write_bytes write8
write_bytes_ne a [] f j h = refl
write_bytes_ne a (x ∷ xs) f j h = ground (arith, write_bytes_ne (a + 1) xs (write8 a x f) j)

pub read_bytes_ext :
    (n a : ℕ) (f g : Bytes)
    → ((j : ℕ) → a ≤ j → j < a + n → f j ≡ g j)
    → read_bytes n a f ≡ read_bytes n a g
unfolding read_bytes
read_bytes_ext zero a f g h = refl
read_bytes_ext (suc n) a f g h =
    ground (arith, h a, read_bytes_ext n (a + 1) f g (λ j p q. h j (omega arith) (omega arith)))

pub read_bytes-write_bytes :
    (a : ℕ) (xs : List ℕ) (f : Bytes) → read_bytes (length xs) a (write_bytes a xs f) ≡ xs
unfolding read_bytes write_bytes write8
read_bytes-write_bytes a [] f = refl
read_bytes-write_bytes a (x ∷ xs) f = ground (
  arith,
  write_bytes_ne (a + 1) xs (write8 a x f) a,
  read_bytes-write_bytes (a + 1) xs (write8 a x f),
)

-- Every address holds a byte.
abbrev pub IsBytes : Bytes → Type 0
IsBytes f = (a : ℕ) → f a < 256

pub store8-IsBytes : (p i v : ℕ) (f : Bytes) → IsBytes f → IsBytes (store8 p i v f)
unfolding write8
store8-IsBytes p i v f b a = ground (arith, b a)

pub store16-IsBytes : (p i v : ℕ) (f : Bytes) → IsBytes f → IsBytes (store16 p i v f)
unfolding write8
store16-IsBytes p i v f b a = ground (arith, b a)

pub write_bytes-IsBytes :
    (a : ℕ) (xs : List ℕ) (f : Bytes)
    → All (λ x. x < 256) xs
    → IsBytes f
    → IsBytes (write_bytes a xs f)
unfolding write_bytes write8
write_bytes-IsBytes a [] f h b = b
write_bytes-IsBytes a (x ∷ xs) f (h, hs) b =
    write_bytes-IsBytes (a + 1) xs (write8 a x f) hs (λ j. unfold write8 in ground (arith, b j))

pub take-All {κ} : (P : ℕ → Type κ) (n : ℕ) (xs : List ℕ) → All P xs → All P (take n xs)
take-All P zero xs h = tt
take-All P (suc n) [] h = tt
take-All P (suc n) (x ∷ xs) (h, hs) = (h, take-All P n xs hs)

pub storing_lem :
    (a n : ℕ) (g : Bytes → Bytes) (m : Mem)
    → a + n ≤ m.size
    → storing a n g m ≡ some (record m { byte = g m.byte })
storing_lem a n g m h = ground arith

pub get_region_lem :
    (xs : List ℕ) (n a : ℕ) (m : Mem)
    → n ≤ length xs
    → a + n ≤ m.size
    → get_region (some xs) n a m ≡ some (record m { byte = write_bytes a (take n xs) m.byte })
unfolding get_region
get_region_lem xs n a m h k = ground arith

-- The bytes that an array region was copied to, if nothing was stored over them since.
pub read_bytes-region :
    (a n : ℕ) (xs : List ℕ) (f g : Bytes)
    → n ≤ length xs
    → ((j : ℕ) → a ≤ j → j < a + n → f j ≡ write_bytes a (take n xs) g j)
    → read_bytes n a f ≡ take n xs
read_bytes-region a n xs f g h same =
    read_bytes_ext n a f (write_bytes a (take n xs) g) same
    ∙ rw (length-take_le n xs h) at (read_bytes-write_bytes a (take n xs) g)

-- A stored word is loaded again.
pub load16-store16 :
    (p i v : ℕ) (f : Bytes)
    → v < 65536
    → store16 p i v f (p + i) + store16 p i v f (p + (i + 1)) * 256 ≡ v
unfolding write8
load16-store16 p i v f h = ground arith

pub read_bytes-written :
    (a n : ℕ) (xs : List ℕ) (f g : Bytes)
    → length xs ≡ n
    → ((j : ℕ) → a ≤ j → j < a + n → f j ≡ write_bytes a xs g j)
    → read_bytes n a f ≡ xs
read_bytes-written a n xs f g e same =
    read_bytes_ext n a f (write_bytes a xs g) same ∙ rw e at (read_bytes-write_bytes a xs g)

pub length-read_bytes : (n a : ℕ) (f : Bytes) → length (read_bytes n a f) ≡ n
unfolding read_bytes
length-read_bytes zero a f = refl
length-read_bytes (suc n) a f = omega (arith, length-read_bytes n (a + 1) f)

pub read_bytes-injective :
    (n a : ℕ) (f g : Bytes)
    → read_bytes n a f ≡ read_bytes n a g
    → (i : ℕ) → i < n
    → f (a + i) ≡ g (a + i)
unfolding read_bytes
read_bytes-injective zero a f g e i h = absurd (omega arith)
read_bytes-injective (suc n) a f g e zero h = ground (arith, e)
read_bytes-injective (suc n) a f g e (suc i) h =
    let shift : a + 1 + i ≡ a + suc i = omega arith in
    rw shift at (read_bytes-injective n (a + 1) f g (ground (arith, e)) i (omega arith))
