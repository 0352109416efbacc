-- ===== src/Sender/Padding.antt =====
-- The trailer of a short frame.
use Prim.Native.Nat.{max}
use redes1grupal.Base.{
  ℕ, ◌+◌, ◌-◌, ◌^◌, ◌≤◌, ◌<◌, ◌≡◌, inl, ◌∙◌, arith, some, length, if◌then◌else◌, ltb,
}
use redes1grupal.Memory.{Mem, Bytes, read_bytes, write_bytes}
use redes1grupal.Memory.Laws.{write_bytes_ne, read_bytes-injective}
use redes1grupal.Sender.{pad_frame, zeros}

-- The buffer with the trailer of a short frame cleared, and one byte more.
abbrev pub padded : ℕ → Bytes → Bytes
padded length f = if ltb length 60 then write_bytes length (zeros (60 - length + 1)) f else f

pub pad_frame_lem :
    (length : ℕ) (m : Mem)
    → length < 2 ^ 31
    → 61 ≤ m.size
    → pad_frame length m ≡ some (max 60 length, record m { byte = padded length m.byte })
unfolding pad_frame
pad_frame_lem length m h fits = ground arith

padded_ne : (n j : ℕ) (f : Bytes) → j < n → padded n f j ≡ f j
padded_ne n j f h = ground (arith, write_bytes_ne n (zeros (60 - n + 1)) f j (inl h))

-- What a capture of the frame holds in front of the trailer.
pub padded-copy :
    (n : ℕ) (f g : Bytes)
    → read_bytes (max 60 n) 0 g ≡ read_bytes (max 60 n) 0 (padded n f)
    → (j : ℕ) → j < n
    → g j ≡ f j
padded-copy n f g same j h =
    let start : 0 + j ≡ j = omega arith in
    rw start at (read_bytes-injective (max 60 n) 0 g (padded n f) same j (omega arith))
    ∙ padded_ne n j f h
