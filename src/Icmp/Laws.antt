-- ===== src/Icmp/Laws.antt =====
-- The echo message that `set_icmp` leaves in the buffer.
use redes1grupal.Base.{
  ℕ, ◌+◌, ◌%◌, ◌^◌, ◌≤◌, ◌<◌, ◌≡◌, ◌⊎◌, inl, inr, refl, arith, some, List, htons, u8, u16, length,
  take-length, ◌▷◌, htons_wire, All, add_assoc,
}
use redes1grupal.Memory.{Mem, Bytes, load16, store16, store8, write8, read_bytes, write_bytes}
use redes1grupal.Memory.Laws.{
  write8_at, write_bytes_ne, get_region_lem, read_bytes-written, IsBytes, store16-IsBytes,
  write_bytes-IsBytes, load16-store16,
}
use redes1grupal.Packet.{IcmpPacket}
use redes1grupal.Checksum.{in_cksum}
use redes1grupal.Checksum.Verify.{IsStamped, fold-lt, in_cksum-IsStamped}
use redes1grupal.Icmp.{set_icmp, set_icmp_body, icmp_type, icmp_checksum, icmp_id_seq, echo}

in_cksum-lt : (f : Bytes) (a size : ℕ) → in_cksum f a size < 65536
unfolding in_cksum
in_cksum-lt f a size = fold-lt _

module _ (pointer size : ℕ) (f : Bytes) where
  abbrev cleared : Bytes
  cleared = store16 pointer 2 0 f

  abbrev pub summed : Bytes
  summed = store16 pointer 2 (in_cksum cleared pointer size) cleared

  summed_ne : (j : ℕ) → (j < pointer + 2) ⊎ (pointer + 3 < j) → summed j ≡ f j
  unfolding write8
  summed_ne j h = ground arith

  summed-IsStamped : 8 ≤ size → IsStamped cleared summed pointer 1 size
  summed-IsStamped h = record {
    inside = omega arith;
    before = λ j r s. unfold write8 in ground arith;
    after = λ j r s. unfold write8 in ground arith;
    zero_low = unfold write8 in ground arith;
    zero_high = unfold write8 in ground arith;
  }

  summed-verifies :
      IsBytes f → 8 ≤ size → size % 2 ≡ 0 → size < 2 ^ 15 → in_cksum summed pointer size ≡ 0
  summed-verifies b h even small =
      in_cksum-IsStamped cleared summed pointer 1 size (store16-IsBytes pointer 2 0 f b)
        (store16-IsBytes pointer 2 _ cleared (store16-IsBytes pointer 2 0 f b)) even small
        (summed-IsStamped h)
        (rw (add_assoc pointer 2 1) (
          load16-store16 pointer 2 (in_cksum cleared pointer size) cleared
            (in_cksum-lt cleared pointer size)))

-- The bytes of the message in front of its data, before the checksum.
abbrev pub echo_header : IcmpPacket → ℕ → Bytes → Bytes
echo_header p pointer f =
    icmp_id_seq p pointer (f ▷ store8 pointer 0 p.type ▷ store8 pointer 1 p.code)

abbrev pub echo_bytes : IcmpPacket → ℕ → List ℕ → Bytes → Bytes
echo_bytes p pointer xs f =
    summed pointer (8 + length xs) (write_bytes (pointer + 8) xs (echo_header p pointer f))

pub set_icmp_echo :
    (p : IcmpPacket) (pointer : ℕ) (xs : List ℕ) (m : Mem)
    → icmp_type (u8 p.type) ≡ echo
    → length xs % 2 ≡ 0
    → pointer + 8 + length xs ≤ m.size
    → set_icmp p pointer (some xs) m ≡ some (8, record m { byte = echo_bytes p pointer xs m.byte })
unfolding set_icmp set_icmp_body icmp_checksum
set_icmp_echo p pointer xs m type even fits = ground (
  arith,
  type,
  take-length xs,
  get_region_lem xs (length xs) (pointer + 8) (record m { byte = echo_header p pointer m.byte }),
)

echo_header_fields :
    (p : IcmpPacket) (pointer : ℕ) (f : Bytes)
    → let g = echo_header p pointer f in
      (g (pointer + 0) ≡ u8 p.type)
      × (g (pointer + 1) ≡ u8 p.code)
      × (htons (load16 pointer 4 g) ≡ u16 p.id)
      × (htons (load16 pointer 6 g) ≡ u16 p.seq)
echo_header_fields p pointer f =
    simp write8_at
      (omega arith, omega arith, htons_wire _ (omega arith), htons_wire _ (omega arith))

module _ (p : IcmpPacket) (pointer : ℕ) (xs : List ℕ) (f : Bytes) where
  echo_bytes_header :
      (j : ℕ)
      → (j < pointer + 2) ⊎ ((pointer + 3 < j) × (j < pointer + 8))
      → echo_bytes p pointer xs f j ≡ echo_header p pointer f j
  echo_bytes_header j h = ground (
    arith,
    summed_ne pointer (8 + length xs) (write_bytes (pointer + 8) xs (echo_header p pointer f)) j,
    write_bytes_ne (pointer + 8) xs (echo_header p pointer f) j,
  )

  pub echo_fields :
      let g = echo_bytes p pointer xs f in
      (g (pointer + 0) ≡ u8 p.type)
      × (g (pointer + 1) ≡ u8 p.code)
      × (htons (load16 pointer 4 g) ≡ u16 p.id)
      × (htons (load16 pointer 6 g) ≡ u16 p.seq)
  echo_fields =
      rw
        (
          echo_bytes_header (pointer + 0) (inl (omega arith)),
          echo_bytes_header (pointer + 1) (inl (omega arith)),
          echo_bytes_header (pointer + 4) (inr (omega arith)),
          echo_bytes_header (pointer + (4 + 1)) (inr (omega arith)),
          echo_bytes_header (pointer + 6) (inr (omega arith)),
          echo_bytes_header (pointer + (6 + 1)) (inr (omega arith)),
        )
        (echo_header_fields p pointer f)

  echo_data : read_bytes (length xs) (pointer + 8) (echo_bytes p pointer xs f) ≡ xs
  echo_data =
      read_bytes-written (pointer + 8) (length xs) xs _ (echo_header p pointer f) refl
        (λ j lo hi. summed_ne pointer (8 + length xs) _ j (inr (omega arith)))

-- In a buffer of bytes with room for it, an echo message with an even number of data bytes, below
-- 2 ^ 14, is its type, its code, its identifier and its
-- sequence number in network order, and the data; its checksum verifies; and eight bytes are added
-- to the length of the data.
pub set_icmp-echo :
    (p : IcmpPacket) (pointer : ℕ) (xs : List ℕ) (m : Mem)
    → icmp_type (u8 p.type) ≡ echo
    → length xs % 2 ≡ 0
    → length xs < 2 ^ 14
    → pointer + 8 + length xs ≤ m.size
    → IsBytes m.byte
    → All (λ x. x < 256) xs
    → (m' : Mem) × (set_icmp p pointer (some xs) m ≡ some (8, m'))
      × (m'.byte (pointer + 0) ≡ u8 p.type)
      × (m'.byte (pointer + 1) ≡ u8 p.code)
      × (htons (load16 pointer 4 m'.byte) ≡ u16 p.id)
      × (htons (load16 pointer 6 m'.byte) ≡ u16 p.seq)
      × (read_bytes (length xs) (pointer + 8) m'.byte ≡ xs)
      × (in_cksum m'.byte pointer (8 + length xs) ≡ 0)
set_icmp-echo p pointer xs m type even small fits b bs =
    let h = echo_fields p pointer xs m.byte in
    (
      record m { byte = echo_bytes p pointer xs m.byte },
      set_icmp_echo p pointer xs m type even fits,
      h.0,
      h.1,
      h.2,
      h.3,
      echo_data p pointer xs m.byte,
      summed-verifies pointer (8 + length xs) _
          (write_bytes-IsBytes (pointer + 8) xs (echo_header p pointer m.byte) bs
            (unfold write8 in λ j. ground (arith, b j)))
          (omega arith) (omega arith) (omega arith),
    )
