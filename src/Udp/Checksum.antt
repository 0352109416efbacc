-- ===== src/Udp/Checksum.antt =====
-- The checksum that `set_udp` stores.
use redes1grupal.Base.{
  ℕ, ◌+◌, ◌*◌, ◌≤◌, ◌<◌, ◌≡◌, ◌≢◌, ◌⊎◌, inl, inr, arith, some, List, length, take, All,
}
use redes1grupal.Memory.{Mem, Bytes, load16, store16, write8, write_bytes}
use redes1grupal.Memory.Laws.{IsBytes, store16-IsBytes, write_bytes-IsBytes, take-All}
use redes1grupal.Packet.{UdpPacket}
use redes1grupal.Checksum.{in_cksum2}
use redes1grupal.Checksum.Verify.{IsStamped}
use redes1grupal.Checksum.Segment.{in_cksum2-lt, pseudo_sum-ext, Stands, in_cksum2-IsStamped}
use redes1grupal.JpcapSub.{udphdrlen}
use redes1grupal.Udp.{set_udp, udp_header, udp_checksum, clamp_udp}
use redes1grupal.Udp.Laws.{clamp_udp-le, udp_bytes, set_udp_lem}

pub udp_header-IsBytes :
    (p : UdpPacket) (pointer n : ℕ) (f : Bytes) → IsBytes f → IsBytes (udp_header p pointer n f)
unfolding udp_header write8
udp_header-IsBytes p pointer n f b j = ground (arith, b j)

module _ (pointer ip n : ℕ) (f : Bytes) (apart : ip + 20 ≤ pointer) where
  abbrev pub zeroed : Bytes
  zeroed = store16 pointer 6 0 f

  abbrev sum : ℕ
  sum = in_cksum2 zeroed ip (load16 pointer 4 zeroed) pointer (n + udphdrlen)

  stamped_ne :
      (j : ℕ) → (j < pointer + 6) ⊎ (pointer + 7 < j) → udp_checksum pointer ip n f j ≡ zeroed j
  unfolding udp_checksum write8
  stamped_ne j h = ground arith

  stamped : IsStamped zeroed (udp_checksum pointer ip n f) pointer 3 (n + udphdrlen)
  stamped = record {
    inside = omega arith;
    before = λ j p q. stamped_ne j (inl q);
    after = λ j p q. stamped_ne j (inr (omega arith));
    zero_low = unfold write8 in ground arith;
    zero_high = unfold write8 in ground arith;
  }

  stands :
      Stands
        (udp_checksum pointer ip n f (pointer + 6)
          + udp_checksum pointer ip n f (pointer + 6 + 1) * 256)
        sum
  unfolding udp_checksum write8
  stands = ground (arith, in_cksum2-lt zeroed ip (load16 pointer 4 zeroed) pointer (n + udphdrlen))

  pub udp_checksum-IsBytes : IsBytes f → IsBytes (udp_checksum pointer ip n f)
  unfolding udp_checksum write8
  udp_checksum-IsBytes b j = ground (arith, b j)

  not_zero : load16 pointer 6 (udp_checksum pointer ip n f) ≢ 0
  unfolding udp_checksum write8
  not_zero =
      ground (arith, in_cksum2-lt zeroed ip (load16 pointer 4 zeroed) pointer (n + udphdrlen))

  pub udp_checksum-verifies :
      IsBytes f
      → n ≤ 1572
      → let g = udp_checksum pointer ip n f in
        in_cksum2 g ip (load16 pointer 4 g) pointer (n + udphdrlen) ≡ 0
  udp_checksum-verifies b small =
      let g = udp_checksum pointer ip n f in
      let bg : IsBytes g = udp_checksum-IsBytes b in
      let len : load16 pointer 4 g ≡ load16 pointer 4 zeroed =
        ground (arith, stamped_ne (pointer + 4), stamped_ne (pointer + 5)) in
      rw len (
        in_cksum2-IsStamped zeroed g ip (load16 pointer 4 zeroed) pointer 3 (n + udphdrlen)
          (store16-IsBytes pointer 6 0 f b) bg
          (omega (
            arith,
            store16-IsBytes pointer 6 0 f b (pointer + 4),
            store16-IsBytes pointer 6 0 f b (pointer + 5),
          ))
          (omega arith) stamped
          (pseudo_sum-ext g zeroed ip _ (λ j p. stamped_ne j (inl (omega arith)))) stands)

-- In a buffer with room for it, behind the IP header, the datagram that `set_udp` leaves verifies
-- against its pseudo header, whatever the bytes of the buffer and of the data: the sum of `in_cksum2` over it is 0. The stored checksum is never 0, which would
-- mean that there is none.
pub set_udp-verifies :
    (p : UdpPacket) (pointer : ℕ) (xs : List ℕ) (ip : ℕ) (m : Mem)
    → let n = clamp_udp (length xs) in
      ip + 20 ≤ pointer
      → pointer + udphdrlen + n ≤ m.size
      → IsBytes m.byte
      → All (λ x. x < 256) xs
      → (m' : Mem) × (set_udp p pointer (some xs) ip m ≡ some m')
        × (in_cksum2 m'.byte ip (load16 pointer 4 m'.byte) pointer (n + udphdrlen) ≡ 0)
        × (load16 pointer 6 m'.byte ≢ 0)
set_udp-verifies p pointer xs ip m apart fits b bs =
    let n = clamp_udp (length xs) in
    let f = write_bytes (pointer + udphdrlen) (take n xs) (udp_header p pointer n m.byte) in
    (
      record m { byte = udp_bytes p pointer n xs ip m.byte },
      set_udp_lem p pointer xs ip m fits,
      udp_checksum-verifies pointer ip n f apart
          (write_bytes-IsBytes (pointer + udphdrlen) (take n xs) _ (take-All _ n xs bs)
            (udp_header-IsBytes p pointer n m.byte b))
          (clamp_udp-le (length xs)).1,
      not_zero pointer ip n f apart,
    )
