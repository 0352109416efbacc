-- ===== src/Tcp/Checksum.antt =====
-- The checksum that `set_tcp` stores.
use redes1grupal.Base.{
  ℕ, ◌+◌, ◌*◌, ◌≤◌, ◌<◌, ◌≡◌, ◌⊎◌, inl, inr, arith, some, List, htons, u16, length, take, All,
}
use redes1grupal.Memory.{Mem, Bytes, store16, write8, write_bytes}
use redes1grupal.Memory.Laws.{IsBytes, store16-IsBytes, write_bytes-IsBytes, take-All}
use redes1grupal.Packet.{TcpPacket}
use redes1grupal.Checksum.{in_cksum2}
use redes1grupal.Checksum.Verify.{IsStamped}
use redes1grupal.Checksum.Segment.{in_cksum2-lt, pseudo_sum-ext, Stands, in_cksum2-IsStamped}
use redes1grupal.JpcapSub.{tcphdrlen}
use redes1grupal.Tcp.{set_tcp, tcp_header, tcp_checksum, clamp_tcp}
use redes1grupal.Tcp.Laws.{clamp_tcp-le, tcp_bytes, set_tcp_lem}

pub tcp_header-IsBytes :
    (p : TcpPacket) (pointer : ℕ) (f : Bytes) → IsBytes f → IsBytes (tcp_header p pointer f)
unfolding tcp_header write8
tcp_header-IsBytes p pointer f b j = ground (arith, b j)

module _ (pointer ip n : ℕ) (f : Bytes) (apart : ip + 20 ≤ pointer) where
  abbrev pub zeroed : Bytes
  zeroed = store16 pointer 16 0 f

  abbrev pub len : ℕ
  len = htons (u16 (u16 n + tcphdrlen))

  abbrev sum : ℕ
  sum = in_cksum2 zeroed ip len pointer (n + tcphdrlen)

  stamped_ne :
      (j : ℕ) → (j < pointer + 16) ⊎ (pointer + 17 < j) → tcp_checksum pointer ip n f j ≡ zeroed j
  unfolding tcp_checksum write8
  stamped_ne j h = ground arith

  stamped : IsStamped zeroed (tcp_checksum pointer ip n f) pointer 8 (n + tcphdrlen)
  stamped = record {
    inside = omega arith;
    before = λ j p q. stamped_ne j (inl q);
    after = λ j p q. stamped_ne j (inr (omega arith));
    zero_low = unfold write8 in ground arith;
    zero_high = unfold write8 in ground arith;
  }

  stands :
      Stands
        (tcp_checksum pointer ip n f (pointer + 16)
          + tcp_checksum pointer ip n f (pointer + 16 + 1) * 256)
        sum
  unfolding tcp_checksum write8
  stands = ground (arith, in_cksum2-lt zeroed ip len pointer (n + tcphdrlen))

  pub tcp_checksum-IsBytes : IsBytes f → IsBytes (tcp_checksum pointer ip n f)
  unfolding tcp_checksum write8
  tcp_checksum-IsBytes b j = ground (arith, b j)

  pub tcp_checksum-verifies :
      IsBytes f
      → n ≤ 1560
      → in_cksum2 (tcp_checksum pointer ip n f) ip len pointer (n + tcphdrlen) ≡ 0
  tcp_checksum-verifies b small =
      let g = tcp_checksum pointer ip n f in
      in_cksum2-IsStamped zeroed g ip len pointer 8 (n + tcphdrlen)
        (store16-IsBytes pointer 16 0 f b) (tcp_checksum-IsBytes b) (omega arith) (omega arith)
        stamped (pseudo_sum-ext g zeroed ip _ (λ j p. stamped_ne j (inl (omega arith)))) stands

-- In a buffer with room for it, behind the IP header, the segment that `set_tcp` leaves verifies
-- against its pseudo header, whatever the bytes of the buffer and of the data: the sum of `in_cksum2` over it is 0.
pub set_tcp-verifies :
    (p : TcpPacket) (pointer : ℕ) (xs : List ℕ) (ip : ℕ) (m : Mem)
    → let n = clamp_tcp (length xs) in
      ip + 20 ≤ pointer
      → pointer + tcphdrlen + n ≤ m.size
      → IsBytes m.byte
      → All (λ x. x < 256) xs
      → (m' : Mem) × (set_tcp p pointer (some xs) ip m ≡ some m')
        × (in_cksum2 m'.byte ip (htons (n + tcphdrlen)) pointer (n + tcphdrlen) ≡ 0)
set_tcp-verifies p pointer xs ip m apart fits b bs =
    let n = clamp_tcp (length xs) in
    let f = write_bytes (pointer + tcphdrlen) (take n xs) (tcp_header p pointer m.byte) in
    let small : n ≤ 1560 = (clamp_tcp-le (length xs)).1 in
    let same : u16 (u16 n + tcphdrlen) ≡ n + tcphdrlen = omega arith in
    (
      record m { byte = tcp_bytes p pointer n xs ip m.byte },
      set_tcp_lem p pointer xs ip m fits,
      rw same at (
          tcp_checksum-verifies pointer ip n f apart
            (write_bytes-IsBytes (pointer + tcphdrlen) (take n xs) _ (take-All _ n xs bs)
              (tcp_header-IsBytes p pointer m.byte b))
            small),
    )
