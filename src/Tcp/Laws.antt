-- ===== src/Tcp/Laws.antt =====
-- What `set_tcp` leaves in the buffer.
use redes1grupal.Base.{
  ℕ, suc, htons_wire, htonl_wire, ◌+◌, ◌*◌, ◌/◌, ◌%◌, ◌≤◌, ◌<◌, ◌≡◌, ◌⊎◌, refl, arith, none, some,
  List, Bool, true, false, htons, htonl, u16, u32, flag, has_bits, ltb, length, take, mask_bit0,
  mask_bit1, mask_bit2, mask_bit3, mask_bit4, mask_bit5, mask_bit6, mask_bit7,
}
use redes1grupal.Memory.{Mem, Bytes, load16, load32, write8, write_bytes, get_region}
use redes1grupal.Memory.Laws.{write8_at, get_region_lem}
use redes1grupal.Packet.{TcpPacket}
use redes1grupal.JpcapSub.{tcphdrlen}
use redes1grupal.Tcp.{set_tcp, tcp_header, tcp_checksum, tcp_flags, clamp_tcp}

pub clamp_tcp-le : (n : ℕ) → (clamp_tcp n ≤ n) × (clamp_tcp n ≤ 1560)
unfolding clamp_tcp
clamp_tcp-le n = ground arith

-- The bytes after `set_tcp` has copied `n` bytes of data.
abbrev pub tcp_bytes : TcpPacket → ℕ → ℕ → List ℕ → ℕ → Bytes → Bytes
tcp_bytes p pointer n xs ip f =
    tcp_checksum pointer ip n
      (write_bytes (pointer + tcphdrlen) (take n xs) (tcp_header p pointer f))

pub set_tcp_lem :
    (p : TcpPacket) (pointer : ℕ) (xs : List ℕ) (ip : ℕ) (m : Mem)
    → let n = clamp_tcp (length xs) in
      pointer + tcphdrlen + n ≤ m.size
      → set_tcp p pointer (some xs) ip m
        ≡ some (record m { byte = tcp_bytes p pointer n xs ip m.byte })
unfolding set_tcp
set_tcp_lem p pointer xs ip m h =
    let n = clamp_tcp (length xs) in
    ground (
      arith,
      clamp_tcp-le (length xs),
      get_region_lem xs n (pointer + tcphdrlen) (record m { byte = tcp_header p pointer m.byte }),
    )

-- The checksum is written into its own two bytes.
pub tcp_checksum_ne :
    (pointer ip n j : ℕ) (f : Bytes)
    → (j < pointer + 16) ⊎ (pointer + 17 < j)
    → tcp_checksum pointer ip n f j ≡ f j
unfolding tcp_checksum write8
tcp_checksum_ne pointer ip n j f h = ground arith

pub tcp_header_ne :
    (p : TcpPacket) (pointer j : ℕ) (f : Bytes)
    → (j < pointer) ⊎ (pointer + 19 < j)
    → tcp_header p pointer f j ≡ f j
unfolding tcp_header write8
tcp_header_ne p pointer j f h = ground arith

-- The eight binary digits of a byte.
digits_of_sum :
    (a b c d e f g h : ℕ)
    → (a ≤ 1) × (b ≤ 1) × (c ≤ 1) × (d ≤ 1) × (e ≤ 1) × (f ≤ 1) × (g ≤ 1) × (h ≤ 1)
    → let v = a * 128 + b * 64 + c * 32 + d * 16 + e * 8 + f * 4 + g * 2 + h in
      (v < 256)
      × (v / 128 % 2 ≡ a)
      × (v / 64 % 2 ≡ b)
      × (v / 32 % 2 ≡ c)
      × (v / 16 % 2 ≡ d)
      × (v / 8 % 2 ≡ e)
      × (v / 4 % 2 ≡ f)
      × (v / 2 % 2 ≡ g)
      × (v % 2 ≡ h)
digits_of_sum a b c d e f g h le = omega arith

flag-le : (b : Bool) → flag b 1 ≤ 1
flag-le true = omega arith
flag-le false = omega arith

bit_back : (b : Bool) (x k : ℕ) → x ≡ flag b 1 * suc k → ltb 0 x ≡ b
bit_back true x k e = ground arith
bit_back false x k e = ground arith

-- Each flag is read back from the sum.
pub tcp_flags_lem :
    (p : TcpPacket)
    → let v = tcp_flags p in
      (v < 256)
      × (has_bits v 0x20 ≡ p.urg)
      × (has_bits v 0x10 ≡ p.ack)
      × (has_bits v 0x08 ≡ p.psh)
      × (has_bits v 0x04 ≡ p.rst)
      × (has_bits v 0x02 ≡ p.syn)
      × (has_bits v 0x01 ≡ p.fin)
      × (has_bits v 0x80 ≡ p.rsv1)
      × (has_bits v 0x40 ≡ p.rsv2)
unfolding tcp_flags
tcp_flags_lem p =
    let v : ℕ = tcp_flags p in
    let d =
      digits_of_sum (flag p.rsv1 1) (flag p.rsv2 1) (flag p.urg 1) (flag p.ack 1) (flag p.psh 1)
        (flag p.rst 1) (flag p.syn 1) (flag p.fin 1)
        (
          flag-le p.rsv1,
          flag-le p.rsv2,
          flag-le p.urg,
          flag-le p.ack,
          flag-le p.psh,
          flag-le p.rst,
          flag-le p.syn,
          flag-le p.fin,
        ) in
    (
      d.0,
      bit_back p.urg _ 31 (omega (arith, mask_bit5 v d.0)),
      bit_back p.ack _ 15 (omega (arith, mask_bit4 v d.0)),
      bit_back p.psh _ 7 (omega (arith, mask_bit3 v d.0)),
      bit_back p.rst _ 3 (omega (arith, mask_bit2 v d.0)),
      bit_back p.syn _ 1 (omega (arith, mask_bit1 v d.0)),
      bit_back p.fin _ 0 (omega (arith, mask_bit0 v d.0)),
      bit_back p.rsv1 _ 127 (omega (arith, mask_bit7 v d.0)),
      bit_back p.rsv2 _ 63 (omega (arith, mask_bit6 v d.0)),
    )

-- The fields of the header, as they stand on the wire.
pub tcp_header_fields :
    (p : TcpPacket) (pointer : ℕ) (f : Bytes)
    → let g = tcp_header p pointer f in
      (htons (load16 pointer 0 g) ≡ u16 p.src_port)
      × (htons (load16 pointer 2 g) ≡ u16 p.dst_port)
      × (htonl (load32 pointer 4 g) ≡ u32 p.sequence)
      × (htonl (load32 pointer 8 g) ≡ u32 p.ack_num)
      × (g (pointer + 12) / 16 ≡ 5)
      × (g (pointer + 13) ≡ tcp_flags p % 256)
      × (htons (load16 pointer 14 g) ≡ u16 p.window)
      × (htons (load16 pointer 18 g) ≡ u16 p.urgent_pointer)
unfolding tcp_header
tcp_header_fields p pointer f = simp write8_at (
  htons_wire _ (omega arith),
  htons_wire _ (omega arith),
  htonl_wire _ (omega arith),
  htonl_wire _ (omega arith),
  omega arith,
  refl,
  htons_wire _ (omega arith),
  htons_wire _ (omega arith),
)

-- Without room for the header and what is copied behind it, the copy leaves the buffer.
pub set_tcp_fault :
    (p : TcpPacket) (pointer : ℕ) (xs : List ℕ) (ip : ℕ) (m : Mem)
    → m.size < pointer + tcphdrlen + clamp_tcp (length xs)
    → set_tcp p pointer (some xs) ip m ≡ none
unfolding set_tcp get_region
set_tcp_fault p pointer xs ip m h = ground (arith, clamp_tcp-le (length xs))
