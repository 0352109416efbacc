-- ===== src/Tcp/RoundTrip.antt =====
-- `analyze_tcp` after `set_tcp`.
use redes1grupal.Base.{
  ℕ, ◌+◌, ◌/◌, ◌≤◌, ◌<◌, ◌≡◌, ◌⊎◌, inr, ◌∙◌, arith, Option, some, List, u16, u32, length, take,
  length-take_le,
}
use redes1grupal.Memory.{Mem, Bytes, read_bytes, write_bytes}
use redes1grupal.Memory.Laws.{write_bytes_ne, read_bytes-region}
use redes1grupal.Packet.{TcpPacket}
use redes1grupal.JpcapSub.{tcphdrlen}
use redes1grupal.Tcp.{set_tcp, analyze_tcp, tcp_values, tcp_header, clamp_tcp}
use redes1grupal.Tcp.Laws.{
  clamp_tcp-le, tcp_bytes, set_tcp_lem, tcp_checksum_ne, tcp_header_ne, tcp_flags_lem,
  tcp_header_fields,
}

pub tcp_bytes_header :
    (p : TcpPacket) (pointer n : ℕ) (xs : List ℕ) (ip j : ℕ) (f : Bytes)
    → (j < pointer + 16) ⊎ ((pointer + 17 < j) × (j < pointer + 20))
    → tcp_bytes p pointer n xs ip f j ≡ tcp_header p pointer f j
tcp_bytes_header p pointer n xs ip j f h = ground (
  arith,
  tcp_checksum_ne pointer ip n j
      (write_bytes (pointer + tcphdrlen) (take n xs) (tcp_header p pointer f)),
  write_bytes_ne (pointer + tcphdrlen) (take n xs) (tcp_header p pointer f) j,
)

pub tcp_bytes_frame :
    (p : TcpPacket) (pointer n : ℕ) (xs : List ℕ) (ip j : ℕ) (f : Bytes)
    → n ≤ length xs
    → (j < pointer) ⊎ (pointer + tcphdrlen + n ≤ j)
    → tcp_bytes p pointer n xs ip f j ≡ f j
tcp_bytes_frame p pointer n xs ip j f le h = ground (
  arith,
  tcp_checksum_ne pointer ip n j
      (write_bytes (pointer + tcphdrlen) (take n xs) (tcp_header p pointer f)),
  write_bytes_ne (pointer + tcphdrlen) (take n xs) (tcp_header p pointer f) j,
  length-take_le n xs,
  tcp_header_ne p pointer j f,
)

-- The values that a receiver is meant to see: integers cut to the widths of the header.
unfoldable pub wire_values : TcpPacket → Option (List ℕ) → TcpPacket
wire_values p options = record p {
  src_port = u16 p.src_port;
  dst_port = u16 p.dst_port;
  sequence = u32 p.sequence;
  ack_num = u32 p.ack_num;
  window = u16 p.window;
  urgent_pointer = u16 p.urgent_pointer;
  option = options;
}

tcp_values-tcp_header :
    (p q : TcpPacket) (pointer : ℕ) (f : Bytes)
    → tcp_values pointer q (tcp_header p pointer f) ≡ wire_values p q.option
unfolding tcp_values wire_values
tcp_values-tcp_header p q pointer f = ground (arith, tcp_header_fields p pointer f, tcp_flags_lem p)

-- The checksum field is not among what is read.
pub tcp_values-ext :
    (p : TcpPacket) (pointer : ℕ) (f g : Bytes)
    → ((j : ℕ)
        → pointer ≤ j
        → (j < pointer + 16) ⊎ ((pointer + 17 < j) × (j < pointer + 20))
        → f j ≡ g j)
    → tcp_values pointer p f ≡ tcp_values pointer p g
unfolding tcp_values
tcp_values-ext p pointer f g same = ground (
  arith,
  same (pointer + 0),
  same (pointer + 1),
  same (pointer + 2),
  same (pointer + 3),
  same (pointer + 4),
  same (pointer + 5),
  same (pointer + 6),
  same (pointer + 7),
  same (pointer + 8),
  same (pointer + 9),
  same (pointer + 10),
  same (pointer + 11),
  same (pointer + 13),
  same (pointer + 14),
  same (pointer + 15),
  same (pointer + 18),
  same (pointer + 19),
)

pub analyze_tcp_bytes :
    (p q : TcpPacket) (pointer n : ℕ) (xs : List ℕ) (ip : ℕ) (m : Mem)
    → pointer + tcphdrlen + n ≤ m.size
    → analyze_tcp pointer q (record m { byte = tcp_bytes p pointer n xs ip m.byte })
      ≡ some (wire_values p q.option, tcphdrlen)
unfolding analyze_tcp
analyze_tcp_bytes p q pointer n xs ip m h =
    let same : tcp_values pointer q (tcp_bytes p pointer n xs ip m.byte) ≡ wire_values p q.option =
      tcp_values-ext q pointer _ _ (λ j lo out. tcp_bytes_header p pointer n xs ip j m.byte out)
      ∙ tcp_values-tcp_header p q pointer m.byte in
    ground (
      arith,
      same,
      tcp_bytes_header p pointer n xs ip (pointer + 12) m.byte,
      tcp_header_fields p pointer m.byte,
    )

-- Memories that agree from the start of the header on are read alike, where there are no options.
pub analyze_tcp-ext :
    (pointer : ℕ) (p : TcpPacket) (m : Mem) (g : Bytes)
    → m.byte (pointer + 12) / 16 ≡ 5
    → ((j : ℕ) → pointer ≤ j → g j ≡ m.byte j)
    → analyze_tcp pointer p (record m { byte = g }) ≡ analyze_tcp pointer p m
unfolding analyze_tcp
analyze_tcp-ext pointer p m g plain same =
    let values : tcp_values pointer p g ≡ tcp_values pointer p m.byte =
      tcp_values-ext p pointer g m.byte (λ j lo out. same j lo) in
    ground (arith, values, same (pointer + 12))

-- The same for memories of different sizes.
pub analyze_tcp-agree :
    (pointer : ℕ) (p : TcpPacket) (m m' : Mem)
    → m.byte (pointer + 12) / 16 ≡ 5
    → pointer + 20 ≤ m.size
    → pointer + 20 ≤ m'.size
    → ((j : ℕ) → pointer ≤ j → j < pointer + 20 → m'.byte j ≡ m.byte j)
    → analyze_tcp pointer p m' ≡ analyze_tcp pointer p m
unfolding analyze_tcp
analyze_tcp-agree pointer p m m' plain fits fits' same =
    let values : tcp_values pointer p m'.byte ≡ tcp_values pointer p m.byte =
      tcp_values-ext p pointer m'.byte m.byte (λ j lo out. same j lo (omega arith)) in
    ground (arith, values, same (pointer + 12))

-- In a buffer with room for the segment, `analyze_tcp` reads back every value that `set_tcp` wrote, integers cut to the widths of the
-- header and all eight flags, and finds no options; the bytes behind the header are the data, and
-- no byte outside is touched.
pub analyze_tcp-set_tcp :
    (p q : TcpPacket) (pointer : ℕ) (xs : List ℕ) (ip : ℕ) (m : Mem)
    → let n = clamp_tcp (length xs) in
      pointer + tcphdrlen + n ≤ m.size
      → (m' : Mem) × (set_tcp p pointer (some xs) ip m ≡ some m')
        × (analyze_tcp pointer q m' ≡ some (wire_values p q.option, tcphdrlen))
        × (read_bytes n (pointer + tcphdrlen) m'.byte ≡ take n xs)
        × ((j : ℕ) → (j < pointer) ⊎ (pointer + tcphdrlen + n ≤ j) → m'.byte j ≡ m.byte j)
analyze_tcp-set_tcp p q pointer xs ip m h = (
  record m { byte = tcp_bytes p pointer (clamp_tcp (length xs)) xs ip m.byte },
  set_tcp_lem p pointer xs ip m h,
  analyze_tcp_bytes p q pointer (clamp_tcp (length xs)) xs ip m h,
  read_bytes-region (pointer + tcphdrlen) _ xs _ _ (clamp_tcp-le (length xs)).0
      (λ j r s. tcp_checksum_ne pointer ip _ j _ (inr (omega arith))),
  λ j out. tcp_bytes_frame p pointer _ xs ip j m.byte (clamp_tcp-le (length xs)).0 out,
)
