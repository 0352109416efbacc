-- ===== src/Udp/Laws.antt =====
-- What `set_udp` leaves in the buffer.
use redes1grupal.Base.{
  ℕ, ◌+◌, ◌≤◌, ◌<◌, ◌≡◌, ◌⊎◌, inl, inr, ◌∙◌, arith, some, List, htons, u16, length, take,
  length-take_le,
}
use redes1grupal.Memory.{Mem, Bytes, load16, write8, read_bytes, write_bytes}
use redes1grupal.Memory.Laws.{write8_at, write_bytes_ne, get_region_lem, read_bytes-region}
use redes1grupal.Packet.{UdpPacket}
use redes1grupal.JpcapSub.{udphdrlen}
use redes1grupal.Udp.{set_udp, analyze_udp, udp_header, udp_checksum, clamp_udp}

pub clamp_udp-le : (n : ℕ) → (clamp_udp n ≤ n) × (clamp_udp n ≤ 1572)
unfolding clamp_udp
clamp_udp-le n = ground arith

-- The bytes after `set_udp` has copied `n` bytes of data.
abbrev pub udp_bytes : UdpPacket → ℕ → ℕ → List ℕ → ℕ → Bytes → Bytes
udp_bytes p pointer n xs ip f =
    udp_checksum pointer ip n
      (write_bytes (pointer + udphdrlen) (take n xs) (udp_header p pointer n f))

pub set_udp_lem :
    (p : UdpPacket) (pointer : ℕ) (xs : List ℕ) (ip : ℕ) (m : Mem)
    → let n = clamp_udp (length xs) in
      pointer + udphdrlen + n ≤ m.size
      → set_udp p pointer (some xs) ip m
        ≡ some (record m { byte = udp_bytes p pointer n xs ip m.byte })
unfolding set_udp
set_udp_lem p pointer xs ip m h =
    let n = clamp_udp (length xs) in
    ground (
      arith,
      clamp_udp-le (length xs),
      get_region_lem xs n (pointer + udphdrlen) (record m { byte = udp_header p pointer n m.byte }),
    )

-- The checksum is written into its own two bytes.
pub udp_checksum_ne :
    (pointer ip n j : ℕ) (f : Bytes)
    → (j < pointer + 6) ⊎ (pointer + 7 < j)
    → udp_checksum pointer ip n f j ≡ f j
unfolding udp_checksum write8
udp_checksum_ne pointer ip n j f h = ground arith

pub udp_header_ne :
    (p : UdpPacket) (pointer n j : ℕ) (f : Bytes)
    → (j < pointer) ⊎ (pointer + 5 < j)
    → udp_header p pointer n f j ≡ f j
unfolding udp_header write8
udp_header_ne p pointer n j f h = ground arith

-- The fields of the header, as they stand on the wire.
udp_header_fields :
    (p : UdpPacket) (pointer n : ℕ) (f : Bytes)
    → let g = udp_header p pointer n f in
      (htons (load16 pointer 0 g) ≡ u16 p.src_port)
      × (htons (load16 pointer 2 g) ≡ u16 p.dst_port)
      × (htons (load16 pointer 4 g) ≡ u16 (n + udphdrlen))
unfolding udp_header
udp_header_fields p pointer n f = simp write8_at (omega arith)

udp_bytes_header :
    (p : UdpPacket) (pointer n : ℕ) (xs : List ℕ) (ip j : ℕ) (f : Bytes)
    → j < pointer + 6
    → udp_bytes p pointer n xs ip f j ≡ udp_header p pointer n f j
udp_bytes_header p pointer n xs ip j f h =
    udp_checksum_ne pointer ip n j _ (inl h)
    ∙ write_bytes_ne (pointer + udphdrlen) (take n xs) _ j (inl (omega arith))

pub udp_bytes_frame :
    (p : UdpPacket) (pointer n : ℕ) (xs : List ℕ) (ip j : ℕ) (f : Bytes)
    → n ≤ length xs
    → (j < pointer) ⊎ (pointer + udphdrlen + n ≤ j)
    → udp_bytes p pointer n xs ip f j ≡ f j
udp_bytes_frame p pointer n xs ip j f le h = ground (
  arith,
  udp_checksum_ne pointer ip n j
      (write_bytes (pointer + udphdrlen) (take n xs) (udp_header p pointer n f)),
  write_bytes_ne (pointer + udphdrlen) (take n xs) (udp_header p pointer n f) j,
  length-take_le n xs,
  udp_header_ne p pointer n j f,
)

pub analyze_udp_bytes :
    (p : UdpPacket) (pointer n : ℕ) (xs : List ℕ) (ip : ℕ) (m : Mem)
    → pointer + udphdrlen + n ≤ m.size
    → n ≤ 1572
    → analyze_udp pointer (record m { byte = udp_bytes p pointer n xs ip m.byte })
      ≡ some (record {
        src_port = u16 p.src_port;
        dst_port = u16 p.dst_port;
        datagram_length = n + udphdrlen;
      })
unfolding analyze_udp
analyze_udp_bytes p pointer n xs ip m h small = ground (
  arith,
  udp_bytes_header p pointer n xs ip (pointer + 0) m.byte,
  udp_bytes_header p pointer n xs ip (pointer + 1) m.byte,
  udp_bytes_header p pointer n xs ip (pointer + 2) m.byte,
  udp_bytes_header p pointer n xs ip (pointer + 3) m.byte,
  udp_bytes_header p pointer n xs ip (pointer + 4) m.byte,
  udp_bytes_header p pointer n xs ip (pointer + 5) m.byte,
  udp_header_fields p pointer n m.byte,
)

-- In a buffer with room for the datagram, `analyze_udp` reads back the ports that `set_udp` wrote, cut to 16 bits, and the length of the
-- datagram; the bytes behind the header are the data, and no byte outside is touched.
pub analyze_udp-set_udp :
    (p : UdpPacket) (pointer : ℕ) (xs : List ℕ) (ip : ℕ) (m : Mem)
    → let n = clamp_udp (length xs) in
      pointer + udphdrlen + n ≤ m.size
      → (m' : Mem) × (set_udp p pointer (some xs) ip m ≡ some m')
        × (analyze_udp pointer m'
            ≡ some (record {
              src_port = u16 p.src_port;
              dst_port = u16 p.dst_port;
              datagram_length = n + udphdrlen;
            }))
        × (read_bytes n (pointer + udphdrlen) m'.byte ≡ take n xs)
        × ((j : ℕ) → (j < pointer) ⊎ (pointer + udphdrlen + n ≤ j) → m'.byte j ≡ m.byte j)
analyze_udp-set_udp p pointer xs ip m h = (
  record m { byte = udp_bytes p pointer (clamp_udp (length xs)) xs ip m.byte },
  set_udp_lem p pointer xs ip m h,
  analyze_udp_bytes p pointer (clamp_udp (length xs)) xs ip m h (clamp_udp-le (length xs)).1,
  read_bytes-region (pointer + udphdrlen) _ xs _ _ (clamp_udp-le (length xs)).0
      (λ j p q. udp_checksum_ne pointer ip _ j _ (inr (omega arith))),
  λ j out. udp_bytes_frame p pointer _ xs ip j m.byte (clamp_udp-le (length xs)).0 out,
)

-- What is read is the six bytes before the checksum.
pub analyze_udp-ext :
    (pointer : ℕ) (m : Mem) (g : Bytes)
    → ((j : ℕ) → pointer ≤ j → j < pointer + 6 → g j ≡ m.byte j)
    → analyze_udp pointer (record m { byte = g }) ≡ analyze_udp pointer m
unfolding analyze_udp
analyze_udp-ext pointer m g same = ground (
  arith,
  same (pointer + 0),
  same (pointer + 1),
  same (pointer + 2),
  same (pointer + 3),
  same (pointer + 4),
  same (pointer + 5),
)
