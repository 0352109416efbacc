-- ===== src/Ip/Laws.antt =====
-- What `set_ip` leaves in the buffer.
use redes1grupal.Base.{
  ℕ, ◌+◌, ◌/◌, ◌%◌, ◌≤◌, ◌<◌, ◌≡◌, ◌⊎◌, inl, ◌∙◌, refl, arith, some, List, htons, u16, length, take,
  take-length, All, htons_wire,
}
use redes1grupal.Memory.{Mem, Bytes, load16, write8, write_bytes}
use redes1grupal.Memory.Laws.{
  read_bytes_ext, write8_at, write_bytes_ne, IsBytes, get_region_lem, write_bytes-IsBytes,
}
use redes1grupal.Packet.{IpPacket}
use redes1grupal.Ip.{set_ipv4_value, set_ip, ip_header, fragment_field, tos_field}

-- The addresses of an IPv4 packet are four bytes each.
pub record IsIpv4 (p : IpPacket) (src dst : List ℕ) : Type 0 where
  pub src_set : p.src_ip ≡ some src
  pub dst_set : p.dst_ip ≡ some dst
  pub src_size : length src ≡ 4
  pub dst_size : length dst ≡ 4

-- The bytes after `set_ip`.
abbrev pub ip_bytes : IpPacket → ℕ → List ℕ → List ℕ → Bytes → Bytes
ip_bytes p pointer src dst f =
    write_bytes (pointer + 16) dst (write_bytes (pointer + 12) src (ip_header p pointer f))

take_all : (n : ℕ) (xs : List ℕ) → length xs ≡ n → take n xs ≡ xs
take_all n xs e = rw e at (take-length xs)

pub set_ip_lem :
    (p : IpPacket) (pointer : ℕ) (src dst : List ℕ) (m : Mem)
    → IsIpv4 p src dst
    → pointer + 20 ≤ m.size
    → set_ip p pointer m ≡ some (record m { byte = ip_bytes p pointer src dst m.byte })
unfolding set_ip
set_ip_lem p pointer src dst m v h =
    let m₁ : Mem = record m { byte = ip_header p pointer m.byte } in
    let m₂ : Mem = record m {
      byte = write_bytes (pointer + 12) src (ip_header p pointer m.byte);
    } in
    ground (
      arith,
      v.src_set,
      v.dst_set,
      v.src_size,
      v.dst_size,
      take_all 4 src,
      take_all 4 dst,
      get_region_lem src 4 (pointer + 12) m₁,
      get_region_lem dst 4 (pointer + 16) m₂,
    )

pub ip_bytes_header :
    (p : IpPacket) (pointer : ℕ) (src dst : List ℕ) (f : Bytes) (j : ℕ)
    → length src ≡ 4
    → j < pointer + 12
    → ip_bytes p pointer src dst f j ≡ ip_header p pointer f j
ip_bytes_header p pointer src dst f j s h =
    write_bytes_ne (pointer + 16) dst _ j (inl (omega arith))
    ∙ write_bytes_ne (pointer + 12) src _ j (inl h)

ip_header_ne :
    (p : IpPacket) (pointer j : ℕ) (f : Bytes)
    → (j < pointer) ⊎ (pointer + 8 < j)
    → ip_header p pointer f j ≡ f j
unfolding ip_header write8
ip_header_ne p pointer j f h = ground arith

pub ip_bytes_frame :
    (p : IpPacket) (pointer : ℕ) (src dst : List ℕ) (f : Bytes) (j : ℕ)
    → length src ≡ 4
    → length dst ≡ 4
    → (j < pointer) ⊎ (pointer + 20 ≤ j)
    → ip_bytes p pointer src dst f j ≡ f j
ip_bytes_frame p pointer src dst f j s d h = ground (
  arith,
  write_bytes_ne (pointer + 16) dst (write_bytes (pointer + 12) src (ip_header p pointer f)) j,
  write_bytes_ne (pointer + 12) src (ip_header p pointer f) j,
  ip_header_ne p pointer j f,
)

pub ip_header-IsBytes :
    (p : IpPacket) (pointer : ℕ) (f : Bytes) → IsBytes f → IsBytes (ip_header p pointer f)
unfolding ip_header write8
ip_header-IsBytes p pointer f b j = ground (arith, b j)

-- The fields of the header, before `set_packet` swaps the fragment field.
pub ip_header_fields :
    (p : IpPacket) (pointer : ℕ) (f : Bytes)
    → let g = ip_header p pointer f in
      (g (pointer + 0) ≡ 0x45)
      × (g (pointer + 1) ≡ tos_field p % 256)
      × (htons (load16 pointer 4 g) ≡ u16 p.ident)
      × (g (pointer + 6) ≡ fragment_field p % 256)
      × (g (pointer + 7) ≡ fragment_field p / 256 % 256)
      × (g (pointer + 8) ≡ p.hop_limit % 256)
unfolding ip_header
ip_header_fields p pointer f =
    simp write8_at (omega arith, refl, htons_wire _ (omega arith), refl, refl, refl)

pub ip_bytes-IsBytes :
    (p : IpPacket) (pointer : ℕ) (src dst : List ℕ) (f : Bytes)
    → All (λ x. x < 256) src
    → All (λ x. x < 256) dst
    → IsBytes f
    → IsBytes (ip_bytes p pointer src dst f)
ip_bytes-IsBytes p pointer src dst f hs hd b =
    write_bytes-IsBytes (pointer + 16) dst _ hd
      (write_bytes-IsBytes (pointer + 12) src _ hs (ip_header-IsBytes p pointer f b))

-- The values that are read depend on the twenty bytes of the header.
pub set_ipv4_value-ext :
    (base : IpPacket) (q : ℕ) (f g : Bytes)
    → ((j : ℕ) → q ≤ j → j < q + 20 → f j ≡ g j)
    → set_ipv4_value q f base ≡ set_ipv4_value q g base
unfolding set_ipv4_value
set_ipv4_value-ext base q f g same = ground (
  arith,
  same (q + 1),
  same (q + 2),
  same (q + 3),
  same (q + 4),
  same (q + 5),
  same (q + 6),
  same (q + 7),
  same (q + 8),
  same (q + 9),
  read_bytes_ext 4 (q + 12) f g (λ j lo hi. same j (omega arith) (omega arith)),
  read_bytes_ext 4 (q + 16) f g (λ j lo hi. same j (omega arith) (omega arith)),
)
