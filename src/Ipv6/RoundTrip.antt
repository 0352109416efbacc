-- ===== src/Ipv6/RoundTrip.antt =====
-- `analyze_ipv6` after `set_ipv6`.
use redes1grupal.Packet.{IpPacket}
use redes1grupal.Ipv6.{
  inet_address, sign_extend8, finished, transport, extension_loop, ipv6_header, set_ipv6,
  analyze_ipv6, extension, set_ipv6_value,
}
use redes1grupal.Base.{
  inl, ap, take-length, ◌∙◌, refl, arith, ◌%◌, ◌≤◌, ◌+◌, length, u8, some, ◌▷◌, ◌≡◌, ℕ, List,
}
use redes1grupal.Memory.{store8, write8, store32, read_bytes, write_bytes, Mem, Bytes}
use redes1grupal.Memory.Laws.{get_region_lem, write_bytes_ne, write8_at, read_bytes-written}

-- The addresses of an IPv6 packet are sixteen bytes each.
pub record IsIpv6 (p : IpPacket) (src dst : List ℕ) : Type 0 where
  pub src_set : p.src_ip ≡ some src
  pub dst_set : p.dst_ip ≡ some dst
  pub src_size : length src ≡ 16
  pub dst_size : length dst ≡ 16

-- Where the next header is none of an extension header, the walk ends at once.
pub analyze_ipv6_plain :
    (q : ℕ) (base : IpPacket) (m : Mem)
    → extension (m.byte (q + 6)) ≡ transport
    → q + 40 ≤ m.size
    → analyze_ipv6 q base m ≡ finished (set_ipv6_value q m.byte base, 40)
unfolding analyze_ipv6 extension_loop
analyze_ipv6_plain q base m plain fits = ground (arith, plain)

module _ (p : IpPacket) (q : ℕ) (src dst : List ℕ) (f : Bytes) (v : IsIpv6 p src dst) where
  abbrev versioned : Bytes
  versioned = f ▷ store32 q 0 0 ▷ store8 q 0 0x60

  abbrev addressed : Bytes
  addressed = write_bytes (q + 24) dst (write_bytes (q + 8) src versioned)

  abbrev pub ipv6_bytes : Bytes
  ipv6_bytes = ipv6_header p q addressed

  ipv6_header_behind : (j : ℕ) → q + 8 ≤ j → ipv6_bytes j ≡ addressed j
  unfolding ipv6_header write8
  ipv6_header_behind j h = ground arith

  pub ipv6_header_fields :
      (ipv6_bytes (q + 6) ≡ p.protocol % 256) × (ipv6_bytes (q + 7) ≡ p.hop_limit % 256)
  unfolding ipv6_header
  ipv6_header_fields = simp write8_at (refl, refl)

  pub src_back : read_bytes 16 (q + 8) ipv6_bytes ≡ src
  src_back = read_bytes-written (q + 8) 16 src _ versioned v.src_size (λ j lo hi.
      ipv6_header_behind j (omega arith) ∙ write_bytes_ne (q + 24) dst _ j (inl (omega arith)))

  pub dst_back : read_bytes 16 (q + 24) ipv6_bytes ≡ dst
  dst_back =
      read_bytes-written (q + 24) 16 dst _ (write_bytes (q + 8) src versioned) v.dst_size
        (λ j lo hi. ipv6_header_behind j (omega arith))

  pub set_ipv6_eq :
      (m : Mem)
      → m.byte ≡ f
      → q + 40 ≤ m.size
      → set_ipv6 p q m ≡ some (record m { byte = ipv6_bytes })
  unfolding set_ipv6
  set_ipv6_eq m same fits =
      let m₁ : Mem = record m { byte = versioned } in
      let m₂ : Mem = record m { byte = write_bytes (q + 8) src versioned } in
      ground (
        arith,
        same,
        v.src_set,
        v.dst_set,
        v.src_size,
        v.dst_size,
        take-length src,
        take-length dst,
        get_region_lem src 16 (q + 8) m₁,
        get_region_lem dst 16 (q + 24) m₂,
      )

-- With both addresses of sixteen bytes, in a buffer with room for the header, and where the protocol is
-- none of an extension header, `analyze_ipv6` reads back what `set_ipv6` wrote: the hop limit and the
-- protocol, cut to a byte, the latter as a signed one, and both addresses, of which an IPv4-mapped one
-- comes back as its four bytes; in a packet of version 6, with a header of 40 bytes and no extensions.
pub analyze_ipv6-set_ipv6 :
    (p base : IpPacket) (q : ℕ) (src dst : List ℕ) (m : Mem)
    → IsIpv6 p src dst
    → extension (u8 p.protocol) ≡ transport
    → q + 40 ≤ m.size
    → (m' : Mem) × (r : IpPacket) × (set_ipv6 p q m ≡ some m')
      × (analyze_ipv6 q base m' ≡ finished (r, 40))
      × (r.version ≡ 6)
      × (r.src_ip ≡ some (inet_address src))
      × (r.dst_ip ≡ some (inet_address dst))
      × (r.hop_limit ≡ u8 p.hop_limit)
      × (r.protocol ≡ sign_extend8 (u8 p.protocol))
      × (r.options ≡ base.options)
unfolding set_ipv6_value
analyze_ipv6-set_ipv6 p base q src dst m v plain fits =
    let h = ipv6_header_fields p q src dst m.byte v in
    (
      record m { byte = ipv6_bytes p q src dst m.byte v },
      set_ipv6_value q (ipv6_bytes p q src dst m.byte v) base,
      set_ipv6_eq p q src dst m.byte v m refl fits,
      analyze_ipv6_plain q base (record m { byte = ipv6_bytes p q src dst m.byte v })
          (ap extension h.0 ∙ plain) fits,
      refl,
      ap (λ a. some (inet_address a)) (src_back p q src dst m.byte v),
      ap (λ a. some (inet_address a)) (dst_back p q src dst m.byte v),
      h.1,
      ap (λ x. sign_extend8 x) h.0,
      refl,
    )
