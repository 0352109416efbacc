-- ===== src/SetPacket/Ipv4Wire.antt =====
-- The bytes of an IPv4 header as `set_packet` sends them.
use redes1grupal.Base.{ℕ, ◌+◌, ◌/◌, ◌%◌, ◌^◌, ◌≤◌, ◌<◌, ◌≡◌, ◌⊎◌, inl, inr, ◌∙◌, arith, some, List}
use redes1grupal.Memory.{Mem, Bytes, write8, read_bytes, write_bytes}
use redes1grupal.Memory.Laws.{write_bytes_ne, IsBytes, read_bytes-written}
use redes1grupal.Packet.{IpPacket}
use redes1grupal.Ip.{analyze_ip, ip_header}
use redes1grupal.Ip.Laws.{IsIpv4, ip_bytes, ip_bytes_header, ip_header_fields}
use redes1grupal.SetPacket.{finish_bytes}
use redes1grupal.SetPacket.Finish.{finish_fields, finish_ne}
use redes1grupal.SetPacket.Ipv4.{
  protocol_bytes, IsInRange, tos_digits, wire_ip, HoldsIp, analyze_HoldsIp,
}

module _ (p : IpPacket) (q protocol size : ℕ) (src dst : List ℕ) (f g : Bytes)
    (v : IsIpv4 p src dst) (r : IsInRange p) (small : size < 2 ^ 16) (octet : protocol < 256)
    (bg : IsBytes g)
    (same : (j : ℕ)
      → q ≤ j
      → j < q + 20
      → g j ≡ protocol_bytes q protocol size (ip_bytes p q src dst f) j) where
  abbrev pub wire : Bytes
  wire = finish_bytes q g

  -- The bytes that the protocol and the length do not take.
  from_header : (i : ℕ) → (i < 2) ⊎ ((3 < i) × (i < 9)) → g (q + i) ≡ ip_header p q f (q + i)
  unfolding write8
  from_header i h =
      same (q + i) (omega arith) (omega arith)
      ∙ ground (arith, ip_bytes_header p q src dst f (q + i) v.src_size)

  length_bytes : (g (q + 2) ≡ size % 256) × (g (q + 3) ≡ size / 256) × (g (q + 9) ≡ protocol)
  unfolding write8
  length_bytes = ground (arith, same (q + 2), same (q + 3), same (q + 9))

  -- The bytes that `finish_bytes` leaves alone as well.
  kept : (i : ℕ) → (i < 2) ⊎ ((3 < i) × (i < 6) ⊎ (i ≡ 8)) → wire (q + i) ≡ ip_header p q f (q + i)
  kept i h =
      let outside : (q + i < q + 2)
          ⊎ ((q + 3 < q + i) × (q + i < q + 6)
              ⊎ ((q + 7 < q + i) × (q + i < q + 10) ⊎ (q + 11 < q + i))) =
        omega arith in
      let unset : (i < 2) ⊎ ((3 < i) × (i < 9)) = omega arith in
      finish_ne q (q + i) g outside ∙ from_header i unset

  -- The addresses are where they were copied to.
  address_bytes : (j : ℕ) → q + 12 ≤ j → j < q + 20 → wire j ≡ ip_bytes p q src dst f j
  unfolding write8
  address_bytes j lo hi =
      finish_ne q j g (inr (inr (inr (omega arith))))
      ∙ same j (omega arith) (omega arith)
      ∙ ground arith

  src_read : read_bytes 4 (q + 12) wire ≡ src
  src_read = read_bytes-written (q + 12) 4 src wire (ip_header p q f) v.src_size (λ j lo hi.
      address_bytes j lo (omega arith) ∙ write_bytes_ne (q + 16) dst _ j (inl (omega arith)))

  dst_read : read_bytes 4 (q + 16) wire ≡ dst
  dst_read =
      read_bytes-written (q + 16) 4 dst wire (write_bytes (q + 12) src (ip_header p q f)) v.dst_size
        (λ j lo hi. address_bytes j (omega arith) (omega arith))

  pub wire_fields : HoldsIp wire p q protocol size src dst
  wire_fields = record {
    version_byte = kept 0 (omega arith) ∙ (ip_header_fields p q f).0;
    tos_byte = omega (arith, kept 1 (omega arith), (ip_header_fields p q f).1, tos_digits p r);
    length_word = omega (arith, finish_fields q g bg, length_bytes);
    ident_word =
        omega (arith, kept 4 (omega arith), kept 5 (omega arith), (ip_header_fields p q f).2);
    fragment_low =
        omega
          (arith, finish_fields q g bg, from_header 7 (omega arith), (ip_header_fields p q f).4);
    fragment_high =
        omega
          (arith, finish_fields q g bg, from_header 6 (omega arith), (ip_header_fields p q f).3);
    hop_byte = omega (arith, kept 8 (omega arith), (ip_header_fields p q f).5, r.hop_limit_range);
    protocol_byte = finish_ne q (q + 9) g (omega arith) ∙ length_bytes.2;
    src_bytes = src_read;
    dst_bytes = dst_read;
  }

  pub analyze_wire :
      (base : IpPacket) (m : Mem)
      → q + 20 ≤ m.size
      → analyze_ip q base (record m { byte = wire })
        ≡ some (wire_ip base p protocol size src dst, 20)
  analyze_wire base m fits =
      analyze_HoldsIp wire p q protocol size src dst base m wire_fields r fits
