-- ===== src/SetPacket/TcpIpv6.antt =====
-- A TCP packet over IPv6.
use redes1grupal.Ipv6.{
  inet_address, sign_extend8, extension, finished, analyze_ipv6, set_ipv6_value,
}
use redes1grupal.Tcp.{analyze_tcp, tcp_header}
use redes1grupal.Packet.{tcp, TcpPacket, IpPacket}
use redes1grupal.Base.{
  ◌/◌, ◌%◌, ap, refl, take-length, add_assoc, inr, u16, some, inl, ◌▷◌, htons, ◌<◌, ◌∙◌, u8, ◌+◌,
  length, false, arith, ◌≡◌, List, ◌≤◌, ℕ,
}
use redes1grupal.Memory.{write8, store16, store8, load16, Bytes, read_bytes, Mem}
use redes1grupal.Ipv6.RoundTrip.{
  analyze_ipv6_plain, set_ipv6_eq, dst_back, src_back, ipv6_header_fields, ipv6_bytes, IsIpv6,
}
use redes1grupal.SetPacket.{
  ip_part, finish_ipv4, set_protocol, set_transport, set_network, set_body, is_v4,
}
use redes1grupal.Memory.Laws.{read_bytes_ext, read_bytes-region}
use redes1grupal.Tcp.Laws.{set_tcp_lem, tcp_checksum_ne, tcp_bytes}
use redes1grupal.Tcp.RoundTrip.{analyze_tcp_bytes, wire_values, tcp_bytes_frame}
use redes1grupal.SetPacket.Tcp.{clamp_tcp_small}

module _ (p : IpPacket) (t : TcpPacket) (q : ℕ) (src dst xs : List ℕ) (m : Mem)
    (v : IsIpv6 p src dst) (six : is_v4 p ≡ false) (small : length xs ≤ 1560)
    (fits : q + 60 + length xs ≤ m.size) where
  abbrev based : Bytes
  based = ipv6_bytes p q src dst m.byte v

  -- The next header, and the length in the byte order of the machine.
  abbrev under : Bytes
  under = based ▷ store8 q 6 6 ▷ store16 q 4 (u16 (length xs + 60))

  abbrev sent : Bytes
  sent = tcp_bytes t (q + 40) (length xs) xs q under

  set_body_tcp6 :
      set_body (tcp p t) q (length xs) (some xs) m ≡ some (length xs + 60, record m { byte = sent })
  unfolding set_body set_network set_transport set_protocol finish_ipv4 ip_part
  set_body_tcp6 = ground (
    arith,
    six,
    set_ipv6_eq p q src dst m.byte v m refl (omega arith),
    clamp_tcp_small (length xs),
    set_tcp_lem t (q + 40) xs q (record m { byte = under }),
  )

  in_front : (j : ℕ) → j < q + 40 → sent j ≡ under j
  in_front j h = tcp_bytes_frame t (q + 40) (length xs) xs q j under (omega arith) (inl h)

  behind : (j : ℕ) → q + 7 ≤ j → under j ≡ based j
  behind j h = unfold write8 in ground arith

  next_header : sent (q + 6) ≡ 6
  next_header = in_front (q + 6) (omega arith) ∙ unfold write8 in ground arith

  hop_limit_read : sent (q + 7) ≡ u8 p.hop_limit
  hop_limit_read =
      in_front (q + 7) (omega arith)
      ∙ behind (q + 7) (omega arith)
      ∙ (ipv6_header_fields p q src dst m.byte v).1

  plen_bytes :
      (under (q + 4) ≡ (length xs + 60) % 256) × (under (q + (4 + 1)) ≡ (length xs + 60) / 256)
  unfolding write8
  plen_bytes = (ground arith, ground arith)

  -- The length is read from its bytes in the other order.
  plen_read : htons (load16 q 4 sent) ≡ htons (length xs + 60)
  plen_read =
      let low : sent (q + 4) ≡ (length xs + 60) % 256 =
        in_front (q + 4) (omega arith) ∙ plen_bytes.0 in
      let high : sent (q + (4 + 1)) ≡ (length xs + 60) / 256 =
        in_front (q + (4 + 1)) (omega arith) ∙ plen_bytes.1 in
      let whole : load16 q 4 sent ≡ length xs + 60 = rw low (rw high (omega arith)) in
      ap htons whole

  src_read : read_bytes 16 (q + 8) sent ≡ src
  src_read =
      read_bytes_ext 16 (q + 8) sent based
        (λ j lo hi. in_front j (omega arith) ∙ behind j (omega arith))
      ∙ src_back p q src dst m.byte v

  dst_read : read_bytes 16 (q + 24) sent ≡ dst
  dst_read =
      read_bytes_ext 16 (q + 24) sent based
        (λ j lo hi. in_front j (omega arith) ∙ behind j (omega arith))
      ∙ dst_back p q src dst m.byte v

  data_read : read_bytes (length xs) (q + 60) sent ≡ xs
  data_read =
      read_bytes-region (q + 60) (length xs) xs sent (tcp_header t (q + 40) under) (omega arith)
        (λ j lo hi.
          tcp_checksum_ne (q + 40) q (length xs) j _ (inr (omega arith)) ∙ rw (add_assoc q 40 20))
      ∙ take-length xs

-- A TCP packet of a version other than 4, with both addresses of sixteen bytes and at most 1560 bytes of
-- data, laid out at `q` in a buffer with room for it: `analyze_ipv6` reads the addresses back, an
-- IPv4-mapped one as its four bytes, and the hop limit, cut to a byte, TCP as the next header and no
-- extensions, and `analyze_tcp` the values of the segment behind the header, cut to their widths, with
-- no options read; the data follows; and the length that is returned is that of the whole packet. The
-- length in the header does not come back: it counts the header, and its bytes are in the order of the
-- machine.
pub set_body-tcp_ipv6 :
    (p : IpPacket) (t : TcpPacket) (q : ℕ) (src dst xs : List ℕ) (m : Mem) (base : IpPacket)
    (old : TcpPacket)
    → IsIpv6 p src dst
    → is_v4 p ≡ false
    → length xs ≤ 1560
    → q + 60 + length xs ≤ m.size
    → (m' : Mem) × (r : IpPacket) × (set_body (tcp p t) q (length xs) (some xs) m
        ≡ some (length xs + 60, m'))
      × (analyze_ipv6 q base m' ≡ finished (r, 40))
      × (r.src_ip ≡ some (inet_address src))
      × (r.dst_ip ≡ some (inet_address dst))
      × (r.hop_limit ≡ u8 p.hop_limit)
      × (r.protocol ≡ 6)
      × (r.total_length ≡ htons (length xs + 60))
      × (analyze_tcp (q + 40) old m' ≡ some (wire_values t old.option, 20))
      × (read_bytes (length xs) (q + 60) m'.byte ≡ xs)
unfolding set_ipv6_value
set_body-tcp_ipv6 p t q src dst xs m base old v six small fits =
    let f : Bytes = sent p t q src dst xs m v six small fits in
    let type : f (q + 6) ≡ 6 = next_header p t q src dst xs m v six small fits in
    (
      record m { byte = f },
      set_ipv6_value q f base,
      set_body_tcp6 p t q src dst xs m v six small fits,
      analyze_ipv6_plain q base (record m { byte = f })
          (ap extension type ∙ unfold extension in refl) (omega arith),
      ap (λ a. some (inet_address a)) (src_read p t q src dst xs m v six small fits),
      ap (λ a. some (inet_address a)) (dst_read p t q src dst xs m v six small fits),
      hop_limit_read p t q src dst xs m v six small fits,
      ap sign_extend8 type,
      plen_read p t q src dst xs m v six small fits,
      analyze_tcp_bytes t old (q + 40) (length xs) xs q
          (record m { byte = under p t q src dst xs m v six small fits }) (omega arith),
      data_read p t q src dst xs m v six small fits,
    )
