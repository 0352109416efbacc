-- ===== src/SetPacket/Tcp.antt =====
-- A TCP packet over IPv4.
use redes1grupal.Base.{
  ℕ, ◌+◌, ◌/◌, ◌≤◌, ◌<◌, ◌≡◌, inl, inr, ◌∙◌, arith, some, List, htons, u16, length, take,
  take-length, add_assoc, All,
}
use redes1grupal.Memory.{Mem, Bytes, write8, read_bytes, write_bytes}
use redes1grupal.Memory.Laws.{
  IsBytes, store8-IsBytes, store16-IsBytes, write_bytes-IsBytes, take-All, read_bytes-region,
}
use redes1grupal.Packet.{IpPacket, TcpPacket, tcp}
use redes1grupal.Ip.Laws.{IsIpv4, ip_bytes, ip_bytes-IsBytes, ip_bytes_frame, set_ip_lem}
use redes1grupal.Tcp.{clamp_tcp, analyze_tcp, tcp_header}
use redes1grupal.Ip.{analyze_ip}
use redes1grupal.Tcp.Checksum.{tcp_header-IsBytes, tcp_checksum-IsBytes, tcp_checksum-verifies}
use redes1grupal.Tcp.Laws.{tcp_bytes, set_tcp_lem, tcp_checksum_ne, tcp_header_fields}
use redes1grupal.Tcp.RoundTrip.{
  tcp_bytes_frame, tcp_bytes_header, analyze_tcp_bytes, analyze_tcp-ext, wire_values,
}
use redes1grupal.Checksum.{in_cksum, in_cksum2}
use redes1grupal.Checksum.Segment.{in_cksum2-ext, InPseudo}
use redes1grupal.SetPacket.Finish.{finish_ne, finish-IsBytes, finish-verifies}
use redes1grupal.SetPacket.Ipv4.{protocol_bytes, IsInRange, wire_ip, HoldsIp}
use redes1grupal.SetPacket.Ipv4Wire.{analyze_wire, wire_fields}
use redes1grupal.SetPacket.{
  set_body, set_network, set_transport, set_protocol, finish_ipv4, finish_bytes, ip_part,
}

-- The bytes of an IPv4 packet that carries a segment of `n` bytes of data.
abbrev pub tcp4_bytes : IpPacket → TcpPacket → ℕ → List ℕ → List ℕ → List ℕ → Bytes → Bytes
tcp4_bytes p t q src dst xs f =
    let n = length xs in
    finish_bytes q
      (tcp_bytes t (q + 20) n xs q (protocol_bytes q 6 (n + 40) (ip_bytes p q src dst f)))

pub clamp_tcp_small : (n : ℕ) → n ≤ 1560 → clamp_tcp n ≡ n
unfolding clamp_tcp
clamp_tcp_small n h = ground arith

pub set_body_tcp4 :
    (p : IpPacket) (t : TcpPacket) (q : ℕ) (src dst xs : List ℕ) (m : Mem)
    → IsIpv4 p src dst
    → p.version ≡ 4
    → length xs ≤ 1560
    → q + 40 + length xs ≤ m.size
    → set_body (tcp p t) q (length xs) (some xs) m
      ≡ some (length xs + 40, record m { byte = tcp4_bytes p t q src dst xs m.byte })
unfolding set_body set_network set_transport set_protocol finish_ipv4 ip_part
set_body_tcp4 p t q src dst xs m v four small fits =
    let n = length xs in
    let f₁ : Bytes = ip_bytes p q src dst m.byte in
    let f₂ : Bytes = protocol_bytes q 6 (n + 40) f₁ in
    ground (
      arith,
      set_ip_lem p q src dst m v,
      clamp_tcp_small n,
      set_tcp_lem t (q + 20) xs q (record m { byte = f₂ }),
    )

module _ (p : IpPacket) (t : TcpPacket) (q : ℕ) (src dst xs : List ℕ) (m : Mem)
    (v : IsIpv4 p src dst) (r : IsInRange p) (small : length xs ≤ 1560) (bm : IsBytes m.byte)
    (bs : All (λ x. x < 256) src) (bd : All (λ x. x < 256) dst) (bx : All (λ x. x < 256) xs)
    (fits : q + 40 + length xs ≤ m.size) where
  abbrev pub under : Bytes
  under = protocol_bytes q 6 (length xs + 40) (ip_bytes p q src dst m.byte)

  abbrev pub headed : Bytes
  headed = tcp_header t (q + 20) under

  abbrev pub segment : Bytes
  segment = tcp_bytes t (q + 20) (length xs) xs q under

  abbrev pub sent : Bytes
  sent = finish_bytes q segment

  under-IsBytes : IsBytes under
  under-IsBytes =
      store16-IsBytes q 2 _ _
        (store8-IsBytes q 9 6 _ (ip_bytes-IsBytes p q src dst m.byte bs bd bm))

  filled-IsBytes : IsBytes (write_bytes (q + 20 + 20) (take (length xs) xs) headed)
  filled-IsBytes =
      write_bytes-IsBytes (q + 20 + 20) (take (length xs) xs) headed (take-All _ (length xs) xs bx)
        (tcp_header-IsBytes t (q + 20) under under-IsBytes)

  pub segment-IsBytes : IsBytes segment
  segment-IsBytes = tcp_checksum-IsBytes (q + 20) q (length xs) _ (omega arith) filled-IsBytes

  behind : (j : ℕ) → q + 12 ≤ j → sent j ≡ segment j
  behind j h = finish_ne q j segment (omega arith)

  in_pseudo : (j : ℕ) → InPseudo q j → sent j ≡ segment j
  in_pseudo j h = finish_ne q j segment (omega arith)

  ip_read :
      (base : IpPacket)
      → analyze_ip q base (record m { byte = sent })
        ≡ some (wire_ip base p 6 (length xs + 40) src dst, 20)
  ip_read base =
      analyze_wire p q 6 (length xs + 40) src dst m.byte segment v r (omega arith) (omega arith)
        segment-IsBytes
        (λ j lo hi. tcp_bytes_frame t (q + 20) (length xs) xs q j under (omega arith) (inl hi)) base
        m (omega arith)

  pub ip_held : HoldsIp sent p q 6 (length xs + 40) src dst
  ip_held =
      wire_fields p q 6 (length xs + 40) src dst m.byte segment v r (omega arith) (omega arith)
        segment-IsBytes
        (λ j lo hi. tcp_bytes_frame t (q + 20) (length xs) xs q j under (omega arith) (inl hi))

  -- What stands in front of the packet stays.
  pub sent_before : (j : ℕ) → j < q → sent j ≡ m.byte j
  sent_before j h =
      finish_ne q j segment (inl (omega arith))
      ∙ tcp_bytes_frame t (q + 20) (length xs) xs q j under (omega arith) (inl (omega arith))
      ∙ unfold write8 in
        ground arith ∙ ip_bytes_frame p q src dst m.byte j v.src_size v.dst_size (inl h)

  plain : segment (q + 20 + 12) / 16 ≡ 5
  plain = omega (
    arith,
    tcp_bytes_header t (q + 20) (length xs) xs q (q + 20 + 12) under (inl (omega arith)),
    (tcp_header_fields t (q + 20) under).4,
  )

  pub plain_sent : sent (q + 20 + 12) / 16 ≡ 5
  plain_sent = omega (arith, behind (q + 20 + 12), plain)

  pub tcp_read :
      (old : TcpPacket)
      → analyze_tcp (q + 20) old (record m { byte = sent }) ≡ some (wire_values t old.option, 20)
  tcp_read old =
      analyze_tcp-ext (q + 20) old (record m { byte = segment }) sent plain
        (λ j lo. behind j (omega arith))
      ∙ analyze_tcp_bytes t old (q + 20) (length xs) xs q (record m { byte = under }) (omega arith)

  pub data_read : read_bytes (length xs) (q + 40) sent ≡ xs
  data_read =
      read_bytes-region (q + 40) (length xs) xs sent headed (omega arith) (λ j lo hi.
        behind j (omega arith)
        ∙ tcp_checksum_ne (q + 20) q (length xs) j _ (inr (omega arith))
        ∙ rw (add_assoc q 20 20))
      ∙ take-length xs

  sum_verifies : in_cksum2 sent q (htons (length xs + 20)) (q + 20) (length xs + 20) ≡ 0
  sum_verifies =
      let same : u16 (u16 (length xs) + 20) ≡ length xs + 20 = omega arith in
      in_cksum2-ext sent segment q (htons (length xs + 20)) (q + 20) (length xs + 20)
        (finish-IsBytes q segment segment-IsBytes) segment-IsBytes (omega arith) (omega arith)
        in_pseudo (λ j lo hi. behind j (omega arith))
      ∙ rw same at
          (tcp_checksum-verifies (q + 20) q (length xs) _ (omega arith) filled-IsBytes small)

-- A TCP packet over IPv4 with both addresses set, values that fit the IP header and at most 1560
-- bytes of data, which set_packet lays out in a buffer with room for it, is read by analyze_ip and
-- analyze_tcp with its addresses, the length and the protocol filled in, and the values of both
-- headers, the integers of TCP cut to their widths; but the three flags of the fragment field come
-- back as false, and the identification, cut to 16 bits, as a signed number of 16 bits, the two
-- bytes of the fragment offset come back swapped and cut to 13 bits, and options are not sent; its
-- data follows, the header checksum and the segment checksum both verify, and the length of the
-- whole packet is returned.
pub set_body-tcp :
    (p : IpPacket) (t : TcpPacket) (q : ℕ) (src dst xs : List ℕ) (m : Mem) (base : IpPacket)
    (old : TcpPacket)
    → IsIpv4 p src dst
    → IsInRange p
    → p.version ≡ 4
    → length xs ≤ 1560
    → q + 40 + length xs ≤ m.size
    → IsBytes m.byte
    → All (λ x. x < 256) src
    → All (λ x. x < 256) dst
    → All (λ x. x < 256) xs
    → (m' : Mem) × (set_body (tcp p t) q (length xs) (some xs) m ≡ some (length xs + 40, m'))
      × (analyze_ip q base m' ≡ some (wire_ip base p 6 (length xs + 40) src dst, 20))
      × (analyze_tcp (q + 20) old m' ≡ some (wire_values t old.option, 20))
      × (read_bytes (length xs) (q + 40) m'.byte ≡ xs)
      × (in_cksum m'.byte q 20 ≡ 0)
      × (in_cksum2 m'.byte q (htons (length xs + 20)) (q + 20) (length xs + 20) ≡ 0)
set_body-tcp p t q src dst xs m base old v r four small fits bm bs bd bx = (
  record m { byte = tcp4_bytes p t q src dst xs m.byte },
  set_body_tcp4 p t q src dst xs m v four small fits,
  ip_read p t q src dst xs m v r small bm bs bd bx fits base,
  tcp_read p t q src dst xs m v r small bm bs bd bx fits old,
  data_read p t q src dst xs m v r small bm bs bd bx fits,
  finish-verifies q _ (segment-IsBytes p t q src dst xs m v r small bm bs bd bx fits),
  sum_verifies p t q src dst xs m v r small bm bs bd bx fits,
)
