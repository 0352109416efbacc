-- ===== src/SetPacket/Udp.antt =====
-- A UDP packet over IPv4.
use redes1grupal.Base.{
  ℕ, ◌+◌, ◌≤◌, ◌<◌, ◌≡◌, inl, inr, ◌∙◌, arith, some, List, u16, length, take, take-length,
  add_assoc, All,
}
use redes1grupal.Memory.{write8, Mem, Bytes, load16, read_bytes, write_bytes}
use redes1grupal.Memory.Laws.{
  IsBytes, store8-IsBytes, store16-IsBytes, write_bytes-IsBytes, take-All, read_bytes-region,
}
use redes1grupal.Packet.{IpPacket, UdpPacket, udp}
use redes1grupal.Ip.Laws.{ip_bytes_frame, IsIpv4, ip_bytes, ip_bytes-IsBytes, set_ip_lem}
use redes1grupal.Udp.{clamp_udp, analyze_udp, udp_header}
use redes1grupal.Ip.{analyze_ip}
use redes1grupal.Udp.Checksum.{udp_header-IsBytes, udp_checksum-IsBytes, udp_checksum-verifies}
use redes1grupal.Udp.Laws.{
  udp_bytes, set_udp_lem, udp_bytes_frame, udp_checksum_ne, analyze_udp_bytes, analyze_udp-ext,
}
use redes1grupal.Checksum.{in_cksum, in_cksum2}
use redes1grupal.Checksum.Segment.{in_cksum2-ext, InPseudo}
use redes1grupal.SetPacket.Finish.{finish_ne, finish-IsBytes, finish-verifies}
use redes1grupal.SetPacket.Ipv4.{protocol_bytes, IsInRange, wire_ip, HoldsIp}
use redes1grupal.SetPacket.Ipv4Wire.{analyze_wire, wire_fields}
use redes1grupal.SetPacket.{
  set_body, set_network, set_transport, set_protocol, finish_ipv4, finish_bytes, ip_part,
}

-- The bytes of an IPv4 packet that carries a datagram of `n` bytes of data.
abbrev pub udp4_bytes : IpPacket → UdpPacket → ℕ → List ℕ → List ℕ → List ℕ → Bytes → Bytes
udp4_bytes p u q src dst xs f =
    let n = length xs in
    finish_bytes q
      (udp_bytes u (q + 20) n xs q (protocol_bytes q 17 (n + 28) (ip_bytes p q src dst f)))

clamp_udp_small : (n : ℕ) → n ≤ 1572 → clamp_udp n ≡ n
unfolding clamp_udp
clamp_udp_small n h = ground arith

pub set_body_udp4 :
    (p : IpPacket) (u : UdpPacket) (q : ℕ) (src dst xs : List ℕ) (m : Mem)
    → IsIpv4 p src dst
    → p.version ≡ 4
    → length xs ≤ 1572
    → q + 28 + length xs ≤ m.size
    → set_body (udp p u) q (length xs) (some xs) m
      ≡ some (length xs + 28, record m { byte = udp4_bytes p u q src dst xs m.byte })
unfolding set_body set_network set_transport set_protocol finish_ipv4 ip_part
set_body_udp4 p u q src dst xs m v four small fits =
    let n = length xs in
    let f₁ : Bytes = ip_bytes p q src dst m.byte in
    let f₂ : Bytes = protocol_bytes q 17 (n + 28) f₁ in
    ground (
      arith,
      set_ip_lem p q src dst m v,
      clamp_udp_small n,
      set_udp_lem u (q + 20) xs q (record m { byte = f₂ }),
    )

module _ (p : IpPacket) (u : UdpPacket) (q : ℕ) (src dst xs : List ℕ) (m : Mem)
    (v : IsIpv4 p src dst) (r : IsInRange p) (small : length xs ≤ 1572) (bm : IsBytes m.byte)
    (bs : All (λ x. x < 256) src) (bd : All (λ x. x < 256) dst) (bx : All (λ x. x < 256) xs)
    (fits : q + 28 + length xs ≤ m.size) where
  abbrev pub under : Bytes
  under = protocol_bytes q 17 (length xs + 28) (ip_bytes p q src dst m.byte)

  abbrev headed : Bytes
  headed = udp_header u (q + 20) (length xs) under

  abbrev pub datagram : Bytes
  datagram = udp_bytes u (q + 20) (length xs) xs q under

  abbrev pub sent : Bytes
  sent = finish_bytes q datagram

  under-IsBytes : IsBytes under
  under-IsBytes =
      store16-IsBytes q 2 _ _
        (store8-IsBytes q 9 17 _ (ip_bytes-IsBytes p q src dst m.byte bs bd bm))

  filled-IsBytes : IsBytes (write_bytes (q + 20 + 8) (take (length xs) xs) headed)
  filled-IsBytes =
      write_bytes-IsBytes (q + 20 + 8) (take (length xs) xs) headed (take-All _ (length xs) xs bx)
        (udp_header-IsBytes u (q + 20) (length xs) under under-IsBytes)

  pub datagram-IsBytes : IsBytes datagram
  datagram-IsBytes = udp_checksum-IsBytes (q + 20) q (length xs) _ (omega arith) filled-IsBytes

  behind : (j : ℕ) → q + 12 ≤ j → sent j ≡ datagram j
  behind j h = finish_ne q j datagram (omega arith)

  in_pseudo : (j : ℕ) → InPseudo q j → sent j ≡ datagram j
  in_pseudo j h = finish_ne q j datagram (omega arith)

  ip_read :
      (base : IpPacket)
      → analyze_ip q base (record m { byte = sent })
        ≡ some (wire_ip base p 17 (length xs + 28) src dst, 20)
  ip_read base =
      analyze_wire p q 17 (length xs + 28) src dst m.byte datagram v r (omega arith) (omega arith)
        datagram-IsBytes
        (λ j lo hi. udp_bytes_frame u (q + 20) (length xs) xs q j under (omega arith) (inl hi)) base
        m (omega arith)

  pub ip_held : HoldsIp sent p q 17 (length xs + 28) src dst
  ip_held =
      wire_fields p q 17 (length xs + 28) src dst m.byte datagram v r (omega arith) (omega arith)
        datagram-IsBytes
        (λ j lo hi. udp_bytes_frame u (q + 20) (length xs) xs q j under (omega arith) (inl hi))

  -- What stands in front of the packet stays.
  pub sent_before : (j : ℕ) → j < q → sent j ≡ m.byte j
  sent_before j h =
      finish_ne q j datagram (inl (omega arith))
      ∙ udp_bytes_frame u (q + 20) (length xs) xs q j under (omega arith) (inl (omega arith))
      ∙ unfold write8 in
        ground arith ∙ ip_bytes_frame p q src dst m.byte j v.src_size v.dst_size (inl h)

  pub udp_read :
      analyze_udp (q + 20) (record m { byte = sent })
      ≡ some (record {
        src_port = u16 u.src_port;
        dst_port = u16 u.dst_port;
        datagram_length = length xs + 8;
      })
  udp_read =
      analyze_udp-ext (q + 20) (record m { byte = datagram }) sent
        (λ j lo hi. behind j (omega arith))
      ∙ analyze_udp_bytes u (q + 20) (length xs) xs q (record m { byte = under }) (omega arith)
          small

  pub data_read : read_bytes (length xs) (q + 28) sent ≡ xs
  data_read =
      read_bytes-region (q + 28) (length xs) xs sent headed (omega arith) (λ j lo hi.
        behind j (omega arith)
        ∙ udp_checksum_ne (q + 20) q (length xs) j _ (inr (omega arith))
        ∙ rw (add_assoc q 20 8))
      ∙ take-length xs

  sum_verifies : in_cksum2 sent q (load16 (q + 20) 4 sent) (q + 20) (length xs + 8) ≡ 0
  sum_verifies =
      let len : ℕ = load16 (q + 20) 4 datagram in
      let low : sent (q + 20 + 4) ≡ datagram (q + 20 + 4) = behind (q + 20 + 4) (omega arith) in
      let high : sent (q + 20 + (4 + 1)) ≡ datagram (q + 20 + (4 + 1)) =
        behind (q + 20 + (4 + 1)) (omega arith) in
      let bound : len < 65536 =
        omega (arith, datagram-IsBytes (q + 20 + 4), datagram-IsBytes (q + 20 + (4 + 1))) in
      rw (low, high)
        (in_cksum2-ext sent datagram q len (q + 20) (length xs + 8)
            (finish-IsBytes q datagram datagram-IsBytes) datagram-IsBytes bound (omega arith)
            in_pseudo (λ j lo hi. behind j (omega arith))
          ∙ udp_checksum-verifies (q + 20) q (length xs) _ (omega arith) filled-IsBytes small)

-- A UDP packet over IPv4 with both addresses set, values that fit the IP header and at most 1572
-- bytes of data, which set_packet lays out in a buffer with room for it, is read by analyze_ip and
-- analyze_udp with its addresses, the lengths and the protocol filled in, the values of the IP
-- header, and the ports cut to 16 bits; but the three flags of the fragment field come back as
-- false, and the identification, cut to 16 bits, as a signed number of 16 bits, the two bytes of
-- the fragment offset come back swapped and cut to 13 bits, and options are not sent; its data
-- follows, the header checksum and the datagram checksum both verify, and the length of the whole
-- packet is returned.
pub set_body-udp :
    (p : IpPacket) (u : UdpPacket) (q : ℕ) (src dst xs : List ℕ) (m : Mem) (base : IpPacket)
    → IsIpv4 p src dst
    → IsInRange p
    → p.version ≡ 4
    → length xs ≤ 1572
    → q + 28 + length xs ≤ m.size
    → IsBytes m.byte
    → All (λ x. x < 256) src
    → All (λ x. x < 256) dst
    → All (λ x. x < 256) xs
    → (m' : Mem) × (set_body (udp p u) q (length xs) (some xs) m ≡ some (length xs + 28, m'))
      × (analyze_ip q base m' ≡ some (wire_ip base p 17 (length xs + 28) src dst, 20))
      × (analyze_udp (q + 20) m'
          ≡ some (record {
            src_port = u16 u.src_port;
            dst_port = u16 u.dst_port;
            datagram_length = length xs + 8;
          }))
      × (read_bytes (length xs) (q + 28) m'.byte ≡ xs)
      × (in_cksum m'.byte q 20 ≡ 0)
      × (in_cksum2 m'.byte q (load16 (q + 20) 4 m'.byte) (q + 20) (length xs + 8) ≡ 0)
set_body-udp p u q src dst xs m base v r four small fits bm bs bd bx = (
  record m { byte = udp4_bytes p u q src dst xs m.byte },
  set_body_udp4 p u q src dst xs m v four small fits,
  ip_read p u q src dst xs m v r small bm bs bd bx fits base,
  udp_read p u q src dst xs m v r small bm bs bd bx fits,
  data_read p u q src dst xs m v r small bm bs bd bx fits,
  finish-verifies q _ (datagram-IsBytes p u q src dst xs m v r small bm bs bd bx fits),
  sum_verifies p u q src dst xs m v r small bm bs bd bx fits,
)
