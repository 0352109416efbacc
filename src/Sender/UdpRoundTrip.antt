-- ===== src/Sender/UdpRoundTrip.antt =====
-- A UDP packet that `nativeSendPacket` lays out, captured again and read by `get_packet`.
use redes1grupal.Udp.{analyze_udp}
use redes1grupal.Packet.{new_ip, ethernet, udp, IpPacket, EthernetPacket, UdpPacket, Packet}
use redes1grupal.Base.{◌∙◌, none, u16, All, length, ◌<◌, arith, ◌≤◌, List, some, ◌≡◌, ◌+◌, htons, ℕ}
use redes1grupal.Memory.{write_bytes, read_bytes, Bytes, load16, Mem, Bytes}
use redes1grupal.SetPacket.Ipv4.{wire_ip, HoldsIp, IsInRange}
use redes1grupal.Native.{Capture}
use redes1grupal.Sender.Layout.{build_frame_lem, frame_bytes, ethered, IsFrame}
use redes1grupal.Ip.Laws.{IsIpv4}
use redes1grupal.Memory.Laws.{read_bytes_ext, IsBytes}
use redes1grupal.Datalink.Laws.{ether_bytes-IsBytes, ether_bytes}
use redes1grupal.SetPacket.Finish.{finish-IsBytes}
use redes1grupal.Sender.{build_frame}
use redes1grupal.Sender.Captured.{
  IsCopy-capture_of, capture_of, macs, captured_values, captured-IsIpv4Frame, data_size-captured,
  IsCopy,
}
use redes1grupal.SetPacket.Udp.{
  udp_read, data_read, set_body_udp4, sent_before, ip_held, datagram-IsBytes, sent,
}
use redes1grupal.GetPacket.Assemble.{capture_memory, get_packet}
use redes1grupal.GetPacket.Ethernet.{get_packet-udp, data_size}
use redes1grupal.Datalink.{dlt_en10mb}

-- A UDP packet over IPv4 and Ethernet, with all its addresses set, that carries `xs`.
pub record IsUdpFrame (packet : Packet) (e : EthernetPacket) (p : IpPacket) (u : UdpPacket)
    (esrc edst src dst xs : List ℕ) : Type 0 where
  pub frame : IsFrame packet e (udp p u) (some xs) esrc edst
  pub is_v4 : p.version ≡ 4
  pub ip : IsIpv4 p src dst

analyze_udp-agree :
    (pointer : ℕ) (m m' : Mem)
    → pointer + 8 ≤ m.size
    → pointer + 8 ≤ m'.size
    → ((j : ℕ) → pointer ≤ j → j < pointer + 6 → m'.byte j ≡ m.byte j)
    → analyze_udp pointer m' ≡ analyze_udp pointer m
unfolding analyze_udp
analyze_udp-agree pointer m m' fits fits' same = ground (
  arith,
  same (pointer + 0),
  same (pointer + 1),
  same (pointer + 2),
  same (pointer + 3),
  same (pointer + 4),
  same (pointer + 5),
)

-- The three fields of the header, as `analyze_udp` reads them.
abbrev header_at : ℕ → Bytes → UdpPacket
header_at pointer f = record {
  src_port = htons (load16 pointer 0 f);
  dst_port = htons (load16 pointer 2 f);
  datagram_length = htons (load16 pointer 4 f);
}

header_of_read :
    (pointer : ℕ) (m : Mem) (u : UdpPacket)
    → analyze_udp pointer m ≡ some u
    → header_at pointer m.byte ≡ u
unfolding analyze_udp
header_of_read pointer m u e = ground (arith, e)

module _ (stack : Bytes) (packet : Packet) (e : EthernetPacket) (p : IpPacket) (u : UdpPacket)
    (esrc edst src dst xs : List ℕ) (v : IsUdpFrame packet e p u esrc edst src dst xs)
    (r : IsInRange p) (whole : p.offset ≡ 0) (type : e.frametype ≡ 0x0800)
    (small : length xs ≤ 1558) (bytes : IsBytes stack) (bes : All (λ x. x < 256) esrc)
    (bed : All (λ x. x < 256) edst) (bs : All (λ x. x < 256) src) (bd : All (λ x. x < 256) dst)
    (bx : All (λ x. x < 256) xs) where
  abbrev buffer : Mem
  buffer = ethered stack e esrc edst

  buffer-IsBytes : IsBytes buffer.byte
  buffer-IsBytes = ether_bytes-IsBytes e 0 esrc edst stack bes bed bytes

  abbrev wire : Bytes
  wire = sent p u 14 src dst xs buffer v.ip r (omega arith) buffer-IsBytes bs bd bx (omega arith)

  wire-IsBytes : IsBytes wire
  wire-IsBytes = finish-IsBytes 14 _ (
      datagram-IsBytes p u 14 src dst xs buffer v.ip r (omega arith) buffer-IsBytes bs bd bx
        (omega arith))

  held : HoldsIp wire p 14 17 (length xs + 28) src dst
  held = ip_held p u 14 src dst xs buffer v.ip r (omega arith) buffer-IsBytes bs bd bx (omega arith)

  in_front : (j : ℕ) → j < 14 → wire j ≡ ether_bytes e 0 esrc edst stack j
  in_front j h =
      sent_before p u 14 src dst xs buffer v.ip r (omega arith) buffer-IsBytes bs bd bx
        (omega arith) j h

  built : build_frame stack packet ≡ some (frame_bytes (length xs + 28 + 14) wire, none)
  built =
      build_frame_lem stack packet e (udp p u) (some xs) esrc edst v.frame (length xs + 28) wire
        (set_body_udp4 p u 14 src dst xs buffer v.ip v.is_v4 (omega arith) (omega arith))
        (omega arith)

  module _ (c : Capture) (copy : IsCopy c e esrc edst stack wire (length xs + 28 + 14)) where
    header_read : header_at 34 c.bytes ≡ record {
      src_port = u16 u.src_port;
      dst_port = u16 u.dst_port;
      datagram_length = length xs + 8;
    }
    header_read = header_of_read 34 (capture_memory c) _ (
        analyze_udp-agree 34 (record buffer { byte = wire }) (capture_memory c) (omega arith)
          (omega (arith, copy.caplen_is)) (λ j lo hi. copy.copied j (omega arith))
        ∙ udp_read p u 14 src dst xs buffer v.ip r (omega arith) buffer-IsBytes bs bd bx
            (omega arith))

    payload_read : read_bytes (data_size c (length xs + 28) 28) 42 c.bytes ≡ xs
    payload_read =
        let size : data_size c (length xs + 28) 28 ≡ length xs = omega (
          arith,
          data_size-captured c e esrc edst stack wire _ copy v.frame.ether p 17 (length xs + 28) src
              dst held r wire-IsBytes (omega arith) 28 (omega arith),
        ) in
        rw size (
          read_bytes_ext (length xs) 42 c.bytes wire (λ j lo hi. copy.copied j (omega arith))
          ∙ data_read p u 14 src dst xs buffer v.ip r (omega arith) buffer-IsBytes bs bd bx
              (omega arith))

    received :
        (stale : ℕ) (extra : ℕ × ℕ)
        → get_packet dlt_en10mb stale extra c
          ≡ some (record {
            sec = c.sec;
            usec = c.usec;
            caplen = c.caplen;
            len = c.len;
            datalink = some (
                ethernet (record { dst_mac = some edst; src_mac = some esrc; frametype = 0x0800 }));
            header = some (read_bytes 42 0 c.bytes);
            payload = some xs;
            kind = udp (wire_ip new_ip p 17 (length xs + 28) src dst) (record {
              src_port = u16 u.src_port;
              dst_port = u16 u.dst_port;
              datagram_length = length xs + 8;
            });
          })
    received stale extra =
        get_packet-udp c stale (length xs + 28) extra (
          captured-IsIpv4Frame c e esrc edst stack wire _ copy v.frame.ether p 17 (length xs + 28)
            src dst held r wire-IsBytes (omega arith) 28 type whole (omega arith) (omega arith)
            (omega arith))
        ∙ ground (
          arith,
          captured_values c e esrc edst stack wire _ copy v.frame.ether p 17 (length xs + 28) src
              dst held r wire-IsBytes (omega arith) (omega arith),
          payload_read,
          header_read,
          macs c e esrc edst stack wire _ copy (omega arith) v.frame.ether,
        )

-- A UDP packet over IPv4 and Ethernet of the IPv4 type, unfragmented, with all its addresses set,
-- values that fit the IP header and at most 1558 bytes of data, is laid out as a frame by
-- nativeSendPacket with no exception pending; of a capture of that frame, whatever stands behind
-- it, get_packet returns a packet with both Ethernet addresses, the data without the trailer of a
-- short frame, the values of the IP header, the lengths and the protocol filled in, and the ports
-- cut to 16 bits; but the three flags of the fragment field come back as false, and the
-- identification, cut to 16 bits, as a signed number of 16 bits, and IP options, which are not
-- sent, are null.
pub get_packet-build_frame_udp :
    (stack : Bytes) (packet : Packet) (e : EthernetPacket) (p : IpPacket) (u : UdpPacket)
    (esrc edst src dst xs : List ℕ) (sec usec stale : ℕ) (extra : ℕ × ℕ) (behind : Bytes)
    → IsUdpFrame packet e p u esrc edst src dst xs
    → IsInRange p
    → p.offset ≡ 0
    → e.frametype ≡ 0x0800
    → length xs ≤ 1558
    → IsBytes stack
    → All (λ x. x < 256) esrc
    → All (λ x. x < 256) edst
    → All (λ x. x < 256) src
    → All (λ x. x < 256) dst
    → All (λ x. x < 256) xs
    → (frame : List ℕ) × (build_frame stack packet ≡ some (frame, none))
      × (get_packet dlt_en10mb stale extra (capture_of sec usec behind frame)
          ≡ some (record {
            sec = sec;
            usec = usec;
            caplen = length frame;
            len = length frame;
            datalink = some (
                ethernet (record { dst_mac = some edst; src_mac = some esrc; frametype = 0x0800 }));
            header = some (read_bytes 42 0 (write_bytes 0 frame behind));
            payload = some xs;
            kind = udp (wire_ip new_ip p 17 (length xs + 28) src dst) (record {
              src_port = u16 u.src_port;
              dst_port = u16 u.dst_port;
              datagram_length = length xs + 8;
            });
          }))
get_packet-build_frame_udp stack packet e p u esrc edst src dst xs sec usec stale extra behind v r
      whole type small bytes bes bed bs bd bx =
    let n : ℕ = length xs + 28 + 14 in
    let w : Bytes =
      wire stack packet e p u esrc edst src dst xs v r whole type small bytes bes bed bs bd bx in
    let frame : List ℕ = frame_bytes n w in
    (
      frame,
      built stack packet e p u esrc edst src dst xs v r whole type small bytes bes bed bs bd bx,
      received stack packet e p u esrc edst src dst xs v r whole type small bytes bes bed bs bd bx
          (capture_of sec usec behind frame)
          (IsCopy-capture_of sec usec behind e esrc edst stack w n (
            in_front stack packet e p u esrc edst src dst xs v r whole type small bytes bes bed bs
              bd bx))
          stale extra,
    )
