-- ===== src/Sender/RoundTrip.antt =====
-- A TCP packet that `nativeSendPacket` lays out, captured again and read by `get_packet`.
use redes1grupal.Base.{ℕ, ◌+◌, ◌≤◌, ◌<◌, ◌≡◌, ◌∙◌, arith, none, some, List, length, All}
use redes1grupal.Memory.{Mem, Bytes, read_bytes}
use redes1grupal.Memory.Laws.{IsBytes, read_bytes_ext}
use redes1grupal.Packet.{
  Packet, IpPacket, TcpPacket, EthernetPacket, ethernet, tcp, new_ip, new_tcp,
}
use redes1grupal.Native.{Capture}
use redes1grupal.Datalink.{dlt_en10mb}
use redes1grupal.Datalink.Laws.{ether_bytes, ether_bytes-IsBytes}
use redes1grupal.Tcp.{analyze_tcp}
use redes1grupal.Tcp.RoundTrip.{analyze_tcp-agree, wire_values}
use redes1grupal.SetPacket.Ipv4.{IsInRange, HoldsIp, wire_ip}
use redes1grupal.SetPacket.Tcp.{
  sent, ip_held, sent_before, plain_sent, tcp_read, data_read, segment-IsBytes,
}
use redes1grupal.SetPacket.Finish.{finish-IsBytes}
use redes1grupal.GetPacket.Ethernet.{IsIpv4Frame, get_packet-tcp, data_size}
use redes1grupal.GetPacket.Assemble.{get_packet, capture_memory}
use redes1grupal.Sender.{build_frame}
use redes1grupal.Sender.Frames.{body, build_frame-eq, IsTcpFrame}
use redes1grupal.Sender.Captured.{
  IsCopy-of_frame, macs, captured_values, data_size-captured, captured-IsIpv4Frame, IsCopy,
}
use redes1grupal.Sender.Layout.{ethered, frame_bytes}

module _ (stack : Bytes) (packet : Packet) (e : EthernetPacket) (p : IpPacket) (t : TcpPacket)
    (esrc edst src dst xs : List ℕ) (v : IsTcpFrame packet e p t esrc edst src dst xs)
    (r : IsInRange p) (whole : p.offset ≡ 0) (type : e.frametype ≡ 0x0800)
    (small : length xs ≤ 1546) (bytes : IsBytes stack) (bes : All (λ x. x < 256) esrc)
    (bed : All (λ x. x < 256) edst) (bs : All (λ x. x < 256) src) (bd : All (λ x. x < 256) dst)
    (bx : All (λ x. x < 256) xs) (c : Capture) where
  abbrev buffer : Mem
  buffer = ethered stack e esrc edst

  buffer-IsBytes : IsBytes buffer.byte
  buffer-IsBytes = ether_bytes-IsBytes e 0 esrc edst stack bes bed bytes

  abbrev wire : Bytes
  wire = sent p t 14 src dst xs buffer v.ip r (omega arith) buffer-IsBytes bs bd bx (omega arith)

  wire-IsBytes : IsBytes wire
  wire-IsBytes = finish-IsBytes 14 _ (
      segment-IsBytes p t 14 src dst xs buffer v.ip r (omega arith) buffer-IsBytes bs bd bx
        (omega arith))

  held : HoldsIp wire p 14 6 (length xs + 40) src dst
  held = ip_held p t 14 src dst xs buffer v.ip r (omega arith) buffer-IsBytes bs bd bx (omega arith)

  in_front : (j : ℕ) → j < 14 → wire j ≡ ether_bytes e 0 esrc edst stack j
  in_front j h =
      sent_before p t 14 src dst xs buffer v.ip r (omega arith) buffer-IsBytes bs bd bx
        (omega arith) j h

  module _ (copy : IsCopy c e esrc edst stack wire (length xs + 40 + 14)) where
    is_frame : IsIpv4Frame c 6 (length xs + 40) 40
    is_frame =
        captured-IsIpv4Frame c e esrc edst stack wire _ copy v.ether p 6 (length xs + 40) src dst
          held r wire-IsBytes (omega arith) 40 type whole (omega arith) (omega arith) (omega arith)

    tcp_header_read : analyze_tcp 34 new_tcp (capture_memory c) ≡ some (wire_values t none, 20)
    tcp_header_read =
        analyze_tcp-agree 34 new_tcp (record buffer { byte = wire }) (capture_memory c)
          (plain_sent p t 14 src dst xs buffer v.ip r (omega arith) buffer-IsBytes bs bd bx
            (omega arith))
          (omega arith) (omega (arith, copy.caplen_is)) (λ j lo hi. copy.copied j (omega arith))
        ∙ tcp_read p t 14 src dst xs buffer v.ip r (omega arith) buffer-IsBytes bs bd bx
            (omega arith) new_tcp

    payload_read : read_bytes (data_size c (length xs + 40) 40) 54 c.bytes ≡ xs
    payload_read =
        let size : data_size c (length xs + 40) 40 ≡ length xs = omega (
          arith,
          data_size-captured c e esrc edst stack wire _ copy v.ether p 6 (length xs + 40) src dst
              held r wire-IsBytes (omega arith) 40 (omega arith),
        ) in
        rw size (
          read_bytes_ext (length xs) 54 c.bytes wire (λ j lo hi. copy.copied j (omega arith))
          ∙ data_read p t 14 src dst xs buffer v.ip r (omega arith) buffer-IsBytes bs bd bx
              (omega arith))

    received :
        (stale : ℕ) (extra : ℕ × ℕ)
        → get_packet dlt_en10mb stale extra c
          ≡ some (record {
            sec = c.sec;
            usec = c.usec;
            caplen = c.caplen;
            len = c.len;
            datalink = some (
                ethernet (record { dst_mac = some edst; src_mac = some esrc; frametype = 0x0800 }));
            header = some (read_bytes 54 0 c.bytes);
            payload = some xs;
            kind = tcp (wire_ip new_ip p 6 (length xs + 40) src dst) (wire_values t none);
          })
    received stale extra =
        get_packet-tcp c stale (length xs + 40) 20 extra (wire_values t none) is_frame
          tcp_header_read (omega arith) (omega (arith, copy.caplen_is))
        ∙ ground (
          arith,
          captured_values c e esrc edst stack wire _ copy v.ether p 6 (length xs + 40) src dst held
              r wire-IsBytes (omega arith) (omega arith),
          payload_read,
          macs c e esrc edst stack wire _ copy (omega arith) v.ether,
        )

pub get_packet-build_frame :
    (stack : Bytes) (packet : Packet) (e : EthernetPacket) (p : IpPacket) (t : TcpPacket)
    (esrc edst src dst xs frame : List ℕ) (c : Capture) (stale : ℕ) (extra : ℕ × ℕ)
    → IsTcpFrame packet e p t esrc edst src dst xs
    → IsInRange p
    → p.offset ≡ 0
    → e.frametype ≡ 0x0800
    → length xs ≤ 1546
    → IsBytes stack
    → All (λ x. x < 256) esrc
    → All (λ x. x < 256) edst
    → All (λ x. x < 256) src
    → All (λ x. x < 256) dst
    → All (λ x. x < 256) xs
    → build_frame stack packet ≡ some (frame, none)
    → c.caplen ≡ length frame
    → read_bytes (length frame) 0 c.bytes ≡ frame
    → get_packet dlt_en10mb stale extra c
      ≡ some (record {
        sec = c.sec;
        usec = c.usec;
        caplen = c.caplen;
        len = c.len;
        datalink =
            some
              (ethernet (record { dst_mac = some edst; src_mac = some esrc; frametype = 0x0800 }));
        header = some (read_bytes 54 0 c.bytes);
        payload = some xs;
        kind = tcp (wire_ip new_ip p 6 (length xs + 40) src dst) (wire_values t none);
      })
get_packet-build_frame stack packet e p t esrc edst src dst xs frame c stale extra v r whole type
      small bytes bes bed bs bd bx built caplen copied =
    let n : ℕ = length xs + 40 + 14 in
    let w : Bytes = body stack packet e p t esrc edst src dst xs v in
    let same : frame ≡ frame_bytes n w =
      ground (arith, built, build_frame-eq stack packet e p t esrc edst src dst xs v small) in
    received stack packet e p t esrc edst src dst xs v r whole type small bytes bes bed bs bd bx c
      (IsCopy-of_frame c e esrc edst frame stack w n same caplen copied (
        in_front stack packet e p t esrc edst src dst xs v r whole type small bytes bes bed bs bd bx
          c))
      stale extra
