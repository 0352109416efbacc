-- ===== src/Examples/Packets.antt =====
-- Whole packets through `set_packet` and `nativeSendPacket`.
use redes1grupal.Base.{ℕ, zero, suc, ◌+◌, ◌≡◌, refl, arith, none, some, List, htons, u16, length}
use redes1grupal.Memory.{Mem, load16, read_bytes}
use redes1grupal.Packet.{tcp, udp, new_tcp, new_ip}
use redes1grupal.Native.{Capture}
use redes1grupal.Checksum.{in_cksum, in_cksum2}
use redes1grupal.Ip.{analyze_ip}
use redes1grupal.Tcp.{analyze_tcp}
use redes1grupal.Tcp.RoundTrip.{wire_values}
use redes1grupal.Udp.{analyze_udp}
use redes1grupal.SetPacket.{set_body}
use redes1grupal.SetPacket.Ipv4.{wire_ip}
use redes1grupal.SetPacket.Tcp.{set_body-tcp}
use redes1grupal.SetPacket.Udp.{set_body-udp}
use redes1grupal.Sender.{build_frame, zeros}
use redes1grupal.Sender.Padding.{padded}
use redes1grupal.Sender.Layout.{frame_bytes}
use redes1grupal.Sender.Frames.{body, build_frame-tcp_overflow}
use redes1grupal.Examples.{
  stack, stack-IsBytes, buffer, src_mac, dst_mac, src_ip, dst_ip, text, text-Octets, ip-Octets,
  frame_header, ip_packet, ip_packet-IsIpv4, ip_packet-IsInRange, syn_packet, query, carrying,
  carrying-IsTcpFrame,
}

set_body-tcp_example :
    (m' : Mem) × (set_body (tcp ip_packet syn_packet) 14 2 (some text) buffer ≡ some (2 + 40, m'))
    × (analyze_ip 14 new_ip m' ≡ some (wire_ip new_ip ip_packet 6 (2 + 40) src_ip dst_ip, 20))
    × (analyze_tcp (14 + 20) new_tcp m' ≡ some (wire_values syn_packet none, 20))
    × (read_bytes 2 (14 + 40) m'.byte ≡ text)
    × (in_cksum m'.byte 14 20 ≡ 0)
    × (in_cksum2 m'.byte 14 (htons (2 + 20)) (14 + 20) (2 + 20) ≡ 0)
set_body-tcp_example =
    set_body-tcp ip_packet syn_packet 14 src_ip dst_ip text buffer new_ip new_tcp ip_packet-IsIpv4
      ip_packet-IsInRange refl (omega arith) (omega arith) stack-IsBytes (ip-Octets.0) (ip-Octets.1)
      text-Octets

set_body-udp_example :
    (m' : Mem) × (set_body (udp ip_packet query) 14 2 (some text) buffer ≡ some (2 + 28, m'))
    × (analyze_ip 14 new_ip m' ≡ some (wire_ip new_ip ip_packet 17 (2 + 28) src_ip dst_ip, 20))
    × (analyze_udp (14 + 20) m'
        ≡ some (record { src_port = u16 5353; dst_port = u16 53; datagram_length = 2 + 8 }))
    × (read_bytes 2 (14 + 28) m'.byte ≡ text)
    × (in_cksum m'.byte 14 20 ≡ 0)
    × (in_cksum2 m'.byte 14 (load16 (14 + 20) 4 m'.byte) (14 + 20) (2 + 8) ≡ 0)
set_body-udp_example =
    set_body-udp ip_packet query 14 src_ip dst_ip text buffer new_ip ip_packet-IsIpv4
      ip_packet-IsInRange refl (omega arith) (omega arith) stack-IsBytes (ip-Octets.0) (ip-Octets.1)
      text-Octets

length-zeros : (n : ℕ) → length (zeros n) ≡ n
length-zeros zero = refl
length-zeros (suc n) = omega (arith, length-zeros n)

build_frame-tcp_overflow_example : build_frame stack (carrying (zeros 1547)) ≡ none
build_frame-tcp_overflow_example =
    build_frame-tcp_overflow stack (carrying (zeros 1547)) frame_header ip_packet syn_packet src_mac
      dst_mac src_ip dst_ip (zeros 1547) (carrying-IsTcpFrame (zeros 1547))
      (omega (arith, length-zeros 1547))

-- What `nativeSendPacket` sends for it, and a capture of that.
abbrev sent_frame : List ℕ
sent_frame = frame_bytes (2 + 40 + 14) (
    body stack (carrying text) frame_header ip_packet syn_packet src_mac dst_mac src_ip dst_ip text
      (carrying-IsTcpFrame text))

abbrev captured_frame : Capture
captured_frame = record {
  sec = 1;
  usec = 2;
  caplen = 60;
  len = 60;
  bytes = padded (2 + 40 + 14) (
      body stack (carrying text) frame_header ip_packet syn_packet src_mac dst_mac src_ip dst_ip
        text (carrying-IsTcpFrame text));
}
