-- ===== src/Examples/Receiving.antt =====
-- Captured frames through `get_packet`.
use redes1grupal.Base.{ℕ, ◌+◌, ◌≡◌, refl, arith, some, List, [], ◌∷◌, ◌++◌, htons}
use redes1grupal.Memory.{load16, read_bytes, write_bytes, write8}
use redes1grupal.Packet.{arp, udp, tcp, other, new_ip, new_tcp}
use redes1grupal.Native.{Capture}
use redes1grupal.Datalink.{dlt_en10mb}
use redes1grupal.Ip.{set_ipv4_value}
use redes1grupal.Tcp.{analyze_tcp, tcp_values}
use redes1grupal.GetPacket.Assemble.{get_packet}
use redes1grupal.GetPacket.Ethernet.{
  IsIpv4Frame, get_packet-udp, get_packet-tcp, data_size, started,
}
use redes1grupal.GetPacket.ArpFrame as ArpFrame
use redes1grupal.Examples.{src_mac, dst_mac, src_ip, dst_ip}
use redes1grupal.Stack.Alive.{IsConsistent}
use redes1grupal.Stack.Captures.{get_packet-IsConsistent}

-- A frame with the bytes `xs` and zeros behind them.
abbrev frame : List ℕ → ℕ → Capture
frame xs size = record {
  sec = 1;
  usec = 2;
  caplen = size;
  len = size;
  bytes = write_bytes 0 xs (λ a. 0);
}

-- An Ethernet header and an IPv4 header before `protocol`, for a packet of `size` bytes below 256.
abbrev ipv4_headers : ℕ → ℕ → List ℕ
ipv4_headers protocol size =
    dst_mac
    ++ src_mac
    ++ (0x08 ∷ 0x00 ∷ 0x45 ∷ 0 ∷ 0 ∷ size ∷ 0 ∷ 1 ∷ 0x40 ∷ 0 ∷ 64 ∷ protocol ∷ 0 ∷ 0 ∷ [])
    ++ src_ip
    ++ dst_ip

abbrev udp_frame : Capture
udp_frame = frame (ipv4_headers 17 30 ++ (20 ∷ 233 ∷ 0 ∷ 53 ∷ 0 ∷ 10 ∷ 0 ∷ 0 ∷ 104 ∷ 105 ∷ [])) 60

udp_frame-IsIpv4Frame : IsIpv4Frame udp_frame 17 30 28
unfolding write_bytes write8
udp_frame-IsIpv4Frame = record {
  type_high = refl;
  type_low = refl;
  version_byte = refl;
  size_high = refl;
  size_low = refl;
  offset_high = (refl, omega arith);
  offset_low = refl;
  protocol_byte = refl;
  size_range = omega arith;
  caplen_range = omega arith;
}

get_packet-udp_example :
    get_packet dlt_en10mb 6 (0, 0) udp_frame
    ≡ some (record (started udp_frame other) {
      header = some (read_bytes 42 0 udp_frame.bytes);
      payload = some (read_bytes (data_size udp_frame 30 28) 42 udp_frame.bytes);
      kind = udp (set_ipv4_value 14 udp_frame.bytes new_ip) (record {
        src_port = htons (load16 34 0 udp_frame.bytes);
        dst_port = htons (load16 34 2 udp_frame.bytes);
        datagram_length = htons (load16 34 4 udp_frame.bytes);
      });
    })
get_packet-udp_example = get_packet-udp udp_frame 6 30 (0, 0) udp_frame-IsIpv4Frame

-- A segment with four bytes of options.
abbrev tcp_frame : Capture
tcp_frame =
    frame
      (ipv4_headers 6 44
        ++ (156 ∷ 64 ∷ 0 ∷ 80 ∷ 1 ∷ 2 ∷ 3 ∷ 4 ∷ 0 ∷ 0 ∷ 0 ∷ 0 ∷ 0x60 ∷ 0x02 ∷ 2 ∷ 0 ∷ 0 ∷ 0 ∷ 0 ∷ 0
            ∷ [])
        ++ (2 ∷ 4 ∷ 5 ∷ 180 ∷ []))
      60

tcp_frame-IsIpv4Frame : IsIpv4Frame tcp_frame 6 44 40
unfolding write_bytes write8
tcp_frame-IsIpv4Frame = record {
  type_high = refl;
  type_low = refl;
  version_byte = refl;
  size_high = refl;
  size_low = refl;
  offset_high = (refl, omega arith);
  offset_low = refl;
  protocol_byte = refl;
  size_range = omega arith;
  caplen_range = omega arith;
}

get_packet-tcp_example :
    get_packet dlt_en10mb 6 (0, 0) tcp_frame
    ≡ some (record (started tcp_frame other) {
      header = some (read_bytes (34 + 24) 0 tcp_frame.bytes);
      payload = some (read_bytes (data_size tcp_frame 44 (20 + 24)) (34 + 24) tcp_frame.bytes);
      kind =
          tcp
            (set_ipv4_value 14 tcp_frame.bytes new_ip)
            (record (tcp_values 34 new_tcp tcp_frame.bytes) {
              option = some (read_bytes 4 54 tcp_frame.bytes);
            });
    })
get_packet-tcp_example =
    get_packet-tcp tcp_frame 6 44 24 (0, 0)
      (record (tcp_values 34 new_tcp tcp_frame.bytes) {
        option = some (read_bytes 4 54 tcp_frame.bytes);
      })
      tcp_frame-IsIpv4Frame (unfold analyze_tcp write_bytes write8 in refl) (omega arith)
      (omega arith)

-- A request that ends with the message.
abbrev arp_frame : Capture
arp_frame =
    frame
      (dst_mac
        ++ src_mac
        ++ (0x08 ∷ 0x06 ∷ 0 ∷ 1 ∷ 0x08 ∷ 0x00 ∷ 6 ∷ 4 ∷ 0 ∷ 1 ∷ [])
        ++ src_mac
        ++ src_ip
        ++ dst_mac
        ++ dst_ip)
      42

arp_frame-IsArpFrame : ArpFrame.IsArpFrame arp_frame
unfolding write_bytes write8
arp_frame-IsArpFrame = record {
  type_high = refl;
  type_low = refl;
  hlen_byte = refl;
  plen_byte = refl;
  caplen_range = omega arith;
}

get_packet-arp_example :
    get_packet dlt_en10mb 17 (0, 0) arp_frame
    ≡ some (record (ArpFrame.started arp_frame) {
      header = some (read_bytes 42 0 arp_frame.bytes);
      payload = some [];
      kind = arp (ArpFrame.message arp_frame);
    })
get_packet-arp_example = ArpFrame.get_packet-arp arp_frame 17 (0, 0) arp_frame-IsArpFrame

get_packet-IsConsistent_example : IsConsistent (record (ArpFrame.started arp_frame) {
  header = some (read_bytes 42 0 arp_frame.bytes);
  payload = some [];
  kind = arp (ArpFrame.message arp_frame);
})
get_packet-IsConsistent_example =
    get_packet-IsConsistent 17 (0, 0) arp_frame _
      (ArpFrame.get_packet-arp arp_frame 17 (0, 0) arp_frame-IsArpFrame)

-- The segment of which the capture has ten bytes.
abbrev cut_frame : Capture
cut_frame = record tcp_frame { caplen = 44 }
