-- ===== src/GetPacket/Ethernet.antt =====
-- What `get_packet` makes of frames on Ethernet.
use redes1grupal.Base.{
  ℕ, ◌+◌, ◌-◌, ◌/◌, ◌%◌, ◌^◌, ◌≤◌, ◌<◌, ◌≡◌, refl, arith, none, some, htons, ltb, if◌then◌else◌,
}
use redes1grupal.Memory.{load16, read_bytes}
use redes1grupal.Packet.{
  Packet, Kind, udp, tcp, other, TcpPacket, new_tcp, ethernet, IpPacket, UdpPacket, new_ip, new_udp,
}
use redes1grupal.Native.{Capture}
use redes1grupal.Datalink.{analyze_datalink, dlt_en10mb}
use redes1grupal.Ip.{analyze_ip, set_ipv4_value}
use redes1grupal.Udp.{analyze_udp}
use redes1grupal.Tcp.{analyze_tcp}
use redes1grupal.GetPacket.Classify.{
  en10mb, link_type, offset_data, offset_type, network, classify, network_protocol,
  network_transport, get_network_type, is_truncated,
}
use redes1grupal.GetPacket.Assemble.{
  get_packet, assemble, analyze_network, analyze_transport, split_frame, cut_length, transport,
  create, map_ip, capture_memory,
}

-- An unfragmented IPv4 packet of `size` bytes with no options on Ethernet, which carries `protocol`.
-- The frame may be longer than the packet, or cut, but not within the first `least` bytes.
pub record IsIpv4Frame (c : Capture) (protocol size least : ℕ) : Type 0 where
  pub type_high : c.bytes 12 ≡ 0x08
  pub type_low : c.bytes 13 ≡ 0x00
  pub version_byte : c.bytes 14 ≡ 0x45
  pub size_high : c.bytes 16 ≡ size / 256
  pub size_low : c.bytes 17 ≡ size % 256
  pub offset_high : (c.bytes 20 % 32 ≡ 0) × (c.bytes 20 < 256)
  pub offset_low : c.bytes 21 ≡ 0
  pub protocol_byte : c.bytes 23 ≡ protocol
  pub size_range : (least ≤ size) × (size < 2 ^ 15)
  pub caplen_range : (14 + least ≤ c.caplen) × (c.caplen < 2 ^ 15)

-- The packet object of an IPv4 frame before its headers are analyzed.
abbrev pub started : Capture → Kind → Packet
started c kind = record {
  sec = c.sec;
  usec = c.usec;
  caplen = c.caplen;
  len = c.len;
  datalink = some (
      ethernet (record {
        dst_mac = some (read_bytes 6 0 c.bytes);
        src_mac = some (read_bytes 6 6 c.bytes);
        frametype = 0x0800;
      }));
  header = none;
  payload = none;
  kind = kind;
}

classify-udp :
    (c : Capture) (stale size : ℕ)
    → IsIpv4Frame c 17 size 28
    → classify en10mb stale c.caplen (capture_memory c) ≡ some (0x0800, 17)
unfolding classify network_protocol network_transport get_network_type is_truncated offset_type
    offset_data network
classify-udp c stale size v = ground (
  arith, v.type_high, v.type_low, v.version_byte, v.offset_high, v.offset_low, v.protocol_byte,
  v.caplen_range,
)

-- The bytes behind both headers that were captured and belong to the IP packet.
abbrev pub data_size : Capture → ℕ → ℕ → ℕ
data_size c size headers = (if ltb (c.caplen - 14) size then c.caplen - 14 else size) - headers

pub analyze_datalink_lem :
    (c : Capture)
    → c.bytes 12 ≡ 0x08
    → c.bytes 13 ≡ 0x00
    → 14 ≤ c.caplen
    → analyze_datalink 0 dlt_en10mb (capture_memory c)
      ≡ some (
          ethernet (record {
            dst_mac = some (read_bytes 6 0 c.bytes);
            src_mac = some (read_bytes 6 6 c.bytes);
            frametype = 0x0800;
          }))
unfolding analyze_datalink
analyze_datalink_lem c e f h = ground (arith, e, f)

pub analyze_ip_lem :
    (c : Capture) (p : IpPacket)
    → c.bytes 14 ≡ 0x45
    → 34 ≤ c.caplen
    → analyze_ip 14 p (capture_memory c) ≡ some (set_ipv4_value 14 c.bytes p, 20)
unfolding analyze_ip
analyze_ip_lem c p e h = ground (arith, e)

analyze_network-ipv4 :
    (c : Capture) (size : ℕ) (p : IpPacket) (u : UdpPacket)
    → c.bytes 14 ≡ 0x45
    → c.bytes 16 ≡ size / 256
    → c.bytes 17 ≡ size % 256
    → size < 2 ^ 15
    → 34 ≤ c.caplen
    → analyze_network (network 0x0800) en10mb c.caplen 14 (udp p u) (capture_memory c)
      ≡ some (udp (set_ipv4_value 14 c.bytes p) u, size, 20)
unfolding analyze_network network map_ip
analyze_network-ipv4 c size p u e hi lo small fits =
    ground (arith, analyze_ip_lem c p e fits, hi, lo)

assemble-udp :
    (c : Capture) (size : ℕ) (extra : ℕ × ℕ) (packet : Packet)
    → IsIpv4Frame c 17 size 28
    → packet.caplen ≡ c.caplen
    → packet.kind ≡ udp new_ip new_udp
    → assemble en10mb 0x0800 17 extra packet (capture_memory c)
      ≡ some (record packet {
        header = some (read_bytes 42 0 c.bytes);
        payload = some (read_bytes (data_size c size 28) 42 c.bytes);
        kind = udp (set_ipv4_value 14 c.bytes new_ip) (record {
          src_port = htons (load16 34 0 c.bytes);
          dst_port = htons (load16 34 2 c.bytes);
          datagram_length = htons (load16 34 4 c.bytes);
        });
      })
unfolding assemble analyze_transport transport split_frame cut_length offset_data analyze_udp
assemble-udp c size extra packet v caplen kind = ground (
  arith,
  caplen,
  kind,
  v.size_range,
  v.caplen_range,
  analyze_network-ipv4 c size new_ip new_udp v.version_byte v.size_high v.size_low,
)

-- A capture of fewer than 32768 bytes of an Ethernet frame with an unfragmented IPv4 packet of
-- fewer than 32768 bytes, without IP options, that carries a UDP datagram, with all three headers
-- captured, becomes a packet object with the first 42 bytes as its header array and what was
-- captured of the rest of the IP packet as its data, without the trailer, and with the fields of
-- the three headers, whatever the uninitialised variables held.
pub get_packet-udp :
    (c : Capture) (stale size : ℕ) (extra : ℕ × ℕ)
    → IsIpv4Frame c 17 size 28
    → get_packet dlt_en10mb stale extra c
      ≡ some (record (started c other) {
        header = some (read_bytes 42 0 c.bytes);
        payload = some (read_bytes (data_size c size 28) 42 c.bytes);
        kind = udp (set_ipv4_value 14 c.bytes new_ip) (record {
          src_port = htons (load16 34 0 c.bytes);
          dst_port = htons (load16 34 2 c.bytes);
          datagram_length = htons (load16 34 4 c.bytes);
        });
      })
unfolding get_packet link_type create transport network
get_packet-udp c stale size extra v =
    let packet : Packet = started c (udp new_ip new_udp) in
    ground (
      arith,
      classify-udp c stale size v,
      analyze_datalink_lem c v.type_high v.type_low,
      v.caplen_range,
      assemble-udp c size extra packet v refl refl,
    )

classify-tcp :
    (c : Capture) (stale size : ℕ)
    → IsIpv4Frame c 6 size 40
    → classify en10mb stale c.caplen (capture_memory c) ≡ some (0x0800, 6)
unfolding classify network_protocol network_transport get_network_type is_truncated offset_type
    offset_data network
classify-tcp c stale size v = ground (
  arith, v.type_high, v.type_low, v.version_byte, v.offset_high, v.offset_low, v.protocol_byte,
  v.caplen_range,
)

analyze_network-tcp :
    (c : Capture) (size : ℕ) (p : IpPacket) (t : TcpPacket)
    → c.bytes 14 ≡ 0x45
    → c.bytes 16 ≡ size / 256
    → c.bytes 17 ≡ size % 256
    → size < 2 ^ 15
    → 34 ≤ c.caplen
    → analyze_network (network 0x0800) en10mb c.caplen 14 (tcp p t) (capture_memory c)
      ≡ some (tcp (set_ipv4_value 14 c.bytes p) t, size, 20)
unfolding analyze_network network map_ip
analyze_network-tcp c size p t e hi lo small fits =
    ground (arith, analyze_ip_lem c p e fits, hi, lo)

assemble-tcp :
    (c : Capture) (size th : ℕ) (extra : ℕ × ℕ) (packet : Packet) (t : TcpPacket)
    → IsIpv4Frame c 6 size 40
    → packet.caplen ≡ c.caplen
    → packet.kind ≡ tcp new_ip new_tcp
    → analyze_tcp 34 new_tcp (capture_memory c) ≡ some (t, th)
    → 20 + th ≤ size
    → 34 + th ≤ c.caplen
    → assemble en10mb 0x0800 6 extra packet (capture_memory c)
      ≡ some (record packet {
        header = some (read_bytes (34 + th) 0 c.bytes);
        payload = some (read_bytes (data_size c size (20 + th)) (34 + th) c.bytes);
        kind = tcp (set_ipv4_value 14 c.bytes new_ip) t;
      })
unfolding assemble analyze_transport transport split_frame cut_length offset_data
assemble-tcp c size th extra packet t v caplen kind read in_size in_capture = ground (
  arith,
  caplen,
  kind,
  read,
  v.size_range,
  v.caplen_range,
  analyze_network-tcp c size new_ip new_tcp v.version_byte v.size_high v.size_low,
)

-- A capture of fewer than 32768 bytes of an Ethernet frame with an unfragmented IPv4 packet of
-- fewer than 32768 bytes, without IP options, that carries a TCP segment whose whole header lies in
-- the packet and was captured, becomes a packet object that holds what analyze_tcp reads, with a
-- header array up to the end of the TCP header with its options and a data array that is what was
-- captured of the rest of the IP packet, whatever the uninitialised variables held.
pub get_packet-tcp :
    (c : Capture) (stale size th : ℕ) (extra : ℕ × ℕ) (t : TcpPacket)
    → IsIpv4Frame c 6 size 40
    → analyze_tcp 34 new_tcp (capture_memory c) ≡ some (t, th)
    → 20 + th ≤ size
    → 34 + th ≤ c.caplen
    → get_packet dlt_en10mb stale extra c
      ≡ some (record (started c other) {
        header = some (read_bytes (34 + th) 0 c.bytes);
        payload = some (read_bytes (data_size c size (20 + th)) (34 + th) c.bytes);
        kind = tcp (set_ipv4_value 14 c.bytes new_ip) t;
      })
unfolding get_packet link_type create transport network
get_packet-tcp c stale size th extra t v read in_size in_capture =
    let packet : Packet = started c (tcp new_ip new_tcp) in
    ground (
      arith,
      classify-tcp c stale size v,
      analyze_datalink_lem c v.type_high v.type_low,
      v.caplen_range,
      assemble-tcp c size th extra packet t v refl refl read in_size in_capture,
    )
