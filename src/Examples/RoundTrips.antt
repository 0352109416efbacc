-- ===== src/Examples/RoundTrips.antt =====
-- Packets that are sent and captured again, and messages that are written and read.
use redes1grupal.Examples.{
  stack, stack-IsBytes, buffer, src_mac, dst_mac, src_ip, dst_ip, text, text-Octets, mac-Octets,
  ip-Octets, frame_header, frame_header-IsEthernet, ip_packet, ip_packet-IsIpv4,
  ip_packet-IsInRange, query, who_has, ping,
}
use redes1grupal.Packet.{
  new_tcp, tcp, TcpPacket, udp, arp, new_icmp, ethernet, IcmpPacket, new_ip, EthernetPacket, Packet,
  IpPacket,
}
use redes1grupal.Memory.{write_bytes, read_bytes, Mem}
use redes1grupal.Base.{
  htons, true, ◌+◌, refl, arith, length, u16, u8, none, [], ◌∷◌, ◌≡◌, some, ℕ, List,
}
use redes1grupal.Ipv6.{inet_address, extension, sign_extend8, finished, analyze_ipv6, set_ipv6}
use redes1grupal.Icmp.{analyze_icmp, icmp_type, analyze_icmp, set_icmp}
use redes1grupal.Sender.{build_frame}
use redes1grupal.GetPacket.Assemble.{get_packet}
use redes1grupal.Datalink.{dlt_en10mb}
use redes1grupal.Icmp.RoundTrip.{analyze_icmp-set_icmp, low_signed}
use redes1grupal.Ipv6.RoundTrip.{analyze_ipv6-set_ipv6}
use redes1grupal.Sender.Captured.{capture_of}
use redes1grupal.Sender.ArpRoundTrip.{get_packet-build_frame_arp, get_packet-build_frame_arp}
use redes1grupal.SetPacket.Ipv4.{wire_ip}
use redes1grupal.Sender.UdpRoundTrip.{get_packet-build_frame_udp}
use redes1grupal.SetPacket.{set_body}
use redes1grupal.Tcp.{analyze_tcp}
use redes1grupal.Tcp.RoundTrip.{wire_values}
use redes1grupal.SetPacket.TcpIpv6.{set_body-tcp_ipv6}

abbrev udp_packet : Packet
udp_packet = record {
  sec = 0;
  usec = 0;
  caplen = 0;
  len = 0;
  datalink = some (ethernet frame_header);
  header = none;
  payload = some text;
  kind = udp ip_packet query;
}

get_packet-build_frame_udp_example :
    (frame : List ℕ) × (build_frame stack udp_packet ≡ some (frame, none))
    × (get_packet dlt_en10mb 6 (0, 0) (capture_of 1 2 stack frame)
        ≡ some (record {
          sec = 1;
          usec = 2;
          caplen = length frame;
          len = length frame;
          datalink = some (
              ethernet
                (record { dst_mac = some dst_mac; src_mac = some src_mac; frametype = 0x0800 }));
          header = some (read_bytes 42 0 (write_bytes 0 frame stack));
          payload = some text;
          kind =
              udp
                (wire_ip new_ip ip_packet 17 (2 + 28) src_ip dst_ip)
                (record { src_port = u16 5353; dst_port = u16 53; datagram_length = 2 + 8 });
        }))
get_packet-build_frame_udp_example =
    get_packet-build_frame_udp stack udp_packet frame_header ip_packet query src_mac dst_mac src_ip
      dst_ip text 1 2 6 (0, 0) stack
      (record {
        frame = record {
          datalink_set = refl;
          kind_set = refl;
          payload_set = refl;
          ether = frame_header-IsEthernet;
        };
        is_v4 = refl;
        ip = ip_packet-IsIpv4;
      })
      ip_packet-IsInRange refl refl (omega arith) stack-IsBytes (mac-Octets.0) (mac-Octets.1)
      (ip-Octets.0) (ip-Octets.1) text-Octets

abbrev arp_header : EthernetPacket
arp_header = record frame_header { frametype = 0x0806 }

abbrev arp_packet : Packet
arp_packet = record udp_packet {
  datalink = some (ethernet arp_header);
  payload = some [];
  kind = arp who_has;
}

get_packet-build_frame_arp_example :
    (frame : List ℕ) × (build_frame stack arp_packet ≡ some (frame, none))
    × (get_packet dlt_en10mb 17 (0, 0) (capture_of 1 2 stack frame)
        ≡ some (record {
          sec = 1;
          usec = 2;
          caplen = length frame;
          len = length frame;
          datalink = some (
              ethernet
                (record { dst_mac = some dst_mac; src_mac = some src_mac; frametype = 0x0806 }));
          header = some (read_bytes 42 0 (write_bytes 0 frame stack));
          payload = some [];
          kind =
              arp (record who_has { hardtype = u16 1; prototype = u16 0x0800; operation = u16 1 });
        }))
get_packet-build_frame_arp_example =
    get_packet-build_frame_arp stack arp_packet arp_header who_has (some []) src_mac dst_mac src_mac
      src_ip dst_mac dst_ip 1 2 17 (0, 0) stack
      (record {
        datalink_set = refl;
        kind_set = refl;
        payload_set = refl;
        ether = record { src_set = refl; dst_set = refl; src_size = refl; dst_size = refl };
      })
      refl
      (record {
        hlen_set = refl;
        plen_set = refl;
        sha_set = (refl, refl);
        spa_set = (refl, refl);
        tha_set = (refl, refl);
        tpa_set = (refl, refl);
      })
      refl

abbrev local_ip : List ℕ
local_ip = 0xfe ∷ 0x80 ∷ 0 ∷ 0 ∷ 0 ∷ 0 ∷ 0 ∷ 0 ∷ 0 ∷ 0 ∷ 0 ∷ 0 ∷ 0 ∷ 0 ∷ 0 ∷ 1 ∷ []

abbrev other_ip : List ℕ
other_ip = 0xfe ∷ 0x80 ∷ 0 ∷ 0 ∷ 0 ∷ 0 ∷ 0 ∷ 0 ∷ 0 ∷ 0 ∷ 0 ∷ 0 ∷ 0 ∷ 0 ∷ 0 ∷ 2 ∷ []

abbrev ipv6_packet : IpPacket
ipv6_packet = record new_ip {
  version = 6;
  protocol = 58;
  hop_limit = 255;
  src_ip = some local_ip;
  dst_ip = some other_ip;
}

analyze_ipv6-set_ipv6_example :
    (m' : Mem) × (r : IpPacket) × (set_ipv6 ipv6_packet 14 buffer ≡ some m')
    × (analyze_ipv6 14 new_ip m' ≡ finished (r, 40))
    × (r.version ≡ 6)
    × (r.src_ip ≡ some (inet_address local_ip))
    × (r.dst_ip ≡ some (inet_address other_ip))
    × (r.hop_limit ≡ u8 255)
    × (r.protocol ≡ sign_extend8 (u8 58))
    × (r.options ≡ new_ip.options)
analyze_ipv6-set_ipv6_example =
    analyze_ipv6-set_ipv6 ipv6_packet new_ip 14 local_ip other_ip buffer
      (record { src_set = refl; dst_set = refl; src_size = refl; dst_size = refl })
      (unfold extension in refl) (omega arith)

-- Its identifier 7 comes back, and its sequence number 1.
analyze_icmp-set_icmp_example :
    (m' : Mem) × (r : IcmpPacket) × (set_icmp ping 34 (some text) buffer ≡ some (8, m'))
    × (analyze_icmp 34 10 (0, 0) new_icmp m' ≡ some r)
    × (r.type ≡ u8 8)
    × (r.code ≡ u8 0)
    × (r.id ≡ low_signed (u16 7))
    × (r.seq ≡ low_signed (u16 1))
analyze_icmp-set_icmp_example =
    analyze_icmp-set_icmp ping new_icmp 34 10 (0, 0) text buffer (unfold icmp_type in refl) refl
      (omega arith) (omega arith) stack-IsBytes text-Octets

abbrev segment_headers : TcpPacket
segment_headers = record new_tcp { src_port = 40000; dst_port = 80; sequence = 1; syn = true }

set_body-tcp_ipv6_example :
    (m' : Mem) × (r : IpPacket) × (set_body
        (tcp ipv6_packet segment_headers)
        14
        2
        (some text)
        buffer
      ≡ some (2 + 60, m'))
    × (analyze_ipv6 14 new_ip m' ≡ finished (r, 40))
    × (r.src_ip ≡ some (inet_address local_ip))
    × (r.dst_ip ≡ some (inet_address other_ip))
    × (r.hop_limit ≡ u8 255)
    × (r.protocol ≡ 6)
    × (r.total_length ≡ htons (2 + 60))
    × (analyze_tcp (14 + 40) new_tcp m' ≡ some (wire_values segment_headers none, 20))
    × (read_bytes 2 (14 + 60) m'.byte ≡ text)
set_body-tcp_ipv6_example =
    set_body-tcp_ipv6 ipv6_packet segment_headers 14 local_ip other_ip text buffer new_ip new_tcp
      (record { src_set = refl; dst_set = refl; src_size = refl; dst_size = refl }) refl
      (omega arith) (omega arith)
