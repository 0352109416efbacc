-- ===== src/Examples.antt =====
-- Concrete packets and buffers, at which the theorems are applied.
mod Layers
mod Packets
mod Receiving
mod Instances
mod Interfaces
mod RoundTrips
mod Histories
mod Network
mod Threads
mod Typed
mod Messages
use redes1grupal.Base.{
  ℕ, ◌<◌, ◌≡◌, refl, arith, Bool, true, false, Option, none, some, List, [], ◌∷◌, All,
}
use redes1grupal.Memory.{Mem, Bytes}
use redes1grupal.Memory.Laws.{IsBytes}
use redes1grupal.Packet.{
  Packet, IpPacket, TcpPacket, UdpPacket, IcmpPacket, ArpPacket, EthernetPacket, ethernet, tcp,
  new_ip, new_tcp, new_icmp,
}
use redes1grupal.Ip.Laws.{IsIpv4}
use redes1grupal.Datalink.Laws.{IsEthernet}
use redes1grupal.SetPacket.Ipv4.{IsInRange}
use redes1grupal.Sender.Frames.{IsTcpFrame}

-- The stack before a call.
abbrev pub stack : Bytes
stack a = 0xaa

pub stack-IsBytes : IsBytes stack
stack-IsBytes a = omega arith

abbrev pub buffer : Mem
buffer = record { byte = stack; size = 1600; pending = none }

abbrev pub src_mac : List ℕ
src_mac = 0x02 ∷ 0x00 ∷ 0x00 ∷ 0x00 ∷ 0x00 ∷ 0x01 ∷ []

abbrev pub dst_mac : List ℕ
dst_mac = 0x02 ∷ 0x00 ∷ 0x00 ∷ 0x00 ∷ 0x00 ∷ 0x02 ∷ []

abbrev pub src_ip : List ℕ
src_ip = 10 ∷ 0 ∷ 0 ∷ 1 ∷ []

abbrev pub dst_ip : List ℕ
dst_ip = 10 ∷ 0 ∷ 0 ∷ 2 ∷ []

abbrev pub text : List ℕ
text = 104 ∷ 105 ∷ []

abbrev pub Octets : List ℕ → Type 0
Octets xs = All (λ x. x < 256) xs

pub mac-Octets : Octets src_mac × Octets dst_mac
mac-Octets = (
  (omega arith, (omega arith, (omega arith, (omega arith, (omega arith, (omega arith, tt)))))),
  (omega arith, (omega arith, (omega arith, (omega arith, (omega arith, (omega arith, tt)))))),
)

pub ip-Octets : Octets src_ip × Octets dst_ip
ip-Octets = (
  (omega arith, (omega arith, (omega arith, (omega arith, tt)))),
  (omega arith, (omega arith, (omega arith, (omega arith, tt)))),
)

pub text-Octets : Octets text
text-Octets = (omega arith, (omega arith, tt))

abbrev pub frame_header : EthernetPacket
frame_header = record { dst_mac = some dst_mac; src_mac = some src_mac; frametype = 0x0800 }

pub frame_header-IsEthernet : IsEthernet frame_header src_mac dst_mac
frame_header-IsEthernet = record {
  src_set = refl;
  dst_set = refl;
  src_size = refl;
  dst_size = refl;
}

abbrev pub ip_packet : IpPacket
ip_packet = record new_ip {
  version = 4;
  priority = 5;
  d_flag = true;
  dont_frag = true;
  hop_limit = 64;
  ident = 0x1234;
  src_ip = some src_ip;
  dst_ip = some dst_ip;
}

pub ip_packet-IsIpv4 : IsIpv4 ip_packet src_ip dst_ip
ip_packet-IsIpv4 = record { src_set = refl; dst_set = refl; src_size = refl; dst_size = refl }

pub ip_packet-IsInRange : IsInRange ip_packet
ip_packet-IsInRange = record {
  priority_range = omega arith;
  rsv_tos_range = omega arith;
  offset_range = omega arith;
  hop_limit_range = omega arith;
}

abbrev pub syn_packet : TcpPacket
syn_packet = record new_tcp {
  src_port = 40000;
  dst_port = 80;
  sequence = 0x01020304;
  syn = true;
  window = 512;
}

abbrev pub query : UdpPacket
query = record { src_port = 5353; dst_port = 53; datagram_length = 0 }

abbrev pub ping : IcmpPacket
ping = record new_icmp { type = 8; id = 7; seq = 1 }

abbrev pub who_has : ArpPacket
who_has = record {
  hardtype = 1;
  prototype = 0x0800;
  hlen = 6;
  plen = 4;
  operation = 1;
  sender_hardaddr = some src_mac;
  sender_protoaddr = some src_ip;
  target_hardaddr = some dst_mac;
  target_protoaddr = some dst_ip;
}

-- A TCP packet that carries `xs`.
abbrev pub carrying : List ℕ → Packet
carrying xs = record {
  sec = 0;
  usec = 0;
  caplen = 0;
  len = 0;
  datalink = some (ethernet frame_header);
  header = none;
  payload = some xs;
  kind = tcp ip_packet syn_packet;
}

pub carrying-IsTcpFrame :
    (xs : List ℕ)
    → IsTcpFrame (carrying xs) frame_header ip_packet syn_packet src_mac dst_mac src_ip dst_ip xs
carrying-IsTcpFrame xs = record {
  datalink_set = refl;
  kind_set = refl;
  payload_set = refl;
  is_v4 = refl;
  ether = frame_header-IsEthernet;
  ip = ip_packet-IsIpv4;
}
