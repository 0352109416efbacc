-- ===== src/Packet.antt =====
-- The Java objects that the C code fills and reads through JNI: the classes of
-- jpcap-0.7/src/java/jpcap/packet, with the setters that the C code calls.
-- A Java integer is its bit pattern; a reference that may be null is an `Option`.
use redes1grupal.Base.{ℕ, Bool, false, Option, none, List, []}

pub record EthernetPacket : Type 0 where
  pub dst_mac : Option (List ℕ)
  pub src_mac : Option (List ℕ)
  pub frametype : ℕ

-- A `DatalinkPacket` is an `EthernetPacket`, or one of no known kind.
pub data DatalinkPacket : Type 0 where
  ethernet : EthernetPacket → DatalinkPacket
  unknown : DatalinkPacket

-- `IPv6Option`, by the setters that the C code calls after `setValue`.
pub data Ipv6OptionBody : Type 0 where
  option_data : List ℕ → Ipv6OptionBody
  routing : ℕ → ℕ → List (List ℕ) → Ipv6OptionBody
  fragment : ℕ → Bool → ℕ → Ipv6OptionBody
  authentication : ℕ → ℕ → List ℕ → Ipv6OptionBody

pub record Ipv6Option : Type 0 where
  pub type : ℕ
  pub next_header : ℕ
  pub hlen : ℕ
  pub body : Ipv6OptionBody

pub record IpPacket : Type 0 where
  pub version : ℕ
  pub priority : ℕ
  pub d_flag : Bool
  pub t_flag : Bool
  pub r_flag : Bool
  pub rsv_tos : ℕ
  pub total_length : ℕ
  pub rsv_frag : Bool
  pub dont_frag : Bool
  pub more_frag : Bool
  pub offset : ℕ
  pub hop_limit : ℕ
  pub protocol : ℕ
  pub ident : ℕ
  pub flow_label : ℕ
  pub src_ip : Option (List ℕ)
  pub dst_ip : Option (List ℕ)
  pub option : Option (List ℕ)
  pub options : List Ipv6Option

pub record TcpPacket : Type 0 where
  pub src_port : ℕ
  pub dst_port : ℕ
  pub sequence : ℕ
  pub ack_num : ℕ
  pub urg : Bool
  pub ack : Bool
  pub psh : Bool
  pub rst : Bool
  pub syn : Bool
  pub fin : Bool
  pub rsv1 : Bool
  pub rsv2 : Bool
  pub window : ℕ
  pub urgent_pointer : ℕ
  pub option : Option (List ℕ)

pub record UdpPacket : Type 0 where
  pub src_port : ℕ
  pub dst_port : ℕ
  pub datagram_length : ℕ

pub record IcmpPacket : Type 0 where
  pub type : ℕ
  pub code : ℕ
  pub checksum : ℕ
  pub id : ℕ
  pub seq : ℕ
  pub subnetmask : ℕ
  pub orig_timestamp : ℕ
  pub recv_timestamp : ℕ
  pub trans_timestamp : ℕ
  pub mtu : ℕ
  pub redir_ip : Option (List ℕ)
  pub ippacket : Option IpPacket
  pub addr_num : ℕ
  pub addr_entry_size : ℕ
  pub alive_time : ℕ

pub record ArpPacket : Type 0 where
  pub hardtype : ℕ
  pub prototype : ℕ
  pub hlen : ℕ
  pub plen : ℕ
  pub operation : ℕ
  pub sender_hardaddr : Option (List ℕ)
  pub sender_protoaddr : Option (List ℕ)
  pub target_hardaddr : Option (List ℕ)
  pub target_protoaddr : Option (List ℕ)

-- The class of a packet object, with the fields of its own and of its superclasses below `Packet`.
pub data Kind : Type 0 where
  other : Kind
  ip : IpPacket → Kind
  tcp : IpPacket → TcpPacket → Kind
  udp : IpPacket → UdpPacket → Kind
  icmp : IpPacket → IcmpPacket → Kind
  arp : ArpPacket → Kind

pub record Packet : Type 0 where
  pub sec : ℕ
  pub usec : ℕ
  pub caplen : ℕ
  pub len : ℕ
  pub datalink : Option DatalinkPacket
  pub header : Option (List ℕ)
  pub payload : Option (List ℕ)
  pub kind : Kind

-- What `AllocObject` returns: every field is zero or null.
abbrev pub new_ip : IpPacket
new_ip = record {
  version = 0;
  priority = 0;
  d_flag = false;
  t_flag = false;
  r_flag = false;
  rsv_tos = 0;
  total_length = 0;
  rsv_frag = false;
  dont_frag = false;
  more_frag = false;
  offset = 0;
  hop_limit = 0;
  protocol = 0;
  ident = 0;
  flow_label = 0;
  src_ip = none;
  dst_ip = none;
  option = none;
  options = [];
}

abbrev pub new_tcp : TcpPacket
new_tcp = record {
  src_port = 0;
  dst_port = 0;
  sequence = 0;
  ack_num = 0;
  urg = false;
  ack = false;
  psh = false;
  rst = false;
  syn = false;
  fin = false;
  rsv1 = false;
  rsv2 = false;
  window = 0;
  urgent_pointer = 0;
  option = none;
}

abbrev pub new_udp : UdpPacket
new_udp = record { src_port = 0; dst_port = 0; datagram_length = 0 }

abbrev pub new_icmp : IcmpPacket
new_icmp = record {
  type = 0;
  code = 0;
  checksum = 0;
  id = 0;
  seq = 0;
  subnetmask = 0;
  orig_timestamp = 0;
  recv_timestamp = 0;
  trans_timestamp = 0;
  mtu = 0;
  redir_ip = none;
  ippacket = none;
  addr_num = 0;
  addr_entry_size = 0;
  alive_time = 0;
}

abbrev pub new_arp : ArpPacket
new_arp = record {
  hardtype = 0;
  prototype = 0;
  hlen = 0;
  plen = 0;
  operation = 0;
  sender_hardaddr = none;
  sender_protoaddr = none;
  target_hardaddr = none;
  target_protoaddr = none;
}
