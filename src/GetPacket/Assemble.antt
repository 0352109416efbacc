-- ===== src/GetPacket/Assemble.antt =====
-- The second half of `get_packet`: the packet object, with its headers analyzed and its bytes
-- split into header and data.
use redes1grupal.Base.{
  ℕ, ◌+◌, ◌-◌, ◌%◌, ◌^◌, Option, none, some, htons, ◌==◌, ◌&&◌, not, if◌then◌else◌, ◌>>=◌,
}
use redes1grupal.Memory.{Mem, load16, within, read_bytes}
use redes1grupal.Packet.{
  Packet, Kind, other, ip, tcp, udp, icmp, arp, new_ip, new_tcp, new_udp, new_icmp, new_arp,
  IpPacket,
}
use redes1grupal.JpcapSub.{udphdrlen, icmphdrlen}
use redes1grupal.Native.{Capture}
use redes1grupal.Datalink.{analyze_datalink}
use redes1grupal.Ip.{analyze_ip}
use redes1grupal.Ipv6.{analyze_ipv6, finished, fault, exhausted}
use redes1grupal.Arp.{analyze_arp}
use redes1grupal.Tcp.{analyze_tcp}
use redes1grupal.Udp.{analyze_udp}
use redes1grupal.Icmp.{analyze_icmp}
use redes1grupal.GetPacket.Shorts.{
  to_short, sub_short, is_negative, greater, greater_unsigned, move,
}
use redes1grupal.GetPacket.Classify.{
  LinkType, link_type, offset_data, Network, network, classify, unknown_proto,
}

-- The transport protocols of the switch.
pub data Transport : Type 0 where
  tcp_proto udp_proto icmp_proto no_proto : Transport

unfoldable pub transport : ℕ → Transport
transport tproto =
    if tproto == 6
    then tcp_proto
    else if tproto == 17
    then udp_proto
    else if tproto == 1
    then icmp_proto
    else no_proto

-- `AllocObject` of the class that the protocols name.
unfoldable pub create : Transport → Network → Kind
create tcp_proto n = tcp new_ip new_tcp
create udp_proto n = udp new_ip new_udp
create icmp_proto n = icmp new_ip new_icmp
create no_proto Network.ipv4 = ip new_ip
create no_proto Network.ipv6 = ip new_ip
create no_proto Network.arp = arp new_arp
create no_proto Network.revarp = arp new_arp
create no_proto Network.unknown = other
create no_proto Network.other = other

-- The fields of `IPPacket` of an object; a method of another class on it is a fault.
unfoldable pub map_ip : (IpPacket → Option (IpPacket × ℕ)) → Kind → Option (Kind × ℕ)
map_ip g (ip p) = g p >>= λ r. some (ip r.0, r.1)
map_ip g (tcp p t) = g p >>= λ r. some (tcp r.0 t, r.1)
map_ip g (udp p u) = g p >>= λ r. some (udp r.0 u, r.1)
map_ip g (icmp p i) = g p >>= λ r. some (icmp r.0 i, r.1)
map_ip g (arp a) = none
map_ip g other = none

unfoldable pub set_arp_value : Kind → ℕ → Mem → Option (Kind × ℕ)
set_arp_value (arp a) d m = analyze_arp d m >>= λ r. some (arp r.0, r.1)
set_arp_value kind d m = none

unfoldable pub ipv6_values : ℕ → Mem → IpPacket → Option (IpPacket × ℕ)
ipv6_values d m p = elim (analyze_ipv6 d p m) [
  | finished r ↦ some r
  | fault ↦ none
  | exhausted ↦ none
]

-- The network layer at `d`: the object, `clen` and `hlen`.
unfoldable pub analyze_network : Network → LinkType → ℕ → ℕ → Kind → Mem → Option (Kind × ℕ × ℕ)
analyze_network Network.ipv4 l caplen d kind m = do
  (kind', hlen) ← map_ip (λ p. analyze_ip d p m) kind
  some (kind', to_short (htons (load16 d 2 m.byte)), to_short hlen)
analyze_network Network.ipv6 l caplen d kind m = do
  (kind', hlen) ← map_ip (ipv6_values d m) kind
  some (kind', to_short (htons (load16 d 4 m.byte) + 40), to_short hlen)
analyze_network Network.arp l caplen d kind m = do
  (kind', hlen) ← set_arp_value kind d m
  some (kind', to_short hlen, to_short hlen)
analyze_network Network.unknown l caplen d kind m = some (kind, to_short caplen, 0)
analyze_network Network.revarp l caplen d kind m =
    some (kind, to_short (caplen + 2 ^ 16 - offset_data l), 0)
analyze_network Network.other l caplen d kind m =
    some (kind, to_short (caplen + 2 ^ 16 - offset_data l), 0)

-- `clen` cut to what was captured. Neither protocol may be the unknown one.
unfoldable pub cut_length : LinkType → ℕ → ℕ → ℕ → ℕ → ℕ
cut_length l nproto tproto caplen clen =
    let captured = (caplen + 2 ^ 32 - offset_data l) % 2 ^ 32 in
    if not (nproto == unknown_proto)
      && (not (tproto == unknown_proto) && greater_unsigned clen captured)
    then to_short captured
    else clen

-- The transport layer at `d`: the object and `hlen`. `extra` is for `analyze_icmp`.
unfoldable pub analyze_transport : Transport → ℕ → ℕ → ℕ × ℕ → Kind → Mem → Option (Kind × ℕ)
analyze_transport tcp_proto d clen extra (tcp p t) m =
    analyze_tcp d t m >>= λ r. some (tcp p r.0, r.1)
analyze_transport udp_proto d clen extra (udp p u) m =
    analyze_udp d m >>= λ r. some (udp p r, udphdrlen)
analyze_transport icmp_proto d clen extra (icmp p i) m =
    analyze_icmp d clen extra i m >>= λ r. some (icmp p r, icmphdrlen)
analyze_transport no_proto d clen extra kind m = some (kind, 0)
analyze_transport t d clen extra kind m = none

-- The header array from the start of the frame and the data array behind it. A negative length of
-- the first is a fault; with a negative `clen` no data is set.
unfoldable pub split_frame : Packet → ℕ → ℕ → Mem → Option Packet
split_frame p d clen m =
    let hlen = to_short d in
    let headed = record p { header = some (read_bytes hlen 0 m.byte) } in
    if is_negative hlen
    then none
    else if within 0 hlen m
    then if is_negative clen
      then some headed
      else if within d clen m
      then some (record headed { payload = some (read_bytes clen d m.byte) })
      else none
    else none

-- From the network layer on, with the protocols known.
unfoldable pub assemble : LinkType → ℕ → ℕ → ℕ × ℕ → Packet → Mem → Option Packet
assemble l nproto tproto extra packet m = do
  let d = if nproto == unknown_proto then 0 else offset_data l
  (kind, clen, hlen) ← analyze_network (network nproto) l packet.caplen d packet.kind m
  let clen' = sub_short (cut_length l nproto tproto packet.caplen clen) hlen
  d' ← move d hlen
  (kind', thlen) ← analyze_transport (transport tproto) d' clen' extra kind m
  let thlen' = if greater (to_short thlen) clen' then clen' else to_short thlen
  d'' ← move d' thlen'
  split_frame (record packet { kind = kind' }) d'' (sub_short clen' thlen') m

-- The captured bytes, which are all that may be read.
abbrev pub capture_memory : Capture → Mem
capture_memory c = record { byte = c.bytes; size = c.caplen; pending = none }

-- `linktype` is the row of the instance in `linktypes`.
unfoldable pub get_packet : ℕ → ℕ → ℕ × ℕ → Capture → Option Packet
get_packet linktype stale extra c = do
  let m = capture_memory c
  let l = link_type linktype
  (nproto, tproto) ← classify l stale c.caplen m
  dlpacket ← analyze_datalink 0 linktype m
  let packet : Packet = record {
    sec = c.sec;
    usec = c.usec;
    caplen = c.caplen;
    len = c.len;
    datalink = some dlpacket;
    header = none;
    payload = none;
    kind = create (transport tproto) (network nproto);
  }
  assemble l nproto tproto extra packet m
