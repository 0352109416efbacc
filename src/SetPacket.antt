-- ===== src/SetPacket.antt =====
-- `set_packet` of jpcap-0.7/src/c/JpcapSender.c: a packet object laid out in a buffer.
-- `length` is a 32-bit int, and what the callers add to it wraps.
pub mod Finish
pub mod Ipv4
pub mod Ipv4Wire
pub mod Udp
pub mod Tcp
pub mod TcpIpv6
use redes1grupal.Base.{
  ℕ, ◌+◌, ◌-◌, ◌*◌, ◌/◌, ◌%◌, ◌^◌, Bool, true, false, Option, none, some, List, htons, u8, u16,
  ◌==◌, length, if◌then◌else◌, ◌>>=◌, ◌▷◌,
}
use redes1grupal.Memory.{Mem, Bytes, load16, store8, store16, write8, get_region, within, storing}
use redes1grupal.Packet.{Packet, Kind, IpPacket, other, ip, tcp, udp, icmp, arp}
use redes1grupal.JpcapSub.{ipv4hdrlen, tcphdrlen, udphdrlen}
use redes1grupal.Checksum.{in_cksum}
use redes1grupal.Datalink.{set_ether}
use redes1grupal.Ip.{set_ip}
use redes1grupal.Ipv6.{set_ipv6}
use redes1grupal.Tcp.{set_tcp}
use redes1grupal.Udp.{set_udp}
use redes1grupal.Icmp.{set_icmp, data_length}
use redes1grupal.Arp.{set_arp}

abbrev pub add_int : ℕ → ℕ → ℕ
add_int a b = (a + b) % 2 ^ 32

-- `ver==4`
abbrev pub is_v4 : IpPacket → Bool
is_v4 p = p.version == 4

-- The header of the network layer, and its length.
unfoldable pub set_network : IpPacket → ℕ → Mem → Option (ℕ × Mem)
set_network p q m =
    if is_v4 p
    then (set_ip p q m >>= λ m₁. some (ipv4hdrlen, m₁))
    else (set_ipv6 p q m >>= λ m₁. some (40, m₁))

-- `ip_p` and `ip_len`, or `ip6_nxt` and `ip6_plen`, in the byte order of the machine.
unfoldable pub set_protocol : IpPacket → ℕ → ℕ → ℕ → Mem → Option Mem
set_protocol p q protocol length m =
    if is_v4 p
    then storing q 10 (λ f. f ▷ store8 q 9 protocol ▷ store16 q 2 (u16 length)) m
    else storing q 7 (λ f. f ▷ store8 q 6 protocol ▷ store16 q 4 (u16 length)) m

-- The next header of an IPv6 packet that is no more than that was set by `set_ipv6`.
unfoldable pub set_length : IpPacket → ℕ → ℕ → Mem → Option Mem
set_length p q length m =
    if is_v4 p
    then set_protocol p q p.protocol length m
    else storing q 6 (store16 q 4 (u16 length)) m

-- The length and the fragment field are swapped into network order, and the header checksum set.
abbrev pub finish_bytes : ℕ → Bytes → Bytes
finish_bytes q f =
    let swapped =
      f
      ▷ (λ g. store16 q 2 (htons (load16 q 2 g)) g)
      ▷ (λ g. store16 q 6 (htons (load16 q 6 g)) g)
      ▷ store16 q 10 0 in
    store16 q 10 (in_cksum swapped q 20) swapped

unfoldable pub finish_ipv4 : IpPacket → ℕ → Mem → Option Mem
finish_ipv4 p q m = if is_v4 p then storing q 20 (finish_bytes q) m else some m

-- The part of an IP packet behind its header of `hlen` bytes at `q`. `length` counts the header.
unfoldable pub set_transport : Kind → ℕ → ℕ → ℕ → Option (List ℕ) → Mem → Option (ℕ × Mem)
set_transport (tcp p t) q hlen length xs m = do
  let length' = add_int length tcphdrlen
  m₁ ← set_protocol p q 6 length' m
  m₂ ← set_tcp t (q + hlen) xs q m₁
  m₃ ← finish_ipv4 p q m₂
  some (length', m₃)
set_transport (udp p u) q hlen length xs m = do
  let length' = add_int length udphdrlen
  m₁ ← set_protocol p q 17 length' m
  m₂ ← set_udp u (q + hlen) xs q m₁
  m₃ ← finish_ipv4 p q m₂
  some (length', m₃)
set_transport (icmp p i) q hlen length xs m = do
  (more, m₁) ← set_icmp i (q + hlen) xs m
  let length' = add_int length more
  m₂ ← set_protocol p q 1 length' m₁
  m₃ ← finish_ipv4 p q m₂
  some (length', m₃)
set_transport (ip p) q hlen length xs m = do
  m₁ ← set_length p q length m
  m₂ ← get_region xs (length - hlen) (q + hlen) m₁
  m₃ ← finish_ipv4 p q m₂
  some (length, m₃)
set_transport (arp a) q hlen length xs m = none
set_transport other q hlen length xs m = none

-- `IsInstanceOf(packet,IPPacket)`, with the fields of that class.
unfoldable pub ip_part : Kind → Option IpPacket
ip_part other = none
ip_part (ip p) = some p
ip_part (tcp p t) = some p
ip_part (udp p u) = some p
ip_part (icmp p i) = some p
ip_part (arp a) = none

-- A packet that is no IP packet.
unfoldable pub set_other : Kind → ℕ → ℕ → Option (List ℕ) → Mem → Option (ℕ × Mem)
set_other (arp a) q length xs m = do (more, m₁) ← set_arp a q m; some (add_int length more, m₁)
set_other kind q length xs m = do m₁ ← get_region xs length q m; some (length, m₁)

unfoldable pub set_body : Kind → ℕ → ℕ → Option (List ℕ) → Mem → Option (ℕ × Mem)
set_body kind q length xs m = elim (ip_part kind) [
  | none ↦ set_other kind q length xs m
  | some p ↦ do
    (hlen, m₁) ← set_network p q m
    set_transport kind q hlen (add_int length hlen) xs m₁
]

-- Returns the number of bytes that are to be sent.
unfoldable pub set_packet : Packet → ℕ → Bool → Mem → Option (ℕ × Mem)
set_packet packet pointer include_datalink m = do
  (dthlen, m₁) ← if include_datalink then set_ether packet.datalink pointer m else some (0, m)
  (length, m₂) ←
      set_body packet.kind (pointer + dthlen) (data_length packet.payload) packet.payload m₁
  some (add_int length dthlen, m₂)
