-- ===== src/Udp.antt =====
-- `analyze_udp` and `set_udp` of jpcap-0.7/src/c/packet_udp.c.
-- The UDP header: source port at offset 0, destination port at 2, length at 4, checksum at 6.
pub mod Laws
pub mod Checksum
use redes1grupal.Base.{
  ℕ, ◌+◌, ◌-◌, ◌*◌, ◌/◌, ◌%◌, Option, none, some, List, htons, u16, ◌==◌, ltb, length,
  if◌then◌else◌, ◌>>=◌, ◌▷◌,
}
use redes1grupal.Memory.{Mem, Bytes, load16, store16, write8, get_region, within, storing}
use redes1grupal.Packet.{UdpPacket}
use redes1grupal.JpcapSub.{ipv4hdrlen, udphdrlen, max_packet_size}
use redes1grupal.Checksum.{in_cksum2}

unfoldable pub analyze_udp : ℕ → Mem → Option UdpPacket
analyze_udp pointer m =
    if within pointer udphdrlen m
    then some (record {
      src_port = htons (load16 pointer 0 m.byte);
      dst_port = htons (load16 pointer 2 m.byte);
      datagram_length = htons (load16 pointer 4 m.byte);
    })
    else none

-- The length that is copied: an array that would not fit behind an IPv4 header is cut.
unfoldable pub clamp_udp : ℕ → ℕ
clamp_udp length =
    if ltb max_packet_size (length + ipv4hdrlen + udphdrlen)
    then max_packet_size - ipv4hdrlen - udphdrlen
    else length

unfoldable pub udp_header : UdpPacket → ℕ → ℕ → Bytes → Bytes
udp_header p pointer length f =
    f
    ▷ store16 pointer 0 (htons (u16 p.src_port))
    ▷ store16 pointer 2 (htons (u16 p.dst_port))
    ▷ store16 pointer 4 (htons (u16 (length + udphdrlen)))

-- The checksum field is zeroed, filled in, and set to all ones if it came out as zero.
unfoldable pub udp_checksum : ℕ → ℕ → ℕ → Bytes → Bytes
udp_checksum pointer ip length f =
    let zeroed = store16 pointer 6 0 f in
    let sum = in_cksum2 zeroed ip (load16 pointer 4 zeroed) pointer (length + udphdrlen) in
    let summed = store16 pointer 6 sum zeroed in
    if load16 pointer 6 summed == 0 then store16 pointer 6 0xffff summed else summed

-- The header of the IP packet stands at `ip`; `GetArrayLength` of a null array is a fault.
unfoldable pub set_udp : UdpPacket → ℕ → Option (List ℕ) → ℕ → Mem → Option Mem
set_udp p pointer none ip m = none
set_udp p pointer (some xs) ip m =
    let n = clamp_udp (length xs) in
    storing pointer 6 (udp_header p pointer n) m
    >>= get_region (some xs) n (pointer + udphdrlen)
    >>= storing pointer udphdrlen (udp_checksum pointer ip n)
