-- ===== src/Ip.antt =====
-- `analyze_ip` and `set_ip` of jpcap-0.7/src/c/packet_ip.c.
-- The IPv4 header: header length in the low half of offset 0 and version in the high half, type
-- of service at 1, length at 2, identification at 4, flags and fragment offset at 6, time to live
-- at 8, protocol at 9, checksum at 10, addresses at 12 and 16.
pub mod Laws
use redes1grupal.Base.{
  ℕ, ◌+◌, ◌-◌, ◌*◌, ◌/◌, ◌%◌, ◌^◌, Option, none, some, List, htons, u8, u16, flag, has_bits, ltb,
  length, bit_and, if◌then◌else◌, ◌>>=◌, ◌▷◌, sign_extend16,
}
use redes1grupal.Memory.{
  Mem, Bytes, load16, store8, store16, write8, read_bytes, get_region, within, storing,
}
use redes1grupal.Packet.{IpPacket}
use redes1grupal.JpcapSub.{ipv4hdrlen}

-- The header length in bytes, `ip_hl << 2`.
abbrev pub ip_hlen : ℕ → Bytes → ℕ
ip_hlen pointer f = f (pointer + 0) % 16 * 4

-- `setIPv4Value` with what the header at `pointer` holds. `ip_off` is tested for the flags as it
-- was loaded, in the byte order of the machine, and swapped for the offset alone. `ident` is a
-- Java int that is set from a short.
unfoldable pub set_ipv4_value : ℕ → Bytes → IpPacket → IpPacket
set_ipv4_value pointer f p =
    let tos = f (pointer + 1) in
    let ip_off = load16 pointer 6 f in
    record p {
      version = 4;
      priority = tos / 2 ^ 5;
      d_flag = has_bits tos 0x10;
      t_flag = has_bits tos 0x08;
      r_flag = has_bits tos 0x04;
      rsv_tos = tos % 4;
      total_length = htons (load16 pointer 2 f);
      rsv_frag = has_bits ip_off 0x8000;
      dont_frag = has_bits ip_off 0x4000;
      more_frag = has_bits ip_off 0x2000;
      offset = htons ip_off % 2 ^ 13;
      hop_limit = f (pointer + 8);
      protocol = f (pointer + 9);
      ident = sign_extend16 (htons (load16 pointer 4 f));
      src_ip = some (read_bytes 4 (pointer + 12) f);
      dst_ip = some (read_bytes 4 (pointer + 16) f);
    }

-- Returns the packet and the length of the header with its options.
unfoldable pub analyze_ip : ℕ → IpPacket → Mem → Option (IpPacket × ℕ)
analyze_ip pointer p m =
    let hdrlen = ip_hlen pointer m.byte in
    let q = set_ipv4_value pointer m.byte p in
    let options = read_bytes (hdrlen - ipv4hdrlen) (pointer + ipv4hdrlen) m.byte in
    if within pointer ipv4hdrlen m
    then if ltb ipv4hdrlen hdrlen
      then if within pointer hdrlen m
        then some (record q { option = some options }, hdrlen)
        else none
      else some (q, hdrlen)
    else none

-- `ip_v` and `ip_hl` are bit fields, the two halves of one byte.
abbrev pub set_ip_v : ℕ → ℕ → Bytes → Bytes
set_ip_v pointer v f = write8 (pointer + 0) (v * 16 + f (pointer + 0) % 16) f

abbrev pub set_ip_hl : ℕ → ℕ → Bytes → Bytes
set_ip_hl pointer v f = write8 (pointer + 0) (f (pointer + 0) / 16 * 16 + v) f

-- The flags in the byte order of the machine, and the offset in that of the network.
unfoldable pub fragment_field : IpPacket → ℕ
fragment_field p = u16 (
    flag p.rsv_frag 0x8000
    + flag p.dont_frag 0x4000
    + flag p.more_frag 0x2000
    + htons (u16 p.offset))

unfoldable pub tos_field : IpPacket → ℕ
tos_field p =
    u8 (
      p.priority * 2 ^ 5 + p.rsv_tos + flag p.d_flag 0x10 + flag p.t_flag 0x08 + flag p.r_flag 0x04)

unfoldable pub ip_header : IpPacket → ℕ → Bytes → Bytes
ip_header p pointer f =
    f
    ▷ set_ip_v pointer 4
    ▷ set_ip_hl pointer (ipv4hdrlen / 4)
    ▷ store16 pointer 4 (htons (u16 p.ident))
    ▷ store16 pointer 6 (fragment_field p)
    ▷ store8 pointer 8 p.hop_limit
    ▷ store8 pointer 1 (tos_field p)

-- An address that is not set makes `getSourceAddress` fail, and the copy from null is a fault.
unfoldable pub set_ip : IpPacket → ℕ → Mem → Option Mem
set_ip p pointer m =
    storing pointer 9 (ip_header p pointer) m
    >>= get_region p.src_ip 4 (pointer + 12)
    >>= get_region p.dst_ip 4 (pointer + 16)
