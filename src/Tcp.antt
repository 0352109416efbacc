-- ===== src/Tcp.antt =====
-- `analyze_tcp` and `set_tcp` of jpcap-0.7/src/c/packet_tcp.c.
-- The TCP header: ports at offsets 0 and 2, sequence number at 4, acknowledgement at 8, the header
-- length in the high half of 12, flags at 13, window at 14, checksum at 16, urgent pointer at 18.
pub mod Laws
pub mod RoundTrip
pub mod Checksum
use redes1grupal.Base.{
  ℕ, ◌+◌, ◌-◌, ◌*◌, ◌/◌, ◌%◌, ◌^◌, Option, none, some, List, htons, htonl, u16, u32, flag, has_bits,
  ltb, length, bit_and, if◌then◌else◌, ◌>>=◌, ◌▷◌,
}
use redes1grupal.Memory.{
  Mem, Bytes, load16, load32, store8, store16, store32, write8, read_bytes, get_region, within,
  storing,
}
use redes1grupal.Packet.{TcpPacket}
use redes1grupal.Checksum.{in_cksum2}
use redes1grupal.JpcapSub.{ipv4hdrlen, tcphdrlen, max_packet_size}

-- The values of the header at `pointer`, with the options that the packet had before.
unfoldable pub tcp_values : ℕ → TcpPacket → Bytes → TcpPacket
tcp_values pointer p f =
    let flags = f (pointer + 13) in
    record {
      src_port = htons (load16 pointer 0 f);
      dst_port = htons (load16 pointer 2 f);
      sequence = htonl (load32 pointer 4 f);
      ack_num = htonl (load32 pointer 8 f);
      urg = has_bits flags 0x20;
      ack = has_bits flags 0x10;
      psh = has_bits flags 0x08;
      rst = has_bits flags 0x04;
      syn = has_bits flags 0x02;
      fin = has_bits flags 0x01;
      rsv1 = has_bits flags 0x80;
      rsv2 = has_bits flags 0x40;
      window = htons (load16 pointer 14 f);
      urgent_pointer = htons (load16 pointer 18 f);
      option = p.option;
    }

-- Returns the packet and the length of the header with its options.
unfoldable pub analyze_tcp : ℕ → TcpPacket → Mem → Option (TcpPacket × ℕ)
analyze_tcp pointer p m =
    let hdrlen = m.byte (pointer + 12) / 16 * 4 in
    let q = tcp_values pointer p m.byte in
    let options = read_bytes (hdrlen - tcphdrlen) (pointer + tcphdrlen) m.byte in
    if within pointer tcphdrlen m
    then if ltb tcphdrlen hdrlen
      then if within pointer hdrlen m
        then some (record q { option = some options }, hdrlen)
        else none
      else some (q, hdrlen)
    else none

unfoldable pub clamp_tcp : ℕ → ℕ
clamp_tcp length =
    if ltb max_packet_size (length + ipv4hdrlen + tcphdrlen)
    then max_packet_size - ipv4hdrlen - tcphdrlen
    else length

-- The booleans are 0 or 1, so the sum fits a byte.
unfoldable pub tcp_flags : TcpPacket → ℕ
tcp_flags p =
    flag p.rsv1 1 * 2 ^ 7
    + flag p.rsv2 1 * 2 ^ 6
    + flag p.urg 1 * 2 ^ 5
    + flag p.ack 1 * 2 ^ 4
    + flag p.psh 1 * 2 ^ 3
    + flag p.rst 1 * 2 ^ 2
    + flag p.syn 1 * 2
    + flag p.fin 1

-- `th_off` is a bit field: the low half of its byte stays as it was.
abbrev pub set_th_off : ℕ → ℕ → Bytes → Bytes
set_th_off pointer v f = write8 (pointer + 12) (v * 16 + f (pointer + 12) % 16) f

unfoldable pub tcp_header : TcpPacket → ℕ → Bytes → Bytes
tcp_header p pointer f =
    f
    ▷ store16 pointer 0 (htons (u16 p.src_port))
    ▷ store16 pointer 2 (htons (u16 p.dst_port))
    ▷ store32 pointer 4 (htonl (u32 p.sequence))
    ▷ store32 pointer 8 (htonl (u32 p.ack_num))
    ▷ set_th_off pointer 5
    ▷ store8 pointer 13 (tcp_flags p)
    ▷ store16 pointer 14 (htons (u16 p.window))
    ▷ store16 pointer 18 (htons (u16 p.urgent_pointer))

unfoldable pub tcp_checksum : ℕ → ℕ → ℕ → Bytes → Bytes
tcp_checksum pointer ip length f =
    let zeroed = store16 pointer 16 0 f in
    let len = htons (u16 (u16 length + tcphdrlen)) in
    store16 pointer 16 (in_cksum2 zeroed ip len pointer (length + tcphdrlen)) zeroed

-- The header of the IP packet stands at `ip`; `GetArrayLength` of a null array is a fault.
unfoldable pub set_tcp : TcpPacket → ℕ → Option (List ℕ) → ℕ → Mem → Option Mem
set_tcp p pointer none ip m = none
set_tcp p pointer (some xs) ip m =
    let n = clamp_tcp (length xs) in
    storing pointer tcphdrlen (tcp_header p pointer) m
    >>= get_region (some xs) n (pointer + tcphdrlen)
    >>= storing pointer tcphdrlen (tcp_checksum pointer ip n)
