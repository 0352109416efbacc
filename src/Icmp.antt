-- ===== src/Icmp.antt =====
-- `analyze_icmp` and `set_icmp` of jpcap-0.7/src/c/packet_icmp.c, as built on Linux, where
-- `icmp_num_addrs` is defined.
-- The ICMP message: type at offset 0, code at 1, checksum at 2; then, by type, an identifier at 4
-- and a sequence number at 6, a gateway address at 4, an MTU at 6, or a router count at 4, an
-- entry size at 5 and a lifetime at 6; time stamps at 8, 12 and 16, a mask, an IP header or data
-- at 8.
pub mod Laws
pub mod RoundTrip
use redes1grupal.Base.{
  ℕ, ◌+◌, ◌-◌, ◌*◌, ◌/◌, ◌%◌, ◌^◌, Bool, true, false, Option, none, some, List, htons, htonl, u8,
  u16, u32, ltb, ◌==◌, ◌||◌, length, if◌then◌else◌, ◌>>=◌, ◌▷◌,
}
use redes1grupal.Memory.{
  Mem, Bytes, load16, load32, store8, store16, store32, write8, read_bytes, get_region, within,
  storing,
}
use redes1grupal.Packet.{IpPacket, IcmpPacket, new_ip}
use redes1grupal.Ip.{analyze_ip, set_ip}
use redes1grupal.Checksum.{in_cksum}
use redes1grupal.JpcapSub.{ipv4hdrlen}

-- The message types that the code tells apart.
pub data IcmpType : Type 0 where
  echo redirect unreach quoting router_advert timestamp mask unknown : IcmpType

-- `quoting` is ICMP_SOURCEQUENCH, ICMP_TIMXCEED and ICMP_PARAMPROB.
unfoldable pub icmp_type : ℕ → IcmpType
icmp_type t =
    if t == 0 || t == 8
    then echo
    else if t == 5
    then redirect
    else if t == 3
    then unreach
    else if t == 4 || (t == 11 || t == 12)
    then quoting
    else if t == 9
    then router_advert
    else if t == 13 || t == 14
    then timestamp
    else if t == 17 || t == 18
    then mask
    else unknown

-- `(jshort)v >> 8`: the shift keeps the sign.
abbrev pub shift_short : ℕ → ℕ
shift_short v = v / 256 + (if ltb v 32768 then 0 else 0xff00)

-- `setICMPValue(type, code, checksum, id, seq)` is called with three of its five arguments;
-- `extra` is what the call finds in the place of the other two.
abbrev pub set_icmp_value : ℕ → Bytes → ℕ × ℕ → IcmpPacket → IcmpPacket
set_icmp_value pointer f extra p = record p {
  type = f (pointer + 0);
  code = f (pointer + 1);
  checksum = load16 pointer 2 f;
  id = extra.0;
  seq = extra.1;
}

-- Echo messages, and all types above ICMP_PARAMPROB.
abbrev pub set_icmp_id : ℕ → Bytes → IcmpPacket → IcmpPacket
set_icmp_id pointer f p =
    let t = f (pointer + 0) in
    if t == 0 || (t == 8 || ltb 12 t)
    then record p { id = shift_short (load16 pointer 4 f); seq = shift_short (load16 pointer 6 f) }
    else p

-- The IP header that an error message quotes, if `clen` leaves room for it.
unfoldable pub quoted_ip : ℕ → ℕ → IcmpPacket → Mem → Option IcmpPacket
quoted_ip pointer clen p m =
    let quoted = analyze_ip (pointer + 8) new_ip m in
    if ltb clen (ipv4hdrlen + 16)
    then some p
    else do (ip, hlen) ← quoted; some (record p { ippacket = some ip })

-- The next-hop MTU, then the quoted header.
abbrev pub next_mtu : ℕ → Bytes → IcmpPacket → IcmpPacket
next_mtu pointer f p = record p { mtu = load16 pointer 6 f }

-- A router entry stores an address object that was never assigned: a fault, unless there is none.
unfoldable pub router_advertisement : ℕ → IcmpPacket → Mem → Option IcmpPacket
router_advertisement pointer p m =
    if m.byte (pointer + 4) == 0
    then some (record p {
      addr_num = 0;
      addr_entry_size = m.byte (pointer + 5);
      alive_time = load16 pointer 6 m.byte;
    })
    else none

-- The switch over the type, with its falls through.
unfoldable pub analyze_icmp_body : IcmpType → ℕ → ℕ → IcmpPacket → Mem → Option IcmpPacket
analyze_icmp_body echo pointer clen p m = some p
analyze_icmp_body redirect pointer clen p m =
    let q = record p { redir_ip = some (read_bytes 4 (pointer + 4) m.byte) } in
    quoted_ip pointer clen (next_mtu pointer m.byte q) m
analyze_icmp_body unreach pointer clen p m = quoted_ip pointer clen (next_mtu pointer m.byte p) m
analyze_icmp_body quoting pointer clen p m = quoted_ip pointer clen p m
analyze_icmp_body router_advert pointer clen p m = router_advertisement pointer p m
analyze_icmp_body timestamp pointer clen p m =
    if within pointer 20 m
    then some (record p {
      orig_timestamp = load32 pointer 8 m.byte;
      recv_timestamp = load32 pointer 12 m.byte;
      trans_timestamp = load32 pointer 16 m.byte;
    })
    else none
analyze_icmp_body mask pointer clen p m =
    if within pointer 12 m then some (record p { subnetmask = load32 pointer 8 m.byte }) else none
analyze_icmp_body unknown pointer clen p m = some p

-- The first eight bytes are there for every caller (`ICMPHDRLEN`).
unfoldable pub analyze_icmp : ℕ → ℕ → ℕ × ℕ → IcmpPacket → Mem → Option IcmpPacket
analyze_icmp pointer clen extra p m =
    let q = set_icmp_id pointer m.byte (set_icmp_value pointer m.byte extra p) in
    if within pointer 8 m
    then analyze_icmp_body (icmp_type (m.byte (pointer + 0))) pointer clen q m
    else none

-- `icmp_cksum = 0; icmp_cksum = in_cksum(icmp, size)`, with the fields before it. A sum over an
-- odd size reads one byte more.
unfoldable pub icmp_checksum : ℕ → ℕ → Mem → Option Mem
icmp_checksum pointer size m =
    storing pointer (size + size % 2)
      (λ f.
        let zeroed = store16 pointer 2 0 f in
        store16 pointer 2 (in_cksum zeroed pointer size) zeroed)
      m

abbrev pub icmp_id_seq : IcmpPacket → ℕ → Bytes → Bytes
icmp_id_seq p pointer f =
    f ▷ store16 pointer 4 (htons (u16 p.id)) ▷ store16 pointer 6 (htons (u16 p.seq))

abbrev pub optional_region : Option (List ℕ) → ℕ → Mem → Option Mem
optional_region none a m = some m
optional_region (some xs) a m = get_region (some xs) (length xs) a m

-- `n - length` in a 32-bit int.
abbrev pub minus_length : ℕ → ℕ → ℕ
minus_length n length = (n + 2 ^ 32 - length) % 2 ^ 32

abbrev pub data_length : Option (List ℕ) → ℕ
data_length none = 0
data_length (some xs) = length xs

-- An error message quotes the header of `ippacket`, if there is one.
unfoldable pub set_quoted : IcmpPacket → ℕ → ℕ → Mem → Option (ℕ × Mem)
set_quoted p pointer length m = elim p.ippacket [
  | none ↦ do m₁ ← icmp_checksum pointer 12 m; some (minus_length 12 length, m₁)
  | some ip ↦ do
    m₁ ← set_ip ip (pointer + 8) m
    m₂ ← icmp_checksum pointer (12 + 20) m₁
    some (minus_length (12 + 20) length, m₂)
]

unfoldable pub set_icmp_body : IcmpType → IcmpPacket → ℕ → Option (List ℕ) → Mem → Option (ℕ × Mem)
set_icmp_body echo p pointer xs m = do
  m₁ ← storing pointer 8 (icmp_id_seq p pointer) m
  m₂ ← optional_region xs (pointer + 8) m₁
  m₃ ← icmp_checksum pointer (8 + data_length xs) m₂
  some (8, m₃)
set_icmp_body redirect p pointer xs m = do
  m₁ ← get_region p.redir_ip 4 (pointer + 4) m
  set_quoted p pointer (data_length xs) m₁
set_icmp_body unreach p pointer xs m = set_quoted p pointer (data_length xs) m
set_icmp_body quoting p pointer xs m = set_quoted p pointer (data_length xs) m
set_icmp_body timestamp p pointer xs m = do
  m₁ ←
      storing pointer 20
        (λ f.
          f
          ▷ icmp_id_seq p pointer
          ▷ store32 pointer 8 (htonl (u32 p.orig_timestamp))
          ▷ store32 pointer 12 (htonl (u32 p.recv_timestamp))
          ▷ store32 pointer 16 (htonl (u32 p.trans_timestamp)))
        m
  m₂ ← icmp_checksum pointer 20 m₁
  some (minus_length 20 (data_length xs), m₂)
set_icmp_body mask p pointer xs m = do
  m₁ ←
      storing pointer 12
        (λ f. f ▷ icmp_id_seq p pointer ▷ store32 pointer 8 (htonl (u32 p.subnetmask))) m
  m₂ ← icmp_checksum pointer 12 m₁
  some (minus_length 12 (data_length xs), m₂)
set_icmp_body router_advert p pointer xs m = some (0, m)
set_icmp_body unknown p pointer xs m = some (0, m)

-- Returns what is to be added to the length of the data.
unfoldable pub set_icmp : IcmpPacket → ℕ → Option (List ℕ) → Mem → Option (ℕ × Mem)
set_icmp p pointer xs m = do
  m₁ ← storing pointer 2 (λ f. f ▷ store8 pointer 0 p.type ▷ store8 pointer 1 p.code) m
  set_icmp_body (icmp_type (u8 p.type)) p pointer xs m₁
