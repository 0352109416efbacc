-- ===== src/Ipv6.antt =====
-- `analyze_ipv6` and `set_ipv6` of jpcap-0.7/src/c/packet_ipv6.c.
-- The IPv6 header: version, class and flow label in the word at offset 0, payload length at 4,
-- next header at 6, hop limit at 7, addresses at 8 and 24.
pub mod Laws
pub mod RoundTrip
use redes1grupal.Base.{
  ℕ, zero, suc, ◌+◌, ◌-◌, ◌*◌, ◌/◌, ◌%◌, ◌^◌, Bool, true, false, Option, none, some, List, [], ◌∷◌,
  ◌++◌, htons, htonl, u8, u16, u32, ltb, ◌==◌, ◌||◌, has_bits, bit_and, bit_or, if◌then◌else◌,
  ◌>>=◌, ◌▷◌,
}
use redes1grupal.Memory.{
  Mem, Bytes, load16, load32, store8, store16, store32, write8, read_bytes, get_region, within,
  storing,
}
use redes1grupal.Packet.{
  IpPacket, Ipv6Option, Ipv6OptionBody, option_data, routing, fragment, authentication,
}

-- How the walk over the extension headers ends: with the packet, the length of all headers, or
-- with a read past the capture. `exhausted` is no outcome of the code: the fuel ran out.
pub data Walk {ℓ} (A : Type ℓ) : Type ℓ where
  finished : A → Walk A
  fault : Walk A
  exhausted : Walk A

-- The extension headers that the code knows, and any other protocol.
pub data Extension : Type 0 where
  options routing_header fragment_header auth_header transport : Extension

unfoldable pub extension : ℕ → Extension
extension proto =
    if proto == 0 || proto == 60
    then options
    else if proto == 43
    then routing_header
    else if proto == 51
    then auth_header
    else if proto == 44
    then fragment_header
    else transport

-- The bytes of an array behind a prefix.
unfoldable pub strip_prefix : List ℕ → List ℕ → Option (List ℕ)
strip_prefix [] ys = some ys
strip_prefix (x ∷ xs) [] = none
strip_prefix (x ∷ xs) (y ∷ ys) = let rest = strip_prefix xs ys in if x == y then rest else none

-- The start of an IPv4-mapped address
abbrev pub mapped_prefix : List ℕ
mapped_prefix = 0 ∷ 0 ∷ 0 ∷ 0 ∷ 0 ∷ 0 ∷ 0 ∷ 0 ∷ 0 ∷ 0 ∷ 0xff ∷ 0xff ∷ []

-- `InetAddress.getByAddress` of sixteen bytes: an IPv4-mapped address becomes one of four bytes.
unfoldable pub inet_address : List ℕ → List ℕ
inet_address xs = elim (strip_prefix mapped_prefix xs) [ none ↦ xs | some v4 ↦ v4 ]

-- The loop over the addresses of a routing header: `p` stays, and `data` moves on.
unfoldable pub routing_addresses : ℕ → ℕ → ℕ → Bytes → List (List ℕ) × ℕ
routing_addresses zero p d f = ([], d)
routing_addresses (suc n) p d f =
    let (rest, d') = routing_addresses n p (d + 16) f in
    (inet_address (read_bytes 16 p f) ∷ rest, d')

-- One header at `d`: what is recorded, how far `data` moves, and by how much `hlen` grows.
-- `ip6_ext + 2` is four bytes on, and `ah + 8` is 96 bytes on.
unfoldable pub extension_header : Extension → ℕ → Mem → Option (Ipv6OptionBody × ℕ × ℕ)
extension_header options d m =
    let len = m.byte (d + 1) in
    let step = (len + 1) * 8 in
    if within d (4 + len) m
    then some (option_data (read_bytes len (d + 4) m.byte), d + step, step)
    else none
extension_header routing_header d m =
    let len = m.byte (d + 1) in
    let step = (len + 1) * 8 in
    let walked = routing_addresses (len / 2) (d + 8) d m.byte in
    if within d (if len / 2 == 0 then 4 else 24) m
    then some (routing (m.byte (d + 2)) (m.byte (d + 3)) walked.0, walked.1 + step, step)
    else none
extension_header fragment_header d m =
    let offlg = load16 d 2 m.byte in
    if within d 8 m
    then some (
      fragment (htons (bit_and offlg 0xf8ff)) (has_bits offlg 0x0100) (htonl (load32 d 4 m.byte)),
      d + 8,
      8,
    )
    else none
extension_header auth_header d m =
    let len = m.byte (d + 1) in
    let step = (len + 2) * 4 in
    if within d (96 + len) m
    then some (
      authentication (htonl (load32 d 4 m.byte)) (htonl (load32 d 8 m.byte))
          (read_bytes len (d + 96) m.byte),
      d + step,
      step,
    )
    else none
extension_header transport d m = none

abbrev pub add_option : Ipv6Option → IpPacket → IpPacket
add_option o p = record p { options = p.options ++ (o ∷ []) }

-- `while (proto is an extension header)`, at the header at `d`.
unfoldable pub extension_loop : ℕ → ℕ → ℕ → ℕ → IpPacket → Mem → Walk (IpPacket × ℕ)
extension_loop zero proto d hlen p m = exhausted
extension_loop (suc fuel) proto d hlen p m = elim (extension proto) [
  | transport ↦ finished (p, hlen)
  | kind ↦ elim (extension_header kind d m) [
    | none ↦ fault
    | some (body, d', step) ↦
        let o : Ipv6Option = record {
          type = proto;
          next_header = m.byte d;
          hlen = m.byte (d + 1);
          body = body;
        } in
        extension_loop fuel (m.byte d) d' (hlen + step) (add_option o p) m
  ]
]

-- `(jbyte)x >> 20` for a word `x`: of its low byte only the sign is left.
abbrev pub class_byte : ℕ → ℕ
class_byte x = if ltb (u8 x) 128 then 0 else 255

-- A signed byte widened to a short.
abbrev pub sign_extend8 : ℕ → ℕ
sign_extend8 v = if ltb v 128 then v else v + 0xff00

-- `setIPv6Value` with what the header at `pointer` holds.
unfoldable pub set_ipv6_value : ℕ → Bytes → IpPacket → IpPacket
set_ipv6_value pointer f p = record p {
  version = 6;
  priority = class_byte (bit_and (load32 pointer 0 f) 0x0ff00000);
  flow_label = htonl (load32 pointer 0 f % 2 ^ 20);
  total_length = htons (load16 pointer 4 f);
  protocol = sign_extend8 (f (pointer + 6));
  hop_limit = f (pointer + 7);
  src_ip = some (inet_address (read_bytes 16 (pointer + 8) f));
  dst_ip = some (inet_address (read_bytes 16 (pointer + 24) f));
}

-- Every round of the walk moves on, so one round for each byte of the capture is enough.
-- Returns the packet and the length of all headers, an unsigned short.
unfoldable pub analyze_ipv6 : ℕ → IpPacket → Mem → Walk (IpPacket × ℕ)
analyze_ipv6 pointer p m =
    let q = set_ipv6_value pointer m.byte p in
    if within pointer 40 m
    then elim (extension_loop (suc m.size) (m.byte (pointer + 6)) (pointer + 40) 40 q m) [
      | finished (r, hlen) ↦ finished (r, u16 hlen)
      | fault ↦ fault
      | exhausted ↦ exhausted
    ]
    else fault

-- The class is a signed byte; of its sign nothing is left under the mask.
abbrev pub class_and_flow : IpPacket → ℕ
class_and_flow p = bit_or (p.priority * 2 ^ 20) p.flow_label % 2 ^ 28

unfoldable pub ipv6_header : IpPacket → ℕ → Bytes → Bytes
ipv6_header p pointer f =
    f
    ▷ (λ g. store32 pointer 0 (bit_or (load32 pointer 0 g) (htonl (class_and_flow p))) g)
    ▷ store8 pointer 6 p.protocol
    ▷ store8 pointer 7 p.hop_limit

-- The word at 0 is cleared and its version set before the addresses are copied.
unfoldable pub set_ipv6 : IpPacket → ℕ → Mem → Option Mem
set_ipv6 p pointer m =
    storing pointer 4 (λ f. f ▷ store32 pointer 0 0 ▷ store8 pointer 0 0x60) m
    >>= get_region p.src_ip 16 (pointer + 8)
    >>= get_region p.dst_ip 16 (pointer + 24)
    >>= storing pointer 8 (ipv6_header p pointer)
