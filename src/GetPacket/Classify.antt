-- ===== src/GetPacket/Classify.antt =====
-- The first half of `get_packet`: the network and the transport protocol of a frame, and how many
-- bytes are left behind the headers.
use redes1grupal.Base.{
  ℕ, zero, suc, ◌+◌, ◌*◌, ◌%◌, ◌^◌, Bool, Option, none, some, htons, ◌==◌, ◌&&◌, ◌||◌,
  if◌then◌else◌, ◌>>=◌,
}
use redes1grupal.Memory.{Mem, load16, within}
use redes1grupal.JpcapSub.{tcphdrlen, udphdrlen, icmphdrlen}
use redes1grupal.GetPacket.Shorts.{to_short, sub_short, is_positive, less_than}

abbrev pub ethertype_ip : ℕ
ethertype_ip = 0x0800

abbrev pub ethertype_arp : ℕ
ethertype_arp = 0x0806

abbrev pub ethertype_revarp : ℕ
ethertype_revarp = 0x8035

abbrev pub ethertype_ipv6 : ℕ
ethertype_ipv6 = 0x86dd

abbrev pub unknown_proto : ℕ
unknown_proto = 0xffff

-- The link types that `get_packet` tells apart.
pub data LinkType : Type 0 where
  raw ieee802 en10mb unsupported : LinkType

unfoldable pub link_type : ℕ → LinkType
link_type t =
    if t == 12 then raw else if t == 6 then ieee802 else if t == 1 then en10mb else unsupported

-- `offset_type` and `offset_data` at these types; the code does not use them at others.
unfoldable pub offset_type : LinkType → ℕ
offset_type raw = 0
offset_type ieee802 = 20
offset_type en10mb = 12
offset_type unsupported = 0

unfoldable pub offset_data : LinkType → ℕ
offset_data raw = 0
offset_data ieee802 = 22
offset_data en10mb = 14
offset_data unsupported = 0

-- `get_network_type(data,id)`
unfoldable pub get_network_type : LinkType → Mem → Option ℕ
get_network_type l m =
    if within (offset_type l) 2 m then some (htons (load16 (offset_type l) 0 m.byte)) else none

-- `nproto`, and `clen` without the datalink header.
unfoldable pub network_protocol : LinkType → ℕ → Mem → Option (ℕ × ℕ)
network_protocol raw clen m = some (ethertype_ip, sub_short clen (offset_data raw))
network_protocol unsupported clen m = some (unknown_proto, clen)
network_protocol l clen m = do
  nproto ← get_network_type l m
  some (nproto, sub_short clen (offset_data l))

-- `nproto` as the switches see it.
pub data Network : Type 0 where
  ipv4 ipv6 arp revarp unknown other : Network

unfoldable pub network : ℕ → Network
network nproto =
    if nproto == ethertype_ip
    then ipv4
    else if nproto == ethertype_ipv6
    then ipv6
    else if nproto == ethertype_arp
    then arp
    else if nproto == ethertype_revarp
    then revarp
    else if nproto == unknown_proto
    then unknown
    else other

-- The IPv6 extension headers that the loop skips, by the size of their units.
pub data Skip : Type 0 where
  by_eight by_four fixed stop : Skip

unfoldable pub skip : ℕ → Skip
skip tproto =
    if tproto == 0 || (tproto == 60 || tproto == 43)
    then by_eight
    else if tproto == 51
    then by_four
    else if tproto == 44
    then fixed
    else stop

unfoldable pub skip_size : Skip → ℕ → ℕ
skip_size by_eight len = (len + 1) * 8
skip_size by_four len = (len + 2) * 4
skip_size fixed len = 8
skip_size stop len = 0

-- ESP and "no next header" end the search with no protocol.
abbrev pub no_transport : ℕ → ℕ
no_transport tproto = if tproto == 50 || tproto == 59 then unknown_proto else tproto

-- The loop with `dp`, `tproto` and `clen`. Each round takes at least eight from `clen`, so as
-- many rounds as `clen` says are enough.
unfoldable pub skip_extensions : ℕ → ℕ → ℕ → ℕ → Mem → Option (ℕ × ℕ)
skip_extensions zero dp tproto clen m = some (tproto, clen)
skip_extensions (suc fuel) dp tproto clen m = elim (skip tproto) [
  | stop ↦ some (tproto, clen)
  | kind ↦
      let size = skip_size kind (m.byte (dp + 1)) in
      let rest =
        skip_extensions fuel (dp + size) (no_transport (m.byte dp)) (sub_short clen size) m in
      if is_positive clen then (if within dp 2 m then rest else none) else some (tproto, clen)
]

-- `tproto` and `clen`. `stale` is what `tproto` held before: it is not initialised, and some
-- paths do not set it. `dp` starts at the IPv6 header itself.
unfoldable pub network_transport : Network → ℕ → LinkType → ℕ → ℕ → Mem → Option (ℕ × ℕ)
network_transport ipv4 nproto l stale clen m =
    let d = offset_data l in
    let clen' = sub_short clen (m.byte (d + 0) % 16 * 4) in
    let whole = htons (load16 d 6 m.byte) % 2 ^ 13 == 0 in
    if within d 1 m
    then if is_positive clen'
      then if within d 8 m
        then if whole
          then (if within d 10 m then some (m.byte (d + 9), clen') else none)
          else some (ethertype_ip, clen')
        else none
      else some (ethertype_ip, clen')
    else none
network_transport ipv6 nproto l stale clen m =
    let d = offset_data l in
    let clen' = sub_short clen 40 in
    let skipped = skip_extensions clen' d (m.byte (d + 6)) clen' m in
    if is_positive clen' then (if within d 7 m then skipped else none) else some (stale, clen')
network_transport arp nproto l stale clen m =
    let clen' = sub_short clen 28 in
    some ((if is_positive clen' then ethertype_arp else stale), clen')
network_transport unknown nproto l stale clen m = some (unknown_proto, clen)
network_transport revarp nproto l stale clen m = some (nproto, clen)
network_transport other nproto l stale clen m = some (nproto, clen)

unfoldable pub is_truncated : ℕ → ℕ → Bool
is_truncated tproto clen =
    (tproto == 6 && less_than clen tcphdrlen)
    || ((tproto == 17 && less_than clen udphdrlen) || (tproto == 1 && less_than clen icmphdrlen))

-- The protocols of a frame of `caplen` bytes; a truncated transport header counts as unknown.
unfoldable pub classify : LinkType → ℕ → ℕ → Mem → Option (ℕ × ℕ)
classify l stale caplen m = do
  (nproto, clen) ← network_protocol l (to_short caplen) m
  (tproto, clen') ←
      if is_positive clen
      then network_transport (network nproto) nproto l stale clen m
      else some (stale, clen)
  some (nproto, (if is_truncated tproto clen' then unknown_proto else tproto))
