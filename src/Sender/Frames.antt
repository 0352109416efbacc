-- ===== src/Sender/Frames.antt =====
-- TCP packets over IPv4 and Ethernet through `build_frame`: which fit the stack buffer.
use Prim.Native.Nat.{max}
use redes1grupal.Base.{ℕ, ◌+◌, ◌≤◌, ◌<◌, ◌≡◌, arith, none, some, List, length}
use redes1grupal.Memory.{Mem, Bytes}
use redes1grupal.Packet.{ethernet, Packet, IpPacket, TcpPacket, EthernetPacket, ethernet, tcp}
use redes1grupal.Datalink.Laws.{IsEthernet}
use redes1grupal.Ip.Laws.{IsIpv4, ip_bytes, set_ip_lem}
use redes1grupal.Tcp.{clamp_tcp}
use redes1grupal.Tcp.Laws.{set_tcp_fault}
use redes1grupal.SetPacket.{set_body, set_network, set_transport, set_protocol, ip_part, add_int}
use redes1grupal.SetPacket.Ipv4.{protocol_bytes}
use redes1grupal.SetPacket.Tcp.{set_body_tcp4, tcp4_bytes}
use redes1grupal.Sender.{build_frame}
use redes1grupal.Memory.Laws.{length-read_bytes}
use redes1grupal.Sender.Layout.{build_frame_lem, IsFrame, build_frame_fault, frame_bytes, ethered}
use redes1grupal.Sender.Padding.{padded}

-- A TCP packet over IPv4 and Ethernet, with all its addresses set, that carries `xs`.
pub record IsTcpFrame (packet : Packet) (e : EthernetPacket) (p : IpPacket) (t : TcpPacket)
    (esrc edst src dst xs : List ℕ) : Type 0 where
  pub datalink_set : packet.datalink ≡ some (ethernet e)
  pub kind_set : packet.kind ≡ tcp p t
  pub payload_set : packet.payload ≡ some xs
  pub is_v4 : p.version ≡ 4
  pub ether : IsEthernet e esrc edst
  pub ip : IsIpv4 p src dst

clamp_tcp_large : (n : ℕ) → 1546 < n → 1546 < clamp_tcp n
unfolding clamp_tcp
clamp_tcp_large n h = ground arith

set_body_tcp4_fault :
    (p : IpPacket) (t : TcpPacket) (q : ℕ) (src dst xs : List ℕ) (m : Mem)
    → IsIpv4 p src dst
    → p.version ≡ 4
    → 1546 < length xs
    → m.size ≡ q + 1586
    → set_body (tcp p t) q (length xs) (some xs) m ≡ none
unfolding set_body set_network set_transport set_protocol ip_part
set_body_tcp4_fault p t q src dst xs m v four large fits =
    let size : ℕ = add_int (add_int (length xs) 20) 20 in
    let f : Bytes = protocol_bytes q 6 size (ip_bytes p q src dst m.byte) in
    ground (
      arith,
      set_ip_lem p q src dst m v,
      clamp_tcp_large (length xs),
      set_tcp_fault t (q + 20) xs q (record m { byte = f }),
    )

module _ (stack : Bytes) (packet : Packet) (e : EthernetPacket) (p : IpPacket) (t : TcpPacket)
    (esrc edst src dst xs : List ℕ) (v : IsTcpFrame packet e p t esrc edst src dst xs) where
  frame-IsFrame : IsFrame packet e (tcp p t) (some xs) esrc edst
  frame-IsFrame = record {
    datalink_set = v.datalink_set;
    kind_set = v.kind_set;
    payload_set = v.payload_set;
    ether = v.ether;
  }

  abbrev pub body : Bytes
  body = tcp4_bytes p t 14 src dst xs (ethered stack e esrc edst).byte

  pub build_frame-eq :
      length xs ≤ 1546
      → build_frame stack packet ≡ some (frame_bytes (length xs + 40 + 14) body, none)
  build_frame-eq h =
      build_frame_lem stack packet e (tcp p t) (some xs) esrc edst frame-IsFrame (length xs + 40)
        body
        (set_body_tcp4 p t 14 src dst xs (ethered stack e esrc edst) v.ip v.is_v4 (omega arith)
          (omega arith))
        (omega arith)

  build_frame-large : 1546 < length xs → build_frame stack packet ≡ none
  build_frame-large h =
      build_frame_fault stack packet e (tcp p t) (some xs) esrc edst frame-IsFrame (
        set_body_tcp4_fault p t 14 src dst xs (ethered stack e esrc edst) v.ip v.is_v4 h
          (omega arith))

-- A TCP packet over IPv4 and Ethernet, with all its addresses set and at most 1546 bytes of data,
-- becomes a frame: headers and data, at least 60 bytes, and no exception is pending.
pub build_frame-tcp :
    (stack : Bytes) (packet : Packet) (e : EthernetPacket) (p : IpPacket) (t : TcpPacket)
    (esrc edst src dst xs : List ℕ)
    → IsTcpFrame packet e p t esrc edst src dst xs
    → length xs ≤ 1546
    → (frame : List ℕ) × (build_frame stack packet ≡ some (frame, none))
      × (length frame ≡ max 60 (length xs + 54))
build_frame-tcp stack packet e p t esrc edst src dst xs v h = (
  frame_bytes (length xs + 40 + 14) (body stack packet e p t esrc edst src dst xs v),
  build_frame-eq stack packet e p t esrc edst src dst xs v h,
  omega (
    arith,
    length-read_bytes (max 60 (length xs + 40 + 14)) 0
        (padded (length xs + 40 + 14) (body stack packet e p t esrc edst src dst xs v)),
  ),
)

-- With more than 1546 bytes of data, of a TCP packet over IPv4 with an Ethernet header and all its
-- addresses set, nativeSendPacket writes over the end of its stack buffer.
pub build_frame-tcp_overflow :
    (stack : Bytes) (packet : Packet) (e : EthernetPacket) (p : IpPacket) (t : TcpPacket)
    (esrc edst src dst xs : List ℕ)
    → IsTcpFrame packet e p t esrc edst src dst xs
    → 1546 < length xs
    → build_frame stack packet ≡ none
build_frame-tcp_overflow stack packet e p t esrc edst src dst xs v h =
    build_frame-large stack packet e p t esrc edst src dst xs v h
