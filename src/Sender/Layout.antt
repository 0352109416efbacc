-- ===== src/Sender/Layout.antt =====
-- `build_frame` of any packet behind an Ethernet header.
use redes1grupal.Base.{◌+◌, ◌≤◌, ◌>>=◌, arith, none, some, true, ◌≡◌, Option, List, ℕ}
use redes1grupal.Packet.{ethernet, ethernet, Kind, EthernetPacket, Packet}
use redes1grupal.Memory.{Mem, read_bytes, Bytes}
use redes1grupal.Sender.Padding.{
  padded, pad_frame_lem, pad_frame_lem, padded, padded, pad_frame_lem, padded, pad_frame_lem,
  padded, pad_frame_lem,
}
use Prim.Native.Nat.{max}
use redes1grupal.SetPacket.{add_int, set_body, set_packet}
use redes1grupal.Sender.{stack_buffer, build_frame}
use redes1grupal.Icmp.{data_length}
use redes1grupal.Datalink.Laws.{set_ether_lem, IsEthernet, ether_bytes}

-- A packet with an Ethernet header, both of its addresses set.
pub record IsFrame (packet : Packet) (e : EthernetPacket) (kind : Kind) (payload : Option (List ℕ))
    (esrc edst : List ℕ) : Type 0 where
  pub datalink_set : packet.datalink ≡ some (ethernet e)
  pub kind_set : packet.kind ≡ kind
  pub payload_set : packet.payload ≡ payload
  pub ether : IsEthernet e esrc edst

-- The stack buffer behind the Ethernet header.
abbrev pub ethered : Bytes → EthernetPacket → List ℕ → List ℕ → Mem
ethered stack e esrc edst = record (stack_buffer stack) {
  byte = ether_bytes e 0 esrc edst stack;
  pending = none;
}

-- The frame that holds `n` bytes of `body`.
abbrev pub frame_bytes : ℕ → Bytes → List ℕ
frame_bytes n body = read_bytes (max 60 n) 0 (padded n body)

module _ (stack : Bytes) (packet : Packet) (e : EthernetPacket) (kind : Kind)
    (payload : Option (List ℕ)) (esrc edst : List ℕ)
    (v : IsFrame packet e kind payload esrc edst) where
  -- `set_packet` comes down to `set_body` behind the Ethernet header.
  pub set_packet_lem : set_packet packet 0 true (stack_buffer stack) ≡ (
      set_body kind 14 (data_length payload) payload (ethered stack e esrc edst) >>= λ r.
      some (add_int r.0 14, r.1))
  unfolding set_packet
  set_packet_lem = ground (
    arith,
    v.datalink_set,
    v.kind_set,
    v.payload_set,
    set_ether_lem e 0 esrc edst (stack_buffer stack) v.ether,
  )

  pub build_frame_lem :
      (n : ℕ) (body : Bytes)
      → set_body kind 14 (data_length payload) payload (ethered stack e esrc edst)
        ≡ some (n, record (ethered stack e esrc edst) { byte = body })
      → n ≤ 1586
      → build_frame stack packet ≡ some (frame_bytes (n + 14) body, none)
  unfolding build_frame
  build_frame_lem n body done fits = ground (
    arith,
    set_packet_lem,
    done,
    pad_frame_lem (n + 14) (record (ethered stack e esrc edst) { byte = body }),
  )

  pub build_frame_fault :
      set_body kind 14 (data_length payload) payload (ethered stack e esrc edst) ≡ none
      → build_frame stack packet ≡ none
  unfolding build_frame
  build_frame_fault stuck = ground (arith, set_packet_lem, stuck)
