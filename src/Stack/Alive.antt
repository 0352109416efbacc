-- ===== src/Stack/Alive.antt =====
-- The casts and the lock of the protocol threads.
use redes1grupal.Packet.{ethernet, ArpPacket, EthernetPacket, Kind, Packet}
use redes1grupal.Stack.{
  exits, asks, ip_protocol, arp_protocol, network_layer, is_ip_packet, logical_layer, typing,
  answers, crashed, physical_layer, Stack, Event,
}
use redes1grupal.Base.{none, ◌≢◌, false, some, true, All, ◌≡◌, List, ℕ}
use redes1grupal.SelfPacket.{ethertype_ip, ethertype_arp}

-- A message whose sender is known.
abbrev pub IsMessage : Kind → Type 0
IsMessage kind =
    (a : ArpPacket) × (ip : List ℕ) × (mac : List ℕ) × (kind ≡ Kind.arp a)
    × (a.sender_protoaddr ≡ some ip)
    × (a.sender_hardaddr ≡ some mac)

-- The class of a packet is that of its Ethernet type.
abbrev pub IsOfType : ℕ → Kind → Type 0
IsOfType type kind =
    (type ≡ ethertype_arp → IsMessage kind) × (type ≡ ethertype_ip → is_ip_packet kind ≡ true)

abbrev pub IsConsistent : Packet → Type 0
IsConsistent q = (e : EthernetPacket) → q.datalink ≡ some (ethernet e) → IsOfType e.frametype q.kind

-- What `getPacket` returns is consistent.
abbrev pub IsCapture : Event → Type 0
IsCapture (physical_layer (some q)) = IsConsistent q
IsCapture (physical_layer none) = Unit {0}
IsCapture logical_layer = Unit {0}
IsCapture network_layer = Unit {0}
IsCapture arp_protocol = Unit {0}
IsCapture ip_protocol = Unit {0}
IsCapture asks = Unit {0}
IsCapture exits = Unit {0}
IsCapture (answers address) = Unit {0}

-- No exception ended a protocol, and the lock of `Arp` is held while the user types only.
pub record IsAlive (s : Stack) : Type 0 where
  pub at_logical :
      All (λ p. p.up_down ≡ true → IsOfType p.ether_type p.packet.kind) s.logical.packet_list
  pub at_network :
      All (λ p. p.scanned_type ≡ false → IsOfType p.ether_type p.packet.kind) s.network.packet_list
  pub at_arp : All (λ p. IsMessage p.packet.kind) s.arp.packet_list
  pub at_ip : All (λ p. is_ip_packet p.packet.kind ≡ true) s.ip.packet_list
  pub arp_alive : s.arp.status ≢ crashed
  pub ip_alive : s.ip.status ≢ crashed
  pub lock_typing : s.arp_lock ≡ true → s.menu ≡ typing

pub same-IsAlive :
    {t : Stack} (s : Stack)
    → IsAlive s
    → t.logical.packet_list ≡ s.logical.packet_list
    → t.network.packet_list ≡ s.network.packet_list
    → t.arp.packet_list ≡ s.arp.packet_list
    → t.ip.packet_list ≡ s.ip.packet_list
    → (t.arp.status ≡ crashed → s.arp.status ≡ crashed)
    → (t.ip.status ≡ crashed → s.ip.status ≡ crashed)
    → (t.arp_lock ≡ true → t.menu ≡ typing)
    → IsAlive t
same-IsAlive s v l n a i arp_status ip_status lock = record {
  at_logical = rw l v.at_logical;
  at_network = rw n v.at_network;
  at_arp = rw a v.at_arp;
  at_ip = rw i v.at_ip;
  arp_alive = λ e. v.arp_alive (arp_status e);
  ip_alive = λ e. v.ip_alive (ip_status e);
  lock_typing = lock;
}
