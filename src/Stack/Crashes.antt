-- ===== src/Stack/Crashes.antt =====
-- The rounds of the protocols, whose threads an exception can end.
use redes1grupal.Stack.{crashed, after_arp, is_ip_packet, left_with, Stack, arp_round, ip_round}
use redes1grupal.Base.{Bool-cases, inr, refl, inl, [], ◌∷◌, List}
use redes1grupal.SelfPacket.{SelfPacket}
use redes1grupal.Stack.Turns.{if-keeps}
use redes1grupal.ArpTable.{thrown, learned, answered, handle, Handled}
use redes1grupal.Stack.Flags.{
  crashed-stops, stopped, same-IsFollowing, same, IsFollowing, IsOrdered, flags,
}

after_arp-IsFollowing :
    (h : Handled) (rest : List SelfPacket) (s : Stack)
    → IsOrdered (flags s)
    → IsFollowing (flags s) (after_arp h (record s { arp = left_with rest s.arp }))
after_arp-IsFollowing (answered a) rest s v =
    same-IsFollowing s (after_arp (answered a) (record s { arp = left_with rest s.arp })) v refl
after_arp-IsFollowing (learned directions) rest s v =
    same-IsFollowing s (after_arp (learned directions) (record s { arp = left_with rest s.arp })) v
      refl
after_arp-IsFollowing thrown rest s v = (
  record {
    at_physical = same (flags s).physical;
    at_logical = same (flags s).logical;
    at_network = same (flags s).network;
    at_arp = stopped (flags s).arp crashed crashed-stops;
    at_ip = same (flags s).ip;
  },
  record {
    physical_tells = v.physical_tells;
    logical_tells = v.logical_tells;
    network_tells = v.network_tells;
  },
)

pub arp_round-IsFollowing :
    (l : List SelfPacket) (s : Stack) → IsOrdered (flags s) → IsFollowing (flags s) (arp_round l s)
unfolding arp_round
arp_round-IsFollowing [] s v = same-IsFollowing s s v refl
arp_round-IsFollowing (p ∷ rest) s v =
    if-keeps (IsFollowing (flags s)) s.arp_lock s _ (λ lock. same-IsFollowing s s v refl)
      (λ lock. after_arp-IsFollowing (handle p.packet p.fake_mac_address s.directions) rest s v)

pub ip_round-IsFollowing :
    (l : List SelfPacket) (s : Stack) → IsOrdered (flags s) → IsFollowing (flags s) (ip_round l s)
unfolding ip_round
ip_round-IsFollowing [] s v = same-IsFollowing s s v refl
ip_round-IsFollowing (p ∷ rest) s v = elim (Bool-cases (is_ip_packet p.packet.kind)) [
  | inl castable ↦ rw castable (same-IsFollowing s (record s { ip = left_with rest s.ip }) v refl)
  | inr other ↦ rw other (
    record {
      at_physical = same (flags s).physical;
      at_logical = same (flags s).logical;
      at_network = same (flags s).network;
      at_arp = same (flags s).arp;
      at_ip = stopped (flags s).ip crashed crashed-stops;
    },
    record {
      physical_tells = v.physical_tells;
      logical_tells = v.logical_tells;
      network_tells = v.network_tells;
    },
  )
]
