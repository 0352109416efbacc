-- ===== src/Stack/Casts.antt =====
-- The casts of a round do not fail.
use redes1grupal.Packet.{ethernet, EthernetPacket, Packet}
use redes1grupal.Stack.{
  left_with, route, arp_round, logical_round, passed_on, network_round, ip_round, is_ip_packet,
  physical_layer, send_first, Stack, receive,
}
use redes1grupal.Base.{
  ◌==◌, Bool-cases, inr, arith, All-snoc, inl, ◌⊎◌, none, refl, [], false, ◌∷◌, some, true, All,
  ◌≡◌, Option, List, ℕ,
}
use redes1grupal.SelfPacket.{new_self_packet-cases, SelfPacket}
use redes1grupal.ArpTable.{
  byte_to_str, contains_key, arp_reply_operation, learned, Directions, learn, handle_arp, handle,
}
use redes1grupal.Stack.Turns.{route-cases, if-keeps}
use redes1grupal.Logical.{pass_packet}
use redes1grupal.Logical.Passing.{pass_packet-cases}
use redes1grupal.Stack.Alive.{IsMessage, IsOfType, IsConsistent, IsCapture, IsAlive, same-IsAlive}

new_self_packet-typed :
    (p : SelfPacket) (q : Packet)
    → IsConsistent q
    → p.packet ≡ q
    → (p.ether_type ≡ 0)
      ⊎ ((e : EthernetPacket) × (q.datalink ≡ some (ethernet e)) × (p.ether_type ≡ e.frametype))
    → IsOfType p.ether_type p.packet.kind
new_self_packet-typed p q c same (inl none_set) = (
  λ is_arp. absurd (omega (arith, none_set, is_arp)),
  λ is_ip. absurd (omega (arith, none_set, is_ip)),
)
new_self_packet-typed p q c same (inr (e, link, type)) = rw (type, same) (c e link)

pub receive-IsAlive :
    (answer : Option Packet) (s : Stack)
    → IsCapture (physical_layer answer)
    → IsAlive s
    → IsAlive (receive answer s)
unfolding receive
receive-IsAlive none s c v = v
receive-IsAlive (some q) s c v = elim (new_self_packet-cases q) [
  | inl e ↦ rw e v
  | inr (p, e, wrapped_up, fresh, same, type) ↦ rw e (record {
    at_logical =
        All-snoc _ s.logical.packet_list p v.at_logical
          (λ is_up. new_self_packet-typed p q c same type);
    at_network = v.at_network;
    at_arp = v.at_arp;
    at_ip = v.at_ip;
    arp_alive = v.arp_alive;
    ip_alive = v.ip_alive;
    lock_typing = v.lock_typing;
  })
]

pub send_first-IsAlive : (l : List SelfPacket) (s : Stack) → IsAlive s → IsAlive (send_first l s)
unfolding send_first
send_first-IsAlive [] s v = v
send_first-IsAlive (p ∷ rest) s v =
    same-IsAlive s v refl refl refl refl (λ e. e) (λ e. e) v.lock_typing

pass-IsAlive :
    (src_mac : List ℕ) (p : SelfPacket) (s : Stack)
    → (p.up_down ≡ true → p.scanned_type ≡ false → IsOfType p.ether_type p.packet.kind)
    → IsAlive s
    → IsAlive (passed_on (pass_packet src_mac p) s)
pass-IsAlive src_mac p s typed v = elim (pass_packet-cases src_mac p) [
  | inl e ↦ rw e v
  | inr (inl (is_up, e)) ↦ rw e (record {
    at_logical = v.at_logical;
    at_network =
        All-snoc _ s.network.packet_list (record p { fake_mac_address = src_mac }) v.at_network
          (λ fresh. typed is_up fresh);
    at_arp = v.at_arp;
    at_ip = v.at_ip;
    arp_alive = v.arp_alive;
    ip_alive = v.ip_alive;
    lock_typing = v.lock_typing;
  })
  | inr (inr (q, e)) ↦ rw e (same-IsAlive s v refl refl refl refl (λ f. f) (λ f. f) v.lock_typing)
]

route-IsAlive :
    (p : SelfPacket) (s : Stack)
    → (p.scanned_type ≡ false → IsOfType p.ether_type p.packet.kind)
    → IsAlive s
    → IsAlive (route p s)
route-IsAlive p s typed v = elim (route-cases p s) [
  | inl (scanned, e) ↦ rw e (record {
    at_logical =
        All-snoc _ s.logical.packet_list (record p { up_down = false }) v.at_logical
          (λ is_up. absurd (ground (arith, is_up)));
    at_network = v.at_network;
    at_arp = v.at_arp;
    at_ip = v.at_ip;
    arp_alive = v.arp_alive;
    ip_alive = v.ip_alive;
    lock_typing = v.lock_typing;
  })
  | inr (inl (fresh, type, e)) ↦ rw e (record {
    at_logical = v.at_logical;
    at_network = v.at_network;
    at_arp = v.at_arp;
    at_ip =
        All-snoc _ s.ip.packet_list (record p { scanned_type = true }) v.at_ip
          ((typed fresh).1 type);
    arp_alive = v.arp_alive;
    ip_alive = v.ip_alive;
    lock_typing = v.lock_typing;
  })
  | inr (inr (inl (fresh, type, e))) ↦ rw e (record {
    at_logical = v.at_logical;
    at_network = v.at_network;
    at_arp =
        All-snoc _ s.arp.packet_list (record p { scanned_type = true }) v.at_arp
          ((typed fresh).0 type);
    at_ip = v.at_ip;
    arp_alive = v.arp_alive;
    ip_alive = v.ip_alive;
    lock_typing = v.lock_typing;
  })
  | inr (inr (inr e)) ↦ rw e v
]

pub logical_round-IsAlive :
    (src_mac : List ℕ) (l : List SelfPacket) (s : Stack)
    → All (λ p. p.up_down ≡ true → IsOfType p.ether_type p.packet.kind) l
    → IsAlive s
    → IsAlive (logical_round src_mac l s)
unfolding logical_round
logical_round-IsAlive src_mac [] s h v = v
logical_round-IsAlive src_mac (p ∷ rest) s (typed, h) v =
    pass-IsAlive src_mac p (record s { logical = left_with rest s.logical })
      (λ is_up fresh. typed is_up)
      (record {
        at_logical = h;
        at_network = v.at_network;
        at_arp = v.at_arp;
        at_ip = v.at_ip;
        arp_alive = v.arp_alive;
        ip_alive = v.ip_alive;
        lock_typing = v.lock_typing;
      })

pub network_round-IsAlive :
    (l : List SelfPacket) (s : Stack)
    → All (λ p. p.scanned_type ≡ false → IsOfType p.ether_type p.packet.kind) l
    → IsAlive s
    → IsAlive (network_round l s)
unfolding network_round
network_round-IsAlive [] s h v = v
network_round-IsAlive (p ∷ rest) s (typed, h) v =
    route-IsAlive p (record s { network = left_with rest s.network }) typed
      (record {
        at_logical = v.at_logical;
        at_network = h;
        at_arp = v.at_arp;
        at_ip = v.at_ip;
        arp_alive = v.arp_alive;
        ip_alive = v.ip_alive;
        lock_typing = v.lock_typing;
      })

-- A message with a sender is handled with no exception.
handle-IsMessage :
    (q : Packet) (mac : List ℕ) (directions : Directions)
    → IsMessage q.kind
    → (after : Directions) × (handle q mac directions ≡ learned after)
unfolding handle handle_arp learn
handle-IsMessage q mac directions (a, ip, hard, kind, spa, sha) =
    elim (Bool-cases (a.operation == arp_reply_operation)) [
      | inl reply ↦ elim (Bool-cases (contains_key (byte_to_str ip) directions)) [
        | inl known ↦ (directions, ground (arith, kind, spa, reply, known))
        | inr new ↦ (
          (byte_to_str ip, byte_to_str hard) ∷ directions,
          ground (arith, kind, spa, sha, reply, new),
        )
      ]
      | inr no_reply ↦ (directions, ground (arith, kind, no_reply))
    ]

pub arp_round-IsAlive :
    (l : List SelfPacket) (s : Stack)
    → All (λ p. IsMessage p.packet.kind) l
    → IsAlive s
    → IsAlive (arp_round l s)
unfolding arp_round
arp_round-IsAlive [] s h v = v
arp_round-IsAlive (p ∷ rest) s (message, h) v =
    let (after, e) = handle-IsMessage p.packet p.fake_mac_address s.directions message in
    if-keeps IsAlive s.arp_lock s _ (λ lock. v)
      (λ lock. rw e (record {
        at_logical = v.at_logical;
        at_network = v.at_network;
        at_arp = h;
        at_ip = v.at_ip;
        arp_alive = v.arp_alive;
        ip_alive = v.ip_alive;
        lock_typing = v.lock_typing;
      }))

pub ip_round-IsAlive :
    (l : List SelfPacket) (s : Stack)
    → All (λ p. is_ip_packet p.packet.kind ≡ true) l
    → IsAlive s
    → IsAlive (ip_round l s)
unfolding ip_round
ip_round-IsAlive [] s h v = v
ip_round-IsAlive (p ∷ rest) s (castable, h) v = rw castable (record {
  at_logical = v.at_logical;
  at_network = v.at_network;
  at_arp = v.at_arp;
  at_ip = h;
  arp_alive = v.arp_alive;
  ip_alive = v.ip_alive;
  lock_typing = v.lock_typing;
})
