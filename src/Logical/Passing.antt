-- ===== src/Logical/Passing.antt =====
-- Where `Logical` passes a packet.
use redes1grupal.Logical.{typed, broadcast, up, down, dropped, pass_packet}
use redes1grupal.Base.{inr, inl, Bool-cases, refl, ◌▷◌, arith, some, ◌⊎◌, true, false, ◌≡◌, ℕ, List}
use redes1grupal.SelfPacket.{ethertype_arp, SelfPacket, set_ether_type, set_mac_dst, set_mac_src}
use redes1grupal.Packet.{ethernet}

pub pass_packet_up :
    (src_mac : List ℕ) (p : SelfPacket)
    → p.up_down ≡ true
    → (pass_packet src_mac p ≡ dropped)
      ⊎ (pass_packet src_mac p ≡ up (record p { fake_mac_address = src_mac }))
unfolding pass_packet
pass_packet_up src_mac p is_up = ground arith

-- A packet of ours that claims to be one of ARP.
pub pass_packet_down :
    (src_mac : List ℕ) (p : SelfPacket)
    → p.up_down ≡ false
    → p.fake_eth_type ≡ ethertype_arp
    → (q : SelfPacket) × (pass_packet src_mac p ≡ down q)
      × (q.packet ≡ record p.packet {
        datalink = some (
            ethernet (record {
              dst_mac = some broadcast;
              src_mac = some src_mac;
              frametype = ethertype_arp;
            }));
      })
unfolding pass_packet set_mac_src set_mac_dst set_ether_type
pass_packet_down src_mac p is_down type =
    let q : SelfPacket =
      p ▷ set_mac_src src_mac ▷ set_mac_dst broadcast ▷ set_ether_type ethertype_arp in
    (q, ground (arith, is_down, type), refl)

pub pass_packet-cases :
    (src_mac : List ℕ) (p : SelfPacket)
    → (pass_packet src_mac p ≡ dropped)
      ⊎ ((p.up_down ≡ true)
          × (pass_packet src_mac p ≡ up (record p { fake_mac_address = src_mac })))
      ⊎ ((q : SelfPacket) × (pass_packet src_mac p ≡ down q))
pass_packet-cases src_mac p = elim (Bool-cases p.up_down) [
  | inl is_up ↦ elim (pass_packet_up src_mac p is_up) [
    | inl e ↦ inl e
    | inr e ↦ inr (inl (is_up, e))
  ]
  | inr is_down ↦ inr (
      inr (
        p ▷ set_mac_src src_mac ▷ set_mac_dst broadcast ▷ typed,
        unfold pass_packet in ground (arith, is_down),
      ))
]
