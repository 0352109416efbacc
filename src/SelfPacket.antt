-- ===== src/SelfPacket.antt =====
-- `SelfPacket` of src/r0p3/layers/SelfPacket.java: a packet on its way through the layers. A Java byte
-- is its bit pattern, and a `short` that of 16 bits.
use redes1grupal.Base.{
  refl, Option-cases, inl, arith, inr, ◌⊎◌, ◌≡◌, ℕ, Bool, true, false, Option, none, some, List, [],
  ◌∷◌,
}
use redes1grupal.Packet.{Packet, EthernetPacket, ethernet, unknown}

-- `EthernetPacket.ETHERTYPE_IP` and `ETHERTYPE_ARP`
abbrev pub ethertype_ip : ℕ
ethertype_ip = 0x0800

abbrev pub ethertype_arp : ℕ
ethertype_arp = 0x0806

-- `data_link` is the same object as `eth_data` or null, and only the constructor reads it. `up_down` is
-- true for a packet on its way up.
pub record SelfPacket : Type 0 where
  pub packet : Packet
  pub eth_data : EthernetPacket
  pub mac_src : Option (List ℕ)
  pub mac_dst : Option (List ℕ)
  pub ether_type : ℕ
  pub up_down : Bool
  pub fake_mac_address : List ℕ
  pub fake_eth_type : ℕ
  pub scanned_type : Bool

abbrev pub new_ethernet : EthernetPacket
new_ethernet = record { dst_mac = none; src_mac = none; frametype = 0 }

-- `new byte[6]`
abbrev pub no_mac : List ℕ
no_mac = 0 ∷ 0 ∷ 0 ∷ 0 ∷ 0 ∷ 0 ∷ []

abbrev pub wrapped : Packet → EthernetPacket → SelfPacket
wrapped p e = record {
  packet = p;
  eth_data = e;
  mac_src = e.src_mac;
  mac_dst = e.dst_mac;
  ether_type = e.frametype;
  up_down = true;
  fake_mac_address = no_mac;
  fake_eth_type = ethertype_ip;
  scanned_type = false;
}

-- The constructor. A datalink packet of another class is a `ClassCastException`.
unfoldable pub new_self_packet : Packet → Option SelfPacket
new_self_packet p = elim p.datalink [
  | none ↦ some (wrapped p new_ethernet)
  | some link ↦ elim link [ ethernet e ↦ some (wrapped p e) | unknown ↦ none ]
]

-- A packet is wrapped as one on its way up that was not looked at, with the type of its header.
pub new_self_packet-cases :
    (q : Packet)
    → (new_self_packet q ≡ none)
      ⊎ ((p : SelfPacket) × (new_self_packet q ≡ some p)
          × (p.up_down ≡ true)
          × (p.scanned_type ≡ false)
          × (p.packet ≡ q)
          × ((p.ether_type ≡ 0)
              ⊎ ((e : EthernetPacket) × (q.datalink ≡ some (ethernet e))
                  × (p.ether_type ≡ e.frametype))))
unfolding new_self_packet
new_self_packet-cases q = elim (Option-cases q.datalink) [
  | inl e ↦ inr (wrapped q new_ethernet, ground (arith, e), refl, refl, refl, inl refl)
  | inr (ethernet e, f) ↦ inr (wrapped q e, ground (arith, f), refl, refl, refl, inr (e, f, refl))
  | inr (unknown, f) ↦ inl (ground (arith, f))
]

-- The setters also write through to the packet.
abbrev pub set_ethernet : EthernetPacket → SelfPacket → SelfPacket
set_ethernet e p = record p {
  eth_data = e;
  packet = record p.packet { datalink = some (ethernet e) };
}

unfoldable pub set_mac_src : List ℕ → SelfPacket → SelfPacket
set_mac_src mac p = record (set_ethernet (record p.eth_data { src_mac = some mac }) p) {
  mac_src = some mac;
}

unfoldable pub set_mac_dst : List ℕ → SelfPacket → SelfPacket
set_mac_dst mac p = record (set_ethernet (record p.eth_data { dst_mac = some mac }) p) {
  mac_dst = some mac;
}

unfoldable pub set_ether_type : ℕ → SelfPacket → SelfPacket
set_ether_type type p = record (set_ethernet (record p.eth_data { frametype = type }) p) {
  ether_type = type;
}
