-- ===== src/Logical.antt =====
-- The layer of Ethernet addresses, src/r0p3/layers/Logical.java: what becomes of one packet.
pub mod Filter
pub mod Passing
use redes1grupal.Base.{
  ℕ, zero, suc, Bool, true, false, Option, none, some, List, [], ◌∷◌, not, ◌&&◌, ◌||◌, ◌==◌,
  if◌then◌else◌, ◌>>=◌, ◌▷◌,
}
use redes1grupal.SelfPacket.{
  SelfPacket, set_mac_src, set_mac_dst, set_ether_type, ethertype_ip, ethertype_arp,
}

-- `MAC_LEN`
abbrev pub mac_len : ℕ
mac_len = 6

abbrev pub broadcast : List ℕ
broadcast = 0xff ∷ 0xff ∷ 0xff ∷ 0xff ∷ 0xff ∷ 0xff ∷ []

-- The loop `if (packet[i] != mac[i])` over the first `n` bytes. An array that is too short is an
-- `ArrayIndexOutOfBoundsException`.
unfoldable pub differs : ℕ → List ℕ → List ℕ → Option Bool
differs zero xs ys = some false
differs (suc n) [] ys = none
differs (suc n) (x ∷ xs) [] = none
differs (suc n) (x ∷ xs) (y ∷ ys) = differs n xs ys >>= λ rest. some (not (x == y) || rest)

-- `macAddressesFilter`: not sent by us, and for us or for all. An address that is null is a
-- `NullPointerException`.
unfoldable pub mac_addresses_filter : List ℕ → SelfPacket → Option Bool
mac_addresses_filter src_mac p = do
  packet_src ← p.mac_src
  packet_dst ← p.mac_dst
  check_1 ← differs mac_len packet_src src_mac
  not_ours ← differs mac_len packet_dst src_mac
  not_all ← differs mac_len packet_dst broadcast
  some (check_1 && (not not_ours || not not_all))

-- To which layer the packet goes. An exception is caught by the loop, and the packet is lost.
pub data Passed : Type 0 where
  up : SelfPacket → Passed
  down : SelfPacket → Passed
  dropped : Passed

abbrev pub received_by : List ℕ → SelfPacket → Option Bool → Passed
received_by src_mac p none = dropped
received_by src_mac p (some false) = dropped
received_by src_mac p (some true) = up (record p { fake_mac_address = src_mac })

abbrev pub typed : SelfPacket → SelfPacket
typed p =
    if p.fake_eth_type == ethertype_ip
    then set_ether_type ethertype_ip p
    else if p.fake_eth_type == ethertype_arp
    then set_ether_type ethertype_arp p
    else p

-- The destination is always the broadcast address.
unfoldable pub pass_packet : List ℕ → SelfPacket → Passed
pass_packet src_mac p =
    if p.up_down
    then received_by src_mac p (mac_addresses_filter src_mac p)
    else down (p ▷ set_mac_src src_mac ▷ set_mac_dst broadcast ▷ typed)
