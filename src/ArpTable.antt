-- ===== src/ArpTable.antt =====
-- The ARP protocol of src/r0p3/protocols/Arp.java: its table of addresses, the messages that it makes,
-- and what it does with one that comes in. A text is the list of its characters.
pub mod Keys
use redes1grupal.Base.{
  ℕ, ◌+◌, ◌/◌, ◌%◌, Bool, true, false, Option, none, some, List, [], ◌∷◌, ◌++◌, ◌&&◌, ◌==◌, ltb,
  if◌then◌else◌,
}
use redes1grupal.Packet.{ArpPacket, Packet, Kind, arp}
use redes1grupal.SelfPacket.{no_mac}

-- `ARPPacket.ARP_REQUEST`, `ARP_REPLY`, `HARDTYPE_ETHER` and `PROTOTYPE_IP`
abbrev pub arp_request_operation : ℕ
arp_request_operation = 1

abbrev pub arp_reply_operation : ℕ
arp_reply_operation = 2

abbrev pub hardtype_ether : ℕ
hardtype_ether = 1

abbrev pub prototype_ip : ℕ
prototype_ip = 2048

abbrev pub hex_digit : ℕ → ℕ
hex_digit d = if ltb d 10 then b'0' + d else 87 + d

-- `Integer.toHexString(b&0xff)`, which writes no leading zero
unfoldable pub to_hex : ℕ → List ℕ
to_hex b = if ltb b 16 then hex_digit b ∷ [] else hex_digit (b / 16) ∷ hex_digit (b % 16) ∷ []

unfoldable pub byte_to_str : List ℕ → List ℕ
byte_to_str [] = []
byte_to_str (b ∷ bs) = to_hex b ++ (b':' ∷ byte_to_str bs)

-- `HashMap<String, String>`
abbrev pub Directions : Type 0
Directions = List (List ℕ × List ℕ)

unfoldable pub same_text : List ℕ → List ℕ → Bool
same_text [] [] = true
same_text [] (y ∷ ys) = false
same_text (x ∷ xs) [] = false
same_text (x ∷ xs) (y ∷ ys) = x == y && same_text xs ys

unfoldable pub get : List ℕ → Directions → Option (List ℕ)
get k [] = none
get k ((j, v) ∷ m) = let rest = get k m in if same_text j k then some v else rest

abbrev pub is_some : Option (List ℕ) → Bool
is_some none = false
is_some (some v) = true

abbrev pub contains_key : List ℕ → Directions → Bool
contains_key k m = is_some (get k m)

-- `arpRequest`, from our addresses
unfoldable pub arp_request : List ℕ → List ℕ → List ℕ → ArpPacket
arp_request src_mac own_ip ip_address = record {
  hardtype = hardtype_ether;
  prototype = prototype_ip;
  hlen = 6;
  plen = 4;
  operation = arp_request_operation;
  sender_hardaddr = some src_mac;
  sender_protoaddr = some own_ip;
  target_hardaddr = some no_mac;
  target_protoaddr = some ip_address;
}

-- `arpReply`, with the address that the layer of Ethernet addresses left in the packet
unfoldable pub arp_reply : ArpPacket → List ℕ → ArpPacket
arp_reply request fake_mac_address = record {
  hardtype = request.hardtype;
  prototype = request.prototype;
  hlen = request.hlen;
  plen = request.plen;
  operation = arp_reply_operation;
  sender_hardaddr = some fake_mac_address;
  sender_protoaddr = request.target_protoaddr;
  target_hardaddr = request.sender_hardaddr;
  target_protoaddr = request.sender_protoaddr;
}

-- `array == new byte[]{…}` compares references: an array that the expression creates is no other.
abbrev pub is_new_array : Option (List ℕ) → List ℕ → Bool
is_new_array array bytes = false

-- The first address that is heard of stays. A null address is a `NullPointerException`.
unfoldable pub learn : ArpPacket → Directions → Option Directions
learn a directions = elim a.sender_protoaddr [
  | none ↦ none
  | some ip ↦
      if contains_key (byte_to_str ip) directions then some directions else elim a.sender_hardaddr [
        | none ↦ none
        | some mac ↦ some ((byte_to_str ip, byte_to_str mac) ∷ directions)
      ]
]

-- What the round of `run` does with one packet: it is answered, or the table changes, or an exception
-- ends the thread.
pub data Handled : Type 0 where
  answered : ArpPacket → Handled
  learned : Directions → Handled
  thrown : Handled

abbrev pub learned_of : Option Directions → Handled
learned_of none = thrown
learned_of (some directions) = learned directions

unfoldable pub handle_arp : ArpPacket → List ℕ → Directions → Handled
handle_arp a fake_mac_address directions =
    if is_new_array a.target_hardaddr no_mac && a.operation == arp_request_operation
    then answered (arp_reply a fake_mac_address)
    else if a.operation == arp_reply_operation
    then learned_of (learn a directions)
    else learned directions

-- The cast `(ARPPacket) p.getPacket()`
unfoldable pub handle : Packet → List ℕ → Directions → Handled
handle p fake_mac_address directions = elim p.kind [
  | arp a ↦ handle_arp a fake_mac_address directions
  | _ ↦ thrown
]

-- A packet that the program makes: a `new ARPPacket()` with the fields of `a`.
abbrev pub new_packet : ArpPacket → Packet
new_packet a = record {
  sec = 0;
  usec = 0;
  caplen = 0;
  len = 0;
  datalink = none;
  header = none;
  payload = none;
  kind = arp a;
}
