-- ===== src/Stack.antt =====
-- The threads of src/r0p3: `Physical`, `Logical` and `Network` of layers/, `Arp` and `Ip` of
-- protocols/, and the menu of Main.java. A round of a loop is one step, and the steps of the threads
-- come in any order.
pub mod Turns
pub mod Downward
pub mod Requests
pub mod Alive
pub mod Casts
pub mod Running
pub mod Table
pub mod Captures
pub mod Asking
pub mod OnWire
pub mod Flags
pub mod Crashes
pub mod Ends
pub mod Shutdown
pub use redes1grupal.Workers.{
  Status, running, ended, crashed, Worker, new_worker, append_packet, left_with, set_finish, leave,
}
use redes1grupal.Base.{
  ℕ, Bool, true, false, Option, none, some, List, [], ◌∷◌, ◌++◌, ◌==◌, if◌then◌else◌,
}
use redes1grupal.Packet.{Packet, Kind, ip, tcp, udp, icmp}
use redes1grupal.SelfPacket.{
  SelfPacket, new_self_packet, wrapped, new_ethernet, ethertype_ip, ethertype_arp,
}
use redes1grupal.Logical.{pass_packet, Passed, up, down, dropped}
use redes1grupal.ArpTable.{
  Directions, contains_key, byte_to_str, arp_request, new_packet, handle, Handled, answered,
  learned, thrown,
}

-- The thread of `main`: in the menu, or in `requestIP` while it waits for the lock or while the user
-- types, or past the menu.
pub data Menu : Type 0 where
  choosing waiting typing left : Menu

-- `arp_lock` is the semaphore of `Arp`, which `requestIP` and the rounds of the thread share; those of
-- the other objects are released in the round that acquires them. `sent` are the packets that
-- `sendPackage` was called with, the first one first.
pub record Stack : Type 0 where
  pub physical : Worker
  pub logical : Worker
  pub network : Worker
  pub arp : Worker
  pub ip : Worker
  pub directions : Directions
  pub arp_lock : Bool
  pub menu : Menu
  pub sent : List Packet

-- After `start` of the threads.
abbrev pub started : Stack
started = record {
  physical = new_worker;
  logical = new_worker;
  network = new_worker;
  arp = new_worker;
  ip = new_worker;
  directions = [];
  arp_lock = false;
  menu = choosing;
  sent = [];
}

-- A thread that runs leaves its loop once it is to finish, and otherwise makes a round.
abbrev pub turn_at : Status → Bool → Stack → Stack → Stack → Stack
turn_at running true idle ending round = ending
turn_at running false idle ending round = round
turn_at ended finish idle ending round = idle
turn_at crashed finish idle ending round = idle

abbrev pub turn : Worker → Stack → Stack → Stack → Stack
turn w idle ending round = turn_at w.status w.finish idle ending round

-- What `getPacket` returned is wrapped and passed on; a packet that cannot be wrapped is lost.
abbrev pub received : Option SelfPacket → Stack → Stack
received none s = s
received (some p) s = record s { logical = append_packet p s.logical }

unfoldable pub receive : Option Packet → Stack → Stack
receive none s = s
receive (some p) s = received (new_self_packet p) s

-- `getPacketDiscarding` takes the first packet of the list that is given, if there is one.
unfoldable pub send_first : List SelfPacket → Stack → Stack
send_first [] s = s
send_first (p ∷ rest) s = record s {
  physical = left_with rest s.physical;
  sent = s.sent ++ (p.packet ∷ []);
}

unfoldable pub physical_round : Option Packet → Stack → Stack
physical_round answer s = send_first (receive answer s).physical.packet_list (receive answer s)

unfoldable pub physical_turn : Option Packet → Stack → Stack
physical_turn answer s =
    turn s.physical s
      (record s { physical = leave ended s.physical; logical = set_finish s.logical })
      (physical_round answer s)

abbrev pub passed_on : Passed → Stack → Stack
passed_on (up p) s = record s { network = append_packet p s.network }
passed_on (down p) s = record s { physical = append_packet p s.physical }
passed_on dropped s = s

unfoldable pub logical_round : List ℕ → List SelfPacket → Stack → Stack
logical_round src_mac [] s = s
logical_round src_mac (p ∷ rest) s =
    passed_on (pass_packet src_mac p) (record s { logical = left_with rest s.logical })

unfoldable pub logical_turn : List ℕ → Stack → Stack
logical_turn src_mac s =
    turn s.logical s (record s { logical = leave ended s.logical; network = set_finish s.network })
      (logical_round src_mac s.logical.packet_list s)

-- A packet that was not looked at goes to the protocol of its type, if there is one; any other one goes
-- down.
unfoldable pub route : SelfPacket → Stack → Stack
route p s =
    if p.scanned_type
    then record s { logical = append_packet (record p { up_down = false }) s.logical }
    else if p.ether_type == ethertype_ip
    then record s { ip = append_packet (record p { scanned_type = true }) s.ip }
    else if p.ether_type == ethertype_arp
    then record s { arp = append_packet (record p { scanned_type = true }) s.arp }
    else s

unfoldable pub network_round : List SelfPacket → Stack → Stack
network_round [] s = s
network_round (p ∷ rest) s = route p (record s { network = left_with rest s.network })

unfoldable pub network_turn : Stack → Stack
network_turn s =
    turn s.network s
      (record s { network = leave ended s.network; ip = set_finish s.ip; arp = set_finish s.arp })
      (network_round s.network.packet_list s)

-- A packet of ours on its way down, marked so that `Network` passes it on.
abbrev pub outgoing : Packet → SelfPacket
outgoing p = record (wrapped p new_ethernet) { scanned_type = true; fake_eth_type = ethertype_arp }

-- An exception leaves the lock with the thread that it ends.
abbrev pub after_arp : Handled → Stack → Stack
after_arp (answered a) s = record s { network = append_packet (outgoing (new_packet a)) s.network }
after_arp (learned directions) s = record s { directions = directions }
after_arp thrown s = record s { arp = leave crashed s.arp; arp_lock = true }

-- While the lock is held the thread waits for it.
unfoldable pub arp_round : List SelfPacket → Stack → Stack
arp_round [] s = s
arp_round (p ∷ rest) s =
    if s.arp_lock
    then s
    else after_arp (handle p.packet p.fake_mac_address s.directions)
        (record s { arp = left_with rest s.arp })

unfoldable pub arp_turn : Stack → Stack
arp_turn s = turn s.arp s (record s { arp = leave ended s.arp }) (arp_round s.arp.packet_list s)

-- The cast `(IPPacket) p.getPacket()`
unfoldable pub is_ip_packet : Kind → Bool
is_ip_packet Kind.other = false
is_ip_packet (Kind.ip p) = true
is_ip_packet (Kind.tcp p t) = true
is_ip_packet (Kind.udp p u) = true
is_ip_packet (Kind.icmp p i) = true
is_ip_packet (Kind.arp a) = false

unfoldable pub ip_round : List SelfPacket → Stack → Stack
ip_round [] s = s
ip_round (p ∷ rest) s = record s {
  ip =
      if is_ip_packet p.packet.kind
      then left_with rest s.ip
      else leave crashed (left_with rest s.ip);
}

unfoldable pub ip_turn : Stack → Stack
ip_turn s = turn s.ip s (record s { ip = leave ended s.ip }) (ip_round s.ip.packet_list s)

-- `requestIP` acquires the lock before it asks the user, and keeps it until the address was given. While
-- the lock is held it waits for it, and main does nothing else.
unfoldable pub start_request : Stack → Stack
start_request s =
    let acquired =
      if s.arp_lock
      then record s { menu = waiting }
      else record s { arp_lock = true; menu = typing } in
    elim s.menu [ choosing ↦ acquired | waiting ↦ acquired | typing ↦ s | left ↦ s ]

unfoldable pub request_ip : List ℕ → List ℕ → List ℕ → Stack → Stack
request_ip src_mac own_ip address s =
    let asked = record s {
      network =
          append_packet (outgoing (new_packet (arp_request src_mac own_ip address))) s.network;
      arp_lock = false;
      menu = choosing;
    } in
    elim s.menu [
      | choosing ↦ s
      | waiting ↦ s
      | typing ↦
          if contains_key (byte_to_str address) s.directions
          then record s { arp_lock = false; menu = choosing }
          else asked
      | left ↦ s
    ]

-- The end of the menu: `l1.setFinish(true)`.
unfoldable pub exit_menu : Stack → Stack
exit_menu s = elim s.menu [
  | choosing ↦ record s { menu = left; physical = set_finish s.physical }
  | waiting ↦ s
  | typing ↦ s
  | left ↦ s
]

-- Whose turn it is. The physical layer is given what `getPacket` returns, and `answers` has the four
-- bytes of a valid address.
pub data Event : Type 0 where
  physical_layer : Option Packet → Event
  logical_layer network_layer arp_protocol ip_protocol asks exits : Event
  answers : List ℕ → Event

module _ (src_mac own_ip : List ℕ) where
  unfoldable pub step : Event → Stack → Stack
  step (physical_layer answer) s = physical_turn answer s
  step logical_layer s = logical_turn src_mac s
  step network_layer s = network_turn s
  step arp_protocol s = arp_turn s
  step ip_protocol s = ip_turn s
  step asks s = start_request s
  step exits s = exit_menu s
  step (answers address) s = request_ip src_mac own_ip address s

  unfoldable pub run : List Event → Stack → Stack
  run [] s = s
  run (e ∷ es) s = run es (step e s)
