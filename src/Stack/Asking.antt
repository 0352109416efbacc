-- ===== src/Stack/Asking.antt =====
-- From the question of the user to the frame, and from a reply to the table.
use redes1grupal.Base.{
  ◌⊎◌, ◌≢◌, refl, length, ◌++◌, true, [], arith, none, ◌∷◌, false, some, ℕ, ◌≡◌, List,
}
use redes1grupal.Stack.{
  arp_round, arp_turn, send_first, receive, route, network_round, network_turn, logical_round,
  arp_protocol, network_layer, logical_turn, answers, logical_layer, physical_round, physical_turn,
  asks, step, choosing, physical_layer, outgoing, start_request, append_packet, new_worker, run,
  request_ip, Event, Stack,
}
use redes1grupal.Packet.{Kind, ArpPacket, ethernet, EthernetPacket, Packet}
use redes1grupal.ArpTable.{
  Directions, learn, handle_arp, handle, arp_reply_operation, arp_request, byte_to_str, new_packet,
  get,
}
use redes1grupal.SelfPacket.{
  set_ether_type, new_self_packet, set_mac_dst, set_mac_src, wrapped, ethertype_arp,
}
use redes1grupal.Logical.{broadcast, mac_len, pass_packet, mac_addresses_filter}
use redes1grupal.Stack.Downward.{request_packet}
use redes1grupal.ArpTable.Keys.{same_text_refl}
use redes1grupal.Logical.Filter.{mac_addresses_filter_iff}
use redes1grupal.Stack.Turns.{run-append}

-- Every list is empty, and the user is in the menu.
pub record IsQuiet (s : Stack) : Type 0 where
  pub at_physical : s.physical ≡ new_worker
  pub at_logical : s.logical ≡ new_worker
  pub at_network : s.network ≡ new_worker
  pub at_arp : s.arp ≡ new_worker
  pub in_menu : s.menu ≡ choosing
  pub lock_free : s.arp_lock ≡ false

-- The user asks, and then each layer takes a turn, from the top to the bottom.
abbrev pub request_turns : List ℕ → List Event
request_turns address =
    asks ∷ answers address ∷ network_layer ∷ logical_layer ∷ physical_layer none ∷ []

-- What was received takes its way up.
abbrev pub reply_turns : Packet → List Event
reply_turns q = physical_layer (some q) ∷ logical_layer ∷ network_layer ∷ arp_protocol ∷ []

module _ (src_mac own_ip address : List ℕ) where
  abbrev pub asked : Stack → Stack
  asked s = record s {
    network = append_packet (outgoing (new_packet (arp_request src_mac own_ip address))) new_worker;
  }

  request_ip-asked :
      (s : Stack)
      → IsQuiet s
      → get (byte_to_str address) s.directions ≡ none
      → request_ip src_mac own_ip address (start_request s) ≡ asked s
  unfolding request_ip start_request
  request_ip-asked s q unknown = ground (arith, q.in_menu, q.lock_free, q.at_network, unknown)

  -- From a state in which nothing is on its way, an address that is not in the table is asked for with
  -- one frame, from us to all hosts, and all else is as it was.
  pub run-sends :
      (s : Stack)
      → IsQuiet s
      → get (byte_to_str address) s.directions ≡ none
      → run src_mac own_ip (request_turns address) s
        ≡ record s { sent = s.sent ++ (request_packet src_mac own_ip address ∷ []) }
  unfolding run step physical_turn physical_round logical_turn logical_round network_turn
      network_round route pass_packet set_mac_src set_mac_dst set_ether_type receive send_first
  run-sends s q unknown =
      ground (arith, request_ip-asked s q unknown, q.at_physical, q.at_logical, q.at_network)

-- A frame to us or to all hosts, which is not from us, with the reply of `ip` at `mac`.
pub record IsReply (q : Packet) (src_mac ip mac : List ℕ) : Type 0 where
  pub header : EthernetPacket
  pub src : List ℕ
  pub dst : List ℕ
  pub link : q.datalink ≡ some (ethernet header)
  pub type : header.frametype ≡ ethertype_arp
  pub src_set : header.src_mac ≡ some src
  pub dst_set : header.dst_mac ≡ some dst
  pub src_size : length src ≡ mac_len
  pub dst_size : length dst ≡ mac_len
  pub from_other : src ≢ src_mac
  pub to_us : (dst ≡ src_mac) ⊎ (dst ≡ broadcast)
  pub message : ArpPacket
  pub class : q.kind ≡ Kind.arp message
  pub operation : message.operation ≡ arp_reply_operation
  pub protoaddr : message.sender_protoaddr ≡ some ip
  pub hardaddr : message.sender_hardaddr ≡ some mac

IsReply-let_through :
    (q : Packet) (src_mac ip mac : List ℕ) (r : IsReply q src_mac ip mac)
    → length src_mac ≡ mac_len
    → mac_addresses_filter src_mac (wrapped q r.header) ≡ some true
IsReply-let_through q src_mac ip mac r size =
    (mac_addresses_filter_iff src_mac r.src r.dst (wrapped q r.header) size r.src_size r.dst_size
        r.src_set r.dst_set).1
      (r.from_other, r.to_us)

module _ (src_mac own_ip : List ℕ) where
  run-learns :
      (s : Stack) (q : Packet) (ip mac : List ℕ)
      → length src_mac ≡ mac_len
      → IsQuiet s
      → IsReply q src_mac ip mac
      → get (byte_to_str ip) s.directions ≡ none
      → run src_mac own_ip (reply_turns q) s
        ≡ record s { directions = (byte_to_str ip, byte_to_str mac) ∷ s.directions }
  unfolding run step physical_turn physical_round logical_turn logical_round network_turn
      network_round route pass_packet receive send_first new_self_packet arp_turn arp_round handle
      handle_arp learn
  run-learns s p ip mac size q r unknown = ground (
    arith,
    q.at_physical,
    q.at_logical,
    q.at_network,
    q.at_arp,
    q.lock_free,
    r.link,
    r.type,
    IsReply-let_through p src_mac ip mac r size,
    r.class,
    r.operation,
    r.protoaddr,
    r.hardaddr,
    unknown,
  )

  -- An address that is in the table is not asked for.
  run-asks_nothing :
      (s : Stack) (address v : List ℕ)
      → IsQuiet s
      → get (byte_to_str address) s.directions ≡ some v
      → run src_mac own_ip (request_turns address) s ≡ s
  unfolding run step physical_turn physical_round logical_turn logical_round network_turn
      network_round receive send_first request_ip start_request
  run-asks_nothing s address v q entry =
      ground (arith, q.at_physical, q.at_logical, q.at_network, q.lock_free, q.in_menu, entry)

  learned-entry : (k v : List ℕ) (m : Directions) → get k ((k, v) ∷ m) ≡ some v
  unfolding get
  learned-entry k v m = ground (arith, same_text_refl k)

  -- From a state in which nothing is on its way, with an own hardware address of six bytes, an
  -- address that is not in the table is asked for, and Network, Logical and Physical take one turn
  -- each in this order; then the reply of that address, sent to us or to all by another host, comes
  -- in at Physical, and Logical, Network and Arp take one turn each: one frame is sent, the
  -- hardware address of the reply is in the table under that address, and asking for it again by
  -- the same turns sends nothing and changes nothing.
  pub run-resolves :
      (s : Stack) (q : Packet) (address mac : List ℕ)
      → length src_mac ≡ mac_len
      → IsQuiet s
      → IsReply q src_mac address mac
      → get (byte_to_str address) s.directions ≡ none
      → (t : Stack) × (run src_mac own_ip (request_turns address ++ reply_turns q) s ≡ t)
        × (get (byte_to_str address) t.directions ≡ some (byte_to_str mac))
        × (t.sent ≡ s.sent ++ (request_packet src_mac own_ip address ∷ []))
        × (run src_mac own_ip (request_turns address) t ≡ t)
  run-resolves s p address mac size q r unknown =
      let entry : List ℕ × List ℕ = (byte_to_str address, byte_to_str mac) in
      let request : Packet = request_packet src_mac own_ip address in
      let s₁ : Stack = record s { sent = s.sent ++ (request ∷ []) } in
      let q₁ : IsQuiet s₁ = record {
        at_physical = q.at_physical;
        at_logical = q.at_logical;
        at_network = q.at_network;
        at_arp = q.at_arp;
        in_menu = q.in_menu;
        lock_free = q.lock_free;
      } in
      let t : Stack = record s₁ { directions = entry ∷ s.directions } in
      let found = learned-entry (byte_to_str address) (byte_to_str mac) s.directions in
      (
        t,
        rw
            (
              run-append src_mac own_ip (request_turns address) (reply_turns p) s,
              run-sends src_mac own_ip address s q unknown,
            )
            (run-learns s₁ p address mac size q₁ r unknown),
        found,
        refl,
        run-asks_nothing t address (byte_to_str mac)
            (record {
              at_physical = q.at_physical;
              at_logical = q.at_logical;
              at_network = q.at_network;
              at_arp = q.at_arp;
              in_menu = q.in_menu;
              lock_free = q.lock_free;
            })
            found,
      )
