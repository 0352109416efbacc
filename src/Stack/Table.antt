-- ===== src/Stack/Table.antt =====
-- The table of addresses over the turns of the threads.
use redes1grupal.Base.{
  ◌≢◌, ◌<◌, All, false, none, [], ◌==◌, Option, Bool-cases, inr, arith, inl, refl, Option-cases,
  some, if◌then◌else◌, ◌∷◌, ◌≡◌, ℕ, List,
}
use redes1grupal.ArpTable.{
  arp_reply_operation, same_text, byte_to_str, same_text, handle_arp, handle, Directions, get,
  learn,
}
use redes1grupal.Packet.{Kind, Packet, ArpPacket}
use redes1grupal.Stack.{
  Status, exits, asks, ip_protocol, arp_protocol, network_layer, logical_layer, answers,
  physical_layer, exit_menu, start_request, ip_turn, arp_turn, network_turn, left_with,
  logical_turn, physical_round, Event, physical_turn, arp_round, send_first, ip_round, step,
  network_round, run, logical_round, receive, after_arp, Stack,
}
use redes1grupal.ArpTable.Keys.{same_text_refl, byte_to_str-injective, same_text_eq}
use redes1grupal.SelfPacket.{new_self_packet-cases, SelfPacket}
use redes1grupal.Stack.Turns.{request_ip-keeps, turn-keeps, route-cases, if-keeps}
use redes1grupal.Logical.Passing.{pass_packet-cases}

get-cons :
    (k j v : List ℕ) (m : Directions)
    → get k ((j, v) ∷ m) ≡ (if same_text j k then some v else get k m)
unfolding get
get-cons k j v m = refl

-- `learn` adds at most one entry, under a key that has none.
learn-keeps :
    (a : ArpPacket) (m after : Directions) (k v : List ℕ)
    → learn a m ≡ some after
    → get k m ≡ some v
    → get k after ≡ some v
unfolding learn
learn-keeps a m after k v e found = elim (Option-cases a.sender_protoaddr) [
  | inl none_set ↦ ground (arith, e, none_set)
  | inr (ip, ip_set) ↦ elim (Option-cases a.sender_hardaddr) [
    | inl none_set ↦ ground (arith, e, ip_set, none_set, found)
    | inr (mac, mac_set) ↦ ground (
      arith,
      e,
      ip_set,
      mac_set,
      found,
      get-cons k (byte_to_str ip) (byte_to_str mac) m,
      same_text_eq (byte_to_str ip) k,
    )
  ]
]

-- What is done with a message changes the table by learning at most.
after_arp-keeps :
    (a : ArpPacket) (mac : List ℕ) (m : Directions) (t : Stack) (k v : List ℕ)
    → t.directions ≡ m
    → get k m ≡ some v
    → get k (after_arp (handle_arp a mac m) t).directions ≡ some v
unfolding handle_arp
after_arp-keeps a mac m t k v same found = elim (Bool-cases (a.operation == arp_reply_operation)) [
  | inr no_reply ↦ ground (arith, no_reply, same, found)
  | inl reply ↦ elim (Option-cases (learn a m)) [
    | inl e ↦ ground (arith, reply, e, same, found)
    | inr (after, e) ↦ ground (arith, reply, e, learn-keeps a m after k v e found)
  ]
]

-- The packet may be of any class.
handle-keeps :
    (q : Packet) (kind : Kind) (mac : List ℕ) (m : Directions) (t : Stack) (k v : List ℕ)
    → q.kind ≡ kind
    → t.directions ≡ m
    → get k m ≡ some v
    → get k (after_arp (handle q mac m) t).directions ≡ some v
unfolding handle
handle-keeps q (Kind.arp a) mac m t k v class same found =
    ground (arith, class, after_arp-keeps a mac m t k v same found)
handle-keeps q (Kind.ip p) mac m t k v class same found = ground (arith, class, same, found)
handle-keeps q (Kind.tcp p u) mac m t k v class same found = ground (arith, class, same, found)
handle-keeps q (Kind.udp p u) mac m t k v class same found = ground (arith, class, same, found)
handle-keeps q (Kind.icmp p i) mac m t k v class same found = ground (arith, class, same, found)
handle-keeps q Kind.other mac m t k v class same found = ground (arith, class, same, found)

-- An entry for `k` with the value `v`.
module _ (k v : List ℕ) where
  abbrev HasEntry : Stack → Type 0
  HasEntry s = get k s.directions ≡ some v

  arp_round-HasEntry : (l : List SelfPacket) (s : Stack) → HasEntry s → HasEntry (arp_round l s)
  unfolding arp_round
  arp_round-HasEntry [] s h = h
  arp_round-HasEntry (p ∷ rest) s h =
      if-keeps HasEntry s.arp_lock s _ (λ lock. h)
        (λ lock.
          handle-keeps p.packet p.packet.kind p.fake_mac_address s.directions
            (record s { arp = left_with rest s.arp }) k v refl refl h)

  receive-HasEntry : (answer : Option Packet) (s : Stack) → HasEntry s → HasEntry (receive answer s)
  unfolding receive
  receive-HasEntry none s h = h
  receive-HasEntry (some q) s h = elim (new_self_packet-cases q) [
    | inl e ↦ rw e h
    | inr (p, e, is_up, fresh, same, type) ↦ rw e h
  ]

  send_first-HasEntry : (l : List SelfPacket) (s : Stack) → HasEntry s → HasEntry (send_first l s)
  unfolding send_first
  send_first-HasEntry [] s h = h
  send_first-HasEntry (p ∷ rest) s h = h

  logical_round-HasEntry :
      (src_mac : List ℕ) (l : List SelfPacket) (s : Stack)
      → HasEntry s
      → HasEntry (logical_round src_mac l s)
  unfolding logical_round
  logical_round-HasEntry src_mac [] s h = h
  logical_round-HasEntry src_mac (p ∷ rest) s h = elim (pass_packet-cases src_mac p) [
    | inl e ↦ rw e h
    | inr (inl (is_up, e)) ↦ rw e h
    | inr (inr (q, e)) ↦ rw e h
  ]

  network_round-HasEntry :
      (l : List SelfPacket) (s : Stack) → HasEntry s → HasEntry (network_round l s)
  unfolding network_round
  network_round-HasEntry [] s h = h
  network_round-HasEntry (p ∷ rest) s h =
      elim (route-cases p (record s { network = left_with rest s.network })) [
        | inl (scanned, e) ↦ rw e h
        | inr (inl (fresh, type, e)) ↦ rw e h
        | inr (inr (inl (fresh, type, e))) ↦ rw e h
        | inr (inr (inr e)) ↦ rw e h
      ]

  ip_round-HasEntry : (l : List SelfPacket) (s : Stack) → HasEntry s → HasEntry (ip_round l s)
  unfolding ip_round
  ip_round-HasEntry [] s h = h
  ip_round-HasEntry (p ∷ rest) s h = h

  module _ (src_mac own_ip : List ℕ) where
    step-HasEntry : (e : Event) (s : Stack) → HasEntry s → HasEntry (step src_mac own_ip e s)
    unfolding step physical_turn physical_round logical_turn network_turn arp_turn ip_turn
        start_request exit_menu
    step-HasEntry (physical_layer answer) s h = turn-keeps HasEntry s.physical _ _ _ h h (
        send_first-HasEntry (receive answer s).physical.packet_list (receive answer s)
          (receive-HasEntry answer s h))
    step-HasEntry logical_layer s h =
        turn-keeps HasEntry s.logical _ _ _ h h
          (logical_round-HasEntry src_mac s.logical.packet_list s h)
    step-HasEntry network_layer s h =
        turn-keeps HasEntry s.network _ _ _ h h (network_round-HasEntry s.network.packet_list s h)
    step-HasEntry arp_protocol s h =
        turn-keeps HasEntry s.arp _ _ _ h h (arp_round-HasEntry s.arp.packet_list s h)
    step-HasEntry ip_protocol s h =
        turn-keeps HasEntry s.ip _ _ _ h h (ip_round-HasEntry s.ip.packet_list s h)
    step-HasEntry asks s h = ground (arith, h)
    step-HasEntry exits s h = ground (arith, h)
    step-HasEntry (answers address) s h = rw (request_ip-keeps src_mac own_ip address s).3 h

    -- Whatever happens, an entry of the table stays with the value that it was made with: an address
    -- that moves to another host, and a wrong answer that came first, are never corrected.
    pub run-HasEntry :
        (es : List Event) (s : Stack) → HasEntry s → HasEntry (run src_mac own_ip es s)
    unfolding run
    run-HasEntry [] s h = h
    run-HasEntry (e ∷ es) s h = run-HasEntry es (step src_mac own_ip e s) (step-HasEntry e s h)

-- A reply that is next for the thread of ARP, with the addresses of its sender, is taken off the list,
-- and the address is known from then on: by what was known of it before, or by that of the sender.
-- No other address of bytes changes.
pub arp_turn-learns :
    (s : Stack) (p : SelfPacket) (rest : List SelfPacket) (a : ArpPacket) (ip mac other : List ℕ)
    → s.arp.packet_list ≡ p ∷ rest
    → s.arp.status ≡ Status.running
    → s.arp.finish ≡ false
    → s.arp_lock ≡ false
    → p.packet.kind ≡ Kind.arp a
    → a.operation ≡ arp_reply_operation
    → a.sender_protoaddr ≡ some ip
    → a.sender_hardaddr ≡ some mac
    → All (λ x. x < 256) ip
    → All (λ x. x < 256) other
    → other ≢ ip
    → ((arp_turn s).arp.packet_list ≡ rest)
      × (get (byte_to_str ip) (arp_turn s).directions ≡ elim (get (byte_to_str ip) s.directions) [
        | none ↦ some (byte_to_str mac)
        | some known ↦ some known
      ])
      × (get (byte_to_str other) (arp_turn s).directions ≡ get (byte_to_str other) s.directions)
unfolding arp_turn arp_round handle handle_arp learn
arp_turn-learns s p rest a ip mac other next runs goes_on free class reply spa sha ip_bytes
      other_bytes different =
    let key = byte_to_str ip in
    let entry = get-cons key key (byte_to_str mac) s.directions in
    let others = get-cons (byte_to_str other) key (byte_to_str mac) s.directions in
    let apart : same_text key (byte_to_str other) ≡ false = ground (
      arith,
      same_text_eq key (byte_to_str other),
      byte_to_str-injective other ip other_bytes ip_bytes,
    ) in
    elim (Option-cases (get key s.directions)) [
      | inl e ↦ (
        ground (arith, e),
        ground (arith, e, entry, same_text_refl key),
        ground (arith, e, others, apart),
      )
      | inr (known, e) ↦ (ground (arith, e), ground (arith, e), ground (arith, e))
    ]
