-- ===== src/Stack/Downward.antt =====
-- What is on its way down.
use redes1grupal.Base.{
  ◌≢◌, refl, Bool-cases, arith, inr, inl, none, [], false, Option, All-snoc, true, ◌∷◌, ◌≡◌, some,
  All, ℕ, List,
}
use redes1grupal.Stack.{
  after_arp, network_round, arp_round, ip_round, left_with, logical_round, route, passed_on,
  receive, send_first, Stack,
}
use redes1grupal.SelfPacket.{new_self_packet-cases, ethertype_arp, SelfPacket}
use redes1grupal.Packet.{ArpPacket, ethernet, Packet, EthernetPacket}
use redes1grupal.ArpTable.{thrown, learned, answered, handle, Handled, arp_request, new_packet}
use redes1grupal.Logical.{pass_packet, pass_packet, broadcast}
use redes1grupal.Stack.Turns.{if-keeps, route-cases}
use redes1grupal.Logical.Passing.{pass_packet_down, pass_packet_up}
use redes1grupal.ArpTable.Keys.{handle-answers_nothing}

-- The header of a request: from us, to all.
abbrev pub request_header : List ℕ → EthernetPacket
request_header src_mac = record {
  dst_mac = some broadcast;
  src_mac = some src_mac;
  frametype = ethertype_arp;
}

-- The packet for the medium that asks for `address`.
abbrev pub request_packet : List ℕ → List ℕ → List ℕ → Packet
request_packet src_mac own_ip address = record (new_packet (arp_request src_mac own_ip address)) {
  datalink = some (ethernet (request_header src_mac));
}

-- `Typed` holds of the addresses that the user typed.
module _ (src_mac own_ip : List ℕ) (Typed : List ℕ → Type 0) where
  abbrev pub IsRequest : Packet → Type 0
  IsRequest q = (address : List ℕ) × Typed address × (q ≡ request_packet src_mac own_ip address)

  -- A request that `Logical` has not seen.
  abbrev pub IsOutgoing : SelfPacket → Type 0
  IsOutgoing p =
      (address : List ℕ) × Typed address
      × (p.packet ≡ new_packet (arp_request src_mac own_ip address))
      × (p.fake_eth_type ≡ ethertype_arp)

  -- Only requests of ours are on their way down.
  pub record Downward (s : Stack) : Type 0 where
    pub at_network : All (λ p. p.scanned_type ≡ true → IsOutgoing p) s.network.packet_list
    pub at_logical :
        All
          (λ p. (p.up_down ≡ false → IsOutgoing p) × (p.up_down ≡ true → p.scanned_type ≡ false))
          s.logical.packet_list
    pub at_physical : All (λ p. IsRequest p.packet) s.physical.packet_list
    pub at_medium : All IsRequest s.sent

  -- Only the four lists matter.
  pub same-Downward :
      {t : Stack} (s : Stack)
      → Downward s
      → t.network.packet_list ≡ s.network.packet_list
      → t.logical.packet_list ≡ s.logical.packet_list
      → t.physical.packet_list ≡ s.physical.packet_list
      → t.sent ≡ s.sent
      → Downward t
  same-Downward s d n l p m = record {
    at_network = rw n d.at_network;
    at_logical = rw l d.at_logical;
    at_physical = rw p d.at_physical;
    at_medium = rw m d.at_medium;
  }

  pub receive-Downward :
      (answer : Option Packet) (s : Stack) → Downward s → Downward (receive answer s)
  unfolding receive
  receive-Downward none s d = d
  receive-Downward (some q) s d = elim (new_self_packet-cases q) [
    | inl e ↦ rw e d
    | inr (p, e, wrapped_up, fresh, same, type) ↦ rw e (record {
      at_network = d.at_network;
      at_logical =
          All-snoc _ s.logical.packet_list p d.at_logical
            ((λ is_down. absurd (ground (arith, wrapped_up, is_down))), λ is_up. fresh);
      at_physical = d.at_physical;
      at_medium = d.at_medium;
    })
  ]

  pub send_first-Downward :
      (l : List SelfPacket) (s : Stack)
      → All (λ p. IsRequest p.packet) l
      → Downward s
      → Downward (send_first l s)
  unfolding send_first
  send_first-Downward [] s h d = d
  send_first-Downward (p ∷ rest) s (is_request, h) d = record {
    at_network = d.at_network;
    at_logical = d.at_logical;
    at_physical = h;
    at_medium = All-snoc IsRequest s.sent p.packet d.at_medium is_request;
  }

  pass-Downward :
      (p : SelfPacket) (s : Stack)
      → (p.up_down ≡ false → IsOutgoing p)
      → (p.up_down ≡ true → p.scanned_type ≡ false)
      → Downward s
      → Downward (passed_on (pass_packet src_mac p) s)
  pass-Downward p s goes_down goes_up d = elim (Bool-cases p.up_down) [
    | inl is_up ↦ elim (pass_packet_up src_mac p is_up) [
      | inl e ↦ rw e d
      | inr e ↦ rw e (record {
        at_network =
            All-snoc _ s.network.packet_list (record p { fake_mac_address = src_mac }) d.at_network
              (λ scanned. absurd (ground (arith, goes_up is_up, scanned)));
        at_logical = d.at_logical;
        at_physical = d.at_physical;
        at_medium = d.at_medium;
      })
    ]
    | inr is_down ↦
        let (address, wanted, made, type) = goes_down is_down in
        let (q, e, framed) = pass_packet_down src_mac p is_down type in
        rw e (record {
          at_network = d.at_network;
          at_logical = d.at_logical;
          at_physical =
              All-snoc _ s.physical.packet_list q d.at_physical
                (address, wanted, ground (arith, framed, made));
          at_medium = d.at_medium;
        })
  ]

  pub logical_round-Downward :
      (l : List SelfPacket) (s : Stack)
      → All
          (λ p. (p.up_down ≡ false → IsOutgoing p) × (p.up_down ≡ true → p.scanned_type ≡ false))
          l
      → Downward s
      → Downward (logical_round src_mac l s)
  unfolding logical_round
  logical_round-Downward [] s h d = d
  logical_round-Downward (p ∷ rest) s ((goes_down, goes_up), h) d =
      pass-Downward p (record s { logical = left_with rest s.logical }) goes_down goes_up
        (record {
          at_network = d.at_network;
          at_logical = h;
          at_physical = d.at_physical;
          at_medium = d.at_medium;
        })

  route-Downward :
      (p : SelfPacket) (s : Stack)
      → (p.scanned_type ≡ true → IsOutgoing p)
      → Downward s
      → Downward (route p s)
  route-Downward p s is_ours d = elim (route-cases p s) [
    | inl (scanned, e) ↦ rw e (record {
      at_network = d.at_network;
      at_logical =
          All-snoc _ s.logical.packet_list (record p { up_down = false }) d.at_logical
            ((λ is_down. is_ours scanned), λ is_up. absurd (ground (arith, is_up)));
      at_physical = d.at_physical;
      at_medium = d.at_medium;
    })
    | inr (inl (fresh, type, e)) ↦ rw e (same-Downward s d refl refl refl refl)
    | inr (inr (inl (fresh, type, e))) ↦ rw e (same-Downward s d refl refl refl refl)
    | inr (inr (inr e)) ↦ rw e d
  ]

  pub network_round-Downward :
      (l : List SelfPacket) (s : Stack)
      → All (λ p. p.scanned_type ≡ true → IsOutgoing p) l
      → Downward s
      → Downward (network_round l s)
  unfolding network_round
  network_round-Downward [] s h d = d
  network_round-Downward (p ∷ rest) s (is_ours, h) d =
      route-Downward p (record s { network = left_with rest s.network }) is_ours
        (record {
          at_network = h;
          at_logical = d.at_logical;
          at_physical = d.at_physical;
          at_medium = d.at_medium;
        })

  -- No message is answered, since the comparison with a new array is never true.
  after_arp-Downward :
      (h : Handled) (s : Stack)
      → ((a : ArpPacket) → h ≢ answered a)
      → Downward s
      → Downward (after_arp h s)
  after_arp-Downward (answered a) s never d = absurd (never a refl)
  after_arp-Downward (learned directions) s never d = same-Downward s d refl refl refl refl
  after_arp-Downward thrown s never d = same-Downward s d refl refl refl refl

  pub arp_round-Downward : (l : List SelfPacket) (s : Stack) → Downward s → Downward (arp_round l s)
  unfolding arp_round
  arp_round-Downward [] s d = d
  arp_round-Downward (p ∷ rest) s d =
      let t : Stack = record s { arp = left_with rest s.arp } in
      let acted : Downward (after_arp (handle p.packet p.fake_mac_address s.directions) t) =
        after_arp-Downward (handle p.packet p.fake_mac_address s.directions) t
          (handle-answers_nothing p.packet p.fake_mac_address s.directions)
          (same-Downward s d refl refl refl refl) in
      if-keeps Downward s.arp_lock s _ (λ e. d) (λ e. acted)

  pub ip_round-Downward : (l : List SelfPacket) (s : Stack) → Downward s → Downward (ip_round l s)
  unfolding ip_round
  ip_round-Downward [] s d = d
  ip_round-Downward (p ∷ rest) s d = same-Downward s d refl refl refl refl
