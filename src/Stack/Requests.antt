-- ===== src/Stack/Requests.antt =====
-- What the program sends.
use redes1grupal.Base.{refl, arith, inr, inl, [], All-snoc, ◌∷◌, All, ℕ, List}
use redes1grupal.Stack.{
  exits, asks, ip_protocol, arp_protocol, network_layer, logical_layer, answers, physical_layer,
  ip_turn, arp_turn, network_turn, logical_turn, physical_round, outgoing, started, physical_turn,
  start_request, request_ip, Event, step, run, exit_menu, receive, Stack,
}
use redes1grupal.ArpTable.{arp_request, new_packet}
use redes1grupal.Stack.Turns.{turn-keeps, request_ip-cases}
use redes1grupal.Stack.Downward.{
  IsRequest, Downward, receive-Downward, send_first-Downward, logical_round-Downward,
  network_round-Downward, arp_round-Downward, ip_round-Downward, same-Downward,
}

-- What the user types satisfies `Typed`.
abbrev pub IsTyped : (List ℕ → Type 0) → Event → Type 0
IsTyped Typed (answers address) = Typed address
IsTyped Typed (physical_layer answer) = Unit {0}
IsTyped Typed logical_layer = Unit {0}
IsTyped Typed network_layer = Unit {0}
IsTyped Typed arp_protocol = Unit {0}
IsTyped Typed ip_protocol = Unit {0}
IsTyped Typed asks = Unit {0}
IsTyped Typed exits = Unit {0}

module _ (src_mac own_ip : List ℕ) (Typed : List ℕ → Type 0) where
  start_request-Downward :
      (s : Stack)
      → Downward src_mac own_ip Typed s
      → Downward src_mac own_ip Typed (start_request s)
  unfolding start_request
  start_request-Downward s d =
      same-Downward src_mac own_ip Typed s d (ground arith) (ground arith) (ground arith)
        (ground arith)

  exit_menu-Downward :
      (s : Stack) → Downward src_mac own_ip Typed s → Downward src_mac own_ip Typed (exit_menu s)
  unfolding exit_menu
  exit_menu-Downward s d =
      same-Downward src_mac own_ip Typed s d (ground arith) (ground arith) (ground arith)
        (ground arith)

  request_ip-Downward :
      (address : List ℕ) (s : Stack)
      → Typed address
      → Downward src_mac own_ip Typed s
      → Downward src_mac own_ip Typed (request_ip src_mac own_ip address s)
  request_ip-Downward address s wanted d = elim (request_ip-cases src_mac own_ip address s) [
    | inl (n, l, p, m) ↦ same-Downward src_mac own_ip Typed s d n l p m
    | inr e ↦ rw e (record {
      at_network =
          All-snoc _ s.network.packet_list
            (outgoing (new_packet (arp_request src_mac own_ip address))) d.at_network
            (λ scanned. (address, wanted, refl, refl));
      at_logical = d.at_logical;
      at_physical = d.at_physical;
      at_medium = d.at_medium;
    })
  ]

  step-Downward :
      (e : Event) (s : Stack)
      → IsTyped Typed e
      → Downward src_mac own_ip Typed s
      → Downward src_mac own_ip Typed (step src_mac own_ip e s)
  unfolding step physical_turn physical_round logical_turn network_turn arp_turn ip_turn
  step-Downward (physical_layer answer) s t d =
      let r : Downward src_mac own_ip Typed (receive answer s) =
        receive-Downward src_mac own_ip Typed answer s d in
      turn-keeps (Downward src_mac own_ip Typed) s.physical _ _ _ d
        (same-Downward src_mac own_ip Typed s d refl refl refl refl)
        (send_first-Downward src_mac own_ip Typed (receive answer s).physical.packet_list
          (receive answer s) r.at_physical r)
  step-Downward logical_layer s t d =
      turn-keeps (Downward src_mac own_ip Typed) s.logical _ _ _ d
        (same-Downward src_mac own_ip Typed s d refl refl refl refl)
        (logical_round-Downward src_mac own_ip Typed s.logical.packet_list s d.at_logical d)
  step-Downward network_layer s t d =
      turn-keeps (Downward src_mac own_ip Typed) s.network _ _ _ d
        (same-Downward src_mac own_ip Typed s d refl refl refl refl)
        (network_round-Downward src_mac own_ip Typed s.network.packet_list s d.at_network d)
  step-Downward arp_protocol s t d =
      turn-keeps (Downward src_mac own_ip Typed) s.arp _ _ _ d
        (same-Downward src_mac own_ip Typed s d refl refl refl refl)
        (arp_round-Downward src_mac own_ip Typed s.arp.packet_list s d)
  step-Downward ip_protocol s t d =
      turn-keeps (Downward src_mac own_ip Typed) s.ip _ _ _ d
        (same-Downward src_mac own_ip Typed s d refl refl refl refl)
        (ip_round-Downward src_mac own_ip Typed s.ip.packet_list s d)
  step-Downward asks s t d = start_request-Downward s d
  step-Downward exits s t d = exit_menu-Downward s d
  step-Downward (answers address) s t d = request_ip-Downward address s t d

  run-Downward :
      (es : List Event) (s : Stack)
      → All (IsTyped Typed) es
      → Downward src_mac own_ip Typed s
      → Downward src_mac own_ip Typed (run src_mac own_ip es s)
  unfolding run
  run-Downward [] s t d = d
  run-Downward (e ∷ es) s (t, ts) d =
      run-Downward es (step src_mac own_ip e s) ts (step-Downward e s t d)

  -- Whatever is received, in whatever order the threads take their turns: all that the program hands
  -- to `sendPackage` after it was started are ARP requests from our two addresses, in frames from us
  -- to the broadcast address, each for an address that the user typed (for each `Typed` that holds of
  -- all these). So no message that is received is ever answered.
  pub run-IsRequest :
      (es : List Event)
      → All (IsTyped Typed) es
      → All (IsRequest src_mac own_ip Typed) (run src_mac own_ip es started).sent
  run-IsRequest es t =
      (run-Downward es started t
        (record { at_network = tt; at_logical = tt; at_physical = tt; at_medium = tt })).at_medium
