-- ===== src/Stack/Running.antt =====
-- Threads that no exception ends.
use redes1grupal.Stack.{
  outgoing, ip_turn, arp_turn, network_turn, logical_turn, physical_round, physical_turn, run,
  start_request, step, request_ip, exit_menu, exits, asks, ip_protocol, arp_protocol, network_layer,
  logical_layer, answers, physical_layer, Stack, Event, receive,
}
use redes1grupal.Base.{inr, arith, All-snoc, inl, refl, [], ◌∷◌, All, List, ℕ}
use redes1grupal.ArpTable.{arp_request, new_packet}
use redes1grupal.Stack.Turns.{request_ip-cases, turn-keeps, request_ip-keeps}
use redes1grupal.Stack.Alive.{IsCapture, IsAlive, same-IsAlive}
use redes1grupal.Stack.Casts.{
  receive-IsAlive, send_first-IsAlive, logical_round-IsAlive, network_round-IsAlive,
  arp_round-IsAlive, ip_round-IsAlive,
}

start_request-IsAlive : (s : Stack) → IsAlive s → IsAlive (start_request s)
unfolding start_request
start_request-IsAlive s v =
    same-IsAlive s v (ground arith) (ground arith) (ground arith) (ground arith)
      (λ f. ground (arith, f)) (λ f. ground (arith, f))
      (λ lock. ground (arith, lock, v.lock_typing))

exit_menu-IsAlive : (s : Stack) → IsAlive s → IsAlive (exit_menu s)
unfolding exit_menu
exit_menu-IsAlive s v =
    same-IsAlive s v (ground arith) (ground arith) (ground arith) (ground arith)
      (λ f. ground (arith, f)) (λ f. ground (arith, f))
      (λ lock. ground (arith, lock, v.lock_typing))

request_ip-IsAlive :
    (src_mac own_ip address : List ℕ) (s : Stack)
    → IsAlive s
    → IsAlive (request_ip src_mac own_ip address s)
request_ip-IsAlive src_mac own_ip address s v =
    let (l, a, i, d, lock) = request_ip-keeps src_mac own_ip address s in
    record {
      at_logical = rw l v.at_logical;
      at_network = elim (request_ip-cases src_mac own_ip address s) [
        | inl (n, logical, physical, medium) ↦ rw n v.at_network
        | inr e ↦ rw e (
            All-snoc _ s.network.packet_list
              (outgoing (new_packet (arp_request src_mac own_ip address))) v.at_network
              (λ fresh. absurd (ground (arith, fresh))))
      ];
      at_arp = rw a v.at_arp;
      at_ip = rw i v.at_ip;
      arp_alive = rw a v.arp_alive;
      ip_alive = rw i v.ip_alive;
      lock_typing = lock v.lock_typing;
    }

module _ (src_mac own_ip : List ℕ) where
  step-IsAlive :
      (e : Event) (s : Stack) → IsCapture e → IsAlive s → IsAlive (step src_mac own_ip e s)
  unfolding step physical_turn physical_round logical_turn network_turn arp_turn ip_turn
  step-IsAlive (physical_layer answer) s c v =
      turn-keeps IsAlive s.physical _ _ _ v
        (same-IsAlive s v refl refl refl refl (λ f. f) (λ f. f) v.lock_typing)
        (send_first-IsAlive (receive answer s).physical.packet_list (receive answer s)
          (receive-IsAlive answer s c v))
  step-IsAlive logical_layer s c v =
      turn-keeps IsAlive s.logical _ _ _ v
        (same-IsAlive s v refl refl refl refl (λ f. f) (λ f. f) v.lock_typing)
        (logical_round-IsAlive src_mac s.logical.packet_list s v.at_logical v)
  step-IsAlive network_layer s c v =
      turn-keeps IsAlive s.network _ _ _ v
        (same-IsAlive s v refl refl refl refl (λ f. f) (λ f. f) v.lock_typing)
        (network_round-IsAlive s.network.packet_list s v.at_network v)
  step-IsAlive arp_protocol s c v =
      turn-keeps IsAlive s.arp _ _ _ v
        (same-IsAlive s v refl refl refl refl (λ f. ground (arith, f)) (λ f. f) v.lock_typing)
        (arp_round-IsAlive s.arp.packet_list s v.at_arp v)
  step-IsAlive ip_protocol s c v =
      turn-keeps IsAlive s.ip _ _ _ v
        (same-IsAlive s v refl refl refl refl (λ f. f) (λ f. ground (arith, f)) v.lock_typing)
        (ip_round-IsAlive s.ip.packet_list s v.at_ip v)
  step-IsAlive asks s c v = start_request-IsAlive s v
  step-IsAlive exits s c v = exit_menu-IsAlive s v
  step-IsAlive (answers address) s c v = request_ip-IsAlive src_mac own_ip address s v

  -- Where every packet that `getPacket` returns is of the class of its Ethernet type, with the sender
  -- of an ARP message set, no cast fails, in whatever order the threads take their turns, from a state
  -- in which what follows holds and the lists hold such packets: no exception ends the thread of a
  -- protocol, and the lock of `Arp` is held while the user types only.
  pub run-IsAlive :
      (es : List Event) (s : Stack)
      → All IsCapture es
      → IsAlive s
      → IsAlive (run src_mac own_ip es s)
  unfolding run
  run-IsAlive [] s c v = v
  run-IsAlive (e ∷ es) s (c, cs) v =
      run-IsAlive es (step src_mac own_ip e s) cs (step-IsAlive e s c v)
