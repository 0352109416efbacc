-- ===== src/Stack/Ends.antt =====
-- How the threads end, one telling the next.
use redes1grupal.Stack.{
  exits, set_finish, leave, asks, ip_protocol, arp_protocol, network_layer, logical_layer, answers,
  ended, physical_layer, exit_menu, ip_turn, arp_turn, network_turn, logical_turn, physical_round,
  physical_turn, Event, step, run, network_round, Stack, logical_round, request_ip, arp_round,
  ip_round, start_request, receive,
}
use redes1grupal.Base.{◌⊎◌, ◌∙◌, arith, inr, refl, inl, [], ◌∷◌, ℕ, List, ◌≡◌}
use redes1grupal.Stack.Turns.{turn-keeps}
use redes1grupal.Stack.Flags.{
  request_ip-flags, start_request-flags, network_round-flags, logical_round-flags, receive-flags,
  IsLater-trans, ended-stops, send_first-flags, told, stopped, same-IsFollowing, same, IsFollowing,
  IsOrdered, flags,
}
use redes1grupal.Stack.Crashes.{ip_round-IsFollowing, arp_round-IsFollowing}

physical_end-IsFollowing :
    (s : Stack)
    → IsOrdered (flags s)
    → IsFollowing
        (flags s)
        (record s { physical = leave ended s.physical; logical = set_finish s.logical })
physical_end-IsFollowing s v = (
  record {
    at_physical = stopped (flags s).physical ended ended-stops;
    at_logical = told (flags s).logical;
    at_network = same (flags s).network;
    at_arp = same (flags s).arp;
    at_ip = same (flags s).ip;
  },
  record {
    physical_tells = λ e. refl;
    logical_tells = v.logical_tells;
    network_tells = v.network_tells;
  },
)

logical_end-IsFollowing :
    (s : Stack)
    → IsOrdered (flags s)
    → IsFollowing
        (flags s)
        (record s { logical = leave ended s.logical; network = set_finish s.network })
logical_end-IsFollowing s v = (
  record {
    at_physical = same (flags s).physical;
    at_logical = stopped (flags s).logical ended ended-stops;
    at_network = told (flags s).network;
    at_arp = same (flags s).arp;
    at_ip = same (flags s).ip;
  },
  record {
    physical_tells = v.physical_tells;
    logical_tells = λ e. refl;
    network_tells = v.network_tells;
  },
)

network_end-IsFollowing :
    (s : Stack)
    → IsOrdered (flags s)
    → IsFollowing
        (flags s)
        (record s { network = leave ended s.network; ip = set_finish s.ip; arp = set_finish s.arp })
network_end-IsFollowing s v = (
  record {
    at_physical = same (flags s).physical;
    at_logical = same (flags s).logical;
    at_network = stopped (flags s).network ended ended-stops;
    at_arp = told (flags s).arp;
    at_ip = told (flags s).ip;
  },
  record {
    physical_tells = v.physical_tells;
    logical_tells = v.logical_tells;
    network_tells = λ e. (refl, refl);
  },
)

arp_end-IsFollowing :
    (s : Stack) → IsOrdered (flags s) → IsFollowing (flags s) (record s { arp = leave ended s.arp })
arp_end-IsFollowing s v = (
  record {
    at_physical = same (flags s).physical;
    at_logical = same (flags s).logical;
    at_network = same (flags s).network;
    at_arp = stopped (flags s).arp ended ended-stops;
    at_ip = same (flags s).ip;
  },
  record {
    physical_tells = v.physical_tells;
    logical_tells = v.logical_tells;
    network_tells = v.network_tells;
  },
)

ip_end-IsFollowing :
    (s : Stack) → IsOrdered (flags s) → IsFollowing (flags s) (record s { ip = leave ended s.ip })
ip_end-IsFollowing s v = (
  record {
    at_physical = same (flags s).physical;
    at_logical = same (flags s).logical;
    at_network = same (flags s).network;
    at_arp = same (flags s).arp;
    at_ip = stopped (flags s).ip ended ended-stops;
  },
  record {
    physical_tells = v.physical_tells;
    logical_tells = v.logical_tells;
    network_tells = v.network_tells;
  },
)

exit_menu-flags :
    (s : Stack)
    → (flags (exit_menu s) ≡ flags s)
      ⊎ (flags (exit_menu s) ≡ flags (record s { physical = set_finish s.physical }))
unfolding exit_menu
exit_menu-flags s = ground arith

exit_menu-IsFollowing : (s : Stack) → IsOrdered (flags s) → IsFollowing (flags s) (exit_menu s)
exit_menu-IsFollowing s v = elim (exit_menu-flags s) [
  | inl e ↦ same-IsFollowing s (exit_menu s) v e
  | inr e ↦ rw e (
    record {
      at_physical = told (flags s).physical;
      at_logical = same (flags s).logical;
      at_network = same (flags s).network;
      at_arp = same (flags s).arp;
      at_ip = same (flags s).ip;
    },
    record {
      physical_tells = v.physical_tells;
      logical_tells = v.logical_tells;
      network_tells = v.network_tells;
    },
  )
]

module _ (src_mac own_ip : List ℕ) where
  pub step-IsFollowing :
      (e : Event) (s : Stack)
      → IsOrdered (flags s)
      → IsFollowing (flags s) (step src_mac own_ip e s)
  unfolding step physical_turn physical_round logical_turn network_turn arp_turn ip_turn exit_menu
  step-IsFollowing (physical_layer answer) s v =
      turn-keeps (IsFollowing (flags s)) s.physical s _ (physical_round answer s)
        (same-IsFollowing s s v refl) (physical_end-IsFollowing s v)
        (same-IsFollowing s (physical_round answer s) v (
          send_first-flags (receive answer s).physical.packet_list (receive answer s)
          ∙ receive-flags answer s))
  step-IsFollowing logical_layer s v =
      turn-keeps (IsFollowing (flags s)) s.logical s _
        (logical_round src_mac s.logical.packet_list s) (same-IsFollowing s s v refl)
        (logical_end-IsFollowing s v)
        (same-IsFollowing s (logical_round src_mac s.logical.packet_list s) v
          (logical_round-flags src_mac s.logical.packet_list s))
  step-IsFollowing network_layer s v =
      turn-keeps (IsFollowing (flags s)) s.network s _ (network_round s.network.packet_list s)
        (same-IsFollowing s s v refl) (network_end-IsFollowing s v)
        (same-IsFollowing s (network_round s.network.packet_list s) v
          (network_round-flags s.network.packet_list s))
  step-IsFollowing arp_protocol s v =
      turn-keeps (IsFollowing (flags s)) s.arp s _ (arp_round s.arp.packet_list s)
        (same-IsFollowing s s v refl) (arp_end-IsFollowing s v)
        (arp_round-IsFollowing s.arp.packet_list s v)
  step-IsFollowing ip_protocol s v =
      turn-keeps (IsFollowing (flags s)) s.ip s _ (ip_round s.ip.packet_list s)
        (same-IsFollowing s s v refl) (ip_end-IsFollowing s v)
        (ip_round-IsFollowing s.ip.packet_list s v)
  step-IsFollowing asks s v = same-IsFollowing s (start_request s) v (start_request-flags s)
  step-IsFollowing (answers address) s v =
      same-IsFollowing s (request_ip src_mac own_ip address s) v
        (request_ip-flags src_mac own_ip address s)
  step-IsFollowing exits s v = exit_menu-IsFollowing s v

  pub run-IsFollowing :
      (es : List Event) (s : Stack)
      → IsOrdered (flags s)
      → IsFollowing (flags s) (run src_mac own_ip es s)
  unfolding run
  run-IsFollowing [] s v = same-IsFollowing s s v refl
  run-IsFollowing (e ∷ es) s v =
      let (l, w) = step-IsFollowing e s v in
      let (k, u) = run-IsFollowing es (step src_mac own_ip e s) w in (IsLater-trans l k, u)
