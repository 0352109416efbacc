-- ===== src/Stack/Shutdown.antt =====
-- The end of the program.
use redes1grupal.Stack.{
  exits, ip_protocol, arp_protocol, network_layer, logical_layer, physical_layer, choosing, step,
  run, Event, exit_menu, running, started, Stack, network_turn, arp_turn, physical_turn,
  logical_turn, ip_turn,
}
use redes1grupal.Stack.Flags.{flags, IsOrdered}
use redes1grupal.Base.{◌∙◌, ◌∷◌, ◌++◌, arith, ◌≢◌, true, refl, ◌≡◌, ℕ, List, Option}
use redes1grupal.Packet.{Packet}
use redes1grupal.Stack.Ends.{step-IsFollowing, run-IsFollowing}
use redes1grupal.Stack.Turns.{run-append}

physical_turn-stops :
    (answer : Option Packet) (s : Stack)
    → IsOrdered (flags s)
    → s.physical.finish ≡ true
    → ((physical_turn answer s).physical.status ≢ running)
      × ((physical_turn answer s).logical.finish ≡ true)
unfolding physical_turn
physical_turn-stops answer s v finish =
    (λ e. ground (arith, finish, e), ground (arith, finish, v.physical_tells))

logical_turn-stops :
    (src_mac : List ℕ) (s : Stack)
    → IsOrdered (flags s)
    → s.logical.finish ≡ true
    → ((logical_turn src_mac s).logical.status ≢ running)
      × ((logical_turn src_mac s).network.finish ≡ true)
unfolding logical_turn
logical_turn-stops src_mac s v finish =
    (λ e. ground (arith, finish, e), ground (arith, finish, v.logical_tells))

network_turn-stops :
    (s : Stack)
    → IsOrdered (flags s)
    → s.network.finish ≡ true
    → ((network_turn s).network.status ≢ running)
      × ((network_turn s).ip.finish ≡ true)
      × ((network_turn s).arp.finish ≡ true)
unfolding network_turn
network_turn-stops s v finish = (
  λ e. ground (arith, finish, e),
  ground (arith, finish, v.network_tells),
  ground (arith, finish, v.network_tells),
)

arp_turn-stops : (s : Stack) → s.arp.finish ≡ true → (arp_turn s).arp.status ≢ running
unfolding arp_turn
arp_turn-stops s finish e = ground (arith, finish, e)

ip_turn-stops : (s : Stack) → s.ip.finish ≡ true → (ip_turn s).ip.status ≢ running
unfolding ip_turn
ip_turn-stops s finish e = ground (arith, finish, e)

started-IsOrdered : IsOrdered (flags started)
started-IsOrdered = record {
  physical_tells = λ e. absurd (e refl);
  logical_tells = λ e. absurd (e refl);
  network_tells = λ e. absurd (e refl);
}

-- No thread runs.
pub record IsStopped (s : Stack) : Type 0 where
  pub physical_stopped : s.physical.status ≢ running
  pub logical_stopped : s.logical.status ≢ running
  pub network_stopped : s.network.status ≢ running
  pub arp_stopped : s.arp.status ≢ running
  pub ip_stopped : s.ip.status ≢ running

exit_menu-tells : (s : Stack) → s.menu ≡ choosing → (exit_menu s).physical.finish ≡ true
unfolding exit_menu
exit_menu-tells s in_menu = ground (arith, in_menu)

-- A turn of each thread in this order, with anything between them.
abbrev pub protocol_turns : List Event → List Event → List Event → List Event
protocol_turns d e f = d ++ (arp_protocol ∷ (e ++ (ip_protocol ∷ f)))

abbrev pub ordered_turns :
    Option Packet
    → List Event
    → List Event
    → List Event
    → List Event
    → List Event
    → List Event
    → List Event
ordered_turns answer a b c d e f =
    a
    ++ (physical_layer answer
        ∷ (b ++ (logical_layer ∷ (c ++ (network_layer ∷ protocol_turns d e f)))))

module _ (src_mac own_ip : List ℕ) where
  told-protocols_stop :
      (d e f : List Event) (s : Stack)
      → IsOrdered (flags s)
      → s.arp.finish ≡ true
      → s.ip.finish ≡ true
      → ((run src_mac own_ip (protocol_turns d e f) s).arp.status ≢ running)
        × ((run src_mac own_ip (protocol_turns d e f) s).ip.status ≢ running)
  unfolding run step
  told-protocols_stop d e f s v told_arp told_ip =
      let (l₁, v₁) = run-IsFollowing src_mac own_ip d s v in
      let s₁ : Stack = run src_mac own_ip d s in
      let s₂ : Stack = arp_turn s₁ in
      let (l₂, v₂) = step-IsFollowing src_mac own_ip arp_protocol s₁ v₁ in
      let (l₃, v₃) = run-IsFollowing src_mac own_ip e s₂ v₂ in
      let s₃ : Stack = run src_mac own_ip e s₂ in
      let (l₄, v₄) = step-IsFollowing src_mac own_ip ip_protocol s₃ v₃ in
      let (l₅, v₅) = run-IsFollowing src_mac own_ip f (ip_turn s₃) v₄ in
      let told : s₃.ip.finish ≡ true = l₃.at_ip.0 (l₂.at_ip.0 (l₁.at_ip.0 told_ip)) in
      rw (run-append src_mac own_ip d _ s, run-append src_mac own_ip e _ s₂)
        (
          l₅.at_arp.1 (l₄.at_arp.1 (l₃.at_arp.1 (arp_turn-stops s₁ (l₁.at_arp.0 told_arp)))),
          l₅.at_ip.1 (ip_turn-stops s₃ told),
        )

  told-IsStopped :
      (answer : Option Packet) (a b c d e f : List Event) (s : Stack)
      → IsOrdered (flags s)
      → s.physical.finish ≡ true
      → IsStopped (run src_mac own_ip (ordered_turns answer a b c d e f) s)
  unfolding run step
  told-IsStopped answer a b c d e f s v told =
      let third : List Event = protocol_turns d e f in
      let second : List Event = c ++ (network_layer ∷ third) in
      let first : List Event = b ++ (logical_layer ∷ second) in
      let (l₁, v₁) = run-IsFollowing src_mac own_ip a s v in
      let s₁ : Stack = run src_mac own_ip a s in
      let (stop₁, told₁) = physical_turn-stops answer s₁ v₁ (l₁.at_physical.0 told) in
      let s₂ : Stack = physical_turn answer s₁ in
      let v₂ = (step-IsFollowing src_mac own_ip (physical_layer answer) s₁ v₁).1 in
      let (l₃, v₃) = run-IsFollowing src_mac own_ip b s₂ v₂ in
      let s₃ : Stack = run src_mac own_ip b s₂ in
      let (stop₂, told₂) = logical_turn-stops src_mac s₃ v₃ (l₃.at_logical.0 told₁) in
      let s₄ : Stack = logical_turn src_mac s₃ in
      let v₄ = (step-IsFollowing src_mac own_ip logical_layer s₃ v₃).1 in
      let (l₅, v₅) = run-IsFollowing src_mac own_ip c s₄ v₄ in
      let s₅ : Stack = run src_mac own_ip c s₄ in
      let (stop₃, told_ip, told_arp) = network_turn-stops s₅ v₅ (l₅.at_network.0 told₂) in
      let s₆ : Stack = network_turn s₅ in
      let v₆ = (step-IsFollowing src_mac own_ip network_layer s₅ v₅).1 in
      let (arp_stop, ip_stop) = told-protocols_stop d e f s₆ v₆ told_arp told_ip in
      let below : Stack = run src_mac own_ip third s₆ in
      let middle : run src_mac own_ip second s₄ ≡ below =
        run-append src_mac own_ip c (network_layer ∷ third) s₄ in
      let whole : run src_mac own_ip first s₂ ≡ below =
        run-append src_mac own_ip b (logical_layer ∷ second) s₂ ∙ middle in
      rw (run-append src_mac own_ip a (physical_layer answer ∷ first) s, whole)
        (record {
          physical_stopped =
              rw⁻¹ whole ((run-IsFollowing src_mac own_ip first s₂ v₂).0.at_physical.1 stop₁);
          logical_stopped =
              rw⁻¹ middle ((run-IsFollowing src_mac own_ip second s₄ v₄).0.at_logical.1 stop₂);
          network_stopped = (run-IsFollowing src_mac own_ip third s₆ v₆).0.at_network.1 stop₃;
          arp_stopped = arp_stop;
          ip_stopped = ip_stop;
        })

  -- Once the user leaves the menu of a program that was started, in whatever state it is, every thread
  -- stops: after each has taken one turn more, in the order in which one tells the next, with
  -- anything between these turns, no thread runs.
  pub run-IsStopped :
      (es : List Event) (answer : Option Packet) (a b c d e f : List Event)
      → (run src_mac own_ip es started).menu ≡ choosing
      → IsStopped (run src_mac own_ip (es ++ (exits ∷ ordered_turns answer a b c d e f)) started)
  unfolding run step
  run-IsStopped es answer a b c d e f in_menu =
      let s : Stack = run src_mac own_ip es started in
      let v = (run-IsFollowing src_mac own_ip es started started-IsOrdered).1 in
      rw (run-append src_mac own_ip es (exits ∷ ordered_turns answer a b c d e f) started) (
        told-IsStopped answer a b c d e f (exit_menu s)
          (step-IsFollowing src_mac own_ip exits s v).1 (exit_menu-tells s in_menu))
