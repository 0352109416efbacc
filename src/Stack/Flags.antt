-- ===== src/Stack/Flags.antt =====
-- Which threads were told to finish, and which have stopped.
use redes1grupal.Stack.{
  ended, crashed, left_with, running, Status, network_round, Stack, logical_round, request_ip,
  start_request, send_first, receive,
}
use redes1grupal.Base.{
  arith, none, inr, refl, inl, [], some, ◌∷◌, ℕ, true, List, ◌≡◌, Option, Bool, ◌≢◌,
}
use redes1grupal.SelfPacket.{new_self_packet-cases, SelfPacket}
use redes1grupal.Packet.{Packet}
use redes1grupal.Logical.Passing.{pass_packet-cases}
use redes1grupal.Stack.Turns.{route-cases}

-- `finish` and the status of every thread.
pub record Flags : Type 0 where
  pub physical : Bool × Status
  pub logical : Bool × Status
  pub network : Bool × Status
  pub arp : Bool × Status
  pub ip : Bool × Status

abbrev pub flags : Stack → Flags
flags s = record {
  physical = (s.physical.finish, s.physical.status);
  logical = (s.logical.finish, s.logical.status);
  network = (s.network.finish, s.network.status);
  arp = (s.arp.finish, s.arp.status);
  ip = (s.ip.finish, s.ip.status);
}

-- A thread that was told to finish stays so, and one that stopped does not go on.
abbrev pub IsAfter : Bool × Status → Bool × Status → Type 0
IsAfter f g = (f.0 ≡ true → g.0 ≡ true) × (f.1 ≢ running → g.1 ≢ running)

pub record IsLater (f g : Flags) : Type 0 where
  pub at_physical : IsAfter f.physical g.physical
  pub at_logical : IsAfter f.logical g.logical
  pub at_network : IsAfter f.network g.network
  pub at_arp : IsAfter f.arp g.arp
  pub at_ip : IsAfter f.ip g.ip

-- A layer that stopped told those above to finish.
pub record IsOrdered (f : Flags) : Type 0 where
  pub physical_tells : f.physical.1 ≢ running → f.logical.0 ≡ true
  pub logical_tells : f.logical.1 ≢ running → f.network.0 ≡ true
  pub network_tells : f.network.1 ≢ running → (f.ip.0 ≡ true) × (f.arp.0 ≡ true)

abbrev pub IsFollowing : Flags → Stack → Type 0
IsFollowing f t = IsLater f (flags t) × IsOrdered (flags t)

pub same : (f : Bool × Status) → IsAfter f f
same f = (λ e. e, λ e. e)

pub stopped : (f : Bool × Status) (status : Status) → status ≢ running → IsAfter f (f.0, status)
stopped f status stop = (λ e. e, λ e. stop)

pub told : (f : Bool × Status) → IsAfter f (true, f.1)
told f = (λ e. refl, λ e. e)

pub IsLater-refl : (f : Flags) → IsLater f f
IsLater-refl f = record {
  at_physical = same f.physical;
  at_logical = same f.logical;
  at_network = same f.network;
  at_arp = same f.arp;
  at_ip = same f.ip;
}

pub both : {a b c : Bool × Status} → IsAfter a b → IsAfter b c → IsAfter a c
both p q = (λ e. q.0 (p.0 e), λ e. q.1 (p.1 e))

pub IsLater-trans : {f g h : Flags} → IsLater f g → IsLater g h → IsLater f h
IsLater-trans l k = record {
  at_physical = both l.at_physical k.at_physical;
  at_logical = both l.at_logical k.at_logical;
  at_network = both l.at_network k.at_network;
  at_arp = both l.at_arp k.at_arp;
  at_ip = both l.at_ip k.at_ip;
}

pub same-IsFollowing :
    (s t : Stack) → IsOrdered (flags s) → flags t ≡ flags s → IsFollowing (flags s) t
same-IsFollowing s t v e = rw e (IsLater-refl (flags s), v)

pub receive-flags : (answer : Option Packet) (s : Stack) → flags (receive answer s) ≡ flags s
unfolding receive
receive-flags none s = refl
receive-flags (some q) s = elim (new_self_packet-cases q) [
  | inl e ↦ rw e refl
  | inr (p, e, is_up, fresh, same, type) ↦ rw e refl
]

pub send_first-flags : (l : List SelfPacket) (s : Stack) → flags (send_first l s) ≡ flags s
unfolding send_first
send_first-flags [] s = refl
send_first-flags (p ∷ rest) s = refl

pub logical_round-flags :
    (src_mac : List ℕ) (l : List SelfPacket) (s : Stack)
    → flags (logical_round src_mac l s) ≡ flags s
unfolding logical_round
logical_round-flags src_mac [] s = refl
logical_round-flags src_mac (p ∷ rest) s = elim (pass_packet-cases src_mac p) [
  | inl e ↦ rw e refl
  | inr (inl (is_up, e)) ↦ rw e refl
  | inr (inr (q, e)) ↦ rw e refl
]

pub network_round-flags : (l : List SelfPacket) (s : Stack) → flags (network_round l s) ≡ flags s
unfolding network_round
network_round-flags [] s = refl
network_round-flags (p ∷ rest) s =
    elim (route-cases p (record s { network = left_with rest s.network })) [
      | inl (scanned, e) ↦ rw e refl
      | inr (inl (fresh, type, e)) ↦ rw e refl
      | inr (inr (inl (fresh, type, e))) ↦ rw e refl
      | inr (inr (inr e)) ↦ rw e refl
    ]

pub start_request-flags : (s : Stack) → flags (start_request s) ≡ flags s
unfolding start_request
start_request-flags s = ground arith

pub request_ip-flags :
    (src_mac own_ip address : List ℕ) (s : Stack)
    → flags (request_ip src_mac own_ip address s) ≡ flags s
unfolding request_ip
request_ip-flags src_mac own_ip address s = ground arith

pub ended-stops : ended ≢ running
ended-stops e = ground (arith, e)

pub crashed-stops : crashed ≢ running
crashed-stops e = ground (arith, e)
