-- ===== src/Stack/Turns.antt =====
-- What a turn of a thread can come to.
use redes1grupal.Stack.{
  step, Event, run, typing, choosing, outgoing, request_ip, turn_at, append_packet, Status, turn,
  Worker, route, Stack,
}
use redes1grupal.SelfPacket.{ethertype_arp, ethertype_ip, SelfPacket}
use redes1grupal.Base.{
  [], ◌∷◌, ◌++◌, refl, if◌then◌else◌, ℕ, List, arith, ◌⊎◌, false, Bool, true, ◌≡◌,
}
use redes1grupal.ArpTable.{arp_request, new_packet}

pub if-keeps {ℓ κ} :
    {A : Type κ} (P : A → Type ℓ) (b : Bool) (x y : A)
    → (b ≡ true → P x)
    → (b ≡ false → P y)
    → P (if b then x else y)
if-keeps P true x y p q = p refl
if-keeps P false x y p q = q refl

-- A thread keeps what its two rounds keep.
pub turn-keeps {ℓ} :
    (P : Stack → Type ℓ) (w : Worker) (idle ending round : Stack)
    → P idle
    → P ending
    → P round
    → P (turn w idle ending round)
turn-keeps P w idle ending round i e r = at w.status w.finish
  where
    at : (status : Status) (finish : Bool) → P (turn_at status finish idle ending round)
    at Status.running true = e
    at Status.running false = r
    at Status.ended finish = i
    at Status.crashed finish = i

-- A packet that was looked at goes down; another one goes to IP or to ARP, or is lost.
pub route-cases :
    (p : SelfPacket) (s : Stack)
    → ((p.scanned_type ≡ true)
        × (route p s
            ≡ record s { logical = append_packet (record p { up_down = false }) s.logical }))
      ⊎ ((p.scanned_type ≡ false)
          × (p.ether_type ≡ ethertype_ip)
          × (route p s ≡ record s { ip = append_packet (record p { scanned_type = true }) s.ip }))
      ⊎ ((p.scanned_type ≡ false)
          × (p.ether_type ≡ ethertype_arp)
          × (route p s ≡ record s { arp = append_packet (record p { scanned_type = true }) s.arp }))
      ⊎ (route p s ≡ s)
unfolding route
route-cases p s = ground arith

-- An address that was typed is asked for, unless it is known; in the menu nothing happens.
pub request_ip-cases :
    (src_mac own_ip address : List ℕ) (s : Stack)
    → (((request_ip src_mac own_ip address s).network.packet_list ≡ s.network.packet_list)
        × ((request_ip src_mac own_ip address s).logical.packet_list ≡ s.logical.packet_list)
        × ((request_ip src_mac own_ip address s).physical.packet_list ≡ s.physical.packet_list)
        × ((request_ip src_mac own_ip address s).sent ≡ s.sent))
      ⊎ (request_ip src_mac own_ip address s ≡ record s {
        network =
            append_packet (outgoing (new_packet (arp_request src_mac own_ip address))) s.network;
        arp_lock = false;
        menu = choosing;
      })
unfolding request_ip
request_ip-cases src_mac own_ip address s = ground arith

-- A turn of the menu changes the lock as the menu changes, and no status.
pub request_ip-keeps :
    (src_mac own_ip address : List ℕ) (s : Stack)
    → let t = request_ip src_mac own_ip address s in
      (t.logical ≡ s.logical)
      × (t.arp ≡ s.arp)
      × (t.ip ≡ s.ip)
      × (t.directions ≡ s.directions)
      × ((s.arp_lock ≡ true → s.menu ≡ typing) → t.arp_lock ≡ true → t.menu ≡ typing)
unfolding request_ip
request_ip-keeps src_mac own_ip address s =
    (ground arith, ground arith, ground arith, ground arith, λ h l. ground (arith, h, l))

module _ (src_mac own_ip : List ℕ) where
  pub run-append :
      (es fs : List Event) (s : Stack)
      → run src_mac own_ip (es ++ fs) s ≡ run src_mac own_ip fs (run src_mac own_ip es s)
  unfolding run
  run-append [] fs s = refl
  run-append (e ∷ es) fs s = run-append es fs (step src_mac own_ip e s)
