-- ===== src/Handles/Opens.antt =====
-- The set of open instances, and what a history of calls may do to it.
use redes1grupal.Native.{Native, Pcap}
use redes1grupal.Base.{
  if◌then◌else◌, none, [], ◌≢◌, ◌∷◌, false, true, ◌≡◌, some, List, Bool, Option, ℕ,
}
use redes1grupal.Sender.{build_frame}
use redes1grupal.Handles.{
  Call, instance_of, opens_live, opens_offline, opens_device, closes, closes_device, uses, sends,
}

-- Which instances are open, which is all that the callers can tell.
abbrev pub Opens : Type 0
Opens = ℕ → Bool

abbrev pub is_set : Option ℕ → Bool
is_set none = false
is_set (some h) = true

abbrev pub view : (pcap : Pcap) → Native pcap → Opens
view pcap n i = is_set (n.pcds i)

unfoldable pub is_opening : Call → Bool
is_opening (opens_live env id device snaplen promisc to_ms) = true
is_opening (opens_offline env id filename) = true
is_opening (opens_device env id device) = true
is_opening (closes id) = false
is_opening (closes_device id) = false
is_opening (uses u id) = false
is_opening (sends stack id p) = false

unfoldable pub is_closing : Call → Bool
is_closing (opens_live env id device snaplen promisc to_ms) = false
is_closing (opens_offline env id filename) = false
is_closing (opens_device env id device) = false
is_closing (closes id) = true
is_closing (closes_device id) = true
is_closing (uses u id) = false
is_closing (sends stack id p) = false

abbrev pub is_some : {A : Type 0} → Option A → Bool
is_some none = false
is_some (some x) = true

-- An instance is used while it is open only. A packet that is sent through an open one can be laid
-- out; sending through a closed one throws.
unfoldable pub is_allowed : Call → Opens → Bool
is_allowed (opens_live env id device snaplen promisc to_ms) v = true
is_allowed (opens_offline env id filename) v = true
is_allowed (opens_device env id device) v = true
is_allowed (closes id) v = true
is_allowed (closes_device id) v = true
is_allowed (uses u id) v = v id
is_allowed (sends stack id p) v = if v id then is_some (build_frame stack p) else true

-- What a call may do to the set of open instances: an instance that was closed is opened, or nothing
-- changes and the call reports an error, or the instance is closed; a call that uses an instance changes
-- nothing, and reports success of an open one only.
pub data Move (c : Call) (ok : Bool) (v w : Opens) : Type 0 where
  accepted :
      is_opening c ≡ true
      → ok ≡ true
      → v (instance_of c) ≡ false
      → w (instance_of c) ≡ true
      → ((i : ℕ) → i ≢ instance_of c → w i ≡ v i)
      → Move c ok v w
  refused : is_opening c ≡ true → ok ≡ false → ((i : ℕ) → w i ≡ v i) → Move c ok v w
  closed :
      is_closing c ≡ true
      → ok ≡ true
      → w (instance_of c) ≡ false
      → ((i : ℕ) → i ≢ instance_of c → w i ≡ v i)
      → Move c ok v w
  used :
      is_opening c ≡ false
      → is_closing c ≡ false
      → (ok ≡ true → v (instance_of c) ≡ true)
      → ((i : ℕ) → w i ≡ v i)
      → Move c ok v w

-- A history of calls, each with what it reported.
pub data History : Opens → List Call → List Bool → Opens → Type 0 where
  nothing : {v : Opens} → History v [] [] v
  next :
      {v u w : Opens} {c : Call} {cs : List Call} {ok : Bool} {oks : List Bool}
      → Move c ok v u
      → History u cs oks w
      → History v (c ∷ cs) (ok ∷ oks) w

-- A history that comes to a call that is not allowed.
pub data Misuse : Opens → List Call → Type 0 where
  here : {v : Opens} {c : Call} {cs : List Call} → is_allowed c v ≡ false → Misuse v (c ∷ cs)
  later :
      {v u : Opens} {c : Call} {cs : List Call} {ok : Bool}
      → Move c ok v u
      → Misuse u cs
      → Misuse v (c ∷ cs)
