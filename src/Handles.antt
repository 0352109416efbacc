-- ===== src/Handles.antt =====
-- The calls of `JpcapCaptor` and `JpcapSender` that open, use and close the handle of an instance, as
-- histories over the table that both classes share (jpcap-0.7/src/c/JpcapCaptor.c, JpcapSender.c).
pub mod Opens
pub mod Sound
pub mod Uses
pub mod Refines
use redes1grupal.Native.{Message, Native, Pcap}
use redes1grupal.Base.{
  if◌then◌else◌, ◌>>=◌, none, [], ◌≢◌, ◌∷◌, false, true, ◌≡◌, some, List, Bool, Option, ℕ,
}
use Prim.Native.String.{String}
use redes1grupal.Captor.{packet, set_filter, native_close, native_open_offline, native_open_live}
use redes1grupal.Sender.{build_frame, native_send_packet, native_close_device, native_open_device}
use redes1grupal.Memory.{Exception, Bytes}
use redes1grupal.Captor.Control.{
  get_packet_read_timeout, set_packet_read_timeout, update_stat, break_loop, is_non_blocking_mode,
  set_non_blocking_mode,
}
use redes1grupal.Packet.{Packet}

-- What `JpcapCaptor` asks or sets of an open handle.
pub data Use : Type 0 where
  sets_filter : String → Bool → Use
  sets_non_blocking : Bool → Use
  asks_non_blocking : Use
  breaks : Use
  updates_stat : ℕ × ℕ → Use
  sets_timeout : ℕ → Use
  asks_timeout : Use

-- A call of a native method on the instance `id`.
pub data Call : Type 0 where
  opens_live : ℕ → ℕ → Option String → ℕ → ℕ → ℕ → Call
  opens_offline : ℕ → ℕ → String → Call
  opens_device : ℕ → ℕ → Option String → Call
  closes : ℕ → Call
  closes_device : ℕ → Call
  uses : Use → ℕ → Call
  sends : Bytes → ℕ → Packet → Call

unfoldable pub instance_of : Call → ℕ
instance_of (opens_live env id device snaplen promisc to_ms) = id
instance_of (opens_offline env id filename) = id
instance_of (opens_device env id device) = id
instance_of (closes id) = id
instance_of (closes_device id) = id
instance_of (uses u id) = id
instance_of (sends stack id p) = id

-- Whether Java sees no error message.
abbrev pub succeeds : Option Message → Bool
succeeds none = true
succeeds (some message) = false

abbrev pub no_exception : Option Exception → Bool
no_exception none = true
no_exception (some exception) = false

module _ (pcap : Pcap) where
  abbrev pub reported : Option (Option Message × Native pcap) → Option (Bool × Native pcap)
  reported none = none
  reported (some (message, n)) = some (succeeds message, n)

  abbrev pub done : Option (Native pcap) → Option (Bool × Native pcap)
  done none = none
  done (some n) = some (true, n)

  abbrev pub answered : {A : Type 0} → Option (A × Native pcap) → Option (Bool × Native pcap)
  answered none = none
  answered (some (answer, n)) = some (true, n)

  unfoldable pub use_instance : Use → ℕ → Native pcap → Option (Bool × Native pcap)
  use_instance (sets_filter condition opt) id n = set_filter pcap id condition opt n
  use_instance (sets_non_blocking non_blocking) id n =
      done (set_non_blocking_mode pcap id non_blocking n)
  use_instance asks_non_blocking id n = answered (is_non_blocking_mode pcap id n)
  use_instance breaks id n = done (break_loop pcap id n)
  use_instance (updates_stat stale) id n = answered (update_stat pcap id stale n)
  use_instance (sets_timeout millis) id n = set_packet_read_timeout pcap id millis n
  use_instance asks_timeout id n = get_packet_read_timeout pcap id n >>= λ millis. some (true, n)

  abbrev pub sent : Option (Option Exception × Native pcap) → Option (Bool × Native pcap)
  sent none = none
  sent (some (exception, n)) = some (no_exception exception, n)

  unfoldable pub call : Call → Native pcap → Option (Bool × Native pcap)
  call (opens_live env id device snaplen promisc to_ms) n =
      reported (native_open_live pcap env id device snaplen promisc to_ms n)
  call (opens_offline env id filename) n = reported (native_open_offline pcap env id filename n)
  call (opens_device env id device) n = reported (native_open_device pcap env id device n)
  call (closes id) n = done (native_close pcap id n)
  call (closes_device id) n = done (native_close_device pcap id n)
  call (uses u id) n = use_instance u id n
  call (sends stack id p) n = sent (native_send_packet pcap stack id p n)

  unfoldable pub run : List Call → Native pcap → Option (List Bool × Native pcap)
  run [] n = some ([], n)
  run (c ∷ cs) n = do (ok, n₁) ← call c n; (oks, n₂) ← run cs n₁; some (ok ∷ oks, n₂)

-- What libpcap documents of handles: one that it returns was not allocated, and stays allocated
-- until it is closed.
pub record PcapLaws (pcap : Pcap) : Type 0 where
  pub allocated : pcap.World → ℕ → Bool
  pub open_live_fresh :
      (dev : String) (snaplen promisc to_ms : ℕ) (w : pcap.World) (h : ℕ)
      → (pcap.open_live dev snaplen promisc to_ms w).0 ≡ some h
      → (allocated w h ≡ false)
        × (allocated ((pcap.open_live dev snaplen promisc to_ms w).1) h ≡ true)
  pub open_live_keeps :
      (dev : String) (snaplen promisc to_ms : ℕ) (w : pcap.World) (g : ℕ)
      → allocated w g ≡ true
      → allocated ((pcap.open_live dev snaplen promisc to_ms w).1) g ≡ true
  pub open_offline_fresh :
      (file : String) (w : pcap.World) (h : ℕ)
      → (pcap.open_offline file w).0 ≡ some h
      → (allocated w h ≡ false) × (allocated ((pcap.open_offline file w).1) h ≡ true)
  pub open_offline_keeps :
      (file : String) (w : pcap.World) (g : ℕ)
      → allocated w g ≡ true
      → allocated ((pcap.open_offline file w).1) g ≡ true
  pub close_keeps :
      (h g : ℕ) (w : pcap.World)
      → g ≢ h
      → allocated w g ≡ true
      → allocated (pcap.close h w) g ≡ true
  pub compile_keeps :
      (h : ℕ) (condition : String) (opt : Bool) (mask : ℕ) (w : pcap.World) (g : ℕ)
      → allocated w g ≡ true
      → allocated ((pcap.compile h condition opt mask w).1) g ≡ true
  pub setfilter_keeps :
      (h : ℕ) (w : pcap.World) (g : ℕ)
      → allocated w g ≡ true
      → allocated ((pcap.setfilter h w).1) g ≡ true
  pub stats_keeps :
      (h : ℕ) (w : pcap.World) (g : ℕ)
      → allocated w g ≡ true
      → allocated ((pcap.stats h w).1) g ≡ true
  pub setnonblock_keeps :
      (h : ℕ) (non_blocking : Bool) (w : pcap.World) (g : ℕ)
      → allocated w g ≡ true
      → allocated (pcap.setnonblock h non_blocking w) g ≡ true
  pub getnonblock_keeps :
      (h : ℕ) (w : pcap.World) (g : ℕ)
      → allocated w g ≡ true
      → allocated ((pcap.getnonblock h w).1) g ≡ true
  pub breakloop_keeps :
      (h : ℕ) (w : pcap.World) (g : ℕ)
      → allocated w g ≡ true
      → allocated (pcap.breakloop h w) g ≡ true
  pub set_timeout_keeps :
      (h : ℕ) (tv : ℕ × ℕ) (w : pcap.World) (g : ℕ)
      → allocated w g ≡ true
      → allocated ((pcap.set_timeout h tv w).1) g ≡ true
  pub sendpacket_keeps :
      (h : ℕ) (frame : List ℕ) (w : pcap.World) (g : ℕ)
      → allocated w g ≡ true
      → allocated ((pcap.sendpacket h frame w).1) g ≡ true

-- Every handle that is not freed is one that libpcap has allocated.
abbrev pub IsTracked : (pcap : Pcap) → PcapLaws pcap → Native pcap → Type 0
IsTracked pcap laws n = (h : ℕ) → n.live h ≡ true → laws.allocated n.world h ≡ true
