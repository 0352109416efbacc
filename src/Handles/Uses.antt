-- ===== src/Handles/Uses.antt =====
-- Calls that use an open instance.
use redes1grupal.Native.{Native, Pcap}
use redes1grupal.Handles.{
  no_exception, asks_timeout, breaks, asks_non_blocking, sets_timeout, updates_stat,
  sets_non_blocking, sets_filter, sends, uses, Use, instance_of, Call, use_instance, call, PcapLaws,
}
use redes1grupal.Handles.Opens.{used, view, is_closing, is_opening, is_allowed}
use redes1grupal.Captor.{set_filter, live_handle}
use redes1grupal.Handles.Sound.{IsGood, Steps}
use redes1grupal.Base.{
  if◌then◌else◌, Option, inr, Bool-cases, inl, Option-cases, refl, arith, some, none, true, false,
  ◌<◌, ◌⊎◌, ◌≡◌, Bool, ℕ,
}
use redes1grupal.Captor.Control.{
  int_to_timeval, get_packet_read_timeout, set_packet_read_timeout, update_stat, break_loop,
  is_non_blocking_mode, set_non_blocking_mode,
}
use redes1grupal.JpcapSub.{max_number_of_instance}
use redes1grupal.Captor.Laws.{IsSound-same}
use redes1grupal.Sender.{build_frame, native_send_packet}
use redes1grupal.Memory.{pcap_error, Exception, Bytes}
use redes1grupal.Packet.{Packet}

module _ (pcap : Pcap) (laws : PcapLaws pcap) where
  -- A call that is allowed steps, and one that is not faults.
  abbrev pub Outcome : Call → Native pcap → Type 0
  Outcome c n =
      Steps pcap laws c n ⊎ ((call pcap c n ≡ none) × (is_allowed c (view pcap n) ≡ false))

  -- Only the world changes, in which what was allocated stays so.
  moved-IsGood :
      (n : Native pcap) (w : pcap.World)
      → ((g : ℕ) → laws.allocated n.world g ≡ true → laws.allocated w g ≡ true)
      → IsGood pcap laws n
      → IsGood pcap laws (record n { world = w })
  moved-IsGood n w keeps s = record {
    sound = IsSound-same pcap n (record n { world = w }) (λ i. refl) (λ h. refl) s.sound;
    tracked = λ g e. keeps g (s.tracked g e);
  }

  used-Steps :
      (c : Call) (n : Native pcap) (ok : Bool) (w : pcap.World)
      → is_opening c ≡ false
      → is_closing c ≡ false
      → (ok ≡ true → view pcap n (instance_of c) ≡ true)
      → call pcap c n ≡ some (ok, record n { world = w })
      → ((g : ℕ) → laws.allocated n.world g ≡ true → laws.allocated w g ≡ true)
      → IsGood pcap laws n
      → Steps pcap laws c n
  used-Steps c n ok w no_opening no_closing is_open done keeps s = (
    ok,
    record n { world = w },
    done,
    moved-IsGood n w keeps s,
    used no_opening no_closing is_open (λ i. refl),
  )

  -- The handle of an open instance is live.
  live_handle_lem :
      (id h : ℕ) (n : Native pcap)
      → id < max_number_of_instance
      → n.pcds id ≡ some h
      → IsGood pcap laws n
      → live_handle pcap id n ≡ some h
  unfolding live_handle
  live_handle_lem id h n small e s = ground (arith, e, s.sound.held id h)

  -- Of an instance that is closed every use is a fault.
  use_instance_closed :
      (u : Use) (id : ℕ) (n : Native pcap) → n.pcds id ≡ none → use_instance pcap u id n ≡ none
  unfolding use_instance set_filter set_non_blocking_mode is_non_blocking_mode break_loop
      update_stat set_packet_read_timeout get_packet_read_timeout live_handle
  use_instance_closed (sets_filter condition opt) id n e = ground (arith, e)
  use_instance_closed (sets_non_blocking b) id n e = ground (arith, e)
  use_instance_closed asks_non_blocking id n e = ground (arith, e)
  use_instance_closed breaks id n e = ground (arith, e)
  use_instance_closed (updates_stat stale) id n e = ground (arith, e)
  use_instance_closed (sets_timeout millis) id n e = ground (arith, e)
  use_instance_closed asks_timeout id n e = ground (arith, e)

  -- Of an open one it ends, and changes the world only.
  use_instance_open :
      (u : Use) (id h : ℕ) (n : Native pcap)
      → live_handle pcap id n ≡ some h
      → (ok : Bool) × (w : pcap.World) × (use_instance pcap u id n
          ≡ some (ok, record n { world = w }))
        × ((g : ℕ) → laws.allocated n.world g ≡ true → laws.allocated w g ≡ true)
  unfolding use_instance set_filter set_non_blocking_mode is_non_blocking_mode break_loop
      update_stat set_packet_read_timeout get_packet_read_timeout
  use_instance_open (sets_filter condition opt) id h n e =
      let compiled = pcap.compile h condition opt (n.netmasks id) n.world in
      let installed = pcap.setfilter h (compiled.1) in
      elim (Bool-cases (compiled.0)) [
        | inl was_compiled ↦ (
          installed.0,
          installed.1,
          ground (arith, e, was_compiled),
          λ g a.
              laws.setfilter_keeps h (compiled.1) g
                (laws.compile_keeps h condition opt (n.netmasks id) n.world g a),
        )
        | inr not_compiled ↦ (
          false,
          compiled.1,
          ground (arith, e, not_compiled),
          laws.compile_keeps h condition opt (n.netmasks id) n.world,
        )
      ]
  use_instance_open (sets_non_blocking b) id h n e =
      (true, _, ground (arith, e), laws.setnonblock_keeps h b n.world)
  use_instance_open asks_non_blocking id h n e =
      (true, _, ground (arith, e), laws.getnonblock_keeps h n.world)
  use_instance_open breaks id h n e = (true, _, ground (arith, e), laws.breakloop_keeps h n.world)
  use_instance_open (updates_stat stale) id h n e =
      (true, _, ground (arith, e), laws.stats_keeps h n.world)
  use_instance_open (sets_timeout millis) id h n e =
      let answer = pcap.set_timeout h (int_to_timeval millis) n.world in
      (
        answer.0,
        answer.1,
        ground (arith, e),
        laws.set_timeout_keeps h (int_to_timeval millis) n.world,
      )
  use_instance_open asks_timeout id h n e = (true, n.world, ground (arith, e), λ g a. a)

  pub uses-Outcome :
      (u : Use) (id : ℕ) (n : Native pcap)
      → id < max_number_of_instance
      → IsGood pcap laws n
      → Outcome (uses u id) n
  unfolding call is_allowed is_opening is_closing instance_of
  uses-Outcome u id n small s = elim (Option-cases (n.pcds id)) [
    | inl e ↦ inr (use_instance_closed u id n e, ground (arith, e))
    | inr (h, e) ↦
        let (ok, w, done, keeps) = use_instance_open u id h n (live_handle_lem id h n small e s) in
        inl (used-Steps (uses u id) n ok w refl refl (λ yes. ground (arith, e)) done keeps s)
  ]

  pub sends-Outcome :
      (stack : Bytes) (id : ℕ) (p : Packet) (n : Native pcap)
      → id < max_number_of_instance
      → IsGood pcap laws n
      → Outcome (sends stack id p) n
  unfolding call is_allowed is_opening is_closing instance_of native_send_packet
  sends-Outcome stack id p n small s = elim (Option-cases (n.pcds id)) [
    | inl e ↦ inl (
        used-Steps (sends stack id p) n false n.world refl refl (λ yes. ground (arith, yes))
          (ground (arith, e)) (λ g a. a) s)
    | inr (h, e) ↦ elim (Option-cases (build_frame stack p)) [
      | inl stuck ↦ inr (ground (arith, e, stuck), ground (arith, e, stuck))
      | inr (r, built) ↦
          let answer = pcap.sendpacket h (r.0) n.world in
          let result : Option Exception = if answer.0 then r.1 else some pcap_error in
          inl (
            used-Steps (sends stack id p) n (no_exception result) (answer.1) refl refl
              (λ yes. ground (arith, e)) (ground (arith, e, built, s.sound.held id h))
              (laws.sendpacket_keeps h (r.0) n.world) s)
    ]
  ]
