-- ===== src/Captor/Laws.antt =====
-- The tables of open instances across the native methods.
use redes1grupal.Base.{
  ℕ, Option-cases, sym, ◌∙◌, ◌<◌, ◌≡◌, ◌≢◌, inl, inr, refl, arith, true, false, Option, none, some,
  List, [], ◌∷◌, ◌++◌, ◌>>=◌,
}
use redes1grupal.JpcapSub.{max_number_of_instance}
use redes1grupal.Native.{
  Pcap, Native, Message, another_instance, no_device, pcap_message, update, opened, close_handle,
}
use redes1grupal.Captor.{
  native_open_live, native_close, dispatch, Frame, to_timeval, of_timeval, set_net, set_linktype,
}
use Prim.Native.String.{String}

-- No instance holds a freed handle, and no two hold the same one.
pub record IsSound (pcap : Pcap) (n : Native pcap) : Type 0 where
  pub held : (i h : ℕ) → n.pcds i ≡ some h → n.live h ≡ true
  pub apart : (i j h : ℕ) → n.pcds i ≡ some h → n.pcds j ≡ some h → i ≡ j

module _ (pcap : Pcap) where
  pub opened-IsSound :
      (id : ℕ) (handle : Option ℕ) (w : pcap.World) (n : Native pcap)
      → IsSound pcap n
      → ((h : ℕ) → handle ≡ some h → n.live h ≡ false)
      → IsSound pcap (opened pcap id handle w n)
  unfolding opened
  opened-IsSound id none w n s fresh = record {
    held = λ i h e. ground (arith, s.held i h);
    apart = λ i j h e e'. ground (arith, s.apart i j h);
  }
  opened-IsSound id (some g) w n s fresh = record {
    held = λ i h e. ground (arith, s.held i h);
    apart = λ i j h e e'. ground (arith, s.apart i j h, s.held i h, s.held j h, fresh g);
  }

  -- Only these two tables matter.
  pub IsSound-same :
      (n n' : Native pcap)
      → ((i : ℕ) → n'.pcds i ≡ n.pcds i)
      → ((h : ℕ) → n'.live h ≡ n.live h)
      → IsSound pcap n
      → IsSound pcap n'
  IsSound-same n n' rows lives s = record {
    held = λ i h e. lives h ∙ s.held i h (sym (rows i) ∙ e);
    apart = λ i j h e e'. s.apart i j h (sym (rows i) ∙ e) (sym (rows j) ∙ e');
  }

  pub IsSound-net :
      (id : ℕ) (dev : String) (n : Native pcap)
      → IsSound pcap n
      → IsSound pcap (set_net pcap id dev n)
  IsSound-net id dev n s =
      IsSound-same n (set_net pcap id dev n) (λ i. ground arith) (λ h. ground arith) s

  -- Closing an instance below 255 in a sound state never faults: the handle is freed once, its row is
  -- cleared, the other rows keep theirs, and the state stays sound.
  pub native_close-IsSound :
      (id : ℕ) (n : Native pcap)
      → id < max_number_of_instance
      → IsSound pcap n
      → (n' : Native pcap) × (native_close pcap id n ≡ some n')
        × IsSound pcap n'
        × (n'.pcds id ≡ none)
        × ((i : ℕ) → i ≢ id → n'.pcds i ≡ n.pcds i)
  unfolding native_close close_handle
  native_close-IsSound id n small s = elim (Option-cases (n.pcds id)) [
    | inl e ↦ (
      record n { pcds = update n.pcds id none },
      ground (arith, e),
      record {
        held = λ i h f. ground (arith, s.held i h);
        apart = λ i j h f g. ground (arith, s.apart i j h);
      },
      ground arith,
      λ i ne. ground arith,
    )
    | inr (h, e) ↦ (
      record n {
        pcds = update n.pcds id none;
        live = update n.live h false;
        world = pcap.close h n.world;
      },
      ground (arith, e, s.held id h),
      record {
        held = λ i g f. ground (arith, e, s.held i g, s.apart i id h);
        apart = λ i j g f f'. ground (arith, s.apart i j g);
      },
      ground arith,
      λ i ne. ground arith,
    )
  ]

  -- Opening a device for an instance below 255 in a sound state leaves a sound state, whatever libpcap answers, if a handle
  -- that it returns was not in use.
  pub native_open_live-IsSound :
      (env id : ℕ) (device : Option String) (snaplen promisc to_ms : ℕ) (n : Native pcap)
      → id < max_number_of_instance
      → IsSound pcap n
      → ((dev : String) (h : ℕ)
          → (pcap.open_live dev snaplen promisc to_ms n.world).0 ≡ some h
          → n.live h ≡ false)
      → (r : Option Message) × (n' : Native pcap) × (native_open_live pcap env id device snaplen
            promisc to_ms n
          ≡ some (r, n'))
        × IsSound pcap n'
  unfolding native_open_live
  native_open_live-IsSound env id none snaplen promisc to_ms n small s fresh =
      let n₁ : Native pcap = record n { jni_envs = update n.jni_envs id env } in
      elim (Option-cases (n.pcds id)) [
        | inl e ↦
            (some no_device, n₁, ground (arith, e), IsSound-same n n₁ (λ i. refl) (λ h. refl) s)
        | inr (h, e) ↦ (some another_instance, n, ground (arith, e), s)
      ]
  native_open_live-IsSound env id (some dev) snaplen promisc to_ms n small s fresh =
      let n₁ : Native pcap = record n { jni_envs = update n.jni_envs id env } in
      let sound₁ : IsSound pcap n₁ = IsSound-same n n₁ (λ i. refl) (λ h. refl) s in
      let answer = pcap.open_live dev snaplen promisc to_ms n.world in
      let n₂ : Native pcap = set_net pcap id dev (opened pcap id (answer.0) (answer.1) n₁) in
      let sound₂ : IsSound pcap n₂ =
        IsSound-net id dev _ (opened-IsSound id (answer.0) (answer.1) n₁ sound₁ (fresh dev)) in
      elim (Option-cases (n.pcds id)) [
        | inr (h, e) ↦ (some another_instance, n, ground (arith, e), s)
        | inl e ↦ elim (Option-cases (answer.0)) [
          | inl a ↦ (some pcap_message, n₂, ground (arith, e, a), sound₂)
          | inr (h, a) ↦ (
            none,
            set_linktype pcap id h n₂,
            ground (arith, e, a),
            IsSound-same n₂ (set_linktype pcap id h n₂) (λ i. refl) (λ g. refl) sound₂,
          )
        ]
      ]

-- Frames are delivered in the order in which they were captured, one packet for each.
pub dispatch-append :
    (linktype : ℕ) (fs gs : List Frame)
    → dispatch linktype (fs ++ gs)
      ≡ (dispatch linktype fs >>= λ ps. (dispatch linktype gs >>= λ qs. some (ps ++ qs)))
unfolding dispatch
dispatch-append linktype [] gs = ground arith
dispatch-append linktype ((stale, extra, c) ∷ fs) gs =
    ground (arith, dispatch-append linktype fs gs)

-- A time out in milliseconds comes back from the `struct timeval` that it is set as, and the
-- microseconds are below a second.
pub of_timeval-to_timeval :
    (millis : ℕ) → (of_timeval (to_timeval millis) ≡ millis) × ((to_timeval millis).1 < 1000000)
unfolding of_timeval to_timeval
of_timeval-to_timeval millis = omega arith
