-- ===== src/Handles/Sound.antt =====
-- Every call keeps the table of handles sound, and moves the set of open instances as it may.
use redes1grupal.Native.{update, Native, opened, Pcap}
use redes1grupal.Handles.{
  opens_device, opens_offline, opens_live, instance_of, IsTracked, call, Call, PcapLaws,
}
use redes1grupal.Handles.Opens.{accepted, refused, is_opening, is_set, Move, view}
use redes1grupal.Captor.Laws.{opened-IsSound, IsSound-same, IsSound}
use redes1grupal.Base.{
  inl, inr, Option-cases, ◌<◌, refl, none, arith, ◌==◌, ◌∙◌, true, if◌then◌else◌, false, sym, some,
  ◌≡◌, Option, Bool, ℕ,
}
use redes1grupal.Captor.{set_linktype, set_net, native_open_offline, native_open_live}
use Prim.Native.String.{String}
use redes1grupal.JpcapSub.{max_number_of_instance}
use redes1grupal.Sender.{native_open_device}

module _ (pcap : Pcap) (laws : PcapLaws pcap) where
  pub record IsGood (n : Native pcap) : Type 0 where
    pub sound : IsSound pcap n
    pub tracked : IsTracked pcap laws n

  -- A call that ends, keeps the state good, and moves as it may.
  abbrev pub Steps : Call → Native pcap → Type 0
  Steps c n =
      (ok : Bool) × (n' : Native pcap) × (call pcap c n ≡ some (ok, n'))
      × IsGood n'
      × Move c ok (view pcap n) (view pcap n')

  IsGood-same :
      (n n' : Native pcap)
      → ((i : ℕ) → n'.pcds i ≡ n.pcds i)
      → ((h : ℕ) → n'.live h ≡ n.live h)
      → n'.world ≡ n.world
      → IsGood n
      → IsGood n'
  IsGood-same n n' rows lives worlds s = record {
    sound = IsSound-same pcap n n' rows lives s.sound;
    tracked = λ h e. rw worlds (s.tracked h (sym (lives h) ∙ e));
  }

  opened-IsGood :
      (id : ℕ) (handle : Option ℕ) (w : pcap.World) (n : Native pcap)
      → ((h : ℕ)
          → handle ≡ some h
          → (laws.allocated n.world h ≡ false) × (laws.allocated w h ≡ true))
      → ((g : ℕ) → laws.allocated n.world g ≡ true → laws.allocated w g ≡ true)
      → IsGood n
      → IsGood (opened pcap id handle w n)
  unfolding opened
  opened-IsGood id none w n fresh keeps s = record {
    sound = opened-IsSound pcap id none w n s.sound (λ h e. ground (arith, e));
    tracked = λ h e. keeps h (s.tracked h e);
  }
  opened-IsGood id (some g) w n fresh keeps s = record {
    sound =
        opened-IsSound pcap id (some g) w n s.sound (λ h e. ground (arith, fresh h e, s.tracked h));
    tracked = λ h e. ground (arith, e, fresh g refl, keeps h, s.tracked h);
  }

  opened-view :
      (id : ℕ) (handle : Option ℕ) (w : pcap.World) (n : Native pcap) (i : ℕ)
      → view pcap (opened pcap id handle w n) i ≡ (if i == id then is_set handle else view pcap n i)
  unfolding opened
  opened-view id none w n i = ground arith
  opened-view id (some g) w n i = ground arith

  -- The three opening calls, where the instance is closed: `n'` is the state with the answer.
  opening-Steps :
      (c : Call) (handle : Option ℕ) (w : pcap.World) (n n' : Native pcap)
      → is_opening c ≡ true
      → n.pcds (instance_of c) ≡ none
      → call pcap c n ≡ some (is_set handle, n')
      → ((i : ℕ) → n'.pcds i ≡ (opened pcap (instance_of c) handle w n).pcds i)
      → ((h : ℕ) → n'.live h ≡ (opened pcap (instance_of c) handle w n).live h)
      → n'.world ≡ (opened pcap (instance_of c) handle w n).world
      → IsGood (opened pcap (instance_of c) handle w n)
      → Steps c n
  opening-Steps c none w n n' opening free done rows lives worlds s = (
    false,
    n',
    done,
    IsGood-same (opened pcap (instance_of c) none w n) n' rows lives worlds s,
    refused opening refl (λ i. unfold opened in ground (arith, rows i, free)),
  )
  opening-Steps c (some g) w n n' opening free done rows lives worlds s = (
    true,
    n',
    done,
    IsGood-same (opened pcap (instance_of c) (some g) w n) n' rows lives worlds s,
    accepted opening refl (ground (arith, free))
        (unfold opened in ground (arith, rows (instance_of c)))
        (λ i ne. unfold opened in ground (arith, rows i)),
  )

  -- A call that is refused at once.
  refused-Steps :
      (c : Call) (n n' : Native pcap)
      → is_opening c ≡ true
      → call pcap c n ≡ some (false, n')
      → ((i : ℕ) → n'.pcds i ≡ n.pcds i)
      → ((h : ℕ) → n'.live h ≡ n.live h)
      → n'.world ≡ n.world
      → IsGood n
      → Steps c n
  refused-Steps c n n' opening done rows lives worlds s = (
    false,
    n',
    done,
    IsGood-same n n' rows lives worlds s,
    refused opening refl (λ i. rw (rows i)),
  )

  pub opens_live-Steps :
      (env id : ℕ) (device : Option String) (snaplen promisc to_ms : ℕ) (n : Native pcap)
      → id < max_number_of_instance
      → IsGood n
      → Steps (opens_live env id device snaplen promisc to_ms) n
  unfolding call native_open_live is_opening instance_of
  opens_live-Steps env id none snaplen promisc to_ms n small s =
      let c : Call = opens_live env id none snaplen promisc to_ms in
      let n₁ : Native pcap = record n { jni_envs = update n.jni_envs id env } in
      elim (Option-cases (n.pcds id)) [
        | inr (h, e) ↦ refused-Steps c n n refl (ground (arith, e)) (λ i. refl) (λ g. refl) refl s
        | inl e ↦ refused-Steps c n n₁ refl (ground (arith, e)) (λ i. refl) (λ g. refl) refl s
      ]
  opens_live-Steps env id (some dev) snaplen promisc to_ms n small s =
      let c : Call = opens_live env id (some dev) snaplen promisc to_ms in
      let n₁ : Native pcap = record n { jni_envs = update n.jni_envs id env } in
      let answer = pcap.open_live dev snaplen promisc to_ms n.world in
      let n₂ : Native pcap = set_net pcap id dev (opened pcap id (answer.0) (answer.1) n₁) in
      let good : IsGood (opened pcap id (answer.0) (answer.1) n) =
        opened-IsGood id (answer.0) (answer.1) n
          (laws.open_live_fresh dev snaplen promisc to_ms n.world)
          (laws.open_live_keeps dev snaplen promisc to_ms n.world) s in
      elim (Option-cases (n.pcds id)) [
        | inr (h, e) ↦ refused-Steps c n n refl (ground (arith, e)) (λ i. refl) (λ g. refl) refl s
        | inl e ↦ elim (Option-cases (answer.0)) [
          | inl a ↦
              opening-Steps c (answer.0) (answer.1) n n₂ refl e (ground (arith, e, a))
                (λ i. unfold opened in ground (arith, a)) (λ g. unfold opened in ground (arith, a))
                (unfold opened in ground (arith, a)) good
          | inr (h, a) ↦
              opening-Steps c (answer.0) (answer.1) n (set_linktype pcap id h n₂) refl e
                (ground (arith, e, a)) (λ i. unfold opened in ground (arith, a))
                (λ g. unfold opened in ground (arith, a)) (unfold opened in ground (arith, a)) good
        ]
      ]

  pub opens_offline-Steps :
      (env id : ℕ) (file : String) (n : Native pcap)
      → id < max_number_of_instance
      → IsGood n
      → Steps (opens_offline env id file) n
  unfolding call native_open_offline is_opening instance_of
  opens_offline-Steps env id file n small s =
      let c : Call = opens_offline env id file in
      let n₁ : Native pcap = record n { jni_envs = update n.jni_envs id env } in
      let answer = pcap.open_offline file n.world in
      let n₂ : Native pcap = opened pcap id (answer.0) (answer.1) n₁ in
      let good : IsGood (opened pcap id (answer.0) (answer.1) n) =
        opened-IsGood id (answer.0) (answer.1) n (laws.open_offline_fresh file n.world)
          (laws.open_offline_keeps file n.world) s in
      elim (Option-cases (n.pcds id)) [
        | inr (h, e) ↦ refused-Steps c n n refl (ground (arith, e)) (λ i. refl) (λ g. refl) refl s
        | inl e ↦ elim (Option-cases (answer.0)) [
          | inl a ↦
              opening-Steps c (answer.0) (answer.1) n n₂ refl e (ground (arith, e, a))
                (λ i. unfold opened in ground (arith, a)) (λ g. unfold opened in ground (arith, a))
                (unfold opened in ground (arith, a)) good
          | inr (h, a) ↦
              opening-Steps c (answer.0) (answer.1) n (set_linktype pcap id h n₂) refl e
                (ground (arith, e, a)) (λ i. unfold opened in ground (arith, a))
                (λ g. unfold opened in ground (arith, a)) (unfold opened in ground (arith, a)) good
        ]
      ]

  pub opens_device-Steps :
      (env id : ℕ) (device : Option String) (n : Native pcap)
      → id < max_number_of_instance
      → IsGood n
      → Steps (opens_device env id device) n
  unfolding call native_open_device is_opening instance_of
  opens_device-Steps env id none n small s =
      let c : Call = opens_device env id none in
      let n₁ : Native pcap = record n { jni_envs = update n.jni_envs id env } in
      elim (Option-cases (n.pcds id)) [
        | inr (h, e) ↦ refused-Steps c n n₁ refl (ground (arith, e)) (λ i. refl) (λ g. refl) refl s
        | inl e ↦ refused-Steps c n n₁ refl (ground (arith, e)) (λ i. refl) (λ g. refl) refl s
      ]
  opens_device-Steps env id (some dev) n small s =
      let c : Call = opens_device env id (some dev) in
      let n₁ : Native pcap = record n { jni_envs = update n.jni_envs id env } in
      let answer = pcap.open_live dev 65535 0 1000 n.world in
      let n₂ : Native pcap = opened pcap id (answer.0) (answer.1) n₁ in
      let good : IsGood (opened pcap id (answer.0) (answer.1) n) =
        opened-IsGood id (answer.0) (answer.1) n (laws.open_live_fresh dev 65535 0 1000 n.world)
          (laws.open_live_keeps dev 65535 0 1000 n.world) s in
      elim (Option-cases (n.pcds id)) [
        | inr (h, e) ↦ refused-Steps c n n₁ refl (ground (arith, e)) (λ i. refl) (λ g. refl) refl s
        | inl e ↦ elim (Option-cases (answer.0)) [
          | inl a ↦
              opening-Steps c (answer.0) (answer.1) n n₂ refl e (ground (arith, e, a))
                (λ i. unfold opened in ground (arith, a)) (λ g. unfold opened in ground (arith, a))
                (unfold opened in ground (arith, a)) good
          | inr (h, a) ↦
              opening-Steps c (answer.0) (answer.1) n n₂ refl e (ground (arith, e, a))
                (λ i. unfold opened in ground (arith, a)) (λ g. unfold opened in ground (arith, a))
                (unfold opened in ground (arith, a)) good
        ]
      ]
