-- ===== src/Handles/Refines.antt =====
-- Histories of calls against the set of open instances.
use redes1grupal.Native.{update, Native, close_handle, Pcap}
use redes1grupal.Handles.{
  sends, uses, closes_device, closes, opens_device, opens_offline, opens_live, done, call, Call,
  instance_of, run, PcapLaws,
}
use redes1grupal.Handles.Opens.{
  later, Misuse, here, is_closing, next, closed, nothing, view, History,
}
use redes1grupal.Base.{
  ◌⊎◌, refl, inr, [], true, arith, ◌∷◌, none, inl, Option-cases, some, Bool, false, ◌≡◌, ◌<◌, All,
  List,
}
use redes1grupal.JpcapSub.{max_number_of_instance}
use redes1grupal.Handles.Sound.{
  opens_device-Steps, opens_offline-Steps, opens_live-Steps, Steps, IsGood,
}
use redes1grupal.Captor.{native_close}
use redes1grupal.Sender.{native_close_device}
use redes1grupal.Handles.Uses.{uses-Outcome, sends-Outcome, Outcome}

module _ (pcap : Pcap) (laws : PcapLaws pcap) where
  -- Both closing calls come down to `close_handle`.
  closing-Steps :
      (c : Call) (n : Native pcap)
      → is_closing c ≡ true
      → call pcap c n ≡ done pcap (close_handle pcap (instance_of c) n)
      → IsGood pcap laws n
      → Steps pcap laws c n
  unfolding close_handle
  closing-Steps c n closing is_close s = elim (Option-cases (n.pcds (instance_of c))) [
    | inl e ↦
        let n' : Native pcap = record n { pcds = update n.pcds (instance_of c) none } in
        (
          true,
          n',
          ground (arith, is_close, e),
          record {
            sound = record {
              held = λ i h f. ground (arith, s.sound.held i h);
              apart = λ i j h f g. ground (arith, s.sound.apart i j h);
            };
            tracked = s.tracked;
          },
          closed closing refl (ground arith) (λ i ne. ground arith),
        )
    | inr (h, e) ↦
        let n' : Native pcap = record n {
          pcds = update n.pcds (instance_of c) none;
          live = update n.live h false;
          world = pcap.close h n.world;
        } in
        (
          true,
          n',
          ground (arith, is_close, e, s.sound.held (instance_of c) h),
          record {
            sound = record {
              held =
                  λ i g f. ground (arith, e, s.sound.held i g, s.sound.apart i (instance_of c) h);
              apart = λ i j g f f'. ground (arith, s.sound.apart i j g);
            };
            tracked = λ g f. ground (arith, f, laws.close_keeps h g n.world, s.tracked g);
          },
          closed closing refl (ground arith) (λ i ne. ground arith),
        )
  ]

  call-Outcome :
      (c : Call) (n : Native pcap)
      → instance_of c < max_number_of_instance
      → IsGood pcap laws n
      → Outcome pcap laws c n
  unfolding instance_of
  call-Outcome (opens_live env id device snaplen promisc to_ms) n small s =
      inl (opens_live-Steps pcap laws env id device snaplen promisc to_ms n small s)
  call-Outcome (opens_offline env id file) n small s =
      inl (opens_offline-Steps pcap laws env id file n small s)
  call-Outcome (opens_device env id device) n small s =
      inl (opens_device-Steps pcap laws env id device n small s)
  call-Outcome (closes id) n small s = inl (
      closing-Steps (closes id) n (unfold is_closing in refl)
        (unfold call native_close in ground arith) s)
  call-Outcome (closes_device id) n small s = inl (
      closing-Steps (closes_device id) n (unfold is_closing in refl)
        (unfold call native_close_device in ground arith) s)
  call-Outcome (uses u id) n small s = uses-Outcome pcap laws u id n small s
  call-Outcome (sends stack id p) n small s = sends-Outcome pcap laws stack id p n small s

  -- A history that steps to its end, or comes to a misuse.
  abbrev pub Runs : List Call → Native pcap → Type 0
  Runs cs n =
      ((oks : List Bool) × (n' : Native pcap) × (run pcap cs n ≡ some (oks, n'))
        × IsGood pcap laws n'
        × History (view pcap n) cs oks (view pcap n'))
      ⊎ ((run pcap cs n ≡ none) × Misuse (view pcap n) cs)

  -- Calls of `JpcapCaptor` and `JpcapSender` that open, use, send through and close instances below
  -- 255 are made from a state in which every open instance holds a handle of its own that is not
  -- freed. Either none of them faults, the state stays so, and what the calls report and which
  -- instances are open is a history of the set of open instances: an instance that is open is never
  -- opened, success means that it is then open, an error changes nothing, closing closes that
  -- instance only. Or the history comes to an instance that is used while it is closed, or to a packet
  -- that cannot be laid out, and faults. libpcap is assumed to return handles that are not
  -- allocated, and to free none but the one that is closed.
  pub run-History :
      (cs : List Call) (n : Native pcap)
      → All (λ c. instance_of c < max_number_of_instance) cs
      → IsGood pcap laws n
      → Runs cs n
  unfolding run
  run-History [] n small s = inl ([], n, refl, s, nothing)
  run-History (c ∷ cs) n (small, rest) s = elim (call-Outcome c n small s) [
    | inr (stuck, bad) ↦ inr (ground (arith, stuck), here bad)
    | inl (ok, n₁, done₁, good₁, move) ↦ elim (run-History cs n₁ rest good₁) [
      | inl (oks, n₂, done₂, good₂, history) ↦
          inl (ok ∷ oks, n₂, ground (arith, done₁, done₂), good₂, next move history)
      | inr (stuck, misuse) ↦ inr (ground (arith, done₁, stuck), later move misuse)
    ]
  ]
