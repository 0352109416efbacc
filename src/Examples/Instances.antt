-- ===== src/Examples/Instances.antt =====
-- The native methods that keep state, over a small libpcap.
use redes1grupal.Base.{
  ℕ, zero, suc, ◌≡◌, ◌≢◌, refl, arith, true, false, none, some, List, [], ◌∷◌, length,
}
use redes1grupal.Memory.{socket_open}
use redes1grupal.Packet.{Packet}
use redes1grupal.Native.{Pcap, Native, timed_out}
use redes1grupal.Captor.{native_close}
use redes1grupal.Captor.Laws.{IsSound, native_close-IsSound}
use redes1grupal.Sender.{native_open_raw_socket, native_close_raw_socket, zeros}
use redes1grupal.Sender.Socket.{native_open_raw_socket-closed}
use redes1grupal.Writer.{dump_record, native_open_dump_file, close_writer}
use redes1grupal.Writer.Laws.{dump_record_overflow, native_close-close_writer}
use redes1grupal.Examples.{stack, carrying}

-- The world is the address of the next handle. Every call succeeds, and no packet ever arrives.
abbrev counting : Pcap
counting = record {
  World = ℕ;
  open_live = λ dev snaplen promisc to_ms w. (some w, suc w);
  open_offline = λ file w. (some w, suc w);
  close = λ h w. w;
  datalink = λ h. 1;
  lookupnet = λ dev w. none;
  sendpacket = λ h frame w. (true, w);
  next_ex = λ h w. (timed_out, w);
  compile = λ h condition opt mask w. (true, w);
  setfilter = λ h w. (true, w);
  stats = λ h w. (some (0, 0), w);
  setnonblock = λ h b w. w;
  getnonblock = λ h w. (0, w);
  breakloop = λ h w. w;
  set_timeout = λ h tv w. (true, w);
  get_timeout = λ h w. some (1, 500000);
  dump_open = λ h file w. (true, w);
  dump = λ header bytes w. w;
  dump_close = λ w. w;
  socket = λ w. (some 3, w);
  sendto = λ s bytes address w. (true, w);
  close_socket = λ s w. w;
}

-- Nothing is open.
abbrev idle : Native counting
idle = record {
  pcds = λ i. none;
  jni_envs = λ i. 0;
  linktypes = λ i. 0;
  netnums = λ i. 0;
  netmasks = λ i. 0;
  soc_num = none;
  pcdd = none;
  pdt = false;
  live = λ h. false;
  world = 100;
}

-- Instance 0 holds the handle at 42.
abbrev capturing : Native counting
capturing = record idle { pcds = λ i. elim i [ zero ↦ some 42 | suc j ↦ none ]; live = λ h. true }

capturing-IsSound : IsSound counting capturing
capturing-IsSound = record { held = λ i h e. refl; apart = λ i j h e f. both i j h e f }
  where
    both : (i j h : ℕ) → capturing.pcds i ≡ some h → capturing.pcds j ≡ some h → i ≡ j
    both zero zero h e f = refl
    both zero (suc j) h e f = ground (arith, f)
    both (suc i) zero h e f = ground (arith, e)
    both (suc i) (suc j) h e f = ground (arith, e)

native_close-IsSound_example :
    (n' : Native counting) × (native_close counting 0 capturing ≡ some n')
    × IsSound counting n'
    × (n'.pcds 0 ≡ none)
    × ((i : ℕ) → i ≢ 0 → n'.pcds i ≡ capturing.pcds i)
native_close-IsSound_example =
    native_close-IsSound counting 0 capturing (omega arith) capturing-IsSound

native_open_raw_socket-closed_example :
    ((native_open_raw_socket counting idle).0 ≡ none)
    × ((native_close_raw_socket counting ((native_open_raw_socket counting idle).1)).soc_num
        ≡ some 3)
    × (native_open_raw_socket counting
          (native_close_raw_socket counting ((native_open_raw_socket counting idle).1))
        ≡ (
          some socket_open,
          native_close_raw_socket counting ((native_open_raw_socket counting idle).1),
        ))
native_open_raw_socket-closed_example = native_open_raw_socket-closed counting idle 3 refl refl

-- A packet as it was captured.
abbrev recorded : List ℕ → Packet
recorded xs = record (carrying xs) { header = some (1 ∷ 2 ∷ 3 ∷ []) }

length-zeros : (n : ℕ) → length (zeros n) ≡ n
length-zeros zero = refl
length-zeros (suc n) = omega (arith, length-zeros n)

dump_record_overflow_example : dump_record stack (recorded (zeros 1598)) ≡ none
dump_record_overflow_example =
    dump_record_overflow stack (recorded (zeros 1598)) (1 ∷ 2 ∷ 3 ∷ []) (zeros 1598) refl refl
      (omega (arith, length-zeros 1598))

native_close-close_writer_example :
    (n₁ n₂ : Native counting) × (native_open_dump_file counting "out.pcap" 0 capturing
      ≡ some (none, n₁))
    × (close_writer counting n₁ ≡ some n₂)
    × (n₂.pcds 0 ≡ some 42)
    × (native_close counting 0 n₂ ≡ none)
native_close-close_writer_example =
    native_close-close_writer counting "out.pcap" 0 42 capturing (omega arith) refl refl refl
