-- ===== src/Examples/Histories.antt =====
-- A libpcap that gives out handles by counting, and a history of calls over it.
use redes1grupal.Base.{◌^◌, ◌<◌, ◌/◌, ◌+◌, ◌≤◌, refl, zero, suc}
use redes1grupal.Captor.Control.{
  TimeoutLaws, get_packet_read_timeout-set, get_packet_read_timeout, int_to_timeval,
  set_packet_read_timeout,
}
use redes1grupal.Native.{timed_out, Pcap, Native}
use redes1grupal.Handles.{
  sends, sets_filter, uses, opens_device, closes, opens_live, Call, instance_of, PcapLaws,
}
use redes1grupal.Base.{[], true, suc, ◌∷◌, ◌≡◌, some, false, arith, ltb, none, ℕ, List}
use redes1grupal.Captor.{to_timeval, live_handle}
use redes1grupal.Handles.Refines.{Runs, run-History}
use redes1grupal.Examples.{text, carrying, stack}

-- The world is the address of the next handle, and the time out that was set.
abbrev counted : Pcap
counted = record {
  World = ℕ × ℕ × ℕ;
  open_live = λ dev snaplen promisc to_ms w. (some (w.0), (suc (w.0), w.1, w.2));
  open_offline = λ file w. (some (w.0), (suc (w.0), w.1, w.2));
  close = λ h w. w;
  datalink = λ h. 1;
  lookupnet = λ dev w. none;
  sendpacket = λ h frame w. (true, w);
  next_ex = λ h w. (timed_out, w);
  compile = λ h condition opt mask w. (true, w);
  setfilter = λ h w. (true, w);
  stats = λ h w. (some (0, 0), w);
  setnonblock = λ h b w. w;
  getnonblock = λ h w. (0, w);
  breakloop = λ h w. w;
  set_timeout = λ h tv w. (true, (w.0, tv.0, tv.1));
  get_timeout = λ h w. some (w.1, w.2);
  dump_open = λ h file w. (true, w);
  dump = λ header bytes w. w;
  dump_close = λ w. w;
  socket = λ w. (some 3, w);
  sendto = λ s bytes address w. (true, w);
  close_socket = λ s w. w;
}

abbrev counted_laws : PcapLaws counted
counted_laws = record {
  allocated = λ w h. ltb h (w.0);
  open_live_fresh = λ dev snaplen promisc to_ms w h e. (ground (arith, e), ground (arith, e));
  open_live_keeps = λ dev snaplen promisc to_ms w g e. ground (arith, e);
  open_offline_fresh = λ file w h e. (ground (arith, e), ground (arith, e));
  open_offline_keeps = λ file w g e. ground (arith, e);
  close_keeps = λ h g w ne e. e;
  compile_keeps = λ h condition opt mask w g e. e;
  setfilter_keeps = λ h w g e. e;
  stats_keeps = λ h w g e. e;
  setnonblock_keeps = λ h non_blocking w g e. e;
  getnonblock_keeps = λ h w g e. e;
  breakloop_keeps = λ h w g e. e;
  set_timeout_keeps = λ h tv w g e. e;
  sendpacket_keeps = λ h frame w g e. e;
}

abbrev closed_all : Native counted
closed_all = record {
  pcds = λ i. none;
  jni_envs = λ i. 0;
  linktypes = λ i. 0;
  netnums = λ i. 0;
  netmasks = λ i. 0;
  soc_num = none;
  pcdd = none;
  pdt = false;
  live = λ h. false;
  world = (100, 0, 0);
}

-- A device is opened, opened again, filtered, closed, opened for sending, and sent through.
abbrev calls : List Call
calls =
    opens_live 1 0 (some "eth0") 65535 0 20
    ∷ opens_live 1 0 (some "eth0") 65535 0 20
    ∷ uses (sets_filter "arp" true) 0
    ∷ closes 0
    ∷ opens_device 1 0 (some "eth0")
    ∷ sends stack 0 (carrying text)
    ∷ []

run-History_example : Runs counted counted_laws calls closed_all
unfolding instance_of
run-History_example =
    run-History counted counted_laws calls closed_all
      (omega arith, (omega arith, (omega arith, (omega arith, (omega arith, (omega arith, tt))))))
      (record {
        sound = record {
          held = λ i h e. ground (arith, e);
          apart = λ i j h e f. ground (arith, e);
        };
        tracked = λ h e. ground (arith, e);
      })

-- Instance 0 holds the handle at 42.
abbrev one_open : Native counted
one_open = record closed_all {
  pcds = λ i. elim i [ zero ↦ some 42 | suc j ↦ none ];
  live = λ h. true;
}

-- A clock whose ticks are too short to matter.
abbrev exact : TimeoutLaws counted
exact = record {
  tick = 0;
  tick_range = omega arith;
  get_timeout-set_timeout = λ h tv w e sec usec. (tv, refl, omega arith, omega arith);
}

get_packet_read_timeout-set_example :
    (r : ℕ) × (get_packet_read_timeout counted 0 (record one_open { world = (100, 1, 500000) })
      ≡ some r)
    × (1500 ≤ r)
    × (r ≤ 1500 + 0 / 1000)
    × (r < 2 ^ 31)
unfolding set_packet_read_timeout live_handle int_to_timeval to_timeval
get_packet_read_timeout-set_example =
    get_packet_read_timeout-set counted exact 0 1500 one_open
      (record one_open { world = (100, 1, 500000) }) (omega arith) refl
