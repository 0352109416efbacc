-- ===== src/Examples/Network.antt =====
-- A network that holds the last frame that was sent.
use redes1grupal.Base.{[], zero, suc}
use redes1grupal.Examples.{
  stack, src_mac, dst_mac, src_ip, dst_ip, text, ip_packet, syn_packet, carrying,
}
use redes1grupal.Native.{captured, Native, Pcap}
use redes1grupal.Packet.{new_ip, tcp, ethernet, Packet}
use redes1grupal.Base.{◌+◌, false, true, some, none, ℕ, List}
use redes1grupal.Captor.{packet}
use redes1grupal.Sender.Captured.{capture_of}
use redes1grupal.SetPacket.Ipv4.{wire_ip}
use redes1grupal.Tcp.RoundTrip.{wire_values}
use redes1grupal.Session.Batches.{Sent}

abbrev network : Pcap
network = record {
  World = List ℕ;
  open_live = λ dev snaplen promisc to_ms w. (none, w);
  open_offline = λ file w. (none, w);
  close = λ h w. w;
  datalink = λ h. 1;
  lookupnet = λ dev w. none;
  sendpacket = λ h frame w. (true, frame);
  next_ex = λ h w. (captured (capture_of 1 2 stack w), w);
  compile = λ h condition opt mask w. (true, w);
  setfilter = λ h w. (true, w);
  stats = λ h w. (none, w);
  setnonblock = λ h b w. w;
  getnonblock = λ h w. (0, w);
  breakloop = λ h w. w;
  set_timeout = λ h tv w. (false, w);
  get_timeout = λ h w. none;
  dump_open = λ h file w. (false, w);
  dump = λ header bytes w. w;
  dump_close = λ w. w;
  socket = λ w. (none, w);
  sendto = λ s bytes address w. (false, w);
  close_socket = λ s w. w;
}

-- Instance 0 sends through the handle at 41, instance 1 captures through that at 42.
abbrev both_open : Native network
both_open = record {
  pcds = λ i. elim i [ zero ↦ some 41 | suc j ↦ some 42 ];
  jni_envs = λ i. 0;
  linktypes = λ i. 1;
  netnums = λ i. 0;
  netmasks = λ i. 0;
  soc_num = none;
  pcdd = none;
  pdt = false;
  live = λ h. true;
  world = [];
}

-- The segment twice.
abbrev sent : Sent
sent = record {
  packet = carrying text;
  link = ethernet (record { dst_mac = some dst_mac; src_mac = some src_mac; frametype = 0x0800 });
  payload = text;
  kind = tcp (wire_ip new_ip ip_packet 6 (2 + 40) src_ip dst_ip) (wire_values syn_packet none);
  sec = 1;
  usec = 2;
  stale = 6;
  extra = (0, 0);
  behind = stack;
}
