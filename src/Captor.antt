-- ===== src/Captor.antt =====
-- The native methods of `JpcapCaptor` in jpcap-0.7/src/c/JpcapCaptor.c.
pub mod Control
pub mod Laws
use redes1grupal.Base.{
  ℕ, ◌+◌, ◌*◌, ◌/◌, ◌%◌, ◌^◌, Bool, true, false, Option, none, some, List, [], ◌∷◌, ltb, ◌==◌,
  if◌then◌else◌, ◌>>=◌,
}
use redes1grupal.Memory.{Exception}
use redes1grupal.Packet.{Packet}
use redes1grupal.JpcapSub.{max_number_of_instance}
use redes1grupal.GetPacket.Assemble.{get_packet}
use redes1grupal.Native.{
  Pcap, Native, Capture, NextResult, captured, no_data, timed_out, failed, end_of_file, Message,
  another_instance, no_device, pcap_message, update, opened, close_handle,
}
use Prim.Native.String.{String}

-- What `getPacket` returns to Java: null, the static `Packet.EOF`, or a packet.
pub data Received : Type 0 where
  null : Received
  eof : Received
  packet : Packet → Received

-- A captured frame with what the uninitialised variables hold when it is analyzed.
abbrev pub Frame : Type 0
Frame = ℕ × (ℕ × ℕ) × Capture

-- `dispatcher_handler` for each frame in turn: the packets that `receivePacket` is called with.
unfoldable pub dispatch : ℕ → List Frame → Option (List Packet)
dispatch linktype [] = some []
dispatch linktype ((stale, extra, c) ∷ frames) = do
  p ← get_packet linktype stale extra c
  ps ← dispatch linktype frames
  some (p ∷ ps)

-- `struct timeval` of a time out in milliseconds, seconds first, and back.
unfoldable pub to_timeval : ℕ → ℕ × ℕ
to_timeval millis = (millis / 1000, millis % 1000 * 1000)

unfoldable pub of_timeval : ℕ × ℕ → ℕ
of_timeval (sec, usec) = usec / 1000 + sec * 1000

module _ (pcap : Pcap) where
  -- The link type is known once the device is open.
  abbrev pub set_linktype : ℕ → ℕ → Native pcap → Native pcap
  set_linktype id h n = record n { linktypes = update n.linktypes id (pcap.datalink h) }

  -- `pcap_lookupnet` runs whether or not the device could be opened.
  abbrev pub set_net : ℕ → String → Native pcap → Native pcap
  set_net id dev n = elim (pcap.lookupnet dev n.world) [
    | none ↦ record n { netmasks = update n.netmasks id 0 }
    | some (net, mask) ↦ record n {
      netnums = update n.netnums id net;
      netmasks = update n.netmasks id mask;
    }
  ]

  unfoldable pub native_open_live :
      ℕ → ℕ → Option String → ℕ → ℕ → ℕ → Native pcap → Option (Option Message × Native pcap)
  native_open_live env id device snaplen promisc to_ms n =
      let n₁ = record n { jni_envs = update n.jni_envs id env } in
      if ltb id max_number_of_instance
      then elim (n.pcds id) [
        | some h ↦ some (some another_instance, n)
        | none ↦ elim device [
          | none ↦ some (some no_device, n₁)
          | some dev ↦
              let (handle, w) = pcap.open_live dev snaplen promisc to_ms n.world in
              let n₂ = set_net id dev (opened pcap id handle w n₁) in
              elim handle [
                | none ↦ some (some pcap_message, n₂)
                | some h ↦ some (none, set_linktype id h n₂)
              ]
        ]
      ]
      else none

  unfoldable pub native_open_offline :
      ℕ → ℕ → String → Native pcap → Option (Option Message × Native pcap)
  native_open_offline env id filename n =
      let n₁ = record n { jni_envs = update n.jni_envs id env } in
      if ltb id max_number_of_instance
      then elim (n.pcds id) [
        | some h ↦ some (some another_instance, n)
        | none ↦
            let (handle, w) = pcap.open_offline filename n.world in
            let n₂ = opened pcap id handle w n₁ in
            elim handle [
              | none ↦ some (some pcap_message, n₂)
              | some h ↦ some (none, set_linktype id h n₂)
            ]
      ]
      else none

  unfoldable pub native_close : ℕ → Native pcap → Option (Native pcap)
  native_close id n = if ltb id max_number_of_instance then close_handle pcap id n else none

  -- The instance's `pcap_t *`. A null or a freed one makes libpcap fault.
  unfoldable pub live_handle : ℕ → Native pcap → Option ℕ
  live_handle id n =
      if ltb id max_number_of_instance
      then elim (n.pcds id) [ none ↦ none | some h ↦ (if n.live h then some h else none) ]
      else none

  unfoldable pub get_next : ℕ → ℕ → ℕ → ℕ × ℕ → Native pcap → Option (Received × Native pcap)
  get_next env id stale extra n = do
    h ← live_handle id n
    let next = pcap.next_ex h n.world
    let n₁ : Native pcap = record n { world = next.1 }
    let n₂ : Native pcap = record n₁ { jni_envs = update n.jni_envs id env }
    elim (next.0) [
      | timed_out ↦ some (null, n₁)
      | failed ↦ some (null, n₁)
      | end_of_file ↦ some (eof, n₁)
      | no_data ↦ some (null, n₂)
      | captured c ↦ (get_packet (n.linktypes id) stale extra c >>= λ p. some (packet p, n₂))
    ]

  -- `processPacket` and `loopPacket`: `frames` are what `pcap_dispatch` or `pcap_loop` hands to the
  -- handler, and the count that it returns is their number.
  unfoldable pub process_packets :
      ℕ → ℕ → List Frame → Native pcap → Option (List Packet × Native pcap)
  process_packets env id frames n = do
    h ← live_handle id n
    ps ← dispatch (n.linktypes id) frames
    some (ps, record n { jni_envs = update n.jni_envs id env })

  -- The filter is compiled with the netmask of the device, then set; either may be refused, which
  -- throws an `IOException`.
  unfoldable pub set_filter : ℕ → String → Bool → Native pcap → Option (Bool × Native pcap)
  set_filter id condition opt n = do
    h ← live_handle id n
    let compiled = pcap.compile h condition opt (n.netmasks id) n.world
    let installed = pcap.setfilter h (compiled.1)
    (if compiled.0
        then some (installed.0, record n { world = installed.1 })
        else some (false, record n { world = compiled.1 }))
