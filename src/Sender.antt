-- ===== src/Sender.antt =====
-- The native methods of `JpcapSender` in jpcap-0.7/src/c/JpcapSender.c.
pub mod Padding
pub mod Layout
pub mod Frames
pub mod Captured
pub mod RoundTrip
pub mod UdpRoundTrip
pub mod ArpRoundTrip
pub mod Socket
use redes1grupal.Base.{
  ℕ, zero, suc, ◌+◌, ◌-◌, ◌*◌, ◌^◌, Bool, true, false, Option, none, some, List, [], ◌∷◌, ◌==◌, ltb,
  leb, if◌then◌else◌, ◌>>=◌,
}
use redes1grupal.Memory.{
  Mem, Bytes, Exception, another_sender, non_ip_packet, socket_not_initialized, sendto_error,
  pcap_error, socket_open, no_socket, read_bytes, write_bytes, within, storing,
}
use redes1grupal.Packet.{Packet}
use redes1grupal.JpcapSub.{max_number_of_instance, max_packet_size}
use redes1grupal.SetPacket.{set_packet, ip_part}
use redes1grupal.Native.{
  Pcap, Native, Message, another_instance, no_device, pcap_message, update, opened, close_handle,
}
use Prim.Native.String.{String}

-- `char buf[MAX_PACKET_SIZE]`, with what the stack held before.
abbrev pub stack_buffer : Bytes → Mem
stack_buffer stack = record { byte = stack; size = max_packet_size; pending = none }

abbrev pub zeros : ℕ → List ℕ
zeros zero = []
zeros (suc n) = 0 ∷ zeros n

-- `if(length<60)`: `memset` clears one byte more than the trailer takes. A negative length puts
-- it before the buffer.
unfoldable pub pad_frame : ℕ → Mem → Option (ℕ × Mem)
pad_frame length m =
    if leb (2 ^ 31) length
    then none
    else if ltb length 60
    then (storing length (60 - length + 1) (write_bytes length (zeros (60 - length + 1))) m
        >>= λ m'. some (60, m'))
    else some (length, m)

-- The bytes that are handed over are read from the buffer.
abbrev pub frame_of : ℕ → Mem → Option (List ℕ)
frame_of length m = if within 0 length m then some (read_bytes length 0 m.byte) else none

-- The frame that `nativeSendPacket` hands to libpcap, and the exception that is then pending.
unfoldable pub build_frame : Bytes → Packet → Option (List ℕ × Option Exception)
build_frame stack packet = do
  (length, m) ← set_packet packet 0 true (stack_buffer stack)
  (length', m') ← pad_frame length m
  frame ← frame_of length' m'
  some (frame, m'.pending)

-- The datagram of `nativeSendPacketViaRawSocket`, and its destination address.
unfoldable pub build_datagram : Bytes → Packet → Option (List ℕ × List ℕ × Option Exception)
build_datagram stack packet = do
  (length, m) ← set_packet packet 0 false (stack_buffer stack)
  frame ← frame_of length m
  some (frame, read_bytes 4 16 m.byte, m.pending)

module _ (pcap : Pcap) where
  -- An instance number out of the tables is a fault.
  unfoldable pub native_open_device :
      ℕ → ℕ → Option String → Native pcap → Option (Option Message × Native pcap)
  native_open_device env id device n =
      let n₁ = record n { jni_envs = update n.jni_envs id env } in
      if ltb id max_number_of_instance
      then elim (n.pcds id) [
        | some h ↦ some (some another_instance, n₁)
        | none ↦ elim device [
          | none ↦ some (some no_device, n₁)
          | some dev ↦
              let (handle, w) = pcap.open_live dev 65535 0 1000 n.world in
              let n₂ = opened pcap id handle w n₁ in
              elim handle [ none ↦ some (some pcap_message, n₂) | some h ↦ some (none, n₂) ]
        ]
      ]
      else none

  unfoldable pub native_send_packet :
      Bytes → ℕ → Packet → Native pcap → Option (Option Exception × Native pcap)
  native_send_packet stack id packet n =
      if ltb id max_number_of_instance
      then elim (n.pcds id) [
        | none ↦ some (some another_sender, n)
        | some h ↦
            let result = build_frame stack packet >>= λ r.
            (let (sent, w) = pcap.sendpacket h r.0 n.world in
              some ((if sent then r.1 else some pcap_error), record n { world = w })) in
            if n.live h then result else none
      ]
      else none

  -- `if(pcds[id]!=NULL) pcap_close(pcds[id]); pcds[id]=NULL;`
  unfoldable pub native_close_device : ℕ → Native pcap → Option (Native pcap)
  native_close_device id n = if ltb id max_number_of_instance then close_handle pcap id n else none

  unfoldable pub native_open_raw_socket : Native pcap → Option Exception × Native pcap
  native_open_raw_socket n = elim n.soc_num [
    | some s ↦ (some socket_open, n)
    | none ↦
        let (s, w) = pcap.socket n.world in
        let n' = record n { soc_num = s; world = w } in
        elim s [ none ↦ (some no_socket, n') | some fd ↦ (none, n') ]
  ]

  unfoldable pub native_send_packet_via_raw_socket :
      Bytes → Packet → Native pcap → Option (Option Exception × Native pcap)
  native_send_packet_via_raw_socket stack packet n = elim (ip_part packet.kind) [
    | none ↦ some (some non_ip_packet, n)
    | some p ↦ elim n.soc_num [
      | none ↦ some (some socket_not_initialized, n)
      | some s ↦ build_datagram stack packet >>= λ r.
          (let (sent, w) = pcap.sendto s r.0 r.1 n.world in
            some ((if sent then r.2 else some sendto_error), record n { world = w }))
    ]
  ]

  -- `close(soc_num)`; the number itself is kept.
  unfoldable pub native_close_raw_socket : Native pcap → Native pcap
  native_close_raw_socket n = elim n.soc_num [
    | none ↦ n
    | some s ↦ record n { world = pcap.close_socket s n.world }
  ]
