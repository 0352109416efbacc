-- ===== src/Session.antt =====
-- A `JpcapSender` and a `JpcapCaptor` on one network: what `sendPacket` of the one is given, `getPacket`
-- of the other returns (jpcap-0.7/src/c/JpcapSender.c, JpcapCaptor.c).
pub mod Batches
use redes1grupal.Native.{captured, Native, Pcap}
use redes1grupal.Memory.{Bytes}
use redes1grupal.Packet.{
  arp, ArpPacket, udp, UdpPacket, new_ip, tcp, ethernet, TcpPacket, IpPacket, EthernetPacket, Kind,
  DatalinkPacket, Packet,
}
use redes1grupal.Sender.{build_frame}
use redes1grupal.Icmp.{data_length}
use redes1grupal.Base.{
  Option, refl, [], u16, All, ◌≤◌, ◌+◌, length, none, ◌<◌, some, true, ◌≡◌, List, ℕ,
}
use redes1grupal.Memory.Laws.{IsBytes}
use redes1grupal.Sender.Layout.{IsFrame, frame_bytes}
use redes1grupal.GetPacket.Assemble.{get_packet}
use redes1grupal.Sender.Captured.{capture_of_whole, capture_of}
use redes1grupal.Datalink.{dlt_en10mb}
use redes1grupal.Sender.Frames.{build_frame-eq, body, IsTcpFrame}
use redes1grupal.SetPacket.Ipv4.{wire_ip, IsInRange}
use redes1grupal.Sender.RoundTrip.{get_packet-build_frame}
use redes1grupal.Sender.UdpRoundTrip.{IsUdpFrame, get_packet-build_frame_udp}
use redes1grupal.Sender.ArpRoundTrip.{get_packet-build_frame_arp}
use redes1grupal.Tcp.RoundTrip.{wire_values}
use redes1grupal.Arp.Laws.{IsArp}

-- A packet that can be sent, and what is read of it: its datalink packet, its data, and its protocol
-- headers. It has all its addresses set, its data fits the buffer, and an IP packet is of version 4,
-- unfragmented, with fields that fit the header.
pub data IsSendable (sent : Packet) : DatalinkPacket → List ℕ → Kind → Type 0 where
  is_tcp :
      (e : EthernetPacket) (p : IpPacket) (t : TcpPacket) (esrc edst src dst xs : List ℕ)
      → IsTcpFrame sent e p t esrc edst src dst xs
      → IsInRange p
      → p.offset ≡ 0
      → e.frametype ≡ 0x0800
      → length xs ≤ 1546
      → All (λ x. x < 256) esrc
      → All (λ x. x < 256) edst
      → All (λ x. x < 256) src
      → All (λ x. x < 256) dst
      → All (λ x. x < 256) xs
      → IsSendable sent
          (ethernet (record { dst_mac = some edst; src_mac = some esrc; frametype = 0x0800 }))
          xs
          (tcp (wire_ip new_ip p 6 (length xs + 40) src dst) (wire_values t none))
  is_udp :
      (e : EthernetPacket) (p : IpPacket) (u : UdpPacket) (esrc edst src dst xs : List ℕ)
      → IsUdpFrame sent e p u esrc edst src dst xs
      → IsInRange p
      → p.offset ≡ 0
      → e.frametype ≡ 0x0800
      → length xs ≤ 1558
      → All (λ x. x < 256) esrc
      → All (λ x. x < 256) edst
      → All (λ x. x < 256) src
      → All (λ x. x < 256) dst
      → All (λ x. x < 256) xs
      → IsSendable sent
          (ethernet (record { dst_mac = some edst; src_mac = some esrc; frametype = 0x0800 }))
          xs
          (udp (wire_ip new_ip p 17 (length xs + 28) src dst) (record {
            src_port = u16 u.src_port;
            dst_port = u16 u.dst_port;
            datagram_length = length xs + 8;
          }))
  is_arp :
      (e : EthernetPacket) (a : ArpPacket) (payload : Option (List ℕ))
      (esrc edst sha spa tha tpa : List ℕ)
      → IsFrame sent e (arp a) payload esrc edst
      → data_length payload ≡ 0
      → IsArp a sha spa tha tpa
      → e.frametype ≡ 0x0806
      → IsSendable sent
          (ethernet (record { dst_mac = some edst; src_mac = some esrc; frametype = 0x0806 }))
          []
          (arp (record a {
            hardtype = u16 a.hardtype;
            prototype = u16 a.prototype;
            operation = u16 a.operation;
          }))

-- A packet object with these parts.
pub record Holds (q : Packet) (link : DatalinkPacket) (xs : List ℕ) (kind : Kind) : Type 0 where
  pub link_read : q.datalink ≡ some link
  pub data_read : q.payload ≡ some xs
  pub kind_read : q.kind ≡ kind

module _ (stack : Bytes) (sent : Packet) (sec usec stale : ℕ) (extra : ℕ × ℕ) (behind : Bytes) where
  -- The frame of a packet is read as a packet with these parts.
  abbrev pub IsReadBack : DatalinkPacket → List ℕ → Kind → Type 0
  IsReadBack link xs kind =
      (frame : List ℕ) × (build_frame stack sent ≡ some (frame, none))
      × (q : Packet) × (get_packet dlt_en10mb stale extra (capture_of sec usec behind frame)
          ≡ some q)
      × Holds q link xs kind

  pub IsSendable-IsReadBack :
      (link : DatalinkPacket) (xs : List ℕ) (kind : Kind)
      → IsBytes stack
      → IsSendable sent link xs kind
      → IsReadBack link xs kind
  IsSendable-IsReadBack _ _ _ bytes
        (is_tcp e p t esrc edst src dst xs v r whole type small bes bed bs bd bx) =
      let frame : List ℕ =
        frame_bytes (length xs + 40 + 14) (body stack sent e p t esrc edst src dst xs v) in
      let built : build_frame stack sent ≡ some (frame, none) =
        build_frame-eq stack sent e p t esrc edst src dst xs v small in
      (
        frame,
        built,
        _,
        get_packet-build_frame stack sent e p t esrc edst src dst xs frame
            (capture_of sec usec behind frame) stale extra v r whole type small bytes bes bed bs bd
            bx built refl (capture_of_whole behind frame),
        record { link_read = refl; data_read = refl; kind_read = refl },
      )
  IsSendable-IsReadBack _ _ _ bytes
        (is_udp e p u esrc edst src dst xs v r whole type small bes bed bs bd bx) =
      let (frame, built, got) =
        get_packet-build_frame_udp stack sent e p u esrc edst src dst xs sec usec stale extra behind
          v r whole type small bytes bes bed bs bd bx in
      (frame, built, _, got, record { link_read = refl; data_read = refl; kind_read = refl })
  IsSendable-IsReadBack _ _ _ bytes
        (is_arp e a payload esrc edst sha spa tha tpa v no_data set type) =
      let (frame, built, got) =
        get_packet-build_frame_arp stack sent e a payload esrc edst sha spa tha tpa sec usec stale
          extra behind v no_data set type in
      (frame, built, _, got, record { link_read = refl; data_read = refl; kind_read = refl })

-- A network on which the handle `g` sends and `h` captures, with a time stamp and anything behind the
-- frame in the buffer: a frame is accepted, and is what the next call for a packet reports.
pub record IsWire (pcap : Pcap) (g h sec usec : ℕ) (behind : Bytes) : Type 0 where
  pub accepted : (frame : List ℕ) (w : pcap.World) → (pcap.sendpacket g frame w).0 ≡ true
  pub delivered :
      (frame : List ℕ) (w : pcap.World)
      → (pcap.next_ex h ((pcap.sendpacket g frame w).1)).0
        ≡ captured (capture_of sec usec behind frame)
