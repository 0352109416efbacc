-- ===== src/Sender/ArpRoundTrip.antt =====
-- An ARP message that `nativeSendPacket` lays out, captured again and read by `get_packet`.
use redes1grupal.Arp.{analyze_arp}
use redes1grupal.Memory.{write_bytes, read_bytes, Mem, Bytes}
use redes1grupal.Packet.{ethernet, arp, ArpPacket, EthernetPacket, Packet}
use redes1grupal.Icmp.{data_length}
use redes1grupal.Base.{
  Option, length, refl, ◌∙◌, none, u16, [], arith, some, ◌<◌, ◌≤◌, List, ◌≡◌, ◌+◌, ℕ,
}
use redes1grupal.Sender.Layout.{build_frame_lem, frame_bytes, ethered, IsFrame}
use redes1grupal.Memory.Laws.{read_bytes_ext}
use redes1grupal.Arp.Laws.{
  analyze_arp_bytes, arp_bytes, set_arp_eq, arp_bytes_lengths, arp_bytes_before, IsArp,
}
use redes1grupal.Native.{Capture}
use redes1grupal.Sender.Captured.{macs, IsCopy-capture_of, capture_of, type_bytes, IsCopy}
use redes1grupal.Sender.{build_frame}
use redes1grupal.SetPacket.{set_other, ip_part, set_body}
use redes1grupal.Datalink.Laws.{ether_bytes}
use redes1grupal.GetPacket.ArpFrame.{analyze_arp_lem, get_packet-arp, IsArpFrame, message}
use redes1grupal.GetPacket.Assemble.{capture_memory, get_packet}
use redes1grupal.Datalink.{dlt_en10mb}

analyze_arp-agree :
    (pointer : ℕ) (m m' : Mem)
    → m.byte (pointer + 4) ≡ 6
    → m.byte (pointer + 5) ≡ 4
    → pointer + 28 ≤ m.size
    → pointer + 28 ≤ m'.size
    → ((j : ℕ) → pointer ≤ j → j < pointer + 28 → m'.byte j ≡ m.byte j)
    → analyze_arp pointer m' ≡ analyze_arp pointer m
unfolding analyze_arp
analyze_arp-agree pointer m m' six four fits fits' same = ground (
  arith,
  same (pointer + 0),
  same (pointer + 1),
  same (pointer + 2),
  same (pointer + 3),
  same (pointer + 4),
  same (pointer + 5),
  same (pointer + 6),
  same (pointer + 7),
  read_bytes_ext 6 (pointer + 8) m'.byte m.byte (λ j lo hi. same j (omega arith) (omega arith)),
  read_bytes_ext 4 (pointer + 8 + 6) m'.byte m.byte (λ j lo hi. same j (omega arith) (omega arith)),
  read_bytes_ext 6 (pointer + 8 + 6 + 4) m'.byte m.byte
      (λ j lo hi. same j (omega arith) (omega arith)),
  read_bytes_ext 4 (pointer + 8 + 6 + 4 + 6) m'.byte m.byte
      (λ j lo hi. same j (omega arith) (omega arith)),
)

module _ (stack : Bytes) (packet : Packet) (e : EthernetPacket) (a : ArpPacket)
    (payload : Option (List ℕ)) (esrc edst sha spa tha tpa : List ℕ)
    (v : IsFrame packet e (arp a) payload esrc edst) (no_data : data_length payload ≡ 0)
    (set : IsArp a sha spa tha tpa) (type : e.frametype ≡ 0x0806) where
  abbrev buffer : Mem
  buffer = ethered stack e esrc edst

  abbrev wire : Bytes
  wire = arp_bytes a 14 sha spa tha tpa buffer.byte set

  set_body_arp :
      set_body (arp a) 14 (data_length payload) payload buffer
      ≡ some (28, record buffer { byte = wire })
  unfolding set_body ip_part set_other
  set_body_arp =
      ground (arith, no_data, set_arp_eq a 14 sha spa tha tpa buffer.byte set buffer refl)

  built : build_frame stack packet ≡ some (frame_bytes 42 wire, none)
  built =
      build_frame_lem stack packet e (arp a) payload esrc edst v 28 wire set_body_arp (omega arith)

  in_front : (j : ℕ) → j < 14 → wire j ≡ ether_bytes e 0 esrc edst stack j
  in_front j h = arp_bytes_before a 14 sha spa tha tpa buffer.byte set j h

  -- What is read of the message.
  abbrev pub sent_message : ArpPacket
  sent_message = record a {
    hardtype = u16 a.hardtype;
    prototype = u16 a.prototype;
    operation = u16 a.operation;
  }

  module _ (c : Capture) (copy : IsCopy c e esrc edst stack wire 42) where
    is_frame : IsArpFrame c
    is_frame =
        let lengths = arp_bytes_lengths a 14 sha spa tha tpa buffer.byte set in
        let t = type_bytes c e esrc edst stack wire 42 copy (omega arith) v.ether in
        record {
          type_high = omega (arith, t, type);
          type_low = omega (arith, t, type);
          hlen_byte = copy.copied 18 (omega arith) ∙ lengths.0;
          plen_byte = copy.copied 19 (omega arith) ∙ lengths.1;
          caplen_range = omega (arith, copy.caplen_is);
        }

    message_read : message c ≡ sent_message
    message_read =
        let lengths = arp_bytes_lengths a 14 sha spa tha tpa buffer.byte set in
        let agree : analyze_arp 14 (capture_memory c) ≡ some (sent_message, 28) =
          analyze_arp-agree 14 (record buffer { byte = wire }) (capture_memory c) lengths.0
            lengths.1 (omega arith) (omega (arith, copy.caplen_is))
            (λ j lo hi. copy.copied j (omega arith))
          ∙ analyze_arp_bytes a 14 sha spa tha tpa buffer.byte set buffer (omega arith) in
        ground (arith, agree, analyze_arp_lem c is_frame)

    received :
        (stale : ℕ) (extra : ℕ × ℕ)
        → get_packet dlt_en10mb stale extra c
          ≡ some (record {
            sec = c.sec;
            usec = c.usec;
            caplen = c.caplen;
            len = c.len;
            datalink = some (
                ethernet (record { dst_mac = some edst; src_mac = some esrc; frametype = 0x0806 }));
            header = some (read_bytes 42 0 c.bytes);
            payload = some [];
            kind = arp sent_message;
          })
    received stale extra =
        get_packet-arp c stale extra is_frame
        ∙ ground (arith, message_read, macs c e esrc edst stack wire 42 copy (omega arith) v.ether)

-- An ARP message for IPv4 over Ethernet, with all its addresses set and no data (null or empty), is laid out as a frame
-- by `nativeSendPacket`, with no exception pending. A capture of that frame, whatever stands behind
-- it, is read by `get_packet` as the message that was sent: both Ethernet addresses and the nine
-- fields of the message, the three integers of 16 bits cut to that width.
pub get_packet-build_frame_arp :
    (stack : Bytes) (packet : Packet) (e : EthernetPacket) (a : ArpPacket)
    (payload : Option (List ℕ)) (esrc edst sha spa tha tpa : List ℕ) (sec usec stale : ℕ)
    (extra : ℕ × ℕ) (behind : Bytes)
    → IsFrame packet e (arp a) payload esrc edst
    → data_length payload ≡ 0
    → IsArp a sha spa tha tpa
    → e.frametype ≡ 0x0806
    → (frame : List ℕ) × (build_frame stack packet ≡ some (frame, none))
      × (get_packet dlt_en10mb stale extra (capture_of sec usec behind frame)
          ≡ some (record {
            sec = sec;
            usec = usec;
            caplen = length frame;
            len = length frame;
            datalink = some (
                ethernet (record { dst_mac = some edst; src_mac = some esrc; frametype = 0x0806 }));
            header = some (read_bytes 42 0 (write_bytes 0 frame behind));
            payload = some [];
            kind = arp (record a {
              hardtype = u16 a.hardtype;
              prototype = u16 a.prototype;
              operation = u16 a.operation;
            });
          }))
get_packet-build_frame_arp stack packet e a payload esrc edst sha spa tha tpa sec usec stale extra
      behind v no_data set type =
    let w : Bytes = wire stack packet e a payload esrc edst sha spa tha tpa v no_data set type in
    let frame : List ℕ = frame_bytes 42 w in
    (
      frame,
      built stack packet e a payload esrc edst sha spa tha tpa v no_data set type,
      received stack packet e a payload esrc edst sha spa tha tpa v no_data set type
          (capture_of sec usec behind frame)
          (IsCopy-capture_of sec usec behind e esrc edst stack w 42
            (in_front stack packet e a payload esrc edst sha spa tha tpa v no_data set type))
          stale extra,
    )
