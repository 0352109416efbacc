-- ===== src/GetPacket/ArpFrame.antt =====
-- What `get_packet` makes of an ARP message on Ethernet.
use redes1grupal.Base.{ℕ, ◌^◌, ◌≤◌, ◌<◌, ◌≡◌, arith, none, some, [], htons, ltb, if◌then◌else◌}
use redes1grupal.Memory.{load16, read_bytes}
use redes1grupal.Packet.{Packet, arp, ethernet, ArpPacket, new_arp}
use redes1grupal.Native.{Capture}
use redes1grupal.Datalink.{analyze_datalink, dlt_en10mb}
use redes1grupal.Arp.{analyze_arp}
use redes1grupal.GetPacket.Classify.{
  en10mb, link_type, offset_data, offset_type, network, classify, network_protocol,
  network_transport, get_network_type, is_truncated, unknown_proto,
}
use redes1grupal.GetPacket.Assemble.{
  get_packet, assemble, analyze_network, analyze_transport, split_frame, cut_length, transport,
  create, no_proto, set_arp_value, capture_memory,
}

-- An Ethernet frame with an ARP message for IPv4 over Ethernet.
pub record IsArpFrame (c : Capture) : Type 0 where
  pub type_high : c.bytes 12 ≡ 0x08
  pub type_low : c.bytes 13 ≡ 0x06
  pub hlen_byte : c.bytes 18 ≡ 6
  pub plen_byte : c.bytes 19 ≡ 4
  pub caplen_range : (42 ≤ c.caplen) × (c.caplen < 2 ^ 15)

-- The message at byte 14.
abbrev pub message : Capture → ArpPacket
message c = record {
  hardtype = htons (load16 14 0 c.bytes);
  prototype = htons (load16 14 2 c.bytes);
  hlen = 6;
  plen = 4;
  operation = htons (load16 14 6 c.bytes);
  sender_hardaddr = some (read_bytes 6 22 c.bytes);
  sender_protoaddr = some (read_bytes 4 28 c.bytes);
  target_hardaddr = some (read_bytes 6 32 c.bytes);
  target_protoaddr = some (read_bytes 4 38 c.bytes);
}

pub analyze_arp_lem :
    (c : Capture) → IsArpFrame c → analyze_arp 14 (capture_memory c) ≡ some (message c, 28)
unfolding analyze_arp
analyze_arp_lem c v = ground (arith, v.hlen_byte, v.plen_byte, v.caplen_range)

-- Of a frame that ends with the message, the transport protocol is what was in the variable, or
-- the unknown one.
classify-arp :
    (c : Capture) (stale : ℕ)
    → IsArpFrame c
    → (tproto : ℕ) × (classify en10mb stale c.caplen (capture_memory c) ≡ some (0x0806, tproto))
      × (transport tproto ≡ no_proto)
unfolding classify network_protocol network_transport get_network_type offset_type offset_data
    network is_truncated transport
classify-arp c stale v =
    let tproto : ℕ =
      if ltb 42 c.caplen then 0x0806 else if is_truncated stale 0 then unknown_proto else stale in
    (
      tproto,
      ground (arith, v.type_high, v.type_low, v.caplen_range),
      ground (arith, v.caplen_range),
    )

-- The packet object before its message is analyzed.
abbrev pub started : Capture → Packet
started c = record {
  sec = c.sec;
  usec = c.usec;
  caplen = c.caplen;
  len = c.len;
  datalink = some (
      ethernet (record {
        dst_mac = some (read_bytes 6 0 c.bytes);
        src_mac = some (read_bytes 6 6 c.bytes);
        frametype = 0x0806;
      }));
  header = none;
  payload = none;
  kind = arp new_arp;
}

analyze_datalink-arp :
    (c : Capture)
    → IsArpFrame c
    → analyze_datalink 0 dlt_en10mb (capture_memory c)
      ≡ some (
          ethernet (record {
            dst_mac = some (read_bytes 6 0 c.bytes);
            src_mac = some (read_bytes 6 6 c.bytes);
            frametype = 0x0806;
          }))
unfolding analyze_datalink
analyze_datalink-arp c v = ground (arith, v.type_high, v.type_low, v.caplen_range)

assemble-arp :
    (c : Capture) (tproto : ℕ) (extra : ℕ × ℕ)
    → IsArpFrame c
    → transport tproto ≡ no_proto
    → assemble en10mb 0x0806 tproto extra (started c) (capture_memory c)
      ≡ some (record (started c) {
        header = some (read_bytes 42 0 c.bytes);
        payload = some [];
        kind = arp (message c);
      })
unfolding assemble analyze_network analyze_transport set_arp_value split_frame cut_length
    offset_data network read_bytes
assemble-arp c tproto extra v e = ground (arith, e, analyze_arp_lem c v, v.caplen_range)

-- An ARP message for IPv4 over Ethernet becomes an ARP packet with all nine fields of the message
-- and no data, also when the frame is padded, and whatever the uninitialised `tproto` held, which
-- the code tests if the frame ends with the message.
pub get_packet-arp :
    (c : Capture) (stale : ℕ) (extra : ℕ × ℕ)
    → IsArpFrame c
    → get_packet dlt_en10mb stale extra c
      ≡ some (record (started c) {
        header = some (read_bytes 42 0 c.bytes);
        payload = some [];
        kind = arp (message c);
      })
unfolding get_packet link_type create network
get_packet-arp c stale extra v =
    let (tproto, classified, no_transport) = classify-arp c stale v in
    ground (
      arith,
      classified,
      no_transport,
      analyze_datalink-arp c v,
      assemble-arp c tproto extra v no_transport,
    )
