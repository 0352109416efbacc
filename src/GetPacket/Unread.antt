-- ===== src/GetPacket/Unread.antt =====
-- Frames of which `get_packet` reads no transport header.
use redes1grupal.GetPacket.Classify.{
  unsupported, is_truncated, network, network_transport, link_type, network_protocol, classify,
}
use redes1grupal.GetPacket.Assemble.{
  capture_memory, cut_length, split_frame, analyze_transport, analyze_network, assemble, transport,
  create, get_packet,
}
use redes1grupal.Datalink.{analyze_datalink}
use redes1grupal.Base.{[], if◌then◌else◌, arith, some, ◌^◌, ◌<◌, ◌≡◌, ℕ}
use redes1grupal.Native.{Capture}
use redes1grupal.Memory.{read_bytes}
use redes1grupal.Packet.{other, unknown}
use redes1grupal.GetPacket.Shorts.{to_short, is_positive}

classify-unsupported :
    (linktype stale : ℕ) (c : Capture)
    → link_type linktype ≡ unsupported
    → classify (link_type linktype) stale c.caplen (capture_memory c)
      ≡ some (
        0xffff,
        (if is_positive (to_short c.caplen)
            then 0xffff
            else if is_truncated stale (to_short c.caplen)
            then 0xffff
            else stale),
      )
unfolding classify network_protocol network_transport network is_truncated
classify-unsupported linktype stale c e = ground (arith, e)

-- A frame of a link type that the code does not know, of fewer than 2 ^ 15 bytes and not empty,
-- becomes a packet of no protocol whose data is the whole frame, with an empty header.
pub get_packet-unsupported :
    (linktype stale : ℕ) (extra : ℕ × ℕ) (c : Capture)
    → link_type linktype ≡ unsupported
    → 0 < c.caplen
    → c.caplen < 2 ^ 15
    → get_packet linktype stale extra c
      ≡ some (record {
        sec = c.sec;
        usec = c.usec;
        caplen = c.caplen;
        len = c.len;
        datalink = some unknown;
        header = some [];
        payload = some (read_bytes c.caplen 0 c.bytes);
        kind = other;
      })
unfolding get_packet analyze_datalink link_type create transport network assemble analyze_network
    analyze_transport split_frame cut_length read_bytes
get_packet-unsupported linktype stale extra c e some_bytes small =
    ground (arith, e, classify-unsupported linktype stale c)
