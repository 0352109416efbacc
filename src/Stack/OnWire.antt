-- ===== src/Stack/OnWire.antt =====
-- The request that the threads hand to `sendPackage`, laid out by `nativeSendPacket` and captured by
-- another host.
use redes1grupal.Base.{refl, some, [], ◌∷◌, ◌++◌, none, ◌≡◌, length, ℕ, List}
use redes1grupal.Stack.{run, Stack}
use redes1grupal.Memory.{write_bytes, read_bytes, Bytes}
use redes1grupal.Stack.Asking.{run-sends, request_turns, IsQuiet}
use redes1grupal.ArpTable.{arp_request, byte_to_str, get}
use redes1grupal.Packet.{ArpPacket, Kind, ethernet, Packet}
use redes1grupal.Sender.{build_frame}
use redes1grupal.GetPacket.Assemble.{get_packet}
use redes1grupal.Datalink.{dlt_en10mb}
use redes1grupal.Sender.Captured.{capture_of}
use redes1grupal.Stack.Downward.{request_packet, request_header}
use redes1grupal.Sender.ArpRoundTrip.{get_packet-build_frame_arp}
use redes1grupal.Logical.{broadcast}
use redes1grupal.SelfPacket.{no_mac}

-- Where our addresses are of six and of four bytes, an address of four bytes that is not in the table
-- is asked for with one packet, in a state in which nothing is on its way. `nativeSendPacket` lays
-- this packet out as a frame, and `get_packet` reads of a capture of the frame, whatever stands behind
-- it, the request of our two addresses for this one, in an Ethernet header from us to all hosts.
pub run-IsReadBack :
    (src_mac own_ip address : List ℕ) (s : Stack) (stack : Bytes) (sec usec stale : ℕ)
    (extra : ℕ × ℕ) (behind : Bytes)
    → length src_mac ≡ 6
    → length own_ip ≡ 4
    → length address ≡ 4
    → IsQuiet s
    → get (byte_to_str address) s.directions ≡ none
    → (q : Packet) × (frame : List ℕ) × (run src_mac own_ip (request_turns address) s
        ≡ record s { sent = s.sent ++ (q ∷ []) })
      × (build_frame stack q ≡ some (frame, none))
      × (get_packet dlt_en10mb stale extra (capture_of sec usec behind frame)
          ≡ some (record {
            sec = sec;
            usec = usec;
            caplen = length frame;
            len = length frame;
            datalink = some (ethernet (request_header src_mac));
            header = some (read_bytes 42 0 (write_bytes 0 frame behind));
            payload = some [];
            kind = Kind.arp (arp_request src_mac own_ip address);
          }))
unfolding arp_request
run-IsReadBack src_mac own_ip address s stack sec usec stale extra behind mac_size own_size size q
      unknown =
    let request : Packet = request_packet src_mac own_ip address in
    let a : ArpPacket = arp_request src_mac own_ip address in
    let (frame, built, got) =
      get_packet-build_frame_arp stack request (request_header src_mac) a none src_mac broadcast
        src_mac own_ip no_mac address sec usec stale extra behind
        (record {
          datalink_set = refl;
          kind_set = refl;
          payload_set = refl;
          ether = record { src_set = refl; dst_set = refl; src_size = mac_size; dst_size = refl };
        })
        refl
        (record {
          hlen_set = refl;
          plen_set = refl;
          sha_set = (refl, mac_size);
          spa_set = (refl, own_size);
          tha_set = (refl, refl);
          tpa_set = (refl, size);
        })
        refl in
    (request, frame, run-sends src_mac own_ip address s q unknown, built, got)
