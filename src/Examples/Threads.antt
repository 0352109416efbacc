-- ===== src/Examples/Threads.antt =====
-- A host at 10.0.0.1 that asks for 10.0.0.2, gets a reply, and is shut down.
use redes1grupal.Base.{inl, ◌++◌, none}
use redes1grupal.Logical.Filter.{mac_addresses_filter_iff}
use redes1grupal.SelfPacket.{wrapped, SelfPacket}
use redes1grupal.Packet.{Kind, ethernet, Packet, EthernetPacket, ArpPacket}
use redes1grupal.ArpTable.{arp_request, new_packet, to_hex, same_text, new_packet, byte_to_str, get}
use redes1grupal.Base.{◌⊎◌, refl, ◌≢◌, arith, ◌↔◌, true, [], length, some, ◌∷◌, ◌≡◌, ℕ, All, List}
use redes1grupal.Logical.{broadcast, mac_addresses_filter}
use redes1grupal.Stack.{
  choosing, start_request, request_ip, step, exits, arp_protocol, physical_layer, logical_layer,
  network_layer, answers, asks, Event, run, started, Stack,
}
use redes1grupal.Stack.Alive.{IsConsistent, IsAlive}
use redes1grupal.Stack.Downward.{request_header, request_packet, IsRequest}
use redes1grupal.Examples.{stack, dst_mac, src_ip, dst_ip, who_has, src_mac}
use redes1grupal.Stack.Running.{run-IsAlive}
use redes1grupal.Stack.Requests.{run-IsRequest}
use redes1grupal.Stack.Table.{run-HasEntry}
use redes1grupal.Stack.Asking.{run-resolves, reply_turns, request_turns, IsQuiet, IsReply}
use redes1grupal.Stack.Shutdown.{run-IsStopped, ordered_turns, IsStopped}
use redes1grupal.Sender.{build_frame}
use redes1grupal.GetPacket.Assemble.{get_packet}
use redes1grupal.Datalink.{dlt_en10mb}
use redes1grupal.Sender.Captured.{capture_of}
use redes1grupal.Memory.{write_bytes, read_bytes}
use redes1grupal.Stack.OnWire.{run-IsReadBack}

-- The frame of a reply from 10.0.0.2, as it was received.
abbrev reply_message : ArpPacket
reply_message = record who_has {
  operation = 2;
  sender_hardaddr = some dst_mac;
  sender_protoaddr = some dst_ip;
  target_hardaddr = some src_mac;
  target_protoaddr = some src_ip;
}

abbrev reply_header : EthernetPacket
reply_header = record { dst_mac = some src_mac; src_mac = some dst_mac; frametype = 0x0806 }

abbrev reply : Packet
reply = record (new_packet reply_message) { datalink = some (ethernet reply_header) }

abbrev session : List Event
session =
    asks
    ∷ answers dst_ip
    ∷ network_layer
    ∷ logical_layer
    ∷ physical_layer (some reply)
    ∷ logical_layer
    ∷ network_layer
    ∷ arp_protocol
    ∷ asks
    ∷ exits
    ∷ []

reply-IsConsistent : IsConsistent reply
reply-IsConsistent e link = (
  λ is_arp. (reply_message, dst_ip, dst_mac, refl, refl, refl),
  λ is_ip. absurd (ground (arith, link, is_ip)),
)

abbrev IsAddress : List ℕ → Type 0
IsAddress address = length address ≡ 4

run-IsRequest_example :
    All (IsRequest src_mac src_ip IsAddress) (run src_mac src_ip session started).sent
run-IsRequest_example =
    run-IsRequest src_mac src_ip IsAddress session
      (tt, (refl, (tt, (tt, (tt, (tt, (tt, (tt, (tt, (tt, tt))))))))))

run-IsAlive_example : IsAlive (run src_mac src_ip session started)
run-IsAlive_example =
    run-IsAlive src_mac src_ip session started
      (tt, (tt, (tt, (tt, (reply-IsConsistent, (tt, (tt, (tt, (tt, (tt, tt))))))))))
      (record {
        at_logical = tt;
        at_network = tt;
        at_arp = tt;
        at_ip = tt;
        arp_alive = λ e. ground (arith, e);
        ip_alive = λ e. ground (arith, e);
        lock_typing = λ e. ground (arith, e);
      })

abbrev known : Stack
known = record started { directions = (byte_to_str dst_ip, byte_to_str dst_mac) ∷ [] }

known_entry : get (byte_to_str dst_ip) known.directions ≡ some (byte_to_str dst_mac)
unfolding get same_text byte_to_str to_hex
known_entry = refl

run-HasEntry_example :
    get (byte_to_str dst_ip) (run src_mac src_ip session known).directions
    ≡ some (byte_to_str dst_mac)
run-HasEntry_example =
    run-HasEntry (byte_to_str dst_ip) (byte_to_str dst_mac) src_mac src_ip session known known_entry

abbrev heard : SelfPacket
heard = record (wrapped reply reply_header) { scanned_type = true }

mac_addresses_filter_iff_example :
    (mac_addresses_filter src_mac heard ≡ some true)
    ↔ ((dst_mac ≢ src_mac) × ((src_mac ≡ src_mac) ⊎ (src_mac ≡ broadcast)))
mac_addresses_filter_iff_example =
    mac_addresses_filter_iff src_mac dst_mac src_mac heard refl refl refl refl refl

started-IsQuiet : IsQuiet started
started-IsQuiet = record {
  at_physical = refl;
  at_logical = refl;
  at_network = refl;
  at_arp = refl;
  in_menu = refl;
  lock_free = refl;
}

unknown_address : get (byte_to_str dst_ip) started.directions ≡ none
unfolding get
unknown_address = refl

reply-IsReply : IsReply reply src_mac dst_ip dst_mac
reply-IsReply = record {
  header = reply_header;
  src = dst_mac;
  dst = src_mac;
  link = refl;
  type = refl;
  src_set = refl;
  dst_set = refl;
  src_size = refl;
  dst_size = refl;
  from_other = λ e. ground (arith, e);
  to_us = inl refl;
  message = reply_message;
  class = refl;
  operation = refl;
  protoaddr = refl;
  hardaddr = refl;
}

run-resolves_example :
    (t : Stack) × (run src_mac src_ip (request_turns dst_ip ++ reply_turns reply) started ≡ t)
    × (get (byte_to_str dst_ip) t.directions ≡ some (byte_to_str dst_mac))
    × (t.sent ≡ request_packet src_mac src_ip dst_ip ∷ [])
    × (run src_mac src_ip (request_turns dst_ip) t ≡ t)
run-resolves_example =
    run-resolves src_mac src_ip started reply dst_ip dst_mac refl started-IsQuiet reply-IsReply
      unknown_address

run-IsReadBack_example :
    (q : Packet) × (frame : List ℕ) × (run src_mac src_ip (request_turns dst_ip) started
      ≡ record started { sent = q ∷ [] })
    × (build_frame stack q ≡ some (frame, none))
    × (get_packet dlt_en10mb 17 (0, 0) (capture_of 1 2 stack frame)
        ≡ some (record {
          sec = 1;
          usec = 2;
          caplen = length frame;
          len = length frame;
          datalink = some (ethernet (request_header src_mac));
          header = some (read_bytes 42 0 (write_bytes 0 frame stack));
          payload = some [];
          kind = Kind.arp (arp_request src_mac src_ip dst_ip);
        }))
run-IsReadBack_example =
    run-IsReadBack src_mac src_ip dst_ip started stack 1 2 17 (0, 0) stack refl refl refl
      started-IsQuiet unknown_address

-- The user is in the menu again after an address was typed.
abbrev asked : List Event
asked = asks ∷ answers dst_ip ∷ []

asked-in_menu : (run src_mac src_ip asked started).menu ≡ choosing
unfolding run step request_ip start_request get
asked-in_menu = refl

run-IsStopped_example : IsStopped (
    run src_mac src_ip
      (asked
        ++ (exits
            ∷ ordered_turns (some reply) (network_layer ∷ []) [] [] [] (logical_layer ∷ []) []))
      started)
run-IsStopped_example =
    run-IsStopped src_mac src_ip asked (some reply) (network_layer ∷ []) [] [] []
      (logical_layer ∷ []) [] asked-in_menu
