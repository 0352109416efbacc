-- ===== src/Stack/Captures.antt =====
-- What `getPacket` returns for Ethernet, as the layers take it.
use redes1grupal.GetPacket.Assemble.{
  transport, capture_memory, cut_length, get_packet, create, assemble, analyze_network,
  set_arp_value, split_frame, icmp_proto, udp_proto, tcp_proto, no_proto, Transport,
  analyze_transport, map_ip,
}
use redes1grupal.Stack.{is_ip_packet}
use redes1grupal.Packet.{ethernet, EthernetPacket, ArpPacket, Kind, IpPacket, Packet}
use redes1grupal.Base.{
  sym, ◌∙◌, none, htons, ◌==◌, if◌then◌else◌, ◌+◌, inr, inl, List, Option-cases, arith, true, some,
  ◌≡◌, ℕ, Option,
}
use redes1grupal.Memory.{load16, read_bytes, Mem}
use redes1grupal.Stack.Alive.{IsConsistent, IsOfType, IsMessage}
use redes1grupal.Arp.{analyze_arp}
use redes1grupal.GetPacket.Classify.{
  link_type, en10mb, offset_data, offset_type, unknown_proto, get_network_type, network_protocol,
  classify, LinkType, network,
}
use redes1grupal.Ip.{analyze_ip}
use redes1grupal.Datalink.{dlt_en10mb, analyze_datalink}
use redes1grupal.GetPacket.Shorts.{sub_short, move, to_short, greater}
use redes1grupal.Native.{Capture}

map_ip-is_ip_packet :
    (g : IpPacket → Option (IpPacket × ℕ)) (kind after : Kind) (n : ℕ)
    → map_ip g kind ≡ some (after, n)
    → is_ip_packet after ≡ true
unfolding map_ip is_ip_packet
map_ip-is_ip_packet g (Kind.ip p) after n e = ground (arith, e)
map_ip-is_ip_packet g (Kind.tcp p t) after n e = ground (arith, e)
map_ip-is_ip_packet g (Kind.udp p u) after n e = ground (arith, e)
map_ip-is_ip_packet g (Kind.icmp p i) after n e = ground (arith, e)
map_ip-is_ip_packet g (Kind.arp a) after n e = ground (arith, e)
map_ip-is_ip_packet g Kind.other after n e = ground (arith, e)

-- The transport layer leaves a message and the class of an IP packet as they are.
analyze_transport-keeps :
    (t : Transport) (d clen : ℕ) (extra : ℕ × ℕ) (kind after : Kind) (m : Mem) (n : ℕ)
    → analyze_transport t d clen extra kind m ≡ some (after, n)
    → (is_ip_packet kind ≡ true → is_ip_packet after ≡ true) × (IsMessage kind → IsMessage after)
unfolding analyze_transport is_ip_packet
analyze_transport-keeps no_proto d clen extra kind after m n e =
    let same : kind ≡ after = ground (arith, e) in (λ h. rw⁻¹ same h, λ h. rw⁻¹ same h)
analyze_transport-keeps tcp_proto d clen extra (Kind.tcp p t) after m n e =
    (λ h. ground (arith, e), λ (a, i, h, same, spa, sha). absurd (ground (arith, same)))
analyze_transport-keeps udp_proto d clen extra (Kind.udp p u) after m n e =
    (λ h. ground (arith, e), λ (a, i, h, same, spa, sha). absurd (ground (arith, same)))
analyze_transport-keeps icmp_proto d clen extra (Kind.icmp p i) after m n e =
    (λ h. ground (arith, e), λ (a, j, h, same, spa, sha). absurd (ground (arith, same)))
analyze_transport-keeps tcp_proto d clen extra Kind.other after m n e = absurd (ground (arith, e))
analyze_transport-keeps tcp_proto d clen extra (Kind.ip p) after m n e = absurd (ground (arith, e))
analyze_transport-keeps tcp_proto d clen extra (Kind.udp p u) after m n e =
    absurd (ground (arith, e))
analyze_transport-keeps tcp_proto d clen extra (Kind.icmp p i) after m n e =
    absurd (ground (arith, e))
analyze_transport-keeps tcp_proto d clen extra (Kind.arp a) after m n e = absurd (ground (arith, e))
analyze_transport-keeps udp_proto d clen extra Kind.other after m n e = absurd (ground (arith, e))
analyze_transport-keeps udp_proto d clen extra (Kind.ip p) after m n e = absurd (ground (arith, e))
analyze_transport-keeps udp_proto d clen extra (Kind.tcp p t) after m n e =
    absurd (ground (arith, e))
analyze_transport-keeps udp_proto d clen extra (Kind.icmp p i) after m n e =
    absurd (ground (arith, e))
analyze_transport-keeps udp_proto d clen extra (Kind.arp a) after m n e = absurd (ground (arith, e))
analyze_transport-keeps icmp_proto d clen extra Kind.other after m n e = absurd (ground (arith, e))
analyze_transport-keeps icmp_proto d clen extra (Kind.ip p) after m n e = absurd (ground (arith, e))
analyze_transport-keeps icmp_proto d clen extra (Kind.tcp p t) after m n e =
    absurd (ground (arith, e))
analyze_transport-keeps icmp_proto d clen extra (Kind.udp p u) after m n e =
    absurd (ground (arith, e))
analyze_transport-keeps icmp_proto d clen extra (Kind.arp a) after m n e =
    absurd (ground (arith, e))

analyze_arp-senders :
    (d : ℕ) (m : Mem) (a : ArpPacket) (n : ℕ)
    → analyze_arp d m ≡ some (a, n)
    → (ip : List ℕ) × (mac : List ℕ) × (a.sender_protoaddr ≡ some ip)
      × (a.sender_hardaddr ≡ some mac)
unfolding analyze_arp
analyze_arp-senders d m a n e = (
  read_bytes (m.byte (d + 5)) (d + 8 + m.byte (d + 4)) m.byte,
  read_bytes (m.byte (d + 4)) (d + 8) m.byte,
  ground (arith, e),
  ground (arith, e),
)

set_arp_value-IsMessage :
    (kind after : Kind) (d : ℕ) (m : Mem) (n : ℕ)
    → set_arp_value kind d m ≡ some (after, n)
    → IsMessage after
unfolding set_arp_value
set_arp_value-IsMessage (Kind.arp b) after d m n e = elim (Option-cases (analyze_arp d m)) [
  | inl f ↦ absurd (ground (arith, e, f))
  | inr ((a, k), f) ↦
      let (ip, mac, spa, sha) = analyze_arp-senders d m a k f in
      (a, ip, mac, ground (arith, e, f), spa, sha)
]
set_arp_value-IsMessage (Kind.ip p) after d m n e = absurd (ground (arith, e))
set_arp_value-IsMessage (Kind.tcp p t) after d m n e = absurd (ground (arith, e))
set_arp_value-IsMessage (Kind.udp p u) after d m n e = absurd (ground (arith, e))
set_arp_value-IsMessage (Kind.icmp p i) after d m n e = absurd (ground (arith, e))
set_arp_value-IsMessage Kind.other after d m n e = absurd (ground (arith, e))

-- The class after the network layer is that of the protocol.
analyze_network-IsOfType :
    (l : LinkType) (nproto caplen d : ℕ) (kind after : Kind) (m : Mem) (clen hlen : ℕ)
    → analyze_network (network nproto) l caplen d kind m ≡ some (after, clen, hlen)
    → IsOfType nproto after
unfolding analyze_network network
analyze_network-IsOfType l nproto caplen d kind after m clen hlen e = (
  λ is_arp. (elim (Option-cases (set_arp_value kind d m)) [
    | inl f ↦ absurd (ground (arith, e, f, is_arp))
    | inr ((got, n), f) ↦
        let same : after ≡ got = ground (arith, e, f, is_arp) in
        rw same (set_arp_value-IsMessage kind got d m n f)
  ]),
  λ is_ip. (elim (Option-cases (map_ip (λ p. analyze_ip d p m) kind)) [
    | inl f ↦ absurd (ground (arith, e, f, is_ip))
    | inr ((got, n), f) ↦
        let same : after ≡ got = ground (arith, e, f, is_ip) in
        rw same (map_ip-is_ip_packet (λ p. analyze_ip d p m) kind got n f)
  ]),
)

split_frame-keeps :
    (p q : Packet) (d clen : ℕ) (m : Mem)
    → split_frame p d clen m ≡ some q
    → (q.kind ≡ p.kind) × (q.datalink ≡ p.datalink)
unfolding split_frame
split_frame-keeps p q d clen m e = (ground (arith, e), ground (arith, e))

-- From the network layer on, the class and the datalink header are those that the protocol says.
assemble-IsOfType :
    (l : LinkType) (nproto tproto : ℕ) (extra : ℕ × ℕ) (packet q : Packet) (m : Mem)
    → assemble l nproto tproto extra packet m ≡ some q
    → IsOfType nproto q.kind × (q.datalink ≡ packet.datalink)
unfolding assemble
assemble-IsOfType l nproto tproto extra packet q m e =
    let d : ℕ = if nproto == unknown_proto then 0 else offset_data l in
    elim (Option-cases (analyze_network (network nproto) l packet.caplen d packet.kind m)) [
      | inl f ↦ absurd (ground (arith, e, f))
      | inr ((kind, clen, hlen), f) ↦
          let clen' : ℕ = sub_short (cut_length l nproto tproto packet.caplen clen) hlen in
          elim (Option-cases (move d hlen)) [
            | inl g ↦ absurd (ground (arith, e, f, g))
            | inr (d', g) ↦
                elim (Option-cases (analyze_transport (transport tproto) d' clen' extra kind m)) [
                  | inl h ↦ absurd (ground (arith, e, f, g, h))
                  | inr ((kind', n), h) ↦
                      let thlen : ℕ = if greater (to_short n) clen' then clen' else to_short n in
                      elim (Option-cases (move d' thlen)) [
                        | inl k ↦ absurd (ground (arith, e, f, g, h, k))
                        | inr (d'', k) ↦
                            let made : Packet = record packet { kind = kind' } in
                            let (class, link) =
                              split_frame-keeps made q d'' (sub_short clen' thlen) m
                                (ground (arith, e, f, g, h, k)) in
                            let (ip, arp) =
                              analyze_transport-keeps (transport tproto) d' clen' extra kind kind' m
                                n h in
                            let (is_arp, is_ip) =
                              analyze_network-IsOfType l nproto packet.caplen d packet.kind kind m
                                clen hlen f in
                            ((λ t. rw class (arp (is_arp t)), λ t. rw class (ip (is_ip t))), link)
                      ]
                ]
          ]
    ]

classify-en10mb :
    (stale caplen nproto tproto : ℕ) (m : Mem)
    → classify en10mb stale caplen m ≡ some (nproto, tproto)
    → nproto ≡ htons (load16 0 12 m.byte)
unfolding classify network_protocol get_network_type offset_type
classify-en10mb stale caplen nproto tproto m e = ground (arith, e)

analyze_datalink-type :
    (m : Mem) (h : EthernetPacket)
    → analyze_datalink 0 dlt_en10mb m ≡ some (ethernet h)
    → h.frametype ≡ htons (load16 0 12 m.byte)
unfolding analyze_datalink
analyze_datalink-type m h e = ground (arith, e)

-- What `getPacket` returns on Ethernet is consistent: a frame of the ARP type becomes an `ARPPacket`
-- with the addresses of its sender set, and a frame of the IPv4 type an `IPPacket`, also when the
-- frame is cut off, a fragment or of a transport protocol that is not known.
pub get_packet-IsConsistent :
    (stale : ℕ) (extra : ℕ × ℕ) (c : Capture) (q : Packet)
    → get_packet dlt_en10mb stale extra c ≡ some q
    → IsConsistent q
unfolding get_packet link_type
get_packet-IsConsistent stale extra c q e h link =
    let m : Mem = capture_memory c in
    elim (Option-cases (classify en10mb stale c.caplen m)) [
      | inl f ↦ absurd (ground (arith, e, f))
      | inr ((nproto, tproto), f) ↦ elim (Option-cases (analyze_datalink 0 dlt_en10mb m)) [
        | inl g ↦ absurd (ground (arith, e, f, g))
        | inr (dlpacket, g) ↦
            let packet : Packet = record {
              sec = c.sec;
              usec = c.usec;
              caplen = c.caplen;
              len = c.len;
              datalink = some dlpacket;
              header = none;
              payload = none;
              kind = create (transport tproto) (network nproto);
            } in
            let (typed, same) =
              assemble-IsOfType en10mb nproto tproto extra packet q m (ground (arith, e, f, g)) in
            let type : h.frametype ≡ nproto =
              analyze_datalink-type m h (ground (arith, link, same, g))
              ∙ sym (classify-en10mb stale c.caplen nproto tproto m f) in
            rw type typed
      ]
    ]
