-- ===== src/Sender/Captured.antt =====
-- A capture of an IPv4 packet that `set_packet` laid out behind an Ethernet header.
use redes1grupal.Native.{Capture}
use redes1grupal.Packet.{new_ip, IpPacket, EthernetPacket}
use redes1grupal.Base.{
  refl, ◌/◌, ◌/◌, ◌/◌, ◌/◌, ◌/◌, ◌/◌, ◌/◌, ◌/◌, ◌/◌, ◌/◌, ◌/◌, ◌/◌, ◌/◌, ◌-◌, ◌/◌, ◌^◌, ◌/◌, ◌+◌,
  ◌/◌, ◌∙◌, arith, ap, ◌/◌, ◌/◌, length, ◌%◌, ◌/◌, ◌<◌, u16, ◌≤◌, ◌≡◌, ℕ, List,
}
use redes1grupal.Memory.{write_bytes, read_bytes, Bytes}
use redes1grupal.Datalink.Laws.{src_read, dst_read, ether_type, ether_bytes, IsEthernet}
use redes1grupal.Sender.Layout.{frame_bytes}
use Prim.Native.Nat.{max}
use redes1grupal.SetPacket.Ipv4.{values, wire_ip, no_offset, IsInRange, HoldsIp}
use redes1grupal.Memory.Laws.{read_bytes-written, length-read_bytes, IsBytes, read_bytes_ext}
use redes1grupal.GetPacket.Ethernet.{IsIpv4Frame, data_size}
use redes1grupal.Ip.{set_ipv4_value}
use redes1grupal.Sender.Padding.{padded-copy, padded}
use redes1grupal.Ip.Laws.{set_ipv4_value-ext}

-- A capture agrees with what was laid out, behind a header of the type IPv4.
pub record IsCopy (c : Capture) (e : EthernetPacket) (esrc edst : List ℕ) (stack wire : Bytes)
    (n : ℕ) : Type 0 where
  pub caplen_is : c.caplen ≡ max 60 n
  pub copied : (j : ℕ) → j < n → c.bytes j ≡ wire j
  pub in_front : (j : ℕ) → j < 14 → wire j ≡ ether_bytes e 0 esrc edst stack j

pub IsCopy-of_frame :
    (c : Capture) (e : EthernetPacket) (esrc edst frame : List ℕ) (stack wire : Bytes) (n : ℕ)
    → frame ≡ frame_bytes n wire
    → c.caplen ≡ length frame
    → read_bytes (length frame) 0 c.bytes ≡ frame
    → ((j : ℕ) → j < 14 → wire j ≡ ether_bytes e 0 esrc edst stack j)
    → IsCopy c e esrc edst stack wire n
IsCopy-of_frame c e esrc edst frame stack wire n same caplen copied in_front =
    let size : ℕ = max 60 n in
    let long : length frame ≡ size = ap length same ∙ length-read_bytes size 0 (padded n wire) in
    record {
      caplen_is = caplen ∙ long;
      copied = padded-copy n wire c.bytes (rw long at copied ∙ same);
      in_front = in_front;
    }

-- A capture of the whole frame, with anything behind it in memory.
abbrev pub capture_of : ℕ → ℕ → Bytes → List ℕ → Capture
capture_of sec usec behind frame = record {
  sec = sec;
  usec = usec;
  caplen = length frame;
  len = length frame;
  bytes = write_bytes 0 frame behind;
}

pub capture_of_whole :
    (behind : Bytes) (frame : List ℕ)
    → read_bytes (length frame) 0 (write_bytes 0 frame behind) ≡ frame
capture_of_whole behind frame =
    read_bytes-written 0 (length frame) frame (write_bytes 0 frame behind) behind refl
      (λ j lo hi. refl)

pub IsCopy-capture_of :
    (sec usec : ℕ) (behind : Bytes) (e : EthernetPacket) (esrc edst : List ℕ) (stack wire : Bytes)
    (n : ℕ)
    → ((j : ℕ) → j < 14 → wire j ≡ ether_bytes e 0 esrc edst stack j)
    → IsCopy (capture_of sec usec behind (frame_bytes n wire)) e esrc edst stack wire n
IsCopy-capture_of sec usec behind e esrc edst stack wire n in_front =
    let frame : List ℕ = frame_bytes n wire in
    IsCopy-of_frame (capture_of sec usec behind frame) e esrc edst frame stack wire n refl refl
      (capture_of_whole behind frame) in_front

module _ (c : Capture) (e : EthernetPacket) (esrc edst : List ℕ) (stack wire : Bytes) (n : ℕ)
    (copy : IsCopy c e esrc edst stack wire n) (long : 14 ≤ n) (v : IsEthernet e esrc edst) where
  in_ether : (j : ℕ) → j < 14 → c.bytes j ≡ ether_bytes e 0 esrc edst stack j
  in_ether j h = copy.copied j (omega arith) ∙ copy.in_front j h

  -- The addresses and the type of the Ethernet header.
  pub macs : (read_bytes 6 0 c.bytes ≡ edst) × (read_bytes 6 6 c.bytes ≡ esrc)
  macs = (
    read_bytes_ext 6 0 c.bytes _ (λ j lo hi. in_ether j (omega arith))
        ∙ dst_read e 0 esrc edst stack v,
    read_bytes_ext 6 6 c.bytes _ (λ j lo hi. in_ether j (omega arith))
        ∙ src_read e 0 esrc edst stack v,
  )

  pub type_bytes : (c.bytes 12 ≡ u16 e.frametype / 256) × (c.bytes 13 ≡ u16 e.frametype % 256)
  type_bytes =
      ground
        (arith, in_ether 12 (omega arith), in_ether 13 (omega arith), ether_type e esrc edst stack)

module _ (c : Capture) (e : EthernetPacket) (esrc edst : List ℕ) (stack wire : Bytes) (n : ℕ)
    (copy : IsCopy c e esrc edst stack wire n) (v : IsEthernet e esrc edst) (p : IpPacket)
    (protocol size : ℕ) (src dst : List ℕ) (held : HoldsIp wire p 14 protocol size src dst)
    (r : IsInRange p) (bytes : IsBytes wire) (inside : size + 14 ≡ n) where
  -- It is read as an unfragmented IPv4 packet.
  pub captured-IsIpv4Frame :
      (least : ℕ)
      → e.frametype ≡ 0x0800
      → p.offset ≡ 0
      → 20 ≤ least
      → least ≤ size
      → size < 2 ^ 14
      → IsIpv4Frame c protocol size least
  captured-IsIpv4Frame least type whole head fits small =
      let t = type_bytes c e esrc edst stack wire n copy (omega arith) v in
      record {
        type_high = omega (arith, t, type);
        type_low = omega (arith, t, type);
        version_byte = omega (arith, copy.copied 14 (omega arith), held.version_byte);
        size_high =
            omega (arith, copy.copied 16 (omega arith), held.length_word, bytes 16, bytes 17);
        size_low =
            omega (arith, copy.copied 17 (omega arith), held.length_word, bytes 16, bytes 17);
        offset_high =
            omega (arith, copy.copied 20 (omega arith), held.fragment_low, no_offset p whole);
        offset_low =
            omega (arith, copy.copied 21 (omega arith), held.fragment_high, no_offset p whole);
        protocol_byte = ground (arith, copy.copied 23 (omega arith), held.protocol_byte);
        size_range = omega arith;
        caplen_range = omega (arith, copy.caplen_is);
      }

  pub captured_values :
      20 ≤ size → set_ipv4_value 14 c.bytes new_ip ≡ wire_ip new_ip p protocol size src dst
  captured_values long =
      set_ipv4_value-ext new_ip 14 c.bytes wire (λ j lo hi. copy.copied j (omega arith))
      ∙ values wire p 14 protocol size src dst new_ip held r

  -- The data behind headers of `headers` bytes is what follows of the packet.
  pub data_size-captured :
      (headers : ℕ) → headers ≤ size → data_size c size headers ≡ size - headers
  data_size-captured headers h = ground (arith, copy.caplen_is)
