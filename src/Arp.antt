-- ===== src/Arp.antt =====
-- `analyze_arp` and `set_arp` of jpcap-0.7/src/c/packet_arp.c.
-- The Ethernet ARP message: hardware type at offset 0, protocol type at 2, the address lengths at
-- 4 and 5, operation at 6, then the addresses, which `struct ether_arp` puts at 8, 14, 18 and 24.
pub mod Laws
use redes1grupal.Base.{
  ℕ, ◌+◌, ◌*◌, ◌/◌, ◌%◌, Option, none, some, List, htons, u8, u16, if◌then◌else◌, ◌>>=◌, ◌▷◌,
}
use redes1grupal.Memory.{
  Mem, Bytes, load16, store8, store16, write8, read_bytes, get_region, within, storing,
}
use redes1grupal.Packet.{ArpPacket}

abbrev pub arphdr_size : ℕ
arphdr_size = 8

abbrev pub ether_arp_size : ℕ
ether_arp_size = 28

-- The four addresses are read where the lengths in the message put them. Returns the packet and
-- the length of the message.
unfoldable pub analyze_arp : ℕ → Mem → Option (ArpPacket × ℕ)
analyze_arp pointer m =
    let f = m.byte in
    let hl = f (pointer + 4) in
    let pl = f (pointer + 5) in
    let size = arphdr_size + hl * 2 + pl * 2 in
    if within pointer arphdr_size m
    then if within pointer size m
      then some (
        record {
          hardtype = htons (load16 pointer 0 f);
          prototype = htons (load16 pointer 2 f);
          hlen = hl;
          plen = pl;
          operation = htons (load16 pointer 6 f);
          sender_hardaddr = some (read_bytes hl (pointer + arphdr_size) f);
          sender_protoaddr = some (read_bytes pl (pointer + arphdr_size + hl) f);
          target_hardaddr = some (read_bytes hl (pointer + arphdr_size + hl + pl) f);
          target_protoaddr = some (read_bytes pl (pointer + arphdr_size + hl + pl + hl) f);
        },
        size,
      )
      else none
    else none

unfoldable pub arp_header : ArpPacket → ℕ → Bytes → Bytes
arp_header p pointer f =
    f
    ▷ store16 pointer 0 (htons (u16 p.hardtype))
    ▷ store16 pointer 2 (htons (u16 p.prototype))
    ▷ store16 pointer 6 (htons (u16 p.operation))
    ▷ store8 pointer 4 p.hlen
    ▷ store8 pointer 5 p.plen

-- The addresses go to the fixed places of `struct ether_arp`, whatever the lengths say; how many
-- bytes are copied is read back from the buffer for each. Returns the number of bytes set.
unfoldable pub set_arp : ArpPacket → ℕ → Mem → Option (ℕ × Mem)
set_arp p pointer m = do
  m₁ ← storing pointer arphdr_size (arp_header p pointer) m
  m₂ ← get_region p.sender_hardaddr (m₁.byte (pointer + 4)) (pointer + 8) m₁
  m₃ ← get_region p.sender_protoaddr (m₂.byte (pointer + 5)) (pointer + 14) m₂
  m₄ ← get_region p.target_hardaddr (m₃.byte (pointer + 4)) (pointer + 18) m₃
  m₅ ← get_region p.target_protoaddr (m₄.byte (pointer + 5)) (pointer + 24) m₄
  some (ether_arp_size, m₅)
