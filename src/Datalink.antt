-- ===== src/Datalink.antt =====
-- `analyze_datalink` and `set_ether` of jpcap-0.7/src/c/packet_datalink.c, with the header of
-- Jpcap_ether.h: destination at offset 0, source at 6, type at 12.
pub mod Laws
use redes1grupal.Base.{
  ℕ, ◌+◌, ◌*◌, ◌/◌, ◌%◌, Option, none, some, Bool, true, false, List, htons, u16, ◌==◌,
  if◌then◌else◌, ◌>>=◌, ◌▷◌,
}
use redes1grupal.Memory.{
  Mem, Bytes, Exception, read_bytes, load16, store16, write8, get_region, within, storing,
}
use redes1grupal.Packet.{EthernetPacket, DatalinkPacket, ethernet, unknown, Packet}

-- The sizes and link types of the headers that the file includes.
abbrev pub ether_header_size : ℕ
ether_header_size = 14

abbrev pub dlt_en10mb : ℕ
dlt_en10mb = 1

-- A read of the header past the end of the capture is a fault.
unfoldable pub analyze_datalink : ℕ → ℕ → Mem → Option DatalinkPacket
analyze_datalink pointer linktype m =
    if linktype == dlt_en10mb
    then if within pointer ether_header_size m
      then some (
          ethernet (record {
            dst_mac = some (read_bytes 6 (pointer + 0) m.byte);
            src_mac = some (read_bytes 6 (pointer + 6) m.byte);
            frametype = htons (load16 pointer 12 m.byte);
          }))
      else none
    else some unknown

-- `ExceptionDescribe` prints the pending exception and clears it.
abbrev pub exception_describe : Mem → Mem
exception_describe m = record m { pending = none }

-- Returns the number of bytes that the header takes.
unfoldable pub set_ether : Option DatalinkPacket → ℕ → Mem → Option (ℕ × Mem)
set_ether (some (ethernet e)) pointer m = do
  m₁ ← get_region e.src_mac 6 (pointer + 6) m
  m₂ ← get_region e.dst_mac 6 (pointer + 0) m₁
  m₃ ← storing (pointer + 12) 2 (store16 pointer 12 (htons (u16 e.frametype))) m₂
  some (ether_header_size, exception_describe m₃)
set_ether (some unknown) pointer m = some (0, m)
set_ether none pointer m = some (0, m)
