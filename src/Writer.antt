-- ===== src/Writer.antt =====
-- The native methods of `JpcapWriter` in jpcap-0.7/src/c/JpcapWriter.c.
pub mod Laws
use redes1grupal.Base.{
  ℕ, ◌+◌, ◌*◌, ◌/◌, ◌%◌, ◌^◌, Bool, true, false, Option, none, some, List, length, ltb, ◌==◌,
  if◌then◌else◌, ◌>>=◌,
}
use redes1grupal.Memory.{Mem, Bytes, get_region, read_bytes, within}
use redes1grupal.Packet.{Packet}
use redes1grupal.JpcapSub.{max_number_of_instance, max_packet_size}
use redes1grupal.Native.{Pcap, Native, Message, not_instantiated, pcap_message, update}
use redes1grupal.Sender.{stack_buffer}
use Prim.Native.String.{String}

-- The record header, `sec`, `usec`, `caplen` and `len`, and the bytes: `header` and then `data`.
unfoldable pub dump_record : Bytes → Packet → Option (Mem × ℕ)
dump_record stack p = elim p.header [
  | none ↦ none
  | some hs ↦ elim p.payload [
    | none ↦ none
    | some bs ↦
        get_region (some hs) (length hs) 0 (stack_buffer stack)
        >>= get_region (some bs) (length bs) (length hs)
        >>= λ m. some (m, length hs + length bs)
  ]
]

module _ (pcap : Pcap) where
  unfoldable pub native_open_dump_file :
      String → ℕ → Native pcap → Option (Option Message × Native pcap)
  native_open_dump_file filename id n =
      if ltb id max_number_of_instance
      then elim (n.pcds id) [
        | none ↦ some (some not_instantiated, n)
        | some h ↦
            let (ok, w) = pcap.dump_open h filename n.world in
            let n' = record n { pcdd = some h; pdt = ok; world = w } in
            if n.live h then some ((if ok then none else some pcap_message), n') else none
      ]
      else none

  -- `free(pcdd)` frees the capture handle of the instance, which stays in `pcds`.
  unfoldable pub free_handle : Option ℕ → Native pcap → Option (Native pcap)
  free_handle none n = some n
  free_handle (some h) n =
      if n.live h then some (record n { live = update n.live h false }) else none

  unfoldable pub close_writer : Native pcap → Option (Native pcap)
  close_writer n =
      if n.pdt
      then (free_handle n.pcdd (record n { world = pcap.dump_close n.world }) >>= λ n₁.
          some (record n₁ { pcdd = none; pdt = false }))
      else some (record n { pdt = false })

  -- `pcap_dump` writes `caplen` bytes from the buffer; with no file open it faults.
  unfoldable pub write_packet : Bytes → Packet → Native pcap → Option (Native pcap)
  write_packet stack p n = do
    (m, used) ← dump_record stack p
    let frame = read_bytes p.caplen 0 m.byte
    let w = pcap.dump (p.sec, p.usec, p.caplen, p.len) frame n.world
    if n.pdt then (if within 0 p.caplen m then some (record n { world = w }) else none) else none
