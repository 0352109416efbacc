-- ===== src/Writer/Laws.antt =====
-- What `JpcapWriter` writes, and what its `close` does to the capture handle.
use redes1grupal.Base.{
  ℕ, ◌+◌, ◌≤◌, ◌<◌, ◌≡◌, refl, arith, true, false, none, some, List, length, take-length, inl,
}
use redes1grupal.Memory.{Mem, Bytes, get_region, read_bytes, write_bytes}
use redes1grupal.Memory.Laws.{
  write_bytes_ne, read_bytes-written, read_bytes-write_bytes, get_region_lem,
}
use redes1grupal.Packet.{Packet}
use redes1grupal.JpcapSub.{max_number_of_instance}
use redes1grupal.Native.{Pcap, Native, update, close_handle}
use redes1grupal.Captor.{native_close}
use redes1grupal.Sender.{stack_buffer}
use redes1grupal.Writer.{dump_record, native_open_dump_file, free_handle, close_writer}
use Prim.Native.String.{String}

-- A packet that was captured has both arrays. If they fit the stack buffer together, the buffer
-- holds the header and right behind it the data, and their sizes add up.
pub dump_record_lem :
    (stack : Bytes) (p : Packet) (hs bs : List ℕ)
    → p.header ≡ some hs
    → p.payload ≡ some bs
    → length hs + length bs ≤ 1600
    → (m : Mem) × (dump_record stack p ≡ some (m, length hs + length bs))
      × (read_bytes (length hs) 0 m.byte ≡ hs)
      × (read_bytes (length bs) (length hs) m.byte ≡ bs)
unfolding dump_record
dump_record_lem stack p hs bs eh eb fits =
    let headed : Bytes = write_bytes 0 hs stack in
    let m₀ : Mem = stack_buffer stack in
    (
      record m₀ { byte = write_bytes (length hs) bs headed },
      ground (
        arith,
        eh,
        eb,
        get_region_lem hs (length hs) 0 m₀,
        get_region_lem bs (length bs) (length hs) (record m₀ { byte = headed }),
        take-length hs,
        take-length bs,
      ),
      read_bytes-written 0 (length hs) hs _ stack refl
          (λ j lo hi. write_bytes_ne (length hs) bs headed j (inl (omega arith))),
      read_bytes-write_bytes (length hs) bs headed,
    )

-- Of a packet whose two arrays together are larger than 1600 bytes, the copy runs over the end of
-- the stack buffer: no size is checked.
pub dump_record_overflow :
    (stack : Bytes) (p : Packet) (hs bs : List ℕ)
    → p.header ≡ some hs
    → p.payload ≡ some bs
    → 1600 < length hs + length bs
    → dump_record stack p ≡ none
unfolding dump_record get_region
dump_record_overflow stack p hs bs eh eb large = ground (arith, eh, eb, take-length hs)

module _ (pcap : Pcap) where
  -- A dump file that is opened for an instance and closed again frees the capture handle, which the
  -- instance keeps: closing the captor then frees it a second time, a fault.
  pub native_close-close_writer :
      (filename : String) (id h : ℕ) (n : Native pcap)
      → id < max_number_of_instance
      → n.pcds id ≡ some h
      → n.live h ≡ true
      → (pcap.dump_open h filename n.world).0 ≡ true
      → (n₁ n₂ : Native pcap) × (native_open_dump_file pcap filename id n ≡ some (none, n₁))
        × (close_writer pcap n₁ ≡ some n₂)
        × (n₂.pcds id ≡ some h)
        × (native_close pcap id n₂ ≡ none)
  unfolding native_open_dump_file close_writer free_handle native_close close_handle
  native_close-close_writer filename id h n small held alive ok =
      let w = (pcap.dump_open h filename n.world).1 in
      let n₁ : Native pcap = record n { pcdd = some h; pdt = true; world = w } in
      let n₂ : Native pcap = record n₁ {
        live = update n.live h false;
        world = pcap.dump_close w;
        pcdd = none;
        pdt = false;
      } in
      (n₁, n₂, ground (arith, held, alive, ok), ground (arith, alive), held, ground (arith, held))
