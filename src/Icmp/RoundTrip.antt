-- ===== src/Icmp/RoundTrip.antt =====
-- `analyze_icmp` of the echo message that `set_icmp` wrote.
use redes1grupal.Packet.{IcmpPacket}
use redes1grupal.Icmp.{
  set_icmp_value, set_icmp_id, set_icmp, shift_short, echo, analyze_icmp_body, icmp_type,
  analyze_icmp,
}
use redes1grupal.Base.{
  u16, some, ◌≤◌, ◌^◌, length, All, arith, ltb, ◌*◌, ◌⊎◌, if◌then◌else◌, u8, ◌+◌, htons, ◌<◌, List,
  ◌≡◌, ◌%◌, ℕ,
}
use redes1grupal.Memory.{write8, write_bytes, Bytes, Mem, Bytes}
use redes1grupal.Memory.Laws.{store16-IsBytes, write_bytes-IsBytes, IsBytes}
use redes1grupal.Icmp.Laws.{set_icmp_echo, echo_fields, echo_header, echo_bytes}

-- The low byte of a 16-bit value, as a signed one.
abbrev pub low_signed : ℕ → ℕ
low_signed v = v % 256 + (if ltb (v % 256) 128 then 0 else 0xff00)

shift_short-wire :
    (low high v : ℕ)
    → v < 65536
    → low < 256
    → high < 256
    → htons (low + high * 256) ≡ v
    → shift_short (low + high * 256) ≡ low_signed v
shift_short-wire low high v h hl hh e = ground arith

echo_types : (t : ℕ) → icmp_type t ≡ echo → (t ≡ 0) ⊎ (t ≡ 8)
unfolding icmp_type
echo_types t e = ground arith

echo_bytes-IsBytes :
    (p : IcmpPacket) (pointer : ℕ) (xs : List ℕ) (f : Bytes)
    → IsBytes f
    → All (λ x. x < 256) xs
    → IsBytes (echo_bytes p pointer xs f)
echo_bytes-IsBytes p pointer xs f b bs =
    let filled : IsBytes (write_bytes (pointer + 8) xs (echo_header p pointer f)) =
      write_bytes-IsBytes (pointer + 8) xs (echo_header p pointer f) bs
        (unfold write8 in λ j. ground (arith, b j)) in
    store16-IsBytes pointer 2 _ _ (store16-IsBytes pointer 2 0 _ filled)

-- Of an echo message that `set_icmp` laid out with an even number of data bytes, `analyze_icmp` reads
-- type and code back, but of the identifier and of the sequence number only the low byte, as a signed
-- one: it shifts the fields where their bytes should be swapped.
pub analyze_icmp-set_icmp :
    (p base : IcmpPacket) (pointer clen : ℕ) (extra : ℕ × ℕ) (xs : List ℕ) (m : Mem)
    → icmp_type (u8 p.type) ≡ echo
    → length xs % 2 ≡ 0
    → length xs < 2 ^ 14
    → pointer + 8 + length xs ≤ m.size
    → IsBytes m.byte
    → All (λ x. x < 256) xs
    → (m' : Mem) × (r : IcmpPacket) × (set_icmp p pointer (some xs) m ≡ some (8, m'))
      × (analyze_icmp pointer clen extra base m' ≡ some r)
      × (r.type ≡ u8 p.type)
      × (r.code ≡ u8 p.code)
      × (r.id ≡ low_signed (u16 p.id))
      × (r.seq ≡ low_signed (u16 p.seq))
unfolding analyze_icmp analyze_icmp_body
analyze_icmp-set_icmp p base pointer clen extra xs m type even small fits b bs =
    let f : Bytes = echo_bytes p pointer xs m.byte in
    let m' : Mem = record m { byte = f } in
    let h = echo_fields p pointer xs m.byte in
    let low = echo_bytes-IsBytes p pointer xs m.byte b bs in
    let t = echo_types (u8 p.type) type in
    let q = set_icmp_id pointer f (set_icmp_value pointer f extra base) in
    let id =
      shift_short-wire (f (pointer + 4)) (f (pointer + (4 + 1))) (u16 p.id) (omega arith)
        (low (pointer + 4)) (low (pointer + (4 + 1))) h.2 in
    let seq =
      shift_short-wire (f (pointer + 6)) (f (pointer + (6 + 1))) (u16 p.seq) (omega arith)
        (low (pointer + 6)) (low (pointer + (6 + 1))) h.3 in
    (
      m',
      q,
      set_icmp_echo p pointer xs m type even fits,
      ground (arith, h.0, type),
      ground (arith, h.0, t),
      ground (arith, h.1, t),
      ground (arith, h.0, t, id),
      ground (arith, h.0, t, seq),
    )
