-- ===== src/SetPacket/Ipv4.antt =====
-- The IPv4 header that `set_packet` leaves, as `analyze_ip` reads it.
use redes1grupal.Base.{
  ℕ, ◌+◌, ◌*◌, ◌/◌, ◌%◌, ◌^◌, ◌≤◌, ◌<◌, ◌≡◌, ◌⊎◌, inl, inr, ◌∙◌, refl, arith, some, List, Bool,
  true, false, htons, u16, flag, has_bits, ltb, length, ◌▷◌, sign_extend16, mask_bit2, mask_bit3,
  mask_bit4, mask_bit13, mask_bit14, mask_bit15,
}
use redes1grupal.Memory.{Mem, Bytes, load16, store8, store16, read_bytes}
use redes1grupal.Packet.{IpPacket}
use redes1grupal.Ip.{analyze_ip, set_ipv4_value, tos_field, fragment_field}

-- `ip_p` and `ip_len`.
abbrev pub protocol_bytes : ℕ → ℕ → ℕ → Bytes → Bytes
protocol_bytes q protocol length f = f ▷ store8 q 9 protocol ▷ store16 q 2 (u16 length)

-- Values that fit the fields of the header.
pub record IsInRange (p : IpPacket) : Type 0 where
  pub priority_range : p.priority < 8
  pub rsv_tos_range : p.rsv_tos < 4
  pub offset_range : p.offset < 2 ^ 13
  pub hop_limit_range : p.hop_limit < 256

flag_bit : (b : Bool) (k : ℕ) → 0 < k → ltb 0 (flag b k) ≡ b
flag_bit true k h = ground arith
flag_bit false k h = ground arith

pub flag_cases : (b : Bool) (k : ℕ) → (flag b k ≡ 0) ⊎ (flag b k ≡ k)
flag_cases true k = inr refl
flag_cases false k = inl refl

pub tos_digits :
    (p : IpPacket)
    → IsInRange p
    → let t = tos_field p in
      (t < 256)
      × (t / 32 ≡ p.priority)
      × (t % 4 ≡ p.rsv_tos)
      × (t / 16 % 2 * 16 ≡ flag p.d_flag 16)
      × (t / 8 % 2 * 8 ≡ flag p.t_flag 8)
      × (t / 4 % 2 * 4 ≡ flag p.r_flag 4)
unfolding tos_field
tos_digits p r = omega (
  arith,
  r.priority_range,
  r.rsv_tos_range,
  flag_cases p.d_flag 16,
  flag_cases p.t_flag 8,
  flag_cases p.r_flag 4,
)

tos_flags :
    (p : IpPacket)
    → IsInRange p
    → let t = tos_field p in
      (has_bits t 0x10 ≡ p.d_flag) × (has_bits t 0x08 ≡ p.t_flag) × (has_bits t 0x04 ≡ p.r_flag)
tos_flags p r =
    let d = tos_digits p r in
    let t : ℕ = tos_field p in
    (
      rw (mask_bit4 t d.0 ∙ d.3) (flag_bit p.d_flag 16 (omega arith)),
      rw (mask_bit3 t d.0 ∙ d.4) (flag_bit p.t_flag 8 (omega arith)),
      rw (mask_bit2 t d.0 ∙ d.5) (flag_bit p.r_flag 4 (omega arith)),
    )

-- The field of the flags and of the offset, after its byte order was changed once more: the low
-- byte is the high byte of the offset, and the rest is below the flags.
fragment_digits :
    (p : IpPacket)
    → IsInRange p
    → let x = fragment_field p in
      let w = x / 256 % 256 + x % 256 * 256 in
      (w < 8192) × (htons w % 2 ^ 13 ≡ htons p.offset % 2 ^ 13)
unfolding fragment_field
fragment_digits p r = omega (
  arith,
  r.offset_range,
  flag_cases p.rsv_frag 0x8000,
  flag_cases p.dont_frag 0x4000,
  flag_cases p.more_frag 0x2000,
)

no_flags :
    (w : ℕ)
    → w < 8192
    → (has_bits w 0x8000 ≡ false) × (has_bits w 0x4000 ≡ false) × (has_bits w 0x2000 ≡ false)
no_flags w h = ground (arith, mask_bit13 w, mask_bit14 w, mask_bit15 w)

-- What `analyze_ip` is to make of the header of `p`, in a packet that was `base`: the flags of the
-- fragment field are lost, and the offset is swapped.
unfoldable pub wire_ip : IpPacket → IpPacket → ℕ → ℕ → List ℕ → List ℕ → IpPacket
wire_ip base p protocol size src dst = record base {
  version = 4;
  priority = p.priority;
  d_flag = p.d_flag;
  t_flag = p.t_flag;
  r_flag = p.r_flag;
  rsv_tos = p.rsv_tos;
  total_length = size;
  rsv_frag = false;
  dont_frag = false;
  more_frag = false;
  offset = htons p.offset % 2 ^ 13;
  hop_limit = p.hop_limit;
  protocol = protocol;
  ident = sign_extend16 (u16 p.ident);
  src_ip = some src;
  dst_ip = some dst;
}

-- The bytes of the header of `p` at `q`, as they go out.
pub record HoldsIp (w : Bytes) (p : IpPacket) (q protocol size : ℕ) (src dst : List ℕ)
    : Type 0 where
  pub version_byte : w (q + 0) ≡ 0x45
  pub tos_byte : w (q + 1) ≡ tos_field p
  pub length_word : htons (load16 q 2 w) ≡ size
  pub ident_word : htons (load16 q 4 w) ≡ u16 p.ident
  pub fragment_low : w (q + 6) ≡ fragment_field p / 256 % 256
  pub fragment_high : w (q + 7) ≡ fragment_field p % 256
  pub hop_byte : w (q + 8) ≡ p.hop_limit
  pub protocol_byte : w (q + 9) ≡ protocol
  pub src_bytes : read_bytes 4 (q + 12) w ≡ src
  pub dst_bytes : read_bytes 4 (q + 16) w ≡ dst

module _ (w : Bytes) (p : IpPacket) (q protocol size : ℕ) (src dst : List ℕ) where
  fragment_values :
      HoldsIp w p q protocol size src dst
      → IsInRange p
      → (has_bits (load16 q 6 w) 0x8000 ≡ false)
        × (has_bits (load16 q 6 w) 0x4000 ≡ false)
        × (has_bits (load16 q 6 w) 0x2000 ≡ false)
        × (htons (load16 q 6 w) % 2 ^ 13 ≡ htons p.offset % 2 ^ 13)
  fragment_values h r =
      let d = fragment_digits p r in
      let none_set = no_flags _ d.0 in
      rw (h.fragment_low, h.fragment_high) (none_set.0, none_set.1, none_set.2, d.1)

  pub values :
      (base : IpPacket)
      → HoldsIp w p q protocol size src dst
      → IsInRange p
      → set_ipv4_value q w base ≡ wire_ip base p protocol size src dst
  unfolding set_ipv4_value wire_ip
  values base h r = ground (
    arith,
    fragment_values h r,
    tos_flags p r,
    tos_digits p r,
    h.tos_byte,
    h.length_word,
    h.ident_word,
    h.hop_byte,
    h.protocol_byte,
    h.src_bytes,
    h.dst_bytes,
  )

  pub analyze_HoldsIp :
      (base : IpPacket) (m : Mem)
      → HoldsIp w p q protocol size src dst
      → IsInRange p
      → q + 20 ≤ m.size
      → analyze_ip q base (record m { byte = w }) ≡ some (wire_ip base p protocol size src dst, 20)
  unfolding analyze_ip
  analyze_HoldsIp base m h r fits = ground (arith, h.version_byte, values base h r)

-- An offset of zero leaves nothing of the fragment field but its flags.
pub no_offset :
    (p : IpPacket)
    → p.offset ≡ 0
    → (fragment_field p / 256 % 256 % 32 ≡ 0) × (fragment_field p % 256 ≡ 0)
unfolding fragment_field
no_offset p e = omega (
  arith,
  e,
  flag_cases p.rsv_frag 0x8000,
  flag_cases p.dont_frag 0x4000,
  flag_cases p.more_frag 0x2000,
)
