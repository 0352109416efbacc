-- ===== src/Ipv6/Laws.antt =====
-- The walk over the extension headers of IPv6.
use redes1grupal.Base.{
  u16, [], ◌∷◌, ◌*◌, ◌++◌, length, List, ℕ, zero, suc, ◌+◌, ◌/◌, ◌≤◌, ◌<◌, ◌≡◌, ◌≢◌, ◌⊎◌, inl, inr,
  refl, arith, some, Option-cases, All,
}
use redes1grupal.Memory.{Mem, Bytes, read_bytes}
use redes1grupal.Packet.{routing, IpPacket, Ipv6Option, Ipv6OptionBody}
use redes1grupal.Ipv6.{
  inet_address, Walk, finished, fault, exhausted, Extension, options, routing_header,
  fragment_header, auth_header, transport, extension, extension_header, extension_loop,
  routing_addresses, analyze_ipv6, add_option, set_ipv6_value,
}

routing_addresses-le : (n p d : ℕ) (f : Bytes) → d ≤ (routing_addresses n p d f).1
unfolding routing_addresses
routing_addresses-le zero p d f = omega arith
routing_addresses-le (suc n) p d f = omega (arith, routing_addresses-le n p (d + 16) f)

-- A header that is read lies in the buffer, and the next one is at least eight bytes on.
extension_header-le :
    (kind : Extension) (d : ℕ) (m : Mem) (body : Ipv6OptionBody) (d' step : ℕ)
    → extension_header kind d m ≡ some (body, d', step)
    → (d + 4 ≤ m.size) × (d + 8 ≤ d')
unfolding extension_header
extension_header-le options d m body d' step e = ground arith
extension_header-le routing_header d m body d' step e =
    ground (arith, routing_addresses-le (m.byte (d + 1) / 2) (d + 8) d m.byte)
extension_header-le fragment_header d m body d' step e = ground arith
extension_header-le auth_header d m body d' step e = ground arith
extension_header-le transport d m body d' step e = ground arith

extension_loop-ends :
    (fuel proto d hlen : ℕ) (p : IpPacket) (m : Mem)
    → 0 < fuel
    → m.size < d + fuel
    → extension_loop fuel proto d hlen p m ≢ exhausted
unfolding extension_loop
extension_loop-ends zero proto d hlen p m h enough = absurd (omega arith)
extension_loop-ends (suc fuel) proto d hlen p m h enough =
    elim (Option-cases (extension_header (extension proto) d m)) [
      | inl e ↦ ground (arith, e)
      | inr ((body, d', step), e) ↦
          let o : Ipv6Option = record {
            type = proto;
            next_header = m.byte d;
            hlen = m.byte (d + 1);
            body = body;
          } in
          ground (
            arith,
            e,
            extension_header-le (extension proto) d m body d' step e,
            extension_loop-ends fuel (m.byte d) d' (hlen + step) (add_option o p) m,
          )
    ]

Walk-cases {ℓ} :
    {A : Type ℓ} (w : Walk A) → w ≢ exhausted → ((a : A) × (w ≡ finished a)) ⊎ (w ≡ fault)
Walk-cases (finished a) h = inl (a, refl)
Walk-cases fault h = inr refl
Walk-cases exhausted h = absurd (h refl)

-- The walk over the extension headers ends on every capture, with the packet or with a read past
-- the end: each round that goes on has read its header within the capture and moved on by at least
-- eight bytes, so the fuel never runs out.
pub analyze_ipv6-ends :
    (pointer : ℕ) (p : IpPacket) (m : Mem)
    → ((r : IpPacket × ℕ) × (analyze_ipv6 pointer p m ≡ finished r))
      ⊎ (analyze_ipv6 pointer p m ≡ fault)
unfolding analyze_ipv6
analyze_ipv6-ends pointer p m = Walk-cases (analyze_ipv6 pointer p m) (
    ground (
      arith,
      extension_loop-ends (suc m.size) (m.byte (pointer + 6)) (pointer + 40) 40
          (set_ipv6_value pointer m.byte p) m,
    ))

routing_addresses_lem :
    (n p d : ℕ) (f : Bytes)
    → let walked = routing_addresses n p d f in
      (length walked.0 ≡ n)
      × All (λ address. address ≡ inet_address (read_bytes 16 p f)) walked.0
      × (walked.1 ≡ d + 16 * n)
unfolding routing_addresses
routing_addresses_lem zero p d f = (refl, tt, omega arith)
routing_addresses_lem (suc n) p d f =
    let (size, same, moved) = routing_addresses_lem n p (d + 16) f in
    (omega (arith, size), (refl, same), omega (arith, moved))

extension_loop-transport :
    (fuel proto d hlen : ℕ) (p : IpPacket) (m : Mem)
    → 0 < fuel
    → extension proto ≡ transport
    → extension_loop fuel proto d hlen p m ≡ finished (p, hlen)
unfolding extension_loop
extension_loop-transport zero proto d hlen p m h e = absurd (omega (arith, h))
extension_loop-transport (suc fuel) proto d hlen p m h e = ground (arith, e)

routing_header_lem :
    (d : ℕ) (m : Mem)
    → 0 < m.byte (d + 1) / 2
    → d + 24 ≤ m.size
    → let walked = routing_addresses (m.byte (d + 1) / 2) (d + 8) d m.byte in
      let step = (m.byte (d + 1) + 1) * 8 in
      extension_header routing_header d m
      ≡ some (routing (m.byte (d + 2)) (m.byte (d + 3)) walked.0, walked.1 + step, step)
unfolding extension_header
routing_header_lem d m some_addresses fits = ground (arith, some_addresses)

-- Of an IPv6 packet whose first extension is a routing header of at least one address, captured with
-- its first address, and with no extension behind it, `analyze_ipv6` records as many addresses as the
-- header has, which are all the first one: the loop over the addresses does not move the pointer that
-- it reads from.
pub analyze_ipv6-routing :
    (pointer : ℕ) (p : IpPacket) (m : Mem)
    → let d = pointer + 40 in
      m.byte (pointer + 6) ≡ 43
      → 0 < m.byte (d + 1) / 2
      → extension (m.byte d) ≡ transport
      → d + 24 ≤ m.size
      → (r : IpPacket) × (hlen : ℕ) × (o : Ipv6Option) × (addrs : List (List ℕ)) × (analyze_ipv6
            pointer p m
          ≡ finished (r, hlen))
        × (r.options ≡ p.options ++ (o ∷ []))
        × (o.body ≡ routing (m.byte (d + 2)) (m.byte (d + 3)) addrs)
        × (length addrs ≡ m.byte (d + 1) / 2)
        × All (λ address. address ≡ inet_address (read_bytes 16 (d + 8) m.byte)) addrs
unfolding analyze_ipv6 extension_loop set_ipv6_value
analyze_ipv6-routing pointer p m next some_addresses last fits =
    let d : ℕ = pointer + 40 in
    let walked = routing_addresses (m.byte (d + 1) / 2) (d + 8) d m.byte in
    let (many, same, moved) = routing_addresses_lem (m.byte (d + 1) / 2) (d + 8) d m.byte in
    let o : Ipv6Option = record {
      type = 43;
      next_header = m.byte d;
      hlen = m.byte (d + 1);
      body = routing (m.byte (d + 2)) (m.byte (d + 3)) walked.0;
    } in
    let step : ℕ = (m.byte (d + 1) + 1) * 8 in
    let r : IpPacket = add_option o (set_ipv6_value pointer m.byte p) in
    let kind : extension 43 ≡ routing_header = unfold extension in refl in
    (
      r,
      u16 (40 + step),
      o,
      walked.0,
      ground (
        arith,
        next,
        kind,
        routing_header_lem d m some_addresses fits,
        extension_loop-transport m.size (m.byte d) (walked.1 + step) (40 + step) r m,
        last,
      ),
      refl,
      refl,
      many,
      same,
    )
