-- ===== src/Arp/Laws.antt =====
-- `analyze_arp` after `set_arp`.
use redes1grupal.Base.{
  ℕ, ◌+◌, ◌≤◌, ◌<◌, ◌≡◌, ◌∙◌, inl, refl, arith, some, List, htons, u16, length, take, take-length,
  htons_wire,
}
use redes1grupal.Memory.{write8, Mem, Bytes, load16, read_bytes, write_bytes}
use redes1grupal.Memory.Laws.{write8_at, write_bytes_ne, get_region_lem, read_bytes-written}
use redes1grupal.Packet.{ArpPacket}
use redes1grupal.Arp.{set_arp, arp_header, analyze_arp}

-- A message for IPv4 over Ethernet, with its four addresses.
pub record IsArp (p : ArpPacket) (sha spa tha tpa : List ℕ) : Type 0 where
  pub hlen_set : p.hlen ≡ 6
  pub plen_set : p.plen ≡ 4
  pub sha_set : (p.sender_hardaddr ≡ some sha) × (length sha ≡ 6)
  pub spa_set : (p.sender_protoaddr ≡ some spa) × (length spa ≡ 4)
  pub tha_set : (p.target_hardaddr ≡ some tha) × (length tha ≡ 6)
  pub tpa_set : (p.target_protoaddr ≡ some tpa) × (length tpa ≡ 4)

take_all : (n : ℕ) (xs : List ℕ) → length xs ≡ n → take n xs ≡ xs
take_all n xs e = rw e at (take-length xs)

arp_header_fields :
    (p : ArpPacket) (pointer : ℕ) (f : Bytes)
    → p.hlen ≡ 6
    → p.plen ≡ 4
    → let g = arp_header p pointer f in
      (htons (load16 pointer 0 g) ≡ u16 p.hardtype)
      × (htons (load16 pointer 2 g) ≡ u16 p.prototype)
      × (htons (load16 pointer 6 g) ≡ u16 p.operation)
      × (g (pointer + 4) ≡ 6)
      × (g (pointer + 5) ≡ 4)
unfolding arp_header
arp_header_fields p pointer f eh ep = simp write8_at (
  htons_wire _ (omega arith),
  htons_wire _ (omega arith),
  htons_wire _ (omega arith),
  omega (arith, eh),
  omega (arith, ep),
)

module _ (p : ArpPacket) (pointer : ℕ) (sha spa tha tpa : List ℕ) (f : Bytes)
    (v : IsArp p sha spa tha tpa) where
  abbrev g₁ : Bytes
  g₁ = write_bytes (pointer + 8) sha (arp_header p pointer f)

  abbrev g₂ : Bytes
  g₂ = write_bytes (pointer + 14) spa g₁

  abbrev g₃ : Bytes
  g₃ = write_bytes (pointer + 18) tha g₂

  abbrev pub arp_bytes : Bytes
  arp_bytes = write_bytes (pointer + 24) tpa g₃

  -- What stands in front of the addresses.
  in_front : (j : ℕ) → j < pointer + 8 → arp_bytes j ≡ arp_header p pointer f j
  in_front j h =
      write_bytes_ne (pointer + 24) tpa g₃ j (inl (omega arith))
      ∙ write_bytes_ne (pointer + 18) tha g₂ j (inl (omega arith))
      ∙ write_bytes_ne (pointer + 14) spa g₁ j (inl (omega arith))
      ∙ write_bytes_ne (pointer + 8) sha _ j (inl (omega arith))

  pub arp_bytes_before : (j : ℕ) → j < pointer → arp_bytes j ≡ f j
  unfolding arp_header write8
  arp_bytes_before j h = ground (arith, in_front j)

  pub arp_bytes_lengths : (arp_bytes (pointer + 4) ≡ 6) × (arp_bytes (pointer + 5) ≡ 4)
  arp_bytes_lengths = ground (
    arith,
    arp_header_fields p pointer f v.hlen_set v.plen_set,
    in_front (pointer + 4),
    in_front (pointer + 5),
  )

  lengths_in : (g₁ (pointer + 5) ≡ 4) × (g₂ (pointer + 4) ≡ 6) × (g₃ (pointer + 5) ≡ 4)
  lengths_in = ground (
    arith,
    arp_header_fields p pointer f v.hlen_set v.plen_set,
    write_bytes_ne (pointer + 8) sha (arp_header p pointer f) (pointer + 4),
    write_bytes_ne (pointer + 8) sha (arp_header p pointer f) (pointer + 5),
    write_bytes_ne (pointer + 14) spa g₁ (pointer + 4),
    write_bytes_ne (pointer + 14) spa g₁ (pointer + 5),
    write_bytes_ne (pointer + 18) tha g₂ (pointer + 5),
  )

  sha_read : read_bytes 6 (pointer + 8) arp_bytes ≡ sha
  sha_read = read_bytes-written (pointer + 8) 6 sha arp_bytes _ v.sha_set.1 (λ j lo hi.
      write_bytes_ne (pointer + 24) tpa g₃ j (inl (omega arith))
      ∙ write_bytes_ne (pointer + 18) tha g₂ j (inl (omega arith))
      ∙ write_bytes_ne (pointer + 14) spa g₁ j (inl (omega arith)))

  spa_read : read_bytes 4 (pointer + 14) arp_bytes ≡ spa
  spa_read = read_bytes-written (pointer + 14) 4 spa arp_bytes _ v.spa_set.1 (λ j lo hi.
      write_bytes_ne (pointer + 24) tpa g₃ j (inl (omega arith))
      ∙ write_bytes_ne (pointer + 18) tha g₂ j (inl (omega arith)))

  tha_read : read_bytes 6 (pointer + 18) arp_bytes ≡ tha
  tha_read =
      read_bytes-written (pointer + 18) 6 tha arp_bytes _ v.tha_set.1
        (λ j lo hi. write_bytes_ne (pointer + 24) tpa g₃ j (inl (omega arith)))

  tpa_read : read_bytes 4 (pointer + 24) arp_bytes ≡ tpa
  tpa_read = read_bytes-written (pointer + 24) 4 tpa arp_bytes _ v.tpa_set.1 (λ j lo hi. refl)

  pub set_arp_eq :
      (m : Mem)
      → m.byte ≡ f
      → pointer + 28 ≤ m.size
      → set_arp p pointer m ≡ some (28, record m { byte = arp_bytes })
  unfolding set_arp
  set_arp_eq m same fits =
      let m₁ : Mem = record m { byte = arp_header p pointer f } in
      ground (
        arith,
        same,
        v.sha_set,
        v.spa_set,
        v.tha_set,
        v.tpa_set,
        lengths_in,
        arp_header_fields p pointer f v.hlen_set v.plen_set,
        take_all 6 sha,
        take_all 4 spa,
        take_all 6 tha,
        take_all 4 tpa,
        get_region_lem sha 6 (pointer + 8) m₁,
        get_region_lem spa 4 (pointer + 14) (record m { byte = g₁ }),
        get_region_lem tha 6 (pointer + 18) (record m { byte = g₂ }),
        get_region_lem tpa 4 (pointer + 24) (record m { byte = g₃ }),
      )

  pub analyze_arp_bytes :
      (m : Mem)
      → pointer + 28 ≤ m.size
      → analyze_arp pointer (record m { byte = arp_bytes })
        ≡ some (
          record p {
            hardtype = u16 p.hardtype;
            prototype = u16 p.prototype;
            operation = u16 p.operation;
          },
          28,
        )
  unfolding analyze_arp
  analyze_arp_bytes m fits = ground (
    arith,
    v.hlen_set,
    v.plen_set,
    v.sha_set,
    v.spa_set,
    v.tha_set,
    v.tpa_set,
    sha_read,
    spa_read,
    tha_read,
    tpa_read,
    arp_header_fields p pointer f v.hlen_set v.plen_set,
    in_front (pointer + 0),
    in_front (pointer + 1),
    in_front (pointer + 2),
    in_front (pointer + 3),
    in_front (pointer + 4),
    in_front (pointer + 5),
    in_front (pointer + 6),
    in_front (pointer + 7),
  )

-- An ARP message for IPv4 over Ethernet, with its four addresses set, takes 28 bytes of a buffer with
-- room for it, and `analyze_arp` reads the whole packet
-- back that `set_arp` wrote, the three integers cut to 16 bits.
pub analyze_arp-set_arp :
    (p : ArpPacket) (pointer : ℕ) (sha spa tha tpa : List ℕ) (m : Mem)
    → IsArp p sha spa tha tpa
    → pointer + 28 ≤ m.size
    → (m' : Mem) × (set_arp p pointer m ≡ some (28, m'))
      × (analyze_arp pointer m'
          ≡ some (
            record p {
              hardtype = u16 p.hardtype;
              prototype = u16 p.prototype;
              operation = u16 p.operation;
            },
            28,
          ))
analyze_arp-set_arp p pointer sha spa tha tpa m v fits = (
  record m { byte = arp_bytes p pointer sha spa tha tpa m.byte v },
  set_arp_eq p pointer sha spa tha tpa m.byte v m refl fits,
  analyze_arp_bytes p pointer sha spa tha tpa m.byte v m fits,
)
