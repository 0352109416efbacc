-- ===== src/Datalink/Laws.antt =====
-- `analyze_datalink` after `set_ether`.
use redes1grupal.Base.{
  ◌%◌, ◌/◌, ℕ, ◌+◌, ◌≤◌, ◌<◌, ◌≡◌, inl, inr, ◌∙◌, refl, arith, none, some, List, htons, u16, length,
  take, take-length, htons_wire, All,
}
use redes1grupal.Memory.{write8, Mem, Bytes, load16, store16, read_bytes, write_bytes}
use redes1grupal.Memory.Laws.{
  write8_at, write8_ne, write_bytes_ne, get_region_lem, read_bytes-written, IsBytes,
  store16-IsBytes, write_bytes-IsBytes,
}
use redes1grupal.Packet.{EthernetPacket, ethernet}
use redes1grupal.Datalink.{set_ether, analyze_datalink, dlt_en10mb}

-- Both addresses of an Ethernet header are six bytes.
pub record IsEthernet (e : EthernetPacket) (src dst : List ℕ) : Type 0 where
  pub src_set : e.src_mac ≡ some src
  pub dst_set : e.dst_mac ≡ some dst
  pub src_size : length src ≡ 6
  pub dst_size : length dst ≡ 6

abbrev pub ether_bytes : EthernetPacket → ℕ → List ℕ → List ℕ → Bytes → Bytes
ether_bytes e pointer src dst f =
    store16 pointer 12 (htons (u16 e.frametype))
      (write_bytes (pointer + 0) dst (write_bytes (pointer + 6) src f))

take_all : (n : ℕ) (xs : List ℕ) → length xs ≡ n → take n xs ≡ xs
take_all n xs e = rw e at (take-length xs)

pub set_ether_lem :
    (e : EthernetPacket) (pointer : ℕ) (src dst : List ℕ) (m : Mem)
    → IsEthernet e src dst
    → pointer + 14 ≤ m.size
    → set_ether (some (ethernet e)) pointer m
      ≡ some (14, record m { byte = ether_bytes e pointer src dst m.byte; pending = none })
unfolding set_ether
set_ether_lem e pointer src dst m v h =
    let m₁ : Mem = record m { byte = write_bytes (pointer + 6) src m.byte } in
    ground (
      arith,
      v.src_set,
      v.dst_set,
      v.src_size,
      v.dst_size,
      take_all 6 src,
      take_all 6 dst,
      get_region_lem src 6 (pointer + 6) m,
      get_region_lem dst 6 (pointer + 0) m₁,
    )

pub ether_bytes_ne :
    (e : EthernetPacket) (pointer : ℕ) (src dst : List ℕ) (f : Bytes) (j : ℕ)
    → length src ≡ 6
    → length dst ≡ 6
    → pointer + 14 ≤ j
    → ether_bytes e pointer src dst f j ≡ f j
ether_bytes_ne e pointer src dst f j s d h =
    write8_ne (pointer + (12 + 1)) j _ _ (inr (omega arith))
    ∙ write8_ne (pointer + 12) j _ _ (inr (omega arith))
    ∙ write_bytes_ne (pointer + 0) dst _ j (inr (omega arith))
    ∙ write_bytes_ne (pointer + 6) src f j (inr (omega arith))

pub ether_bytes-IsBytes :
    (e : EthernetPacket) (pointer : ℕ) (src dst : List ℕ) (f : Bytes)
    → All (λ x. x < 256) src
    → All (λ x. x < 256) dst
    → IsBytes f
    → IsBytes (ether_bytes e pointer src dst f)
ether_bytes-IsBytes e pointer src dst f hs hd b =
    store16-IsBytes pointer 12 _ _
      (write_bytes-IsBytes (pointer + 0) dst _ hd (write_bytes-IsBytes (pointer + 6) src f hs b))

module _ (e : EthernetPacket) (pointer : ℕ) (src dst : List ℕ) (f : Bytes)
    (v : IsEthernet e src dst) where
  before_type :
      (j : ℕ)
      → j < pointer + 12
      → ether_bytes e pointer src dst f j
        ≡ write_bytes (pointer + 0) dst (write_bytes (pointer + 6) src f) j
  before_type j h =
      write8_ne (pointer + (12 + 1)) j _ _ (inl (omega arith))
      ∙ write8_ne (pointer + 12) j _ _ (inl (omega arith))

  pub dst_read : read_bytes 6 (pointer + 0) (ether_bytes e pointer src dst f) ≡ dst
  dst_read =
      read_bytes-written (pointer + 0) 6 dst _ (write_bytes (pointer + 6) src f) v.dst_size
        (λ j lo hi. before_type j (omega arith))

  pub src_read : read_bytes 6 (pointer + 6) (ether_bytes e pointer src dst f) ≡ src
  src_read = read_bytes-written (pointer + 6) 6 src _ f v.src_size (λ j lo hi.
      before_type j (omega arith)
      ∙ write_bytes_ne (pointer + 0) dst _ j (inr (omega (arith, v.dst_size))))

  type_read : htons (load16 pointer 12 (ether_bytes e pointer src dst f)) ≡ u16 e.frametype
  type_read = simp write8_at (htons_wire _ (omega arith))

pub ether_type :
    (e : EthernetPacket) (esrc edst : List ℕ) (f : Bytes)
    → (ether_bytes e 0 esrc edst f 12 ≡ u16 e.frametype / 256)
      × (ether_bytes e 0 esrc edst f 13 ≡ u16 e.frametype % 256)
unfolding write8
ether_type e esrc edst f = ground arith

-- In a buffer with room for the header, and with addresses of six bytes, `analyze_datalink` reads
-- the Ethernet header back that `set_ether` wrote, its type cut to 16 bits, and no byte behind the
-- header is touched; an exception that was pending is cleared.
pub analyze_datalink-set_ether :
    (e : EthernetPacket) (pointer : ℕ) (src dst : List ℕ) (m : Mem)
    → IsEthernet e src dst
    → pointer + 14 ≤ m.size
    → (m' : Mem) × (set_ether (some (ethernet e)) pointer m ≡ some (14, m'))
      × (analyze_datalink pointer dlt_en10mb m'
          ≡ some (
              ethernet
                (record { dst_mac = some dst; src_mac = some src; frametype = u16 e.frametype })))
      × ((j : ℕ) → pointer + 14 ≤ j → m'.byte j ≡ m.byte j)
      × (m'.pending ≡ none)
analyze_datalink-set_ether e pointer src dst m v h = (
  record m { byte = ether_bytes e pointer src dst m.byte; pending = none },
  set_ether_lem e pointer src dst m v h,
  unfold analyze_datalink in
      ground (
        arith,
        dst_read e pointer src dst m.byte v,
        src_read e pointer src dst m.byte v,
        type_read e pointer src dst m.byte v,
      ),
  λ j lo. ether_bytes_ne e pointer src dst m.byte j v.src_size v.dst_size lo,
  refl,
)
