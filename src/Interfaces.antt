-- ===== src/Interfaces.antt =====
-- `getAddressByteArray` and the address arrays of `getDeviceList` in jpcap-0.7/src/c/JpcapCaptor.c.
pub mod Devices
pub mod Listing
use redes1grupal.Base.{
  ℕ, zero, suc, ◌+◌, ◌-◌, ◌≤◌, ◌<◌, ◌≡◌, refl, arith, Option, none, some, List, [], ◌∷◌, length,
  ltb, if◌then◌else◌, Option-cases, inl, inr,
}
use redes1grupal.Memory.{Bytes, read_bytes}
use redes1grupal.Native.{update}

-- `struct sockaddr` by its family, with the bytes of `sin_addr` or `sin6_addr`.
pub data SockAddr : Type 0 where
  af_inet : Bytes → SockAddr
  af_inet6 : Bytes → SockAddr
  unspecified : SockAddr

-- A null pointer, and a family that is not known, give null.
unfoldable pub get_address_byte_array : Option SockAddr → Option (List ℕ)
get_address_byte_array none = none
get_address_byte_array (some (af_inet bytes)) = some (read_bytes 4 0 bytes)
get_address_byte_array (some (af_inet6 bytes)) = some (read_bytes 16 0 bytes)
get_address_byte_array (some unspecified) = none

-- `pcap_addr_t`
pub record PcapAddr : Type 0 where
  pub addr : Option SockAddr
  pub netmask : Option SockAddr
  pub broadaddr : Option SockAddr
  pub dstaddr : Option SockAddr

-- `NetworkInterfaceAddress`
pub record InterfaceAddress : Type 0 where
  pub address : List ℕ
  pub subnet : Option (List ℕ)
  pub broadcast : Option (List ℕ)
  pub destination : Option (List ℕ)

-- The number of addresses that have a byte array.
unfoldable pub count_addresses : List PcapAddr → ℕ
count_addresses [] = 0
count_addresses (a ∷ rest) = elim (get_address_byte_array a.addr) [
  | none ↦ count_addresses rest
  | some bytes ↦ suc (count_addresses rest)
]

abbrev pub new_address : PcapAddr → List ℕ → InterfaceAddress
new_address a bytes = record {
  address = bytes;
  subnet = get_address_byte_array a.netmask;
  broadcast = get_address_byte_array a.broadaddr;
  destination = get_address_byte_array a.dstaddr;
}

-- A Java array of objects, null where nothing was set.
abbrev pub Addresses : Type 0
Addresses = ℕ → Option InterfaceAddress

-- The second loop, with its index `j`. An element past the end would throw.
unfoldable pub set_addresses : ℕ → List PcapAddr → ℕ → Addresses → Option Addresses
set_addresses size [] j array = some array
set_addresses size (a ∷ rest) j array = elim (get_address_byte_array a.addr) [
  | none ↦ set_addresses size rest j array
  | some bytes ↦
      let filled = set_addresses size rest (suc j) (update array j (some (new_address a bytes))) in
      if ltb j size then filled else none
]

unfoldable pub address_array : List PcapAddr → Option Addresses
address_array addresses = set_addresses (count_addresses addresses) addresses 0 (λ j. none)

-- The addresses that Java is to see, in order.
unfoldable pub visible : List PcapAddr → List InterfaceAddress
visible [] = []
visible (a ∷ rest) = elim (get_address_byte_array a.addr) [
  | none ↦ visible rest
  | some bytes ↦ new_address a bytes ∷ visible rest
]

unfoldable pub nth : List InterfaceAddress → ℕ → Option InterfaceAddress
nth [] j = none
nth (x ∷ xs) zero = some x
nth (x ∷ xs) (suc j) = nth xs j

count_addresses-visible : (addrs : List PcapAddr) → count_addresses addrs ≡ length (visible addrs)
unfolding count_addresses visible
count_addresses-visible [] = refl
count_addresses-visible (a ∷ rest) = elim (Option-cases (get_address_byte_array a.addr)) [
  | inl e ↦ ground (arith, e, count_addresses-visible rest)
  | inr (bytes, e) ↦ ground (arith, e, count_addresses-visible rest)
]

sub_zero : (i : ℕ) → i - 0 ≡ i
sub_zero i = omega arith

nth-suc :
    (x : InterfaceAddress) (xs : List InterfaceAddress) (j i : ℕ)
    → j < i
    → nth (x ∷ xs) (i - j) ≡ nth xs (i - suc j)
unfolding nth
nth-suc x xs j i h = let step : i - j ≡ suc (i - suc j) = omega arith in rw step

nth-zero :
    (x : InterfaceAddress) (xs : List InterfaceAddress) (j i : ℕ)
    → j ≡ i
    → nth (x ∷ xs) (i - j) ≡ some x
unfolding nth
nth-zero x xs j i h = let step : i - j ≡ 0 = omega arith in rw step

set_addresses_lem :
    (size : ℕ) (addrs : List PcapAddr) (j : ℕ) (array : Addresses)
    → j + length (visible addrs) ≤ size
    → ((i : ℕ) → j ≤ i → array i ≡ none)
    → (filled : Addresses) × (set_addresses size addrs j array ≡ some filled)
      × ((i : ℕ) → filled i ≡ (if ltb i j then array i else nth (visible addrs) (i - j)))
unfolding set_addresses visible
set_addresses_lem size [] j array fits empty =
    (array, refl, λ i. unfold nth in ground (arith, empty i))
set_addresses_lem size (a ∷ rest) j array fits empty =
    elim (Option-cases (get_address_byte_array a.addr)) [
      | inl e ↦
          let (filled, done, read) =
            set_addresses_lem size rest j array (ground (arith, e)) empty in
          (filled, ground (arith, e, done), λ i. ground (arith, e, read i))
      | inr (bytes, e) ↦
          let x : InterfaceAddress = new_address a bytes in
          let (filled, done, read) =
            set_addresses_lem size rest (suc j) (update array j (some x)) (ground (arith, e))
              (λ i h. ground (arith, empty i)) in
          (
            filled,
            ground (arith, e, done),
            λ i.
                ground
                  (arith, e, read i, nth-suc x (visible rest) j i, nth-zero x (visible rest) j i),
          )
    ]

-- The array of the addresses of a device is created with one place for each address that has a byte
-- array, and the second loop fills it: no index is out of range, the addresses stand in the order in
-- which libpcap lists them, and none of the places is left null.
pub address_array-visible :
    (addrs : List PcapAddr)
    → (filled : Addresses) × (address_array addrs ≡ some filled)
      × (count_addresses addrs ≡ length (visible addrs))
      × ((i : ℕ) → filled i ≡ nth (visible addrs) i)
unfolding address_array
address_array-visible addrs =
    let (filled, done, read) =
      set_addresses_lem (count_addresses addrs) addrs 0 (λ j. none)
        (omega (arith, count_addresses-visible addrs)) (λ i h. refl) in
    (filled, done, count_addresses-visible addrs, λ i. ground (arith, read i, sub_zero i))
