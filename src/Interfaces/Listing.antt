-- ===== src/Interfaces/Listing.antt =====
-- What `getDeviceList` of jpcap-0.7/src/c/JpcapCaptor.c lists.
use redes1grupal.Base.{
  refl, ◌≤◌, inr, ◌+◌, inl, Option-cases, ltb, zero, if◌then◌else◌, [], arith, suc, ◌⊎◌, ◌-◌, ◌∷◌,
  none, some, ◌≡◌, Bool, ◌<◌, List, Option, ℕ,
}
use std.Path.{fun_ext}
use Prim.Native.String.{String}
use redes1grupal.Interfaces.{visible, nth, Addresses, address_array-visible}
use redes1grupal.Native.{update}
use redes1grupal.Interfaces.Devices.{
  PcapIf, DeviceApi, NetworkInterface, Interfaces, DeviceList, devices, cannot_open_socket,
  count_devices, set_devices, device_of, get_device_list, free_devices,
}

-- What an object says of its device: name, description, whether it is a loop-back device, and its
-- addresses.
abbrev pub Description : Type 0
Description = String × Option String × Bool × Addresses

abbrev pub describe : Option NetworkInterface → Option Description
describe none = none
describe (some d) = some (d.name, d.description, d.loopback, d.addresses)

-- The descriptions of the devices, by their places in the array.
unfoldable pub nth_device : List PcapIf → ℕ → Option Description
nth_device [] i = none
nth_device (d ∷ rest) zero =
    some (d.name, d.description, d.is_loopback, λ k. nth (visible d.addresses) k)
nth_device (d ∷ rest) (suc i) = nth_device rest i

nth_device-suc :
    (d : PcapIf) (rest : List PcapIf) (j i : ℕ)
    → j < i
    → nth_device (d ∷ rest) (i - j) ≡ nth_device rest (i - suc j)
unfolding nth_device
nth_device-suc d rest j i h = let step : i - j ≡ suc (i - suc j) = omega arith in rw step

nth_device-zero :
    (d : PcapIf) (rest : List PcapIf) (j i : ℕ)
    → j ≡ i
    → nth_device (d ∷ rest) (i - j)
      ≡ some (d.name, d.description, d.is_loopback, λ k. nth (visible d.addresses) k)
unfolding nth_device
nth_device-zero d rest j i h = let step : i - j ≡ 0 = omega arith in rw step

module _ (api : DeviceApi) where
  -- The call for a socket that left the world so failed.
  abbrev pub IsRefused : api.World → Type 0
  IsRefused w' = (w : api.World) × ((api.socket w).0 ≡ none) × ((api.socket w).1 ≡ w')

  -- Either the last call was for a socket and failed, or every place of the array holds the device of
  -- that place.
  abbrev pub IsListed : List PcapIf → DeviceList → api.World → Type 0
  IsListed alldevs result w' =
      ((result ≡ cannot_open_socket) × IsRefused w')
      ⊎ ((array : Interfaces) × (result ≡ devices array)
          × ((i : ℕ) → describe (array i) ≡ nth_device alldevs i))

  describe-device_of :
      (sd : ℕ) (d : PcapIf) (w : api.World)
      → (r : NetworkInterface × api.World) × (device_of api sd d w ≡ some r)
        × (describe (some (r.0))
            ≡ some (d.name, d.description, d.is_loopback, λ k. nth (visible d.addresses) k))
  unfolding device_of
  describe-device_of sd d w =
      let (filled, set, size, read) = address_array-visible d.addresses in
      let all_read : filled ≡ (λ k. nth (visible d.addresses) k) = fun_ext read in
      elim (Option-cases (device_of api sd d w)) [
        | inl e ↦ absurd (ground (arith, e, set))
        | inr (r, e) ↦ (r, e, ground (arith, e, set, all_read))
      ]

  set_devices-IsListed :
      (size : ℕ) (rest : List PcapIf) (j : ℕ) (array : Interfaces) (w : api.World)
      → j + count_devices rest ≤ size
      → ((i : ℕ) → j ≤ i → array i ≡ none)
      → (result : DeviceList) × (w' : api.World) × (set_devices api size rest j array w
          ≡ some (result, w'))
        × (((result ≡ cannot_open_socket) × IsRefused w')
            ⊎ ((filled : Interfaces) × (result ≡ devices filled)
                × ((i : ℕ)
                    → describe (filled i)
                      ≡ (if ltb i j then describe (array i) else nth_device rest (i - j)))))
  unfolding set_devices count_devices
  set_devices-IsListed size [] j array w fits empty =
      (devices array, w, refl, inr (array, refl, λ i. unfold nth_device in ground (arith, empty i)))
  set_devices-IsListed size (d ∷ rest) j array w fits empty =
      elim (Option-cases ((api.socket w).0)) [
        | inl e ↦
            (cannot_open_socket, (api.socket w).1, ground (arith, e), inl (refl, (w, e, refl)))
        | inr (s, e) ↦
            let (r, made, named) = describe-device_of s d ((api.socket w).1) in
            let (result, w', done, listed) =
              set_devices-IsListed size rest (suc j) (update array j (some (r.0))) (r.1)
                (omega arith) (λ i h. ground (arith, empty i)) in
            (
              result,
              w',
              ground (arith, e, made, done),
              elim listed [
                | inl stopped ↦ inl stopped
                | inr (filled, is, read) ↦ inr (
                  filled,
                  is,
                  λ i.
                      ground (
                        arith,
                        read i,
                        named,
                        nth_device-suc d rest j i,
                        nth_device-zero d rest j i,
                      ),
                )
              ],
            )
      ]

  -- If libpcap finds the devices, `getDeviceList` never writes past its array. It returns null with an
  -- exception only if the last thing that it asked of the system was a socket, which it was refused;
  -- otherwise it returns an array with each of the devices at its place in the order of libpcap, with
  -- its name, its description, its loop-back flag and its visible addresses, and no place left null.
  pub get_device_list-IsListed :
      (w : api.World) (alldevs : List PcapIf)
      → (api.findalldevs w).0 ≡ some alldevs
      → (result : DeviceList) × (w' : api.World) × (get_device_list api w ≡ some (result, w'))
        × IsListed alldevs result w'
  unfolding get_device_list free_devices
  get_device_list-IsListed w alldevs found =
      let (result, w', done, listed) =
        set_devices-IsListed (count_devices alldevs) alldevs 0 (λ i. none) ((api.findalldevs w).1)
          (omega arith) (λ i h. refl) in
      (
        result,
        (free_devices api alldevs (result, w')).1,
        ground (arith, found, done),
        elim listed [
          | inl (stopped, refused) ↦ inl (stopped, rw stopped refused)
          | inr (filled, is, read) ↦ inr (
            filled,
            is,
            λ i. (let whole : i - 0 ≡ i = omega arith in ground (arith, read i, whole)),
          )
        ],
      )
