-- ===== src/Interfaces/Devices.antt =====
-- `getDeviceList` of jpcap-0.7/src/c/JpcapCaptor.c, as built on Linux.
use redes1grupal.Base.{ltb, if◌then◌else◌, [], suc, ◌>>=◌, ◌∷◌, none, some, Bool, List, Option, ℕ}
use Prim.Native.String.{String}
use redes1grupal.Memory.{read_bytes, Bytes}
use redes1grupal.Interfaces.{Addresses, PcapAddr, address_array}
use redes1grupal.Native.{update}

-- `pcap_if_t`
pub record PcapIf : Type 0 where
  pub name : String
  pub description : Option String
  pub addresses : List PcapAddr
  pub is_loopback : Bool

-- What the code calls of libpcap and of the system: `pcap_findalldevs` and `pcap_freealldevs`, the socket that it asks for a
-- hardware address (`ioctl` with SIOCGIFHWADDR; a name that it refuses leaves six zeros), and
-- `pcap_open_live`, `pcap_datalink`, the two names of a link type, and `pcap_close`.
pub record DeviceApi : Type 1 where
  pub World : Type 0
  pub findalldevs : World → Option (List PcapIf) × World
  pub freealldevs : List PcapIf → World → World
  pub socket : World → Option ℕ × World
  pub hardware_address : ℕ → String → World → Bytes × World
  pub close_socket : ℕ → World → World
  pub open_live : String → World → Option ℕ × World
  pub datalink : ℕ → ℕ
  pub datalink_val_to_name : ℕ → String
  pub datalink_val_to_description : ℕ → String
  pub close : ℕ → World → World

-- `NetworkInterface`, by the arguments of its constructor.
pub record NetworkInterface : Type 0 where
  pub name : String
  pub description : Option String
  pub loopback : Bool
  pub datalink_name : String
  pub datalink_description : String
  pub mac_address : List ℕ
  pub addresses : Addresses

abbrev pub Interfaces : Type 0
Interfaces = ℕ → Option NetworkInterface

-- What Java is given: an array, null, or null with an `IOException` pending.
pub data DeviceList : Type 0 where
  devices : Interfaces → DeviceList
  not_found : DeviceList
  cannot_open_socket : DeviceList

unfoldable pub count_devices : List PcapIf → ℕ
count_devices [] = 0
count_devices (d ∷ rest) = suc (count_devices rest)

module _ (api : DeviceApi) where
  -- The names of the link type of a device that can be opened.
  unfoldable pub datalink_names : String → api.World → (String × String) × api.World
  datalink_names name w =
      let (handle, w₁) = api.open_live name w in
      elim handle [
        | none ↦ (("Unknown", "Unknown"), w₁)
        | some h ↦
            let linktype = api.datalink h in
            (
              (api.datalink_val_to_name linktype, api.datalink_val_to_description linktype),
              api.close h w₁,
            )
      ]

  -- One round of the loop, for a socket that was opened: the object for the device. The addresses
  -- that do not fit their array are a fault.
  unfoldable pub device_of : ℕ → PcapIf → api.World → Option (NetworkInterface × api.World)
  device_of sd d w =
      let (mac, w₁) = api.hardware_address sd d.name w in
      let (names, w₂) = datalink_names d.name (api.close_socket sd w₁) in
      elim (address_array d.addresses) [
        | none ↦ none
        | some filled ↦ some (
          record {
            name = d.name;
            description = d.description;
            loopback = d.is_loopback;
            datalink_name = names.0;
            datalink_description = names.1;
            mac_address = read_bytes 6 0 mac;
            addresses = filled;
          },
          w₂,
        )
      ]

  -- The loop over the devices, with its index `i` into an array of `size` places.
  unfoldable pub set_devices :
      ℕ → List PcapIf → ℕ → Interfaces → api.World → Option (DeviceList × api.World)
  set_devices size [] i array w = some (devices array, w)
  set_devices size (d ∷ rest) i array w =
      let (sd, w₁) = api.socket w in
      elim sd [
        | none ↦ some (cannot_open_socket, w₁)
        | some s ↦ device_of s d w₁ >>= λ r.
            (let filled = set_devices size rest (suc i) (update array i (some (r.0))) (r.1) in
              if ltb i size then filled else none)
      ]

  -- The list is freed behind the loop only.
  unfoldable pub free_devices : List PcapIf → DeviceList × api.World → DeviceList × api.World
  free_devices alldevs (result, w) = (
    result,
    elim result [
      | devices array ↦ api.freealldevs alldevs w
      | not_found ↦ w
      | cannot_open_socket ↦ w
    ],
  )

  unfoldable pub get_device_list : api.World → Option (DeviceList × api.World)
  get_device_list w =
      let (found, w₁) = api.findalldevs w in
      elim found [
        | none ↦ some (not_found, w₁)
        | some alldevs ↦ set_devices (count_devices alldevs) alldevs 0 (λ i. none) w₁ >>= λ r.
            some (free_devices alldevs r)
      ]
