-- ===== src/Examples/Interfaces.antt =====
-- A device with an Ethernet address, which is left out, and an IPv4 address.
use redes1grupal.Base.{refl, suc, true, false, ℕ, ◌≡◌, none, some, List, [], ◌∷◌}
use redes1grupal.Interfaces.{PcapAddr, af_inet, unspecified}
use redes1grupal.Interfaces.Devices.{get_device_list, DeviceApi, DeviceList}
use redes1grupal.Interfaces.Listing.{get_device_list-IsListed, IsListed}

abbrev eth0 : List PcapAddr
eth0 =
    record { addr = some unspecified; netmask = none; broadaddr = none; dstaddr = none }
    ∷ record {
      addr = some (af_inet (λ i. 10));
      netmask = some (af_inet (λ i. 255));
      broadaddr = none;
      dstaddr = none;
    }
    ∷ []

-- A system with one device, whose link type has the names that libpcap gives it.
abbrev system : DeviceApi
system = record {
  World = ℕ;
  findalldevs = λ w. (
    some (
        record { name = "eth0"; description = none; addresses = eth0; is_loopback = false }
        ∷ record { name = "lo"; description = none; addresses = []; is_loopback = true }
        ∷ []),
    w,
  );
  freealldevs = λ alldevs w. w;
  socket = λ w. (some 3, suc w);
  hardware_address = λ sd name w. ((λ i. 2), w);
  close_socket = λ sd w. w;
  open_live = λ name w. (some 7, w);
  datalink = λ h. 1;
  datalink_val_to_name = λ linktype. "EN10MB";
  datalink_val_to_description = λ linktype. "Ethernet";
  close = λ h w. w;
}

get_device_list-IsListed_example :
    (result : DeviceList) × (w' : ℕ) × (get_device_list system 0 ≡ some (result, w'))
    × IsListed system
        (record { name = "eth0"; description = none; addresses = eth0; is_loopback = false }
          ∷ record { name = "lo"; description = none; addresses = []; is_loopback = true }
          ∷ [])
        result
        w'
get_device_list-IsListed_example = get_device_list-IsListed system 0 _ refl
