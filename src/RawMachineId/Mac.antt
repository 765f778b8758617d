-- ===== src/RawMachineId/Mac.antt =====
-- mac/lib/machine_id_mac.cc: the MAC address of the computer and its serial number. What IOKit gives is a
-- parameter; a string16 is the list of its units.
pub mod Laws
use rlz.Prelude.{
  ℕ, ◌/◌, ◌%◌, Bool, true, false, not, List, [], ◌∷◌, ◌++◌, map, Option, none, some, Bytes, bytes,
  take, length, ltb, is_empty, replicate, get_or, if◌then◌else◌,
}
use rlz.MachineId.{overwrite}

-- A primary Ethernet interface: its parent can be got, and the MAC address that the parent has.
pub record Interface : Type 0 where
  pub has_parent : Bool
  pub mac_data : Option Bytes

pub record MacApi : Type 0 where
  -- the interfaces of the iterator of FindEthernetInterfaces; `none` where that returns false
  pub ethernet_interfaces : Option (List Interface)
  -- CopySerialNumber; `none` for NULL
  pub serial_number : Option (List ℕ)

abbrev pub ethernet_address_size : ℕ
ethernet_address_size = 6

-- CFDataGetBytes into the front of the buffer.
pub copy_address : Bytes → Option Bytes → Bytes
copy_address buffer none = buffer
copy_address buffer (some mac_data) = overwrite (take ethernet_address_size mac_data) buffer

-- The loop: `success` and the buffer.
pub interfaces_loop : Bool → Bytes → List Interface → Bool × Bytes
unfolding copy_address
interfaces_loop success buffer [] = (success, buffer)
interfaces_loop success buffer (primary_interface ∷ rest) =
    interfaces_loop primary_interface.has_parent
      (if primary_interface.has_parent
        then copy_address buffer primary_interface.mac_data
        else buffer)
      rest

pub get_mac_address_from_iterator : List Interface → ℕ → Bool × Bytes
unfolding interfaces_loop
get_mac_address_from_iterator interfaces buffer_size =
    if ltb buffer_size ethernet_address_size
    then (false, [])
    else interfaces_loop false (replicate buffer_size 0) interfaces

pub get_mac_address : MacApi → ℕ → Bool × Bytes
unfolding get_mac_address_from_iterator
get_mac_address api size = elim api.ethernet_interfaces [
  | none ↦ (false, [])
  | some interfaces ↦ get_mac_address_from_iterator interfaces size
]

-- "%02x" of a byte.
abbrev pub hex_byte : ℕ → Bytes
hex_byte b =
    get_or (bytes "0123456789abcdef") (b / 16) 0 ∷ get_or (bytes "0123456789abcdef") (b % 16) 0 ∷ []

abbrev pub hex_bytes : Bytes → Bytes
hex_bytes [] = []
hex_bytes (b ∷ s) = hex_byte b ++ hex_bytes s

-- *data after the serial number.
pub add_serial : List ℕ → Option (List ℕ) → List ℕ
add_serial raw_data none = raw_data
add_serial raw_data (some serial) =
    raw_data ++ ((if is_empty raw_data then [] else bytes " ") ++ (bytes "serial:" ++ serial))

-- *data and *more_data, with a buffer of six bytes for the address; the result is always true.
unfoldable pub get_raw_machine_id : MacApi → Option (List ℕ × ℕ)
unfolding get_mac_address add_serial
get_raw_machine_id api =
    let (ok, mac_address) = get_mac_address api ethernet_address_size in
    some
      (add_serial (if ok then bytes "mac:" ++ hex_bytes mac_address else []) api.serial_number, 1)
