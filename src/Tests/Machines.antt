-- ===== src/Tests/Machines.antt =====
-- Examples for GetRawMachineId of the platforms and for PingServer.
use rlz.Prelude.{ℕ, ◌≡◌, refl, true, ◌&&◌, [], ◌∷◌, none, some, bytes, bytes_eq, leb, if◌then◌else◌}
use rlz.RawMachineId.Windows.{Lookup, found, insufficient_buffer}
use rlz.RawMachineId.Windows
use rlz.RawMachineId.Mac.{Interface, MacApi}
use rlz.RawMachineId.Mac
use rlz.RawMachineId.Mac.Laws.{get_raw_machine_id_last}

abbrev pub long_domain : Windows.MachineApi ℕ
long_domain = record {
  computer_name = some (bytes "DESK");
  lookup_account_name =
      λ name a b. if leb 28 a && leb 300 b then found 7 else insufficient_buffer 28 300;
  convert_sid = λ sid. some (bytes "S-1-5-21-7");
  system_directory = some (bytes "C:\\Windows\\system32");
  volume_serial_number = λ root. if bytes_eq root (bytes "C:\\") then some 0xDEADBEEF else none;
}

abbrev two_interfaces : MacApi
two_interfaces = record {
  ethernet_interfaces = some (
      record { has_parent = true; mac_data = some (0 ∷ 0x1F ∷ 0xF3 ∷ 1 ∷ 2 ∷ 0xAB ∷ []) }
      ∷ record { has_parent = true; mac_data = none }
      ∷ []);
  serial_number = some (bytes "W87");
}

get_raw_machine_id_last_example :
    Mac.get_raw_machine_id two_interfaces ≡ some (bytes "mac:001ff30102ab serial:W87", 1)
unfolding Mac.get_raw_machine_id
get_raw_machine_id_last_example =
    get_raw_machine_id_last two_interfaces
      (record { has_parent = true; mac_data = some (0 ∷ 0x1F ∷ 0xF3 ∷ 1 ∷ 2 ∷ 0xAB ∷ []) }
        ∷ record { has_parent = true; mac_data = none }
        ∷ [])
      refl refl refl
