-- ===== src/RawMachineId/Windows.antt =====
-- win/lib/machine_id_win.cc: the SID of the computer and the serial number of its system volume. The API
-- of Windows is a parameter; a wide string is the list of its units, and an int its 32-bit pattern.
pub mod Laws
use rlz.Prelude.{
  ℕ, Bool, true, false, not, ◌||◌, List, [], ◌∷◌, Option, none, some, ltb, ◌==◌, if◌then◌else◌,
}

-- LookupAccountName: the SID, or the sizes that ERROR_INSUFFICIENT_BUFFER asks for, or another error.
pub data Lookup (Sid : Type 0) : Type 0 where
  found : Sid → Lookup Sid
  insufficient_buffer : ℕ → ℕ → Lookup Sid
  lookup_failed : Lookup Sid

pub record MachineApi (Sid : Type 0) : Type 0 where
  -- `none` for an error
  pub computer_name : Option (List ℕ)
  -- for a name, with the sizes of the buffers for the SID and the domain
  pub lookup_account_name : List ℕ → ℕ → ℕ → Lookup Sid
  pub convert_sid : Sid → Option (List ℕ)
  pub system_directory : Option (List ℕ)
  -- GetVolumeInformation of a root path
  pub volume_serial_number : List ℕ → Option ℕ

abbrev pub start_domain_length : ℕ
start_domain_length = 128

abbrev pub security_max_sid_size : ℕ
security_max_sid_size = 68

-- The path to its first slash or backslash, that one included.
pub system_root : List ℕ → List ℕ
system_root [] = []
system_root (c ∷ path) =
    let rest = system_root path in if (c == b'\\') || (c == b'/') then c ∷ [] else c ∷ rest

module _ {Sid : Type 0} (api : MachineApi Sid) where
  -- The result and *number.
  pub get_system_volume_serial_number : Bool × ℕ
  unfolding system_root
  get_system_volume_serial_number = elim api.system_directory [
    | none ↦ (false, 0)
    | some system_path ↦ elim (api.volume_serial_number (system_root system_path)) [
      | none ↦ (false, 0)
      | some number_local ↦ (true, number_local)
    ]
  ]

  found_sid : Lookup Sid → Option Sid
  found_sid (found sid) = some sid
  found_sid _ = none

  -- `none` for false.
  pub get_computer_sid : List ℕ → ℕ → Option Sid
  unfolding found_sid
  get_computer_sid account_name sid_size =
      elim (api.lookup_account_name account_name sid_size start_domain_length) [
        | found sid ↦ some sid
        | insufficient_buffer sid_dword_size domain_size ↦
            if ltb sid_size sid_dword_size
            then none
            else found_sid (api.lookup_account_name account_name sid_dword_size domain_size)
        | lookup_failed ↦ none
      ]

  convert_sid_to_string : Option (List ℕ) → List ℕ
  convert_sid_to_string none = []
  convert_sid_to_string (some sid_string) = sid_string

  -- *sid_string, which is empty before.
  sid_string_of : Option (List ℕ) → List ℕ
  unfolding get_computer_sid convert_sid_to_string
  sid_string_of none = []
  sid_string_of (some computer_name) = elim (get_computer_sid computer_name security_max_sid_size) [
    | none ↦ []
    | some sid ↦ convert_sid_to_string (api.convert_sid sid)
  ]

  -- *sid_string and *volume_id; the result is always true.
  unfoldable pub get_raw_machine_id : Option (List ℕ × ℕ)
  unfolding sid_string_of get_system_volume_serial_number
  get_raw_machine_id =
      let (ok, number) = get_system_volume_serial_number in
      some (sid_string_of api.computer_name, (if ok then number else 0))
