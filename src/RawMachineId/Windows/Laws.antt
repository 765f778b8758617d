-- ===== src/RawMachineId/Windows/Laws.antt =====
-- The identifier of win/lib/machine_id_win.cc, on a system that answers as documented.
use rlz.Prelude.{
  ℕ, ◌≤◌, ◌≡◌, Bool, true, false, not, ◌&&◌, ◌||◌, List, [], ◌∷◌, ◌++◌, some, all, leb, ◌==◌,
  if◌then◌else◌, arith,
}
use rlz.RawMachineId.Windows.{
  found, insufficient_buffer, MachineApi, start_domain_length, security_max_sid_size, system_root,
  get_system_volume_serial_number, get_computer_sid, sid_string_of, get_raw_machine_id,
}

abbrev pub is_no_slash : ℕ → Bool
is_no_slash c = not ((c == b'\\') || (c == b'/'))

-- LookupAccountName finds an account's SID, of `sid_needs` bytes, in a domain whose name needs
-- `domain_needs` units, when both buffers are large enough, and asks for these sizes otherwise.
abbrev pub Knows : {Sid : Type 0} → MachineApi Sid → List ℕ → Sid → ℕ → ℕ → Type 0
Knows api name sid sid_needs domain_needs =
    (a b : ℕ)
    → api.lookup_account_name name a b ≡ (
        if leb sid_needs a && leb domain_needs b
        then found sid
        else insufficient_buffer sid_needs domain_needs)

root_of :
    (drive path : List ℕ) (slash : ℕ)
    → all is_no_slash drive ≡ true
    → is_no_slash slash ≡ false
    → system_root (drive ++ (slash ∷ path)) ≡ drive ++ (slash ∷ [])
unfolding system_root
root_of [] path slash plain h = ground arith
root_of (c ∷ drive) path slash plain h = ground (arith, root_of drive path slash)

module _ {Sid : Type 0} (api : MachineApi Sid) where
  sid_found :
      (name : List ℕ) (sid : Sid) (sid_needs domain_needs size : ℕ)
      → Knows api name sid sid_needs domain_needs
      → sid_needs ≤ size
      → get_computer_sid api name size ≡ some sid
  unfolding get_computer_sid
  sid_found name sid sid_needs domain_needs size knows room =
      ground (arith, knows size start_domain_length, knows sid_needs domain_needs)

  sid_text :
      (name sid_string : List ℕ) (sid : Sid) (sid_needs domain_needs : ℕ)
      → Knows api name sid sid_needs domain_needs
      → sid_needs ≤ security_max_sid_size
      → api.convert_sid sid ≡ some sid_string
      → sid_string_of api (some name) ≡ sid_string
  unfolding sid_string_of
  sid_text name sid_string sid sid_needs domain_needs knows fits text =
      ground
        (arith, text, sid_found name sid sid_needs domain_needs security_max_sid_size knows fits)

  serial_number :
      (drive path : List ℕ) (slash number : ℕ)
      → api.system_directory ≡ some (drive ++ (slash ∷ path))
      → all is_no_slash drive ≡ true
      → is_no_slash slash ≡ false
      → api.volume_serial_number (drive ++ (slash ∷ [])) ≡ some number
      → get_system_volume_serial_number api ≡ (true, number)
  unfolding get_system_volume_serial_number
  serial_number drive path slash number directory plain ends volume =
      ground (arith, directory, volume, root_of drive path slash plain ends)

-- On a system that knows its own name and finds the SID of that account, of at most 68 bytes and
-- however long the name of its domain is, that turns the SID into a text, and whose system directory
-- begins with a drive and a slash or backslash: the identifier is the text of the SID and the serial
-- number of the volume whose root is that drive with the slash.
pub get_raw_machine_id_found :
    {Sid : Type 0} (api : MachineApi Sid) (name drive path sid_string : List ℕ) (slash number : ℕ)
    (sid : Sid) (sid_needs domain_needs : ℕ)
    → api.computer_name ≡ some name
    → Knows api name sid sid_needs domain_needs
    → sid_needs ≤ security_max_sid_size
    → api.convert_sid sid ≡ some sid_string
    → api.system_directory ≡ some (drive ++ (slash ∷ path))
    → all is_no_slash drive ≡ true
    → is_no_slash slash ≡ false
    → api.volume_serial_number (drive ++ (slash ∷ [])) ≡ some number
    → get_raw_machine_id api ≡ some (sid_string, number)
unfolding get_raw_machine_id
get_raw_machine_id_found api name drive path sid_string slash number sid sid_needs domain_needs
      named knows fits text directory plain ends volume =
    ground (
      arith,
      named,
      sid_text api name sid_string sid sid_needs domain_needs knows fits text,
      serial_number api drive path slash number directory plain ends volume,
    )
