-- ===== src/RawMachineId/Mac/Laws.antt =====
-- The identifier of mac/lib/machine_id_mac.cc: which interface it is made from.
use rlz.Prelude.{
  suc, ◌≤◌, ◌≡◌, refl, ap, ◌∙◌, Bool, true, false, List, [], ◌∷◌, ◌++◌, Option, none, some, Bytes,
  bytes, all, take, length, length-take, leb, replicate, inl, inr, Option-cases, Bool-cases,
  if◌then◌else◌, arith,
}
use rlz.MachineId.{overwrite}
use rlz.RawMachineId.Mac.{
  Interface, MacApi, ethernet_address_size, copy_address, interfaces_loop,
  get_mac_address_from_iterator, get_mac_address, hex_bytes, add_serial, get_raw_machine_id,
}

-- The addresses that can be got, in the order of the interfaces.
abbrev pub addresses : List Interface → List Bytes
addresses [] = []
addresses (interface ∷ rest) = elim interface.mac_data [
  | none ↦ addresses rest
  | some mac_data ↦
      if interface.has_parent then take 6 mac_data ∷ addresses rest else addresses rest
]

abbrev pub last_or : Bytes → List Bytes → Bytes
last_or default [] = default
last_or default (address ∷ rest) = last_or address rest

-- Has the last of the interfaces a parent?
abbrev pub ends_with_parent : Bool → List Interface → Bool
ends_with_parent default [] = default
ends_with_parent default (interface ∷ rest) = ends_with_parent interface.has_parent rest

-- A MAC address has 6 bytes at least.
abbrev pub is_long_enough : Interface → Bool
is_long_enough interface = elim interface.mac_data [
  | none ↦ true
  | some mac_data ↦ leb 6 (length mac_data)
]

overwrite_whole : (s t : Bytes) → length s ≡ length t → overwrite s t ≡ s
overwrite_whole [] [] h = refl
overwrite_whole [] (b ∷ t) h = ground arith
overwrite_whole (a ∷ s) [] h = ground arith
overwrite_whole (a ∷ s) (b ∷ t) h = ap (◌∷◌ a) (overwrite_whole s t (ground arith))

-- The buffer after an interface.
next_size :
    (buffer : Bytes) (has_parent : Bool) (mac_data : Option Bytes)
    → length buffer ≡ 6
    → length (if has_parent then copy_address buffer mac_data else buffer) ≡ 6
unfolding copy_address
next_size buffer false mac_data size = size
next_size buffer true none size = size
next_size buffer true (some address) size = overwrite_size (take 6 address) buffer ∙ size
  where
    overwrite_size : (s t : Bytes) → length (overwrite s t) ≡ length t
    overwrite_size [] t = refl
    overwrite_size (a ∷ s) [] = refl
    overwrite_size (a ∷ s) (b ∷ t) = ap suc (overwrite_size s t)

next_address :
    (buffer : Bytes) (interface : Interface) (rest : List Interface)
    → length buffer ≡ 6
    → is_long_enough interface ≡ true
    → last_or
        (if interface.has_parent then copy_address buffer interface.mac_data else buffer)
        (addresses rest)
      ≡ last_or buffer (addresses (interface ∷ rest))
unfolding copy_address
next_address buffer interface rest size long = elim (Option-cases interface.mac_data) [
  | inl nothing ↦ elim (Bool-cases interface.has_parent) [
    | inl parent ↦ rw (nothing, parent)
    | inr orphan ↦ rw (nothing, orphan)
  ]
  | inr (address, found) ↦ elim (Bool-cases interface.has_parent) [
    | inl parent ↦
        let enough : 6 ≤ length address = ground (arith, found) in
        let whole = overwrite_whole (take 6 address) buffer (length-take 6 address ∙ omega arith) in
        rw (found, parent, whole)
    | inr orphan ↦ rw (found, orphan)
  ]
]

loop_lem :
    (success : Bool) (buffer : Bytes) (interfaces : List Interface)
    → length buffer ≡ 6
    → all is_long_enough interfaces ≡ true
    → interfaces_loop success buffer interfaces
      ≡ (ends_with_parent success interfaces, last_or buffer (addresses interfaces))
unfolding interfaces_loop
loop_lem success buffer [] size long = refl
loop_lem success buffer (interface ∷ rest) size long =
    let long_here : is_long_enough interface ≡ true = ground arith in
    let long_rest : all is_long_enough rest ≡ true = ground arith in
    loop_lem interface.has_parent
      (if interface.has_parent then copy_address buffer interface.mac_data else buffer) rest
      (next_size buffer interface.has_parent interface.mac_data size) long_rest
    ∙ ap (λ (address : Bytes). (ends_with_parent interface.has_parent rest, address))
        (next_address buffer interface rest size long_here)

address_read :
    (api : MacApi) (interfaces : List Interface)
    → api.ethernet_interfaces ≡ some interfaces
    → all is_long_enough interfaces ≡ true
    → ends_with_parent false interfaces ≡ true
    → get_mac_address api ethernet_address_size
      ≡ (true, last_or (replicate 6 0) (addresses interfaces))
unfolding get_mac_address get_mac_address_from_iterator
address_read api interfaces listed long parent =
    rw (listed, loop_lem false (replicate 6 0) interfaces refl long, parent)

-- Where the Ethernet interfaces can be listed, the last of them has a parent, and each MAC address has
-- 6 bytes or more: the identifier is made from the last MAC address that the parent of an interface
-- has, or from six zeros where none has one, and from the serial number of the computer.
pub get_raw_machine_id_last :
    (api : MacApi) (interfaces : List Interface)
    → api.ethernet_interfaces ≡ some interfaces
    → all is_long_enough interfaces ≡ true
    → ends_with_parent false interfaces ≡ true
    → get_raw_machine_id api
      ≡ some (
        add_serial
            (bytes "mac:" ++ hex_bytes (last_or (replicate 6 0) (addresses interfaces)))
            api.serial_number,
        1,
      )
unfolding get_raw_machine_id
get_raw_machine_id_last api interfaces listed long parent =
    ground (arith, address_read api interfaces listed long parent)
