-- ===== src/Registry/Store.antt =====
-- win/lib/rlz_value_store_registry.cc: the value store in the registry, for a supplementary brand. The
-- lock and the test of the access are parameters of the store; see ProcessInfo for the latter.
pub mod Locations
pub mod Effects
pub mod Changes
pub mod Views
pub mod Listing
pub mod Contract
pub mod Unverified
pub mod Brands
pub mod Garbage
pub mod Frames
use rlz.Prelude.{
  ℕ, zero, suc, ◌+◌, Bool, true, false, not, ◌&&◌, ◌||◌, List, [], ◌∷◌, ◌++◌, Option, none, some,
  Bytes, bytes, is_empty, length, ltb, if◌then◌else◌,
}
use rlz.Enums.{AccessPoint, Product}
use rlz.LibValues.{get_access_point_name, get_product_name}
use rlz.ValueStore.{AccessType, RlzValueStore}
use rlz.MachineDeal.{reg_key_read_value}
use rlz.Registry.{
  Rights, key_read, key_write, RegKey, closed, root_key, opened, Value, qword, dword, text, item,
  no_more_items, failed, Registry,
}

abbrev pub lib_key_name : Bytes
lib_key_name = bytes "Software\\Google\\Common\\Rlz"

-- What AppendBrandToString appends.
abbrev pub brand_part : Bytes → Bytes
brand_part brand = if is_empty brand then [] else bytes "\\_" ++ brand

-- "%s\\%s" of the library's key and a name, and the brand.
abbrev pub key_location : Bytes → Bytes → Bytes
key_location brand name = (lib_key_name ++ (bytes "\\" ++ name)) ++ brand_part brand

-- *value_size after RegKeyReadValue, from what ReadValue gives.
abbrev pub value_size_after : Option Bytes → ℕ → ℕ
value_size_after none value_size = value_size
value_size_after (some value_string) value_size =
    if ltb value_size (length value_string) then length value_string else value_size

-- What ReadAccessPointRlz makes of the value.
pub rlz_of_value : Option Bytes → ℕ → Bool × Bytes
unfolding reg_key_read_value
rlz_of_value value rlz_size =
    let got = reg_key_read_value value rlz_size in
    if got.0 then got else (not (ltb rlz_size (value_size_after value rlz_size)), [])

abbrev is_valid : RegKey → Bool
is_valid closed = false
is_valid root_key = true
is_valid (opened rights location) = true

abbrev pub is_some : Option ℕ → Bool
is_some none = false
is_some (some n) = true

-- The keys that CollectGarbage deletes where they are empty.
abbrev pub garbage_keys : Bytes → List Bytes
garbage_keys brand =
    key_location brand (bytes "RLZs")
    ∷ key_location brand (bytes "Events")
    ∷ key_location brand (bytes "StatefulEvents")
    ∷ key_location brand (bytes "PTimes")
    ∷ lib_key_name
    ∷ bytes "Software\\Google\\Common"
    ∷ bytes "Software\\Google"
    ∷ []

module _ {R : Type 0} (reg : Registry R) where
  -- The result, the key, and the state: Create for an access that writes, Open otherwise.
  open_location : R → Bytes → Rights → (Bool × RegKey) × R
  open_location r location key_write =
      let made = reg.create_key r location in
      ((made.0, if made.0 then opened key_write location else closed), made.1)
  open_location r location key_read =
      let found = reg.open_key r location in
      ((found, if found then opened key_read location else closed), r)

  -- The loop over the values of an open key; `none` where it ends with an error.
  pub events_loop : ℕ → R → RegKey → ℕ → Option (List Bytes)
  events_loop zero r events_key num_values = none
  events_loop (suc fuel) r events_key num_values = elim (reg.enum_value r events_key num_values) [
    | no_more_items ↦ some []
    | failed ↦ none
    | item name ↦ elim (events_loop fuel r events_key (num_values + 1)) [
      | none ↦ none
      | some events ↦ some (name ∷ events)
    ]
  ]

  delete_key_if_empty : R → Bytes → Bool × R
  delete_key_if_empty r key_name =
      if not (reg.open_key r key_name)
      then (true, r)
      else if ltb 0 (reg.subkey_count r key_name)
      then (true, r)
      else if ltb 0 (reg.value_count r key_name)
      then (true, r)
      else reg.delete_key r root_key key_name

  -- Each in order; what VERIFY tests is not looked at.
  delete_empty_keys : R → List Bytes → R
  unfolding delete_key_if_empty
  delete_empty_keys r [] = r
  delete_empty_keys r (key_name ∷ rest) = delete_empty_keys (delete_key_if_empty r key_name).1 rest

module _ {R : Type 0} (reg : Registry R) (brand : Bytes) where
  get_reg_key : R → Bytes → Rights → (Bool × RegKey) × R
  unfolding open_location
  get_reg_key r name rights = open_location reg r (key_location brand name) rights

  events_key_of : R → Bytes → Rights → Bytes → (Bool × RegKey) × R
  unfolding open_location
  events_key_of r event_type rights product_name =
      if is_empty product_name
      then ((false, closed), r)
      else open_location reg r (key_location brand event_type ++ (bytes "\\" ++ product_name))
          rights

  get_events_reg_key : R → Bytes → Option Product → Rights → (Bool × RegKey) × R
  unfolding open_location events_key_of
  get_events_reg_key r event_type none rights =
      open_location reg r (key_location brand event_type) rights
  get_events_reg_key r event_type (some product) rights =
      events_key_of r event_type rights (get_product_name product)

  pub clear_all_product_event_values : R → Product → Bytes → Bool × R
  unfolding get_events_reg_key
  clear_all_product_event_values r product key =
      let product_name = get_product_name product in
      if is_empty product_name
      then (false, r)
      else let ((found, reg_key), r') = get_events_reg_key r key none key_write in
        let (deleted, r'') = reg.delete_key r' reg_key product_name in
        (not (reg.open_child r'' reg_key product_name), r'')

  clear_all_product_events : R → Product → Bool × R
  unfolding clear_all_product_event_values
  clear_all_product_events r product = clear_all_product_event_values r product (bytes "Events")

  clear_all_stateful_events : R → Product → Bool × R
  unfolding clear_all_product_event_values
  clear_all_stateful_events r product =
      clear_all_product_event_values r product (bytes "StatefulEvents")

  pub write_ping_time : R → Product → ℕ → Bool × R
  unfolding get_reg_key
  write_ping_time r product time =
      let ((found, key), r') = get_reg_key r (bytes "PTimes") key_write in
      if found then reg.write_value r' key (get_product_name product) (qword time) else (false, r')

  pub read_ping_time : R → Product → Option ℕ
  unfolding get_reg_key
  read_ping_time r product =
      let ((found, key), r') = get_reg_key r (bytes "PTimes") key_read in
      if found then reg.read_int64 r' key (get_product_name product) else none

  pub clear_ping_time : R → Product → Bool × R
  unfolding get_reg_key
  clear_ping_time r product =
      let ((found, key), r') = get_reg_key r (bytes "PTimes") key_write in
      let r'' = reg.delete_value r' key (get_product_name product) in
      (not (reg.read_raw r'' key (get_product_name product) 8), r'')

  pub write_named_rlz : R → Option Bytes → Bytes → Bool × R
  unfolding get_reg_key
  write_named_rlz r none new_rlz = (false, r)
  write_named_rlz r (some access_point_name) new_rlz =
      let ((found, key), r') = get_reg_key r (bytes "RLZs") key_write in
      reg.write_value r' key access_point_name (text new_rlz)

  pub write_access_point_rlz : R → AccessPoint → Bytes → Bool × R
  unfolding write_named_rlz
  write_access_point_rlz r point new_rlz = write_named_rlz r (get_access_point_name point) new_rlz

  pub read_named_rlz : R → Option Bytes → ℕ → Bool × Bytes
  unfolding get_reg_key rlz_of_value
  read_named_rlz r none rlz_size = (false, [])
  read_named_rlz r (some access_point_name) rlz_size =
      let ((found, key), r') = get_reg_key r (bytes "RLZs") key_read in
      rlz_of_value (reg.read_text r' key access_point_name) rlz_size

  pub read_access_point_rlz : R → AccessPoint → ℕ → Bool × Bytes
  unfolding read_named_rlz
  read_access_point_rlz r point rlz_size = read_named_rlz r (get_access_point_name point) rlz_size

  pub clear_named_rlz : R → Option Bytes → Bool × R
  unfolding get_reg_key
  clear_named_rlz r none = (false, r)
  clear_named_rlz r (some access_point_name) =
      let ((found, key), r') = get_reg_key r (bytes "RLZs") key_write in
      let r'' = reg.delete_value r' key access_point_name in
      (not (is_some (reg.read_dword r'' key access_point_name)), r'')

  pub clear_access_point_rlz : R → AccessPoint → Bool × R
  unfolding clear_named_rlz
  clear_access_point_rlz r point = clear_named_rlz r (get_access_point_name point)

  pub add_product_event : R → Product → Bytes → Bool × R
  unfolding get_events_reg_key
  add_product_event r product event_rlz =
      let ((found, reg_key), r') = get_events_reg_key r (bytes "Events") (some product) key_write in
      reg.write_value r' reg_key event_rlz (dword 1)

  pub read_product_events : R → Product → Option (List Bytes)
  unfolding get_events_reg_key events_loop
  read_product_events r product =
      let ((found, events_key), r') =
        get_events_reg_key r (bytes "Events") (some product) key_read in
      if not (is_valid events_key)
      then none
      else events_loop reg (suc (reg.listed r' events_key)) r' events_key 0

  pub clear_product_event : R → Product → Bytes → Bool × R
  unfolding get_events_reg_key
  clear_product_event r product event_rlz =
      let ((found, key), r') = get_events_reg_key r (bytes "Events") (some product) key_write in
      let r'' = reg.delete_value r' key event_rlz in
      (not (is_some (reg.read_dword r'' key event_rlz)), r'')

  pub add_stateful_event : R → Product → Bytes → Bool × R
  unfolding get_events_reg_key
  add_stateful_event r product event_rlz =
      let ((found, key), r') =
        get_events_reg_key r (bytes "StatefulEvents") (some product) key_write in
      if found then reg.write_value r' key event_rlz (dword 1) else (false, r')

  pub is_stateful_event : R → Product → Bytes → Bool
  unfolding get_events_reg_key
  is_stateful_event r product event_rlz =
      let ((found, key), r') =
        get_events_reg_key r (bytes "StatefulEvents") (some product) key_read in
      is_some (reg.read_dword r' key event_rlz)

  pub collect_garbage : R → R
  unfolding delete_empty_keys
  collect_garbage r = delete_empty_keys reg r (garbage_keys brand)

-- The store behind ScopedRlzValueStoreLock, where the lock is got.
unfoldable pub registry_store :
    {R : Type 0} → Registry R → (R → Bool) → (R → AccessType → Bool) → Bytes → RlzValueStore R
unfolding clear_all_product_events clear_all_stateful_events write_ping_time read_ping_time
    clear_ping_time write_access_point_rlz read_access_point_rlz clear_access_point_rlz
    add_product_event read_product_events clear_product_event add_stateful_event is_stateful_event
    collect_garbage
registry_store reg locks has_access brand = record {
  get_store = locks;
  has_access = has_access;
  write_ping_time = write_ping_time reg brand;
  read_ping_time = read_ping_time reg brand;
  clear_ping_time = clear_ping_time reg brand;
  write_access_point_rlz = write_access_point_rlz reg brand;
  read_access_point_rlz = read_access_point_rlz reg brand;
  clear_access_point_rlz = clear_access_point_rlz reg brand;
  add_product_event = add_product_event reg brand;
  read_product_events = read_product_events reg brand;
  clear_product_event = clear_product_event reg brand;
  clear_all_product_events = clear_all_product_events reg brand;
  add_stateful_event = add_stateful_event reg brand;
  is_stateful_event = is_stateful_event reg brand;
  clear_all_stateful_events = clear_all_stateful_events reg brand;
  collect_garbage = collect_garbage reg brand;
}
