-- ===== src/MacStore/Store.antt =====
-- mac/lib/rlz_value_store_mac.mm: the class RlzValueStoreMac, over the dictionary dict_, for a supplementary
-- brand. That the file can be read and written, and the lock, are parameters of the store. A call for an
-- access point that has no name, which would use NULL as a text, changes nothing and returns false.
pub mod Views
pub mod Changes
pub mod Events
pub mod Points
pub mod Contract
pub mod Brands
pub mod Frames
use rlz.Prelude.{
  ℕ, Bool, true, false, List, [], ◌++◌, Option, none, some, Bytes, bytes, is_empty, length, leb,
  take, if◌then◌else◌,
}
use rlz.Enums.{AccessPoint, Product}
use rlz.LibValues.{get_access_point_name, get_product_name}
use rlz.ValueStore.{AccessType, RlzValueStore}
use rlz.MacStore.Dict.{
  Object, number, string, dictionary, Dict, empty, object_for_key, set_object, remove_object, keys,
  as_number, as_string, as_dict, is_there, sub_dict, change_in,
}

abbrev pub ping_time_key : Bytes
ping_time_key = bytes "pingTime"

abbrev pub access_point_key : Bytes
access_point_key = bytes "accessPoints"

abbrev pub product_event_key : Bytes
product_event_key = bytes "productEvents"

abbrev pub stateful_event_key : Bytes
stateful_event_key = bytes "statefulEvents"

-- WorkingDict, and dict_ after a change of it.
abbrev pub working_dict : Bytes → Dict → Dict
working_dict brand dict = if is_empty brand then dict else sub_dict dict (bytes "brand_" ++ brand)

abbrev pub in_working_dict : Bytes → Dict → (Dict → Dict) → Dict
in_working_dict brand dict change =
    if is_empty brand then change dict else change_in dict (bytes "brand_" ++ brand) change

-- ProductDict, and dict_ after a change of it.
abbrev pub product_dict : Bytes → Dict → Product → Dict
product_dict brand dict p = sub_dict (working_dict brand dict) (get_product_name p)

abbrev pub in_product_dict : Bytes → Dict → Product → (Dict → Dict) → Dict
in_product_dict brand dict p change =
    in_working_dict brand dict (λ working. change_in working (get_product_name p) change)

-- A dictionary of marked names under a key, changed where there is one.
abbrev pub in_found : Dict → Bytes → (Dict → Dict) → Dict
in_found p k change = elim (as_dict (object_for_key p k)) [
  | none ↦ p
  | some d ↦ set_object p k (dictionary (change d))
]

abbrev pub is_some : Option Dict → Bool
is_some none = false
is_some (some d) = true

abbrev pub marked : Option Dict → Bytes → Bool
marked none name = false
marked (some d) name = is_there (object_for_key d name)

module _ (brand : Bytes) where
  pub write_ping_time : Dict → Product → ℕ → Bool × Dict
  write_ping_time dict p time =
      (true, in_product_dict brand dict p (λ d. set_object d ping_time_key (number time)))

  -- With the dictionaries that the call may create.
  pub read_ping_time : Dict → Product → Option ℕ × Dict
  read_ping_time dict p = (
    as_number (object_for_key (product_dict brand dict p) ping_time_key),
    in_product_dict brand dict p (λ d. d),
  )

  pub clear_ping_time : Dict → Product → Bool × Dict
  clear_ping_time dict p = (true, in_product_dict brand dict p (λ d. remove_object d ping_time_key))

  write_named_rlz : Dict → Option Bytes → Bytes → Bool × Dict
  write_named_rlz dict none new_rlz = (false, dict)
  write_named_rlz dict (some name) new_rlz = (
    true,
    in_working_dict brand dict
        (λ w. change_in w access_point_key (λ d. set_object d name (string new_rlz))),
  )

  pub write_access_point_rlz : Dict → AccessPoint → Bytes → Bool × Dict
  unfolding write_named_rlz
  write_access_point_rlz dict point new_rlz =
      write_named_rlz dict (get_access_point_name point) new_rlz

  -- From the string that is found.
  rlz_into : Option Bytes → ℕ → Bool × Bytes
  rlz_into none rlz_size = (true, [])
  rlz_into (some s) rlz_size =
      if leb rlz_size (length s) then (false, []) else (true, take rlz_size s)

  read_named_rlz : Dict → Option Bytes → ℕ → Bool × Bytes
  unfolding rlz_into
  read_named_rlz dict none rlz_size = (false, [])
  read_named_rlz dict (some name) rlz_size =
      elim (as_dict (object_for_key (working_dict brand dict) access_point_key)) [
        | none ↦ (true, [])
        | some d ↦ rlz_into (as_string (object_for_key d name)) rlz_size
      ]

  pub read_access_point_rlz : Dict → AccessPoint → ℕ → (Bool × Bytes) × Dict
  unfolding read_named_rlz
  read_access_point_rlz dict point rlz_size = (
    read_named_rlz dict (get_access_point_name point) rlz_size,
    in_working_dict brand dict (λ w. w),
  )

  clear_named_rlz : Dict → Option Bytes → Bool × Dict
  clear_named_rlz dict none = (false, dict)
  clear_named_rlz dict (some name) = (
    true,
    in_working_dict brand dict (λ w. in_found w access_point_key (λ d. remove_object d name)),
  )

  pub clear_access_point_rlz : Dict → AccessPoint → Bool × Dict
  unfolding clear_named_rlz
  clear_access_point_rlz dict point = clear_named_rlz dict (get_access_point_name point)

  mark_event : Dict → Product → Bytes → Bytes → Dict
  mark_event dict p key event_rlz =
      in_product_dict brand dict p
        (λ d. change_in d key (λ events. set_object events event_rlz (number 1)))

  pub add_product_event : Dict → Product → Bytes → Bool × Dict
  unfolding mark_event
  add_product_event dict p event_rlz = (true, mark_event dict p product_event_key event_rlz)

  events_of : Option Dict → List Bytes
  events_of none = []
  events_of (some d) = keys d

  -- The events that are appended; the result is always true.
  pub read_product_events : Dict → Product → List Bytes × Dict
  unfolding events_of
  read_product_events dict p = (
    events_of (as_dict (object_for_key (product_dict brand dict p) product_event_key)),
    in_product_dict brand dict p (λ d. d),
  )

  pub clear_product_event : Dict → Product → Bytes → Bool × Dict
  clear_product_event dict p event_rlz = (
    is_some (as_dict (object_for_key (product_dict brand dict p) product_event_key)),
    in_product_dict brand dict p
        (λ d. in_found d product_event_key (λ events. remove_object events event_rlz)),
  )

  pub clear_all_product_events : Dict → Product → Bool × Dict
  clear_all_product_events dict p =
      (true, in_product_dict brand dict p (λ d. remove_object d product_event_key))

  pub add_stateful_event : Dict → Product → Bytes → Bool × Dict
  unfolding mark_event
  add_stateful_event dict p event_rlz = (true, mark_event dict p stateful_event_key event_rlz)

  pub is_stateful_event : Dict → Product → Bytes → Bool × Dict
  is_stateful_event dict p event_rlz = (
    marked (as_dict (object_for_key (product_dict brand dict p) stateful_event_key)) event_rlz,
    in_product_dict brand dict p (λ d. d),
  )

  pub clear_all_stateful_events : Dict → Product → Bool × Dict
  clear_all_stateful_events dict p =
      (true, in_product_dict brand dict p (λ d. remove_object d stateful_event_key))

-- The store of a lock that was got. A read drops the empty dictionaries that it creates.
unfoldable pub mac_store : (Dict → Bool) → (Dict → AccessType → Bool) → Bytes → RlzValueStore Dict
unfolding write_ping_time read_ping_time clear_ping_time write_access_point_rlz
    read_access_point_rlz clear_access_point_rlz add_product_event read_product_events
    clear_product_event clear_all_product_events add_stateful_event is_stateful_event
    clear_all_stateful_events
mac_store locks has_access brand = record {
  get_store = locks;
  has_access = has_access;
  write_ping_time = write_ping_time brand;
  read_ping_time = λ dict p. (read_ping_time brand dict p).0;
  clear_ping_time = clear_ping_time brand;
  write_access_point_rlz = write_access_point_rlz brand;
  read_access_point_rlz = λ dict point size. (read_access_point_rlz brand dict point size).0;
  clear_access_point_rlz = clear_access_point_rlz brand;
  add_product_event = add_product_event brand;
  read_product_events = λ dict p. some (read_product_events brand dict p).0;
  clear_product_event = clear_product_event brand;
  clear_all_product_events = clear_all_product_events brand;
  add_stateful_event = add_stateful_event brand;
  is_stateful_event = λ dict p event. (is_stateful_event brand dict p event).0;
  clear_all_stateful_events = clear_all_stateful_events brand;
  collect_garbage = λ dict. dict;
}
