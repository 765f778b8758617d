-- ===== src/MacStore/Store/Events.antt =====
-- The events in the dictionaries of mac/lib/rlz_value_store_mac.mm after a change.
use mathlib.Core.Path.{fun_ext}
use rlz.Prelude.{
  ◌≡◌, refl, ap, ◌∙◌, Bool, true, false, Option, none, some, Bytes, bytes_eq, bytes_eq_refl,
  if◌then◌else◌,
}
use rlz.MacStore.Dict.{
  Object, number, dictionary, Dict, empty, object_for_key, set_object, remove_object, as_dict,
  is_there, dict_or_empty, sub_dict, change_in, object_for_key-set_object,
  object_for_key-remove_object, sub_dict-change_in,
}
use rlz.MacStore.Store.{in_found}
use rlz.MacStore.Store.Views.{events_in}
use rlz.MacStore.Store.Changes.{dict_after_set, dict_after_remove, removed_key, sub_dict-in_found}

-- The events of a product's dictionary after a change.
module _ (d : Dict) (key : Bytes) where
  pub events_after_set :
      (k : Bytes) (v : Object)
      → bytes_eq k key ≡ false
      → events_in key (set_object d k v) ≡ events_in key d
  events_after_set k v other = fun_ext λ e.
      ap (λ (o : Option Object). is_there (object_for_key (dict_or_empty (as_dict o)) e))
        (dict_after_set d k key v other)

  pub events_after_remove :
      (k : Bytes) → bytes_eq k key ≡ false → events_in key (remove_object d k) ≡ events_in key d
  events_after_remove k other = fun_ext λ e.
      ap (λ (o : Option Object). is_there (object_for_key (dict_or_empty (as_dict o)) e))
        (dict_after_remove d k key other)

  pub events_removed : (e : Bytes) → events_in key (remove_object d key) e ≡ false
  events_removed e =
      ap (λ (o : Option Object). is_there (object_for_key (dict_or_empty (as_dict o)) e))
        (removed_key d key)

  pub event_marked :
      (e f : Bytes)
      → events_in key (change_in d key (λ events. set_object events e (number 1))) f
        ≡ (if bytes_eq e f then true else events_in key d f)
  event_marked e f =
      ap (λ (events : Dict). is_there (object_for_key events f))
        (sub_dict-change_in d key key (λ events. set_object events e (number 1))
          ∙ rw (bytes_eq_refl key))
      ∙ (ap is_there (object_for_key-set_object (sub_dict d key) e f (number 1))
          ∙ chosen (bytes_eq e f) (object_for_key (sub_dict d key) f))
    where
      chosen :
          (b : Bool) (o : Option Object)
          → is_there (if b then some (number 1) else o) ≡ (if b then true else is_there o)
      chosen true o = refl
      chosen false o = refl

  pub event_unmarked :
      (e f : Bytes)
      → events_in key (in_found d key (λ events. remove_object events e)) f
        ≡ (if bytes_eq e f then false else events_in key d f)
  event_unmarked e f =
      ap (λ (events : Dict). is_there (object_for_key events f))
        (sub_dict-in_found d key key (λ events. remove_object events e) refl
          ∙ rw (bytes_eq_refl key))
      ∙ (ap is_there (object_for_key-remove_object (sub_dict d key) e f)
          ∙ chosen (bytes_eq e f) (object_for_key (sub_dict d key) f))
    where
      chosen :
          (b : Bool) (o : Option Object)
          → is_there (if b then none else o) ≡ (if b then false else is_there o)
      chosen true o = refl
      chosen false o = refl

  -- From another key.
  pub events_elsewhere :
      (k : Bytes) (change : Dict → Dict)
      → bytes_eq k key ≡ false
      → events_in key (change_in d k change) ≡ events_in key d
  events_elsewhere k change other = events_after_set k (dictionary (change (sub_dict d k))) other

  pub events_found_elsewhere :
      (k : Bytes) (change : Dict → Dict)
      → change empty ≡ empty
      → bytes_eq k key ≡ false
      → events_in key (in_found d k change) ≡ events_in key d
  events_found_elsewhere k change keeps other = fun_ext λ e.
      ap (λ (events : Dict). is_there (object_for_key events e))
        (sub_dict-in_found d k key change keeps ∙ rw other)
