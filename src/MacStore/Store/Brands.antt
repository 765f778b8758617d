-- ===== src/MacStore/Store/Brands.antt =====
-- What the store of mac/lib/rlz_value_store_mac.mm writes under one brand is not seen under another.

use rlz.Prelude.{
  ◌≡◌, refl, ap, ◌∙◌, Bool, false, [], ◌∷◌, ◌++◌, Option, none, some, Bytes, bytes, bytes_eq, inl,
  inr, Option-cases, arith,
}
use rlz.Enums.{Product}
use rlz.LibValues.{get_product_name, get_access_point_name}
use rlz.LibValues.Names.{get_product_name-letter, letter_capital}
use rlz.ValueStore.{AccessType}
use rlz.ValueStore.Writes.{
  Write, write_ping, clear_ping, write_rlz, clear_rlz, add_event, clear_event, clear_every_event,
  add_stateful, clear_stateful, apply_write,
}
use rlz.MacStore.Dict.{
  Object, number, string, dictionary, Dict, object_for_key, set_object, remove_object, as_number,
  as_dict, dict_or_empty, sub_dict, change_in, sub_dict-change_in, object_for_key-set_object,
}
use rlz.MacStore.Store.{
  ping_time_key, access_point_key, product_event_key, stateful_event_key, working_dict,
  in_working_dict, product_dict, in_product_dict, in_found, mac_store,
}
use rlz.MacStore.Store
use rlz.MacStore.Store.Views.{rlz_dict, rlz_named, events_in, view_of}

abbrev brand_key : Bytes → Bytes
brand_key brand = bytes "brand_" ++ brand

name_no_brand :
    (p : Product) (brand : Bytes) → bytes_eq (get_product_name p) (brand_key brand) ≡ false
name_no_brand p brand = rw (get_product_name-letter p) (ground (arith, letter_capital p))

brand_no_name :
    (p : Product) (brand : Bytes) → bytes_eq (brand_key brand) (get_product_name p) ≡ false
brand_no_name p brand = rw (get_product_name-letter p) (ground (arith, letter_capital p))

-- A change of the working dictionary that leaves the dictionaries of brands alone.
abbrev Local : (Dict → Dict) → Type 0
Local change =
    (w : Dict) (brand : Bytes)
    → sub_dict (change w) (brand_key brand) ≡ sub_dict w (brand_key brand)

change-Local :
    (k : Bytes) (change : Dict → Dict)
    → ((brand : Bytes) → bytes_eq k (brand_key brand) ≡ false)
    → Local (λ w. change_in w k change)
change-Local k change apart w brand =
    sub_dict-change_in w k (brand_key brand) change ∙ rw (apart brand) refl

found-Local : (change : Dict → Dict) → Local (λ w. in_found w access_point_key change)
found-Local change w brand = elim (Option-cases (as_dict (object_for_key w access_point_key))) [
  | inl nothing ↦ rw (in_found, nothing) refl
  | inr (d, found) ↦
      rw (in_found, found)
        (ap (λ (o : Option Object). dict_or_empty (as_dict o))
          (object_for_key-set_object w access_point_key (brand_key brand) (dictionary (change d))))
]

-- What the store under the brand `b` looks at, after a change under the brand `a`.
brand_kept :
    (a b : Bytes) (dict : Dict) (change : Dict → Dict) (n : Bytes)
    → bytes_eq a b ≡ false
    → Local change
    → ((brand : Bytes) → bytes_eq (brand_key brand) n ≡ false)
    → sub_dict (working_dict b (in_working_dict a dict change)) n ≡ sub_dict (working_dict b dict) n
brand_kept [] [] dict change n differ local key = absurd (ground arith)
brand_kept [] (d ∷ b) dict change n differ local key = ap (λ w. sub_dict w n) (local dict (d ∷ b))
brand_kept (c ∷ a) [] dict change n differ local key =
    sub_dict-change_in dict (brand_key (c ∷ a)) n change ∙ rw (key (c ∷ a)) refl
brand_kept (c ∷ a) (d ∷ b) dict change n differ local key =
    ap (λ w. sub_dict w n)
      (sub_dict-change_in dict (brand_key (c ∷ a)) (brand_key (d ∷ b)) change ∙ rw differ refl)

view_kept :
    (a b : Bytes) (dict : Dict) (change : Dict → Dict)
    → bytes_eq a b ≡ false
    → Local change
    → view_of b (in_working_dict a dict change) ≡ view_of b dict
view_kept a b dict change differ local = λ i. record {
  ping_time = λ p. as_number (object_for_key (product p i) ping_time_key);
  rlz = λ p. rlz_named (rlzs i) (get_access_point_name p);
  product_event = λ p. events_in product_event_key (product p i);
  stateful_event = λ p. events_in stateful_event_key (product p i);
}
  where
    product :
        (p : Product) → product_dict b (in_working_dict a dict change) p ≡ product_dict b dict p
    product p = brand_kept a b dict change (get_product_name p) differ local (brand_no_name p)

    rlzs : rlz_dict b (in_working_dict a dict change) ≡ rlz_dict b dict
    rlzs = brand_kept a b dict change access_point_key differ local (λ brand. refl)

product_view_kept :
    (a b : Bytes) (dict : Dict) (p : Product) (change : Dict → Dict)
    → bytes_eq a b ≡ false
    → view_of b (in_product_dict a dict p change) ≡ view_of b dict
product_view_kept a b dict p change differ =
    view_kept a b dict (λ w. change_in w (get_product_name p) change) differ
      (change-Local (get_product_name p) change (name_no_brand p))

rlz_write_kept :
    (a b : Bytes) (dict : Dict) (name : Option Bytes) (rlz : Bytes)
    → bytes_eq a b ≡ false
    → view_of b (Store.write_named_rlz a dict name rlz).1 ≡ view_of b dict
unfolding Store.write_named_rlz
rlz_write_kept a b dict none rlz differ = refl
rlz_write_kept a b dict (some name) rlz differ =
    view_kept a b dict (λ w. change_in w access_point_key (λ d. set_object d name (string rlz)))
      differ (change-Local access_point_key (λ d. set_object d name (string rlz)) (λ brand. refl))

rlz_clear_kept :
    (a b : Bytes) (dict : Dict) (name : Option Bytes)
    → bytes_eq a b ≡ false
    → view_of b (Store.clear_named_rlz a dict name).1 ≡ view_of b dict
unfolding Store.clear_named_rlz
rlz_clear_kept a b dict none differ = refl
rlz_clear_kept a b dict (some name) differ =
    view_kept a b dict (λ w. in_found w access_point_key (λ d. remove_object d name)) differ
      (found-Local (λ d. remove_object d name))

-- For any two different brands, of which one may be empty: no call that writes under one brand changes an
-- RLZ, a ping time, an event or a stateful event that the store of Mac shows under the other.
pub mac_brands_isolated :
    (locks : Dict → Bool) (has_access : Dict → AccessType → Bool) (a b : Bytes) (w : Write)
    (dict : Dict)
    → bytes_eq a b ≡ false
    → view_of b (apply_write (mac_store locks has_access a) w dict).1 ≡ view_of b dict
unfolding apply_write mac_store Store.write_ping_time Store.clear_ping_time
    Store.write_access_point_rlz Store.clear_access_point_rlz Store.add_product_event
    Store.mark_event Store.clear_product_event Store.clear_all_product_events
    Store.add_stateful_event Store.clear_all_stateful_events
mac_brands_isolated locks has_access a b (write_rlz point rlz) dict differ =
    rlz_write_kept a b dict (get_access_point_name point) rlz differ
mac_brands_isolated locks has_access a b (clear_rlz point) dict differ =
    rlz_clear_kept a b dict (get_access_point_name point) differ
mac_brands_isolated locks has_access a b (write_ping p time) dict differ =
    product_view_kept a b dict p (λ d. set_object d ping_time_key (number time)) differ
mac_brands_isolated locks has_access a b (clear_ping p) dict differ =
    product_view_kept a b dict p (λ d. remove_object d ping_time_key) differ
mac_brands_isolated locks has_access a b (add_event p e) dict differ =
    product_view_kept a b dict p
      (λ d. change_in d product_event_key (λ events. set_object events e (number 1))) differ
mac_brands_isolated locks has_access a b (clear_event p e) dict differ =
    product_view_kept a b dict p
      (λ d. in_found d product_event_key (λ events. remove_object events e)) differ
mac_brands_isolated locks has_access a b (clear_every_event p) dict differ =
    product_view_kept a b dict p (λ d. remove_object d product_event_key) differ
mac_brands_isolated locks has_access a b (add_stateful p e) dict differ =
    product_view_kept a b dict p
      (λ d. change_in d stateful_event_key (λ events. set_object events e (number 1))) differ
mac_brands_isolated locks has_access a b (clear_stateful p) dict differ =
    product_view_kept a b dict p (λ d. remove_object d stateful_event_key) differ
