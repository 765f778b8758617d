-- ===== src/MacStore/Store/Views.antt =====
-- What the dictionaries of mac/lib/rlz_value_store_mac.mm show after a change of one of them.

use rlz.Prelude.{
  ℕ, ◌≡◌, ◌≢◌, sym, ap, ◌∙◌, Bool, false, [], ◌∷◌, ◌++◌, Option, none, some, Bytes, bytes, bytes_eq,
  bytes_eq_refl, bytes_eq_sound, is_empty, inl, inr, Bool-cases, if◌then◌else◌, arith,
}
use rlz.Enums.{Product}
use rlz.LibValues.{get_access_point_name, get_product_name}
use rlz.LibValues.Names.{letter, get_product_name-letter, letter_injective}
use rlz.ValueStore.{View}
use rlz.MacStore.Dict.{
  Dict, object_for_key, as_number, as_string, is_there, sub_dict, change_in, sub_dict-change_in,
}
use rlz.MacStore.Store.{
  ping_time_key, access_point_key, product_event_key, stateful_event_key, working_dict,
  in_working_dict, product_dict, in_product_dict,
}

abbrev pub text_of : Option Bytes → Bytes
text_of none = []
text_of (some s) = s

abbrev pub rlz_named : Dict → Option Bytes → Bytes
rlz_named d none = []
rlz_named d (some name) = text_of (as_string (object_for_key d name))

-- The RLZs' dictionary.
abbrev pub rlz_dict : Bytes → Dict → Dict
rlz_dict brand dict = sub_dict (working_dict brand dict) access_point_key

-- The events in the dictionary of a product.
abbrev pub events_in : Bytes → Dict → Bytes → Bool
events_in key d e = is_there (object_for_key (sub_dict d key) e)

abbrev pub view_of : Bytes → Dict → View
view_of brand dict = record {
  ping_time = λ p. as_number (object_for_key (product_dict brand dict p) ping_time_key);
  rlz = λ p. rlz_named (rlz_dict brand dict) (get_access_point_name p);
  product_event = λ p. events_in product_event_key (product_dict brand dict p);
  stateful_event = λ p. events_in stateful_event_key (product_dict brand dict p);
}

names_apart : (p q : Product) → q ≢ p → bytes_eq (get_product_name p) (get_product_name q) ≡ false
names_apart p q ne = elim (Bool-cases (bytes_eq (get_product_name p) (get_product_name q))) [
  | inl same ↦ absurd (
      ne (
        letter_injective q p (
          letters (letter q) (letter p) (
            rw (← (get_product_name-letter p), ← (get_product_name-letter q))
              (sym (bytes_eq_sound (get_product_name p) (get_product_name q) same))))))
  | inr other ↦ other
]
  where
    letters : (a b : ℕ) → ◌≡◌ {A = Bytes} (a ∷ []) (b ∷ []) → a ≡ b
    letters a b h = ground arith

name_no_key : (p : Product) → bytes_eq (get_product_name p) access_point_key ≡ false
name_no_key p = rw (get_product_name-letter p) (ground arith)

pub key_no_name : (p : Product) → bytes_eq access_point_key (get_product_name p) ≡ false
key_no_name p = rw (get_product_name-letter p) (ground arith)

module _ (brand : Bytes) (dict : Dict) where
  pub working-in_working :
      (change : Dict → Dict)
      → working_dict brand (in_working_dict brand dict change) ≡ change (working_dict brand dict)
  working-in_working change = elim (Bool-cases (is_empty brand)) [
    | inl plain ↦ rw plain
    | inr branded ↦ rw branded (
        sub_dict-change_in dict (bytes "brand_" ++ brand) (bytes "brand_" ++ brand) change
        ∙ rw (bytes_eq_refl (bytes "brand_" ++ brand)))
  ]

  pub product_changed :
      (p : Product) (change : Dict → Dict)
      → product_dict brand (in_product_dict brand dict p change) p
        ≡ change (product_dict brand dict p)
  product_changed p change =
      ap (λ (w : Dict). sub_dict w (get_product_name p))
        (working-in_working (λ w. change_in w (get_product_name p) change))
      ∙ (sub_dict-change_in (working_dict brand dict) (get_product_name p) (get_product_name p)
            change
          ∙ rw (bytes_eq_refl (get_product_name p)))

  pub product_kept :
      (p q : Product) (change : Dict → Dict)
      → q ≢ p
      → product_dict brand (in_product_dict brand dict p change) q ≡ product_dict brand dict q
  product_kept p q change ne =
      ap (λ (w : Dict). sub_dict w (get_product_name q))
        (working-in_working (λ w. change_in w (get_product_name p) change))
      ∙ (sub_dict-change_in (working_dict brand dict) (get_product_name p) (get_product_name q)
            change
          ∙ rw (names_apart p q ne))

  pub rlzs_kept :
      (p : Product) (change : Dict → Dict)
      → rlz_dict brand (in_product_dict brand dict p change) ≡ rlz_dict brand dict
  rlzs_kept p change =
      ap (λ (w : Dict). sub_dict w access_point_key)
        (working-in_working (λ w. change_in w (get_product_name p) change))
      ∙ (sub_dict-change_in (working_dict brand dict) (get_product_name p) access_point_key change
          ∙ rw (name_no_key p))

  -- What a change of one product's dictionary leaves alone, seen from every product.
  pub unchanged :
      {A : Type 0} (see : Dict → A) (p q : Product) (change : Dict → Dict)
      → see (change (product_dict brand dict p)) ≡ see (product_dict brand dict p)
      → see (product_dict brand (in_product_dict brand dict p change) q)
        ≡ see (product_dict brand dict q)
  unchanged see p q change same =
      ap (λ (w : Dict). see (sub_dict w (get_product_name q)))
        (working-in_working (λ w. change_in w (get_product_name p) change))
      ∙ (ap see (
            sub_dict-change_in (working_dict brand dict) (get_product_name p) (get_product_name q)
              change)
          ∙ chosen)
    where
      chosen :
          see (
            if bytes_eq (get_product_name p) (get_product_name q)
            then change (product_dict brand dict p)
            else product_dict brand dict q)
          ≡ see (product_dict brand dict q)
      chosen = elim (Bool-cases (bytes_eq (get_product_name p) (get_product_name q))) [
        | inl here ↦ rw here (
            same
            ∙ ap (λ (name : Bytes). see (sub_dict (working_dict brand dict) name))
                (bytes_eq_sound (get_product_name p) (get_product_name q) here))
        | inr elsewhere ↦ rw elsewhere
      ]

  -- A change of the RLZs' dictionary, seen from there and from a product.
  pub rlzs_changed :
      (change : Dict → Dict)
      → rlz_dict brand (in_working_dict brand dict (λ w. change_in w access_point_key change))
        ≡ change (rlz_dict brand dict)
  rlzs_changed change =
      ap (λ (w : Dict). sub_dict w access_point_key)
        (working-in_working (λ w. change_in w access_point_key change))
      ∙ sub_dict-change_in (working_dict brand dict) access_point_key access_point_key change

  pub products_kept :
      (q : Product) (change : Dict → Dict)
      → product_dict brand (in_working_dict brand dict (λ w. change_in w access_point_key change)) q
        ≡ product_dict brand dict q
  products_kept q change =
      ap (λ (w : Dict). sub_dict w (get_product_name q))
        (working-in_working (λ w. change_in w access_point_key change))
      ∙ (sub_dict-change_in (working_dict brand dict) access_point_key (get_product_name q) change
          ∙ rw (key_no_name q))
