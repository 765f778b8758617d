-- ===== src/MacStore/Store/Points.antt =====
-- The RLZs in the store of mac/lib/rlz_value_store_mac.mm.

use rlz.Prelude.{
  ℕ, ◌<◌, ◌≡◌, ◌≢◌, refl, ap, ◌∙◌, Bool, true, [], Option, none, some, Bytes, inl, inr,
  Option-cases, length, take_all, arith,
}
use rlz.Enums.{AccessPoint}
use rlz.LibValues.{get_access_point_name, get_product_name}
use rlz.MacStore.Dict.{
  Object, string, Dict, object_for_key, set_object, remove_object, as_string, as_dict,
  dict_or_empty, sub_dict, change_in, object_for_key-set_object, object_for_key-remove_object,
  sub_dict-change_in,
}
use rlz.MacStore.Store
use rlz.MacStore.Store.{
  ping_time_key, access_point_key, product_event_key, stateful_event_key, working_dict,
  in_working_dict, product_dict, in_product_dict, in_found, is_some, marked, mac_store,
}
use rlz.MacStore.Store.Views
use rlz.MacStore.Store.Views.{rlz_named, rlz_dict, events_in, view_of, text_of}
use rlz.MacStore.Store.Changes.{dict_after_set, sub_dict-in_found, rlz_changed}

module _ (brand : Bytes) where
  pub rlz_read :
      (dict : Dict) (p : AccessPoint) (name : Bytes) (size : ℕ)
      → get_access_point_name p ≡ some name
      → length ((view_of brand dict).rlz p) < size
      → (Store.read_access_point_rlz brand dict p size).0 ≡ (true, (view_of brand dict).rlz p)
  unfolding Store.read_access_point_rlz Store.read_named_rlz Store.rlz_into
  rlz_read dict p name size named room = rw named (
      into (as_dict (object_for_key (working_dict brand dict) access_point_key)) (rw named at room))
    where
      text_into :
          (o : Option Bytes)
          → length (text_of o) < size
          → Store.rlz_into brand o size ≡ (true, text_of o)
      text_into none room = refl
      text_into (some s) room = ground (arith, take_all size s (omega arith))

      into :
          (o : Option Dict)
          → length (text_of (as_string (object_for_key (dict_or_empty o) name))) < size
          → (elim o as (λ _. Bool × Bytes) [
            | none ↦ (true, [])
            | some d ↦ Store.rlz_into brand (as_string (object_for_key d name)) size
          ])
            ≡ (true, text_of (as_string (object_for_key (dict_or_empty o) name)))
      into none room = refl
      into (some d) room = text_into (as_string (object_for_key d name)) room

  pub rlz_written :
      (dict dict' : Dict) (p : AccessPoint) (rlz : Bytes)
      → Store.write_access_point_rlz brand dict p rlz ≡ (true, dict')
      → ((view_of brand dict').rlz p ≡ rlz)
        × ((q : AccessPoint) → q ≢ p → (view_of brand dict').rlz q ≡ (view_of brand dict).rlz q)
        × ((view_of brand dict').product_event ≡ (view_of brand dict).product_event)
  unfolding Store.write_access_point_rlz Store.write_named_rlz
  rlz_written dict dict' p rlz h = elim (Option-cases (get_access_point_name p)) [
    | inl nameless ↦ absurd (ground (arith, nameless, h))
    | inr (name, named) ↦ rw (← (ap (λ (x : Bool × Dict). x.1) (rw named at h))) (
        rlz_changed brand dict p name rlz
          (λ w. change_in w access_point_key (λ d. set_object d name (string rlz))) named
          (λ n same.
            ap (λ (d : Dict). text_of (as_string (object_for_key d n)))
              (inside (λ d. set_object d name (string rlz)))
            ∙ (ap (λ (o : Option Object). text_of (as_string o))
                  (object_for_key-set_object (rlz_dict brand dict) name n (string rlz))
                ∙ rw same))
          (λ n other.
            ap (λ (d : Dict). object_for_key d n) (inside (λ d. set_object d name (string rlz)))
            ∙ dict_after_set (rlz_dict brand dict) name n (string rlz) other)
          (λ q.
            sub_dict-change_in (working_dict brand dict) access_point_key (get_product_name q)
              (λ d. set_object d name (string rlz))
            ∙ rw (Views.key_no_name q)))
  ]
    where
      inside :
          (change : Dict → Dict)
          → sub_dict (change_in (working_dict brand dict) access_point_key change) access_point_key
            ≡ change (rlz_dict brand dict)
      inside change =
          sub_dict-change_in (working_dict brand dict) access_point_key access_point_key change

  pub rlz_cleared :
      (dict dict' : Dict) (p : AccessPoint)
      → Store.clear_access_point_rlz brand dict p ≡ (true, dict')
      → ((view_of brand dict').rlz p ≡ [])
        × ((q : AccessPoint) → q ≢ p → (view_of brand dict').rlz q ≡ (view_of brand dict).rlz q)
        × ((view_of brand dict').product_event ≡ (view_of brand dict).product_event)
  unfolding Store.clear_access_point_rlz Store.clear_named_rlz
  rlz_cleared dict dict' p h = elim (Option-cases (get_access_point_name p)) [
    | inl nameless ↦ absurd (ground (arith, nameless, h))
    | inr (name, named) ↦ rw (← (ap (λ (x : Bool × Dict). x.1) (rw named at h))) (
        rlz_changed brand dict p name []
          (λ w. in_found w access_point_key (λ d. remove_object d name)) named
          (λ n same.
            ap (λ (d : Dict). text_of (as_string (object_for_key d n))) (inside name)
            ∙ (ap (λ (o : Option Object). text_of (as_string o))
                  (object_for_key-remove_object (rlz_dict brand dict) name n)
                ∙ rw same))
          (λ n other.
            ap (λ (d : Dict). object_for_key d n) (inside name)
            ∙ (object_for_key-remove_object (rlz_dict brand dict) name n ∙ rw other))
          (λ q.
            sub_dict-in_found (working_dict brand dict) access_point_key (get_product_name q)
              (λ d. remove_object d name) refl
            ∙ rw (Views.key_no_name q)))
  ]
    where
      inside :
          (name : Bytes)
          → sub_dict
              (in_found (working_dict brand dict) access_point_key (λ d. remove_object d name))
              access_point_key
            ≡ remove_object (rlz_dict brand dict) name
      inside name =
          sub_dict-in_found (working_dict brand dict) access_point_key access_point_key
            (λ d. remove_object d name) refl
