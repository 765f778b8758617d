-- ===== src/MacStore/Store/Changes.antt =====
-- What a change of the dictionaries of mac/lib/rlz_value_store_mac.mm is for a client.
use mathlib.Core.Path.{fun_ext}
use rlz.Prelude.{
  ℕ, ◌≡◌, ◌≢◌, refl, sym, ap, ◌∙◌, Bool, true, false, Option, none, some, Bytes, bytes_eq,
  bytes_eq_refl, bytes_eq_sound, inl, inr, Bool-cases, Option-cases, if◌then◌else◌,
}
use rlz.Enums.{AccessPoint, Product}
use rlz.LibValues.{get_access_point_name, get_product_name}
use rlz.LibValues.Names.{get_access_point_name_injective}
use rlz.MacStore.Dict.{
  Object, dictionary, Dict, empty, object_for_key, set_object, remove_object, as_number, as_string,
  as_dict, dict_or_empty, sub_dict, object_for_key-set_object, object_for_key-remove_object,
  sub_dict-change_in,
}
use rlz.MacStore.Store.{
  ping_time_key, access_point_key, product_event_key, stateful_event_key, working_dict,
  in_working_dict, product_dict, in_product_dict, in_found,
}
use rlz.MacStore.Store.Views
use rlz.MacStore.Store.Views.{rlz_named, rlz_dict, events_in, view_of, text_of}

-- Seen from a key: a dictionary in which another object was set, or removed.
pub dict_after_set :
    (d : Dict) (k n : Bytes) (v : Object)
    → bytes_eq k n ≡ false
    → object_for_key (set_object d k v) n ≡ object_for_key d n
dict_after_set d k n v other = object_for_key-set_object d k n v ∙ rw other

pub dict_after_remove :
    (d : Dict) (k n : Bytes)
    → bytes_eq k n ≡ false
    → object_for_key (remove_object d k) n ≡ object_for_key d n
dict_after_remove d k n other = object_for_key-remove_object d k n ∙ rw other

pub removed_key : (d : Dict) (k : Bytes) → object_for_key (remove_object d k) k ≡ none
removed_key d k = object_for_key-remove_object d k k ∙ rw (bytes_eq_refl k)

pub sub_dict-in_found :
    (d : Dict) (k n : Bytes) (change : Dict → Dict)
    → change empty ≡ empty
    → sub_dict (in_found d k change) n
      ≡ (if bytes_eq k n then change (sub_dict d k) else sub_dict d n)
sub_dict-in_found d k n change keeps = found_case (as_dict (object_for_key d k)) refl
  where
    found_case :
        (o : Option Dict)
        → as_dict (object_for_key d k) ≡ o
        → sub_dict
            (elim o as (λ _. Dict) [ none ↦ d | some x ↦ set_object d k (dictionary (change x)) ])
            n
          ≡ (if bytes_eq k n then change (sub_dict d k) else sub_dict d n)
    found_case none e = elim (Bool-cases (bytes_eq k n)) [
      | inl same ↦
          let nothing : sub_dict d k ≡ empty = ap dict_or_empty e in
          rw same (
            ap (sub_dict d) (sym (bytes_eq_sound k n same))
            ∙ (nothing ∙ (sym keeps ∙ ap change (sym nothing))))
      | inr other ↦ rw other
    ]
    found_case (some x) e =
        ap (λ (y : Dict). sub_dict (set_object d k (dictionary (change y))) n)
          (sym (ap dict_or_empty e))
        ∙ sub_dict-change_in d k n change

module _ (brand : Bytes) (dict : Dict) where
  pub ping_changed :
      (p : Product) (change : Dict → Dict) (time : Option ℕ)
      → as_number (object_for_key (change (product_dict brand dict p)) ping_time_key) ≡ time
      → events_in product_event_key (change (product_dict brand dict p))
        ≡ events_in product_event_key (product_dict brand dict p)
      → ((view_of brand (in_product_dict brand dict p change)).ping_time p ≡ time)
        × ((q : Product)
            → q ≢ p
            → (view_of brand (in_product_dict brand dict p change)).ping_time q
              ≡ (view_of brand dict).ping_time q)
        × ((view_of brand (in_product_dict brand dict p change)).product_event
            ≡ (view_of brand dict).product_event)
  ping_changed p change time now keeps = (
    ap (λ (d : Dict). as_number (object_for_key d ping_time_key))
          (Views.product_changed brand dict p change)
        ∙ now,
    λ q ne.
        ap (λ (d : Dict). as_number (object_for_key d ping_time_key))
          (Views.product_kept brand dict p q change ne),
    fun_ext λ q. Views.unchanged brand dict (events_in product_event_key) p q change keeps,
  )

  pub event_changed :
      (p : Product) (change : Dict → Dict) (events : Bytes → Bool)
      → ((f : Bytes)
          → events_in product_event_key (change (product_dict brand dict p)) f ≡ events f)
      → events_in stateful_event_key (change (product_dict brand dict p))
        ≡ events_in stateful_event_key (product_dict brand dict p)
      → ((f : Bytes)
          → (view_of brand (in_product_dict brand dict p change)).product_event p f ≡ events f)
        × ((q : Product)
            → q ≢ p
            → (view_of brand (in_product_dict brand dict p change)).product_event q
              ≡ (view_of brand dict).product_event q)
        × ((view_of brand (in_product_dict brand dict p change)).rlz ≡ (view_of brand dict).rlz)
        × ((view_of brand (in_product_dict brand dict p change)).stateful_event
            ≡ (view_of brand dict).stateful_event)
  event_changed p change events now keeps = (
    λ f.
        ap (λ (d : Dict). events_in product_event_key d f)
          (Views.product_changed brand dict p change)
        ∙ now f,
    λ q ne. ap (events_in product_event_key) (Views.product_kept brand dict p q change ne),
    fun_ext λ q.
        ap (λ (d : Dict). rlz_named d (get_access_point_name q))
          (Views.rlzs_kept brand dict p change),
    fun_ext λ q. Views.unchanged brand dict (events_in stateful_event_key) p q change keeps,
  )

  pub stateful_changed :
      (p : Product) (change : Dict → Dict) (events : Bytes → Bool)
      → ((f : Bytes)
          → events_in stateful_event_key (change (product_dict brand dict p)) f ≡ events f)
      → events_in product_event_key (change (product_dict brand dict p))
        ≡ events_in product_event_key (product_dict brand dict p)
      → ((f : Bytes)
          → (view_of brand (in_product_dict brand dict p change)).stateful_event p f ≡ events f)
        × ((q : Product)
            → q ≢ p
            → (view_of brand (in_product_dict brand dict p change)).stateful_event q
              ≡ (view_of brand dict).stateful_event q)
        × ((view_of brand (in_product_dict brand dict p change)).product_event
            ≡ (view_of brand dict).product_event)
  stateful_changed p change events now keeps = (
    λ f.
        ap (λ (d : Dict). events_in stateful_event_key d f)
          (Views.product_changed brand dict p change)
        ∙ now f,
    λ q ne. ap (events_in stateful_event_key) (Views.product_kept brand dict p q change ne),
    fun_ext λ q. Views.unchanged brand dict (events_in product_event_key) p q change keeps,
  )

  pub rlz_changed :
      (p : AccessPoint) (name rlz : Bytes) (change : Dict → Dict)
      → get_access_point_name p ≡ some name
      → ((n : Bytes)
          → bytes_eq name n ≡ true
          → text_of (
              as_string
                (object_for_key (sub_dict (change (working_dict brand dict)) access_point_key) n))
            ≡ rlz)
      → ((n : Bytes)
          → bytes_eq name n ≡ false
          → object_for_key (sub_dict (change (working_dict brand dict)) access_point_key) n
            ≡ object_for_key (rlz_dict brand dict) n)
      → ((q : Product)
          → sub_dict (change (working_dict brand dict)) (get_product_name q)
            ≡ product_dict brand dict q)
      → ((view_of brand (in_working_dict brand dict change)).rlz p ≡ rlz)
        × ((q : AccessPoint)
            → q ≢ p
            → (view_of brand (in_working_dict brand dict change)).rlz q
              ≡ (view_of brand dict).rlz q)
        × ((view_of brand (in_working_dict brand dict change)).product_event
            ≡ (view_of brand dict).product_event)
  rlz_changed p name rlz change named now keeps products = (
    rw named (
        ap (λ (d : Dict). text_of (as_string (object_for_key d name))) seen
        ∙ now name (bytes_eq_refl name)),
    λ q ne. elim (Option-cases (get_access_point_name q)) [
      | inl nameless ↦ rw nameless
      | inr (other, other_named) ↦ rw other_named (
          ap (λ (d : Dict). text_of (as_string (object_for_key d other))) seen
          ∙ ap (λ (o : Option Object). text_of (as_string o))
              (keeps other (points_apart q other ne other_named)))
    ],
    fun_ext λ q.
        ap (λ (w : Dict). events_in product_event_key (sub_dict w (get_product_name q)))
          (Views.working-in_working brand dict change)
        ∙ ap (events_in product_event_key) (products q),
  )
    where
      seen :
          rlz_dict brand (in_working_dict brand dict change)
          ≡ sub_dict (change (working_dict brand dict)) access_point_key
      seen =
          ap (λ (w : Dict). sub_dict w access_point_key)
            (Views.working-in_working brand dict change)

      points_apart :
          (q : AccessPoint) (other : Bytes)
          → q ≢ p
          → get_access_point_name q ≡ some other
          → bytes_eq name other ≡ false
      points_apart q other ne other_named = elim (Bool-cases (bytes_eq name other)) [
        | inl same ↦ absurd (
            ne (
              get_access_point_name_injective q p other other_named
                (named ∙ ap some (bytes_eq_sound name other same))))
        | inr apart ↦ apart
      ]
