-- ===== src/MacStore/Store/Contract.antt =====
-- The store of mac/lib/rlz_value_store_mac.mm keeps the contract of lib/rlz_value_store.h.
use mathlib.Core.Path.{fun_ext}
use rlz.Prelude.{
  ℕ, ◌≡◌, ◌≢◌, refl, ap, Bool, true, false, List, Option, none, some, Bytes, bytes_eq,
  bytes_eq_refl, bytes_eq_sound, if◌then◌else◌,
}
use rlz.Enums.{Product}
use rlz.LibValues.{get_access_point_name}
use rlz.ValueStore.{AccessType, StoreLaws, contains_by}
use rlz.MacStore.Dict.{
  number, Dict, object_for_key, set_object, remove_object, as_number, as_dict, is_there,
  dict_or_empty, change_in, object_for_key-set_object, object_for_key-remove_object, keys-objects,
}
use rlz.MacStore.Store
use rlz.MacStore.Store.{
  ping_time_key, access_point_key, product_event_key, stateful_event_key, working_dict,
  in_working_dict, product_dict, in_product_dict, in_found, is_some, marked, mac_store,
}
use rlz.MacStore.Store.Views
use rlz.MacStore.Store.Views.{rlz_named, rlz_dict, events_in, view_of, text_of}
use rlz.MacStore.Store.Changes.{ping_changed, event_changed, stateful_changed}
use rlz.MacStore.Store.Events.{
  events_after_set, events_after_remove, events_removed, event_marked, event_unmarked,
  events_elsewhere, events_found_elsewhere,
}
use rlz.MacStore.Store.Points.{rlz_read, rlz_written, rlz_cleared}

module _ (brand : Bytes) where
  pub ping_written :
      (dict dict' : Dict) (p : Product) (time : ℕ)
      → Store.write_ping_time brand dict p time ≡ (true, dict')
      → ((view_of brand dict').ping_time p ≡ some time)
        × ((q : Product)
            → q ≢ p
            → (view_of brand dict').ping_time q ≡ (view_of brand dict).ping_time q)
        × ((view_of brand dict').product_event ≡ (view_of brand dict).product_event)
  unfolding Store.write_ping_time
  ping_written dict dict' p time h = rw (← (ap (λ (x : Bool × Dict). x.1) h)) (
      ping_changed brand dict p (λ d. set_object d ping_time_key (number time)) (some time)
        (ap as_number (
          object_for_key-set_object (product_dict brand dict p) ping_time_key ping_time_key
            (number time)))
        (events_after_set (product_dict brand dict p) product_event_key ping_time_key (number time)
          refl))

  pub ping_cleared :
      (dict dict' : Dict) (p : Product)
      → Store.clear_ping_time brand dict p ≡ (true, dict')
      → ((view_of brand dict').ping_time p ≡ none)
        × ((q : Product)
            → q ≢ p
            → (view_of brand dict').ping_time q ≡ (view_of brand dict).ping_time q)
        × ((view_of brand dict').product_event ≡ (view_of brand dict).product_event)
  unfolding Store.clear_ping_time
  ping_cleared dict dict' p h = rw (← (ap (λ (x : Bool × Dict). x.1) h)) (
      ping_changed brand dict p (λ d. remove_object d ping_time_key) none
        (ap as_number
          (object_for_key-remove_object (product_dict brand dict p) ping_time_key ping_time_key))
        (events_after_remove (product_dict brand dict p) product_event_key ping_time_key refl))

  pub event_added :
      (dict dict' : Dict) (p : Product) (e : Bytes)
      → Store.add_product_event brand dict p e ≡ (true, dict')
      → ((f : Bytes)
          → (view_of brand dict').product_event p f
            ≡ (if bytes_eq e f then true else (view_of brand dict).product_event p f))
        × ((q : Product)
            → q ≢ p
            → (view_of brand dict').product_event q ≡ (view_of brand dict).product_event q)
        × ((view_of brand dict').rlz ≡ (view_of brand dict).rlz)
        × ((view_of brand dict').stateful_event ≡ (view_of brand dict).stateful_event)
  unfolding Store.add_product_event Store.mark_event
  event_added dict dict' p e h = rw (← (ap (λ (x : Bool × Dict). x.1) h)) (
      event_changed brand dict p
        (λ d. change_in d product_event_key (λ events. set_object events e (number 1)))
        (λ f. if bytes_eq e f then true else (view_of brand dict).product_event p f)
        (event_marked (product_dict brand dict p) product_event_key e)
        (events_elsewhere (product_dict brand dict p) stateful_event_key product_event_key
          (λ events. set_object events e (number 1)) refl))

  pub event_cleared :
      (dict dict' : Dict) (p : Product) (e : Bytes)
      → Store.clear_product_event brand dict p e ≡ (true, dict')
      → ((f : Bytes)
          → (view_of brand dict').product_event p f
            ≡ (if bytes_eq e f then false else (view_of brand dict).product_event p f))
        × ((q : Product)
            → q ≢ p
            → (view_of brand dict').product_event q ≡ (view_of brand dict).product_event q)
        × ((view_of brand dict').rlz ≡ (view_of brand dict).rlz)
        × ((view_of brand dict').stateful_event ≡ (view_of brand dict).stateful_event)
  unfolding Store.clear_product_event
  event_cleared dict dict' p e h = rw (← (ap (λ (x : Bool × Dict). x.1) h)) (
      event_changed brand dict p
        (λ d. in_found d product_event_key (λ events. remove_object events e))
        (λ f. if bytes_eq e f then false else (view_of brand dict).product_event p f)
        (event_unmarked (product_dict brand dict p) product_event_key e)
        (events_found_elsewhere (product_dict brand dict p) stateful_event_key product_event_key
          (λ events. remove_object events e) refl refl))

  pub all_events_cleared :
      (dict dict' : Dict) (p : Product)
      → Store.clear_all_product_events brand dict p ≡ (true, dict')
      → ((e : Bytes) → (view_of brand dict').product_event p e ≡ false)
        × ((q : Product)
            → q ≢ p
            → (view_of brand dict').product_event q ≡ (view_of brand dict).product_event q)
        × ((view_of brand dict').rlz ≡ (view_of brand dict).rlz)
        × ((view_of brand dict').stateful_event ≡ (view_of brand dict).stateful_event)
  unfolding Store.clear_all_product_events
  all_events_cleared dict dict' p h = rw (← (ap (λ (x : Bool × Dict). x.1) h)) (
      event_changed brand dict p (λ d. remove_object d product_event_key) (λ f. false)
        (events_removed (product_dict brand dict p) product_event_key)
        (events_after_remove (product_dict brand dict p) stateful_event_key product_event_key refl))

  pub stateful_added :
      (dict dict' : Dict) (p : Product) (e : Bytes)
      → Store.add_stateful_event brand dict p e ≡ (true, dict')
      → ((f : Bytes)
          → (view_of brand dict').stateful_event p f
            ≡ (if bytes_eq e f then true else (view_of brand dict).stateful_event p f))
        × ((q : Product)
            → q ≢ p
            → (view_of brand dict').stateful_event q ≡ (view_of brand dict).stateful_event q)
        × ((view_of brand dict').product_event ≡ (view_of brand dict).product_event)
  unfolding Store.add_stateful_event Store.mark_event
  stateful_added dict dict' p e h = rw (← (ap (λ (x : Bool × Dict). x.1) h)) (
      stateful_changed brand dict p
        (λ d. change_in d stateful_event_key (λ events. set_object events e (number 1)))
        (λ f. if bytes_eq e f then true else (view_of brand dict).stateful_event p f)
        (event_marked (product_dict brand dict p) stateful_event_key e)
        (events_elsewhere (product_dict brand dict p) product_event_key stateful_event_key
          (λ events. set_object events e (number 1)) refl))

  pub all_stateful_cleared :
      (dict dict' : Dict) (p : Product)
      → Store.clear_all_stateful_events brand dict p ≡ (true, dict')
      → ((e : Bytes) → (view_of brand dict').stateful_event p e ≡ false)
        × ((q : Product)
            → q ≢ p
            → (view_of brand dict').stateful_event q ≡ (view_of brand dict).stateful_event q)
        × ((view_of brand dict').product_event ≡ (view_of brand dict).product_event)
  unfolding Store.clear_all_stateful_events
  all_stateful_cleared dict dict' p h = rw (← (ap (λ (x : Bool × Dict). x.1) h)) (
      stateful_changed brand dict p (λ d. remove_object d stateful_event_key) (λ f. false)
        (events_removed (product_dict brand dict p) stateful_event_key)
        (events_after_remove (product_dict brand dict p) product_event_key stateful_event_key refl))

  pub events_read :
      (dict : Dict) (p : Product) (es : List Bytes)
      → some (Store.read_product_events brand dict p).0 ≡ some es
      → (e : Bytes) → contains_by bytes_eq es e ≡ (view_of brand dict).product_event p e
  unfolding Store.read_product_events
  events_read dict p es h e =
      rw (← (some_injective (Store.read_product_events brand dict p).0 es h))
        (listed (as_dict (object_for_key (product_dict brand dict p) product_event_key)))
    where
      some_injective : (xs ys : List Bytes) → some xs ≡ some ys → xs ≡ ys
      some_injective xs ys same =
          ap (λ (o : Option (List Bytes)). elim o [ none ↦ xs | some zs ↦ zs ]) same

      listed :
          (o : Option Dict)
          → contains_by bytes_eq (Store.events_of brand o) e
            ≡ is_there (object_for_key (dict_or_empty o) e)
      listed none = refl
      listed (some d) = keys-objects d e

  pub stateful_read :
      (dict : Dict) (p : Product) (e : Bytes)
      → (Store.is_stateful_event brand dict p e).0 ≡ (view_of brand dict).stateful_event p e
  unfolding Store.is_stateful_event
  stateful_read dict p e =
      seen (as_dict (object_for_key (product_dict brand dict p) stateful_event_key))
    where
      seen : (o : Option Dict) → marked o e ≡ is_there (object_for_key (dict_or_empty o) e)
      seen none = refl
      seen (some d) = refl

-- The dictionaries that a read of a product's entries creates show nothing.
reads_unseen :
    (brand : Bytes) (dict : Dict) (p q : Product)
    → ((view_of brand (Store.read_ping_time brand dict p).1).ping_time q
        ≡ (view_of brand dict).ping_time q)
      × ((view_of brand (Store.read_ping_time brand dict p).1).rlz ≡ (view_of brand dict).rlz)
      × ((view_of brand (Store.read_ping_time brand dict p).1).product_event q
          ≡ (view_of brand dict).product_event q)
      × ((view_of brand (Store.read_ping_time brand dict p).1).stateful_event q
          ≡ (view_of brand dict).stateful_event q)
unfolding Store.read_ping_time
reads_unseen brand dict p q = (
  Views.unchanged brand dict (λ d. as_number (object_for_key d ping_time_key)) p q (λ d. d) refl,
  fun_ext λ r.
      ap (λ (d : Dict). rlz_named d (get_access_point_name r))
        (Views.rlzs_kept brand dict p (λ d. d)),
  Views.unchanged brand dict (events_in product_event_key) p q (λ d. d) refl,
  Views.unchanged brand dict (events_in stateful_event_key) p q (λ d. d) refl,
)

-- The laws with their view.
unfoldable pub mac_laws :
    (locks : Dict → Bool) (has_access : Dict → AccessType → Bool) (brand : Bytes)
    → StoreLaws (mac_store locks has_access brand)
unfolding mac_store Store.read_ping_time
mac_laws locks has_access brand = record {
  view = view_of brand;
  same_name = bytes_eq;
  same_name_refl = bytes_eq_refl;
  same_name_plain = λ e f plain plain' same. bytes_eq_sound e f same;
  read_rlz = rlz_read brand;
  write_rlz = rlz_written brand;
  clear_rlz = rlz_cleared brand;
  read_ping = λ dict p. refl;
  write_ping = ping_written brand;
  clear_ping = ping_cleared brand;
  read_events = events_read brand;
  add_event = event_added brand;
  clear_event = event_cleared brand;
  clear_all_events = all_events_cleared brand;
  is_stateful = stateful_read brand;
  add_stateful = stateful_added brand;
  clear_all_stateful = all_stateful_cleared brand;
}
