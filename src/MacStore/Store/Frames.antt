-- ===== src/MacStore/Store/Frames.antt =====
-- What the calls of the store of mac/lib/rlz_value_store_mac.mm that write leave alone.
use mathlib.Core.Path.{fun_ext}
use rlz.Prelude.{
  ◌≡◌, refl, ap, ◌∙◌, Bool, true, false, Option, none, some, Bytes, bytes_eq, inl, inr,
  Option-cases, arith,
}
use rlz.Enums.{AccessPoint, Product}
use rlz.LibValues.{get_product_name, get_access_point_name}
use rlz.ValueStore.{AccessType}
use rlz.ValueStore.Frames.{StoreFrames, ClearsEvents, StoreContract}
use rlz.MacStore.Dict.{
  number, string, dictionary, Dict, object_for_key, set_object, remove_object, as_number, as_dict,
  sub_dict, change_in, sub_dict-change_in,
}
use rlz.MacStore.Store.{
  ping_time_key, access_point_key, product_event_key, stateful_event_key, working_dict,
  in_working_dict, product_dict, in_product_dict, in_found, mac_store,
}
use rlz.MacStore.Store
use rlz.MacStore.Store.Views
use rlz.MacStore.Store.Views.{rlz_named, events_in, view_of}
use rlz.MacStore.Store.Changes.{dict_after_set, dict_after_remove, sub_dict-in_found}
use rlz.MacStore.Store.Events.{events_after_set, events_after_remove, event_unmarked}
use rlz.MacStore.Store.Contract.{mac_laws}

module _ (brand : Bytes) (dict : Dict) where
  all_rlzs_kept :
      (p : Product) (change : Dict → Dict)
      → (view_of brand (in_product_dict brand dict p change)).rlz ≡ (view_of brand dict).rlz
  all_rlzs_kept p change = fun_ext λ r.
      ap (λ (d : Dict). rlz_named d (get_access_point_name r)) (Views.rlzs_kept brand dict p change)

  stateful_kept :
      (p : Product) (change : Dict → Dict)
      → events_in stateful_event_key (change (product_dict brand dict p))
        ≡ events_in stateful_event_key (product_dict brand dict p)
      → (view_of brand (in_product_dict brand dict p change)).stateful_event
        ≡ (view_of brand dict).stateful_event
  stateful_kept p change same =
      fun_ext λ q. Views.unchanged brand dict (events_in stateful_event_key) p q change same

  ping_times_kept :
      (p : Product) (change : Dict → Dict)
      → object_for_key (change (product_dict brand dict p)) ping_time_key
        ≡ object_for_key (product_dict brand dict p) ping_time_key
      → (view_of brand (in_product_dict brand dict p change)).ping_time
        ≡ (view_of brand dict).ping_time
  ping_times_kept p change same = fun_ext λ q.
      Views.unchanged brand dict (λ d. as_number (object_for_key d ping_time_key)) p q change
        (ap as_number same)

  -- A change of the working dictionary that keeps the products' dictionaries.
  products_unseen :
      (change : Dict → Dict)
      → ((q : Product)
          → sub_dict (change (working_dict brand dict)) (get_product_name q)
            ≡ product_dict brand dict q)
      → ((view_of brand (in_working_dict brand dict change)).ping_time
          ≡ (view_of brand dict).ping_time)
        × ((view_of brand (in_working_dict brand dict change)).stateful_event
            ≡ (view_of brand dict).stateful_event)
  products_unseen change same = (
    fun_ext λ q. ap (λ (d : Dict). as_number (object_for_key d ping_time_key)) (products_kept q),
    fun_ext λ q. ap (events_in stateful_event_key) (products_kept q),
  )
    where
      products_kept :
          (q : Product)
          → product_dict brand (in_working_dict brand dict change) q ≡ product_dict brand dict q
      products_kept q =
          ap (λ (w : Dict). sub_dict w (get_product_name q))
            (Views.working-in_working brand dict change)
          ∙ same q

  write_rlz_frame :
      (dict' : Dict) (p : AccessPoint) (rlz : Bytes)
      → Store.write_access_point_rlz brand dict p rlz ≡ (true, dict')
      → ((view_of brand dict').ping_time ≡ (view_of brand dict).ping_time)
        × ((view_of brand dict').stateful_event ≡ (view_of brand dict).stateful_event)
  unfolding Store.write_access_point_rlz Store.write_named_rlz
  write_rlz_frame dict' p rlz h = elim (Option-cases (get_access_point_name p)) [
    | inl nameless ↦ absurd (ground (arith, nameless, h))
    | inr (name, named) ↦ rw (← (ap (λ (x : Bool × Dict). x.1) (rw named at h))) (
        products_unseen (λ w. change_in w access_point_key (λ d. set_object d name (string rlz)))
          (λ q.
            sub_dict-change_in (working_dict brand dict) access_point_key (get_product_name q)
              (λ d. set_object d name (string rlz))
            ∙ rw (Views.key_no_name q)))
  ]

  clear_rlz_frame :
      (dict' : Dict) (p : AccessPoint)
      → Store.clear_access_point_rlz brand dict p ≡ (true, dict')
      → ((view_of brand dict').ping_time ≡ (view_of brand dict).ping_time)
        × ((view_of brand dict').stateful_event ≡ (view_of brand dict).stateful_event)
  unfolding Store.clear_access_point_rlz Store.clear_named_rlz
  clear_rlz_frame dict' p h = elim (Option-cases (get_access_point_name p)) [
    | inl nameless ↦ absurd (ground (arith, nameless, h))
    | inr (name, named) ↦ rw (← (ap (λ (x : Bool × Dict). x.1) (rw named at h))) (
        products_unseen (λ w. in_found w access_point_key (λ d. remove_object d name))
          (λ q.
            sub_dict-in_found (working_dict brand dict) access_point_key (get_product_name q)
              (λ d. remove_object d name) refl
            ∙ rw (Views.key_no_name q)))
  ]

-- An object under another key, after a change of a dictionary that is found.
other-in_found :
    (d : Dict) (k n : Bytes) (change : Dict → Dict)
    → bytes_eq k n ≡ false
    → object_for_key (in_found d k change) n ≡ object_for_key d n
other-in_found d k n change other = found (as_dict (object_for_key d k))
  where
    found :
        (o : Option Dict)
        → object_for_key
            (elim o as (λ _. Dict) [ none ↦ d | some x ↦ set_object d k (dictionary (change x)) ])
            n
          ≡ object_for_key d n
    found none = refl
    found (some x) = dict_after_set d k n (dictionary (change x)) other

-- The calls of the store of Mac that write leave the other parts of the view as they are, and CollectGarbage
-- changes nothing.
mac_store-StoreFrames :
    (locks : Dict → Bool) (has_access : Dict → AccessType → Bool) (brand : Bytes)
    → StoreFrames (mac_store locks has_access brand) (mac_laws locks has_access brand)
unfolding mac_store mac_laws Store.write_ping_time Store.clear_ping_time Store.add_product_event
    Store.add_stateful_event Store.mark_event Store.clear_product_event
    Store.clear_all_product_events Store.clear_all_stateful_events
mac_store-StoreFrames locks has_access brand = record {
  write_rlz_frame = λ d d' p rlz h. write_rlz_frame brand d d' p rlz h;
  clear_rlz_frame = λ d d' p h. clear_rlz_frame brand d d' p h;
  write_ping_frame = λ d d' p time h. rw (← (ap (λ (x : Bool × Dict). x.1) h)) (
    all_rlzs_kept brand d p (λ e. set_object e ping_time_key (number time)),
    stateful_kept brand d p (λ e. set_object e ping_time_key (number time))
        (events_after_set (product_dict brand d p) stateful_event_key ping_time_key (number time)
          refl),
  );
  clear_ping_frame = λ d d' p h. rw (← (ap (λ (x : Bool × Dict). x.1) h)) (
    all_rlzs_kept brand d p (λ e. remove_object e ping_time_key),
    stateful_kept brand d p (λ e. remove_object e ping_time_key)
        (events_after_remove (product_dict brand d p) stateful_event_key ping_time_key refl),
  );
  add_event_frame = λ d d' p e h. rw (← (ap (λ (x : Bool × Dict). x.1) h)) (
      ping_times_kept brand d p
        (λ x. change_in x product_event_key (λ events. set_object events e (number 1)))
        (dict_after_set (product_dict brand d p) product_event_key ping_time_key _ refl));
  clear_event_frame = λ d d' p e h. rw (← (ap (λ (x : Bool × Dict). x.1) h)) (
      ping_times_kept brand d p
        (λ x. in_found x product_event_key (λ events. remove_object events e))
        (other-in_found (product_dict brand d p) product_event_key ping_time_key
          (λ events. remove_object events e) refl));
  clear_all_events_frame = λ d d' p h. rw (← (ap (λ (x : Bool × Dict). x.1) h)) (
      ping_times_kept brand d p (λ x. remove_object x product_event_key)
        (dict_after_remove (product_dict brand d p) product_event_key ping_time_key refl));
  add_stateful_frame = λ d d' p e h. rw (← (ap (λ (x : Bool × Dict). x.1) h)) (
    ping_times_kept brand d p
        (λ x. change_in x stateful_event_key (λ events. set_object events e (number 1)))
        (dict_after_set (product_dict brand d p) stateful_event_key ping_time_key _ refl),
    all_rlzs_kept brand d p
        (λ x. change_in x stateful_event_key (λ events. set_object events e (number 1))),
  );
  clear_all_stateful_frame = λ d d' p h. rw (← (ap (λ (x : Bool × Dict). x.1) h)) (
    ping_times_kept brand d p (λ x. remove_object x stateful_event_key)
        (dict_after_remove (product_dict brand d p) stateful_event_key ping_time_key refl),
    all_rlzs_kept brand d p (λ x. remove_object x stateful_event_key),
  );
  collect_garbage_frame = λ d. refl;
}

-- For any supplementary brand: the store of Mac keeps the contract of the interface of stores. A write
-- or a clear that returns true has changed its own entry as said and no other RLZ, ping time, event or
-- stateful event, the reads show these entries, CollectGarbage changes none of them, and two names of
-- events are one just where they are equal.
pub mac_store-StoreContract :
    (locks : Dict → Bool) (has_access : Dict → AccessType → Bool) (brand : Bytes)
    → StoreContract (mac_store locks has_access brand) bytes_eq
unfolding mac_laws
mac_store-StoreContract locks has_access brand = record {
  laws = mac_laws locks has_access brand;
  frames = mac_store-StoreFrames locks has_access brand;
  names = λ e f. refl;
}

-- The store of Mac, whose lock and access rest on files and not on the dictionary, under any brand: in it
-- ClearProductEvent leaves the product without the event also where it returns false.
pub mac_store-ClearsEvents :
    (locks : Bool) (has_access : AccessType → Bool) (brand : Bytes)
    → ClearsEvents
        (mac_store (λ d. locks) (λ d. has_access) brand)
        (mac_laws (λ d. locks) (λ d. has_access) brand)
unfolding mac_store mac_laws Store.clear_product_event
mac_store-ClearsEvents locks has_access brand = record {
  unsuccessful = λ d d' p e writable h f. rw (← (ap (λ (x : Bool × Dict). x.1) h)) (
      ap (λ (x : Dict). events_in product_event_key x f)
        (Views.product_changed brand d p
          (λ x. in_found x product_event_key (λ events. remove_object events e)))
      ∙ event_unmarked (product_dict brand d p) product_event_key e f);
  keeps = λ d p e writable. writable;
}
