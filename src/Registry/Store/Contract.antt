-- ===== src/Registry/Store/Contract.antt =====
-- The store of win/lib/rlz_value_store_registry.cc keeps the contract of lib/rlz_value_store.h.
use mathlib.Core.Path.{fun_ext}
use rlz.Prelude.{
  ℕ, ◌-◌, ◌<◌, ◌≡◌, ◌≢◌, sym, ap, ◌∙◌, Bool, true, false, not, List, [], Option, none, some, Bytes,
  bytes, inl, inr, Option-cases, length, take_all, arith,
}
use rlz.Enums.{AccessPoint, Product}
use rlz.LibValues.{get_product_name, get_access_point_name}
use rlz.ValueStore.{AccessType, StoreLaws, contains_by}
use rlz.MachineDeal.{reg_key_read_value}
use rlz.Registry.{key_write, opened, Value, qword, dword, text, Registry}
use rlz.Registry.Text.{same_text, same_text_refl, same_text_plain, within, within_refl}
use rlz.Registry.Laws.{RegistryLaws, Grants, child, dword_in, text_in, is_there}
use rlz.Registry.Store
use rlz.Registry.Store.{
  registry_store, key_location, is_some, rlz_of_value, read_named_rlz, value_size_after,
}
use rlz.Registry.Store.Locations
use rlz.Registry.Store.Locations.{
  ptimes, rlzs, events_at, stateful_at, product_names_apart, point_names_apart, children_apart,
  children_within,
}
use rlz.Registry.Store.Effects
use rlz.Registry.Store.Changes
use rlz.Registry.Store.Changes.{Changes, view_of, rlz_named, rlz_in, there_if, dword_if}
use rlz.Registry.Store.Views
use rlz.Registry.Store.Listing.{read_product_events_names}

rlz_of_value_lem :
    (o : Option Bytes) (size : ℕ)
    → length (rlz_in o) < size
    → rlz_of_value o size ≡ (true, rlz_in o)
unfolding rlz_of_value reg_key_read_value
rlz_of_value_lem none size room = ground arith
rlz_of_value_lem (some t) size room = ground (arith, take_all (size - 1) t (omega arith))

module _ {R : Type 0} (reg : Registry R) (laws : RegistryLaws reg) (grants : Grants reg laws)
    (brand : Bytes) where
  open laws use {value}

  pub rlz_read :
      (r : R) (n : Bytes) (size : ℕ)
      → length (rlz_in (text_in (value r (rlzs brand) n))) < size
      → read_named_rlz reg brand r (some n) size ≡ (true, rlz_in (text_in (value r (rlzs brand) n)))
  unfolding read_named_rlz
  rlz_read r n size room =
      rw (laws.text_read, Effects.shown reg laws grants r (rlzs brand) n)
        (rlz_of_value_lem (text_in (value r (rlzs brand) n)) size room)

  -- The key of a product is gone with all that was in it, and nothing else is.
  pub all_cleared :
      (r r' : R) (p : Product) (event_type : Bytes)
      → Store.clear_all_product_event_values reg brand r p event_type ≡ (true, r')
      → ((l m : Bytes)
          → within (child (key_location brand event_type) (get_product_name p)) l ≡ true
          → value r' l m ≡ none)
        × ((l m : Bytes)
            → within (child (key_location brand event_type) (get_product_name p)) l ≡ false
            → value r' l m ≡ value r l m)
  all_cleared r r' p event_type h = (
    λ l m below.
        grants.opens_child r' (key_location brand event_type) (get_product_name p) l m
          (ground (arith, done, state)) below,
    λ l m apart. rw (← state) (
        laws.key_deleted_others (reg.create_key r (key_location brand event_type)).1
          (key_location brand event_type) (get_product_name p) l m apart
        ∙ laws.created r (key_location brand event_type) l m),
  )
    where
      after : R
      after =
          (reg.delete_key (reg.create_key r (key_location brand event_type)).1
            (opened key_write (key_location brand event_type)) (get_product_name p)).1

      both :
          ◌≡◌ {A = Bool × R}
            (
              not (
                  reg.open_child after
                    (opened key_write (key_location brand event_type))
                    (get_product_name p)),
              after,
            )
            (true, r')
      both = sym (Effects.clear_all_lem reg laws grants brand r p event_type) ∙ h

      state : after ≡ r'
      state = ap (λ (x : Bool × R). x.1) both

      done :
          not (
            reg.open_child after
              (opened key_write (key_location brand event_type))
              (get_product_name p))
          ≡ true
      done = ap (λ (x : Bool × R). x.0) both

  -- ClearAllProductEvents, and with the stateful events ClearAllStatefulEvents.
  pub events_cleared :
      (r r' : R) (p : Product)
      → Store.clear_all_product_event_values reg brand r p (bytes "Events") ≡ (true, r')
      → ((e : Bytes) → (view_of brand (value r')).product_event p e ≡ false)
        × ((q : Product)
            → q ≢ p
            → (view_of brand (value r')).product_event q
              ≡ (view_of brand (value r)).product_event q)
        × ((view_of brand (value r')).rlz ≡ (view_of brand (value r)).rlz)
        × ((view_of brand (value r')).stateful_event ≡ (view_of brand (value r)).stateful_event)
  events_cleared r r' p h =
      let (gone, kept) = all_cleared r r' p (bytes "Events") h in
      (
        λ e. ap is_there (gone (events_at brand p) e (within_refl (events_at brand p))),
        λ q ne. fun_ext λ e. ap is_there (
            kept (events_at brand q) e
              (children_within (key_location brand (bytes "Events")) p q ne)),
        fun_ext λ q.
            Views.rlzs_kept brand (value r) (value r')
              (λ m. kept (rlzs brand) m (Locations.within_events_rlzs brand p))
              (get_access_point_name q),
        fun_ext λ q. fun_ext λ e.
            ap (λ (x : Option Value). is_some (dword_in x))
              (kept (stateful_at brand q) e (Locations.within_events_stateful brand p q)),
      )

  pub stateful_cleared :
      (r r' : R) (p : Product)
      → Store.clear_all_product_event_values reg brand r p (bytes "StatefulEvents") ≡ (true, r')
      → ((e : Bytes) → (view_of brand (value r')).stateful_event p e ≡ false)
        × ((q : Product)
            → q ≢ p
            → (view_of brand (value r')).stateful_event q
              ≡ (view_of brand (value r)).stateful_event q)
        × ((view_of brand (value r')).product_event ≡ (view_of brand (value r)).product_event)
  stateful_cleared r r' p h =
      let (gone, kept) = all_cleared r r' p (bytes "StatefulEvents") h in
      (
        λ e.
            ap (λ (x : Option Value). is_some (dword_in x))
              (gone (stateful_at brand p) e (within_refl (stateful_at brand p))),
        λ q ne. fun_ext λ e.
            ap (λ (x : Option Value). is_some (dword_in x))
              (kept (stateful_at brand q) e
                (children_within (key_location brand (bytes "StatefulEvents")) p q ne)),
        fun_ext λ q. fun_ext λ e.
            ap is_there (kept (events_at brand q) e (Locations.within_stateful_events brand p q)),
      )

  pub rlz_shown :
      (r : R) (p : AccessPoint) (n : Bytes) (size : ℕ)
      → get_access_point_name p ≡ some n
      → length ((view_of brand (value r)).rlz p) < size
      → Store.read_access_point_rlz reg brand r p size ≡ (true, (view_of brand (value r)).rlz p)
  unfolding Store.read_access_point_rlz
  rlz_shown r p n size named room = rw named (rlz_read r n size (rw named at room))

  pub rlz_written :
      (r r' : R) (p : AccessPoint) (t : Bytes)
      → Store.write_access_point_rlz reg brand r p t ≡ (true, r')
      → ((view_of brand (value r')).rlz p ≡ t)
        × ((q : AccessPoint)
            → q ≢ p
            → (view_of brand (value r')).rlz q ≡ (view_of brand (value r)).rlz q)
        × ((view_of brand (value r')).product_event ≡ (view_of brand (value r)).product_event)
  unfolding Store.write_access_point_rlz Store.write_named_rlz
  rlz_written r r' p t h = elim (Option-cases (get_access_point_name p)) [
    | inl nameless ↦ absurd (ground (arith, nameless, h))
    | inr (n, named) ↦
        Views.rlz_changed brand (value r) (value r') (some (text t)) p n named
          (Changes.write_rlz_entry reg laws grants brand r r' n t (rw named at h))
  ]

  pub rlz_dropped :
      (r r' : R) (n : Bytes)
      → Store.clear_named_rlz reg brand r (some n) ≡ (true, r')
      → Changes (value r) (value r') (rlzs brand) n none
  rlz_dropped r r' n h =
      Changes.dropped reg laws grants brand r r' (rlzs brand) n
        (Store.clear_named_rlz reg brand r (some n))
        (Effects.clear_named_rlz_lem reg laws grants brand r n) h

  pub rlz_cleared :
      (r r' : R) (p : AccessPoint)
      → Store.clear_access_point_rlz reg brand r p ≡ (true, r')
      → ((view_of brand (value r')).rlz p ≡ [])
        × ((q : AccessPoint)
            → q ≢ p
            → (view_of brand (value r')).rlz q ≡ (view_of brand (value r)).rlz q)
        × ((view_of brand (value r')).product_event ≡ (view_of brand (value r)).product_event)
  unfolding Store.clear_access_point_rlz Store.clear_named_rlz
  rlz_cleared r r' p h = elim (Option-cases (get_access_point_name p)) [
    | inl nameless ↦ absurd (ground (arith, nameless, h))
    | inr (n, named) ↦
        Views.rlz_changed brand (value r) (value r') none p n named
          (rlz_dropped r r' n (rw named at h))
  ]

  pub ping_cleared :
      (r r' : R) (p : Product)
      → Store.clear_ping_time reg brand r p ≡ (true, r')
      → Changes (value r) (value r') (ptimes brand) (get_product_name p) none
  ping_cleared r r' p h =
      Changes.dropped reg laws grants brand r r' (ptimes brand) (get_product_name p)
        (Store.clear_ping_time reg brand r p)
        (Effects.clear_ping_time_lem reg laws grants brand r p) h

  pub event_dropped :
      (r r' : R) (p : Product) (e : Bytes)
      → Store.clear_product_event reg brand r p e ≡ (true, r')
      → Changes (value r) (value r') (events_at brand p) e none
  event_dropped r r' p e h =
      Changes.dropped reg laws grants brand r r' (events_at brand p) e
        (Store.clear_product_event reg brand r p e)
        (Effects.clear_product_event_lem reg laws grants brand r p e) h

  pub events_listed :
      (r : R) (p : Product) (es : List Bytes)
      → Store.read_product_events reg brand r p ≡ some es
      → (e : Bytes) → contains_by same_text es e ≡ (view_of brand (value r)).product_event p e
  events_listed r p es h e =
      rw (read_product_events_names reg laws brand r p es h)
        (laws.names_of_values r (events_at brand p) e)

-- The laws with their view.
unfoldable pub registry_laws :
    {R : Type 0} (reg : Registry R) (laws : RegistryLaws reg) (grants : Grants reg laws)
    (locks : R → Bool) (has_access : R → AccessType → Bool) (brand : Bytes)
    → StoreLaws (registry_store reg locks has_access brand)
unfolding registry_store Store.clear_all_product_events Store.clear_all_stateful_events
registry_laws reg laws grants locks has_access brand = record {
  view = λ r. view_of brand (laws.value r);
  same_name = same_text;
  same_name_refl = same_text_refl;
  same_name_plain = same_text_plain;
  read_rlz = rlz_shown reg laws grants brand;
  write_rlz = rlz_written reg laws grants brand;
  clear_rlz = rlz_cleared reg laws grants brand;
  read_ping = Effects.read_ping_time_lem reg laws grants brand;
  write_ping = λ r r' p t h.
      Views.ping_changed brand (laws.value r) (laws.value r') (some (qword t)) p
        (Changes.write_ping_entry reg laws grants brand r r' p t h);
  clear_ping = λ r r' p h.
      Views.ping_changed brand (laws.value r) (laws.value r') none p
        (ping_cleared reg laws grants brand r r' p h);
  read_events = events_listed reg laws grants brand;
  add_event = λ r r' p e h.
      Views.event_changed brand (laws.value r) (laws.value r') (some (dword 1)) p e
        (Changes.add_event_entry reg laws grants brand r r' p e h);
  clear_event = λ r r' p e h.
      Views.event_changed brand (laws.value r) (laws.value r') none p e
        (event_dropped reg laws grants brand r r' p e h);
  clear_all_events = events_cleared reg laws grants brand;
  is_stateful = Effects.is_stateful_event_lem reg laws grants brand;
  add_stateful = λ r r' p e h.
      Views.stateful_changed brand (laws.value r) (laws.value r') (some (dword 1)) p e
        (Changes.add_stateful_entry reg laws grants brand r r' p e h);
  clear_all_stateful = stateful_cleared reg laws grants brand;
}
