-- ===== src/Registry/Store/Frames.antt =====
-- What the calls of the store of win/lib/rlz_value_store_registry.cc that write leave alone.
use mathlib.Core.Path.{fun_ext}
use rlz.Prelude.{
  ◌≡◌, refl, ap, Bool, true, Option, none, some, Bytes, bytes, inl, inr, Option-cases, arith,
}
use rlz.Enums.{AccessPoint, Product}
use rlz.LibValues.{get_product_name, get_access_point_name}
use rlz.ValueStore.{AccessType}
use rlz.ValueStore.Frames.{StoreFrames, StoreContract}
use rlz.Registry.Text.{same_text}
use rlz.Registry.{Value, qword, dword, text, Registry}
use rlz.Registry.Laws.{RegistryLaws, Grants, qword_in, dword_in}
use rlz.Registry.Store
use rlz.Registry.Store.{registry_store, is_some}
use rlz.Registry.Store.Locations.{ptimes, rlzs, events_at, stateful_at}
use rlz.Registry.Store.Changes
use rlz.Registry.Store.Changes.{Changes, view_of}
use rlz.Registry.Store.Views
use rlz.Registry.Store.Contract
use rlz.Registry.Store.Contract.{registry_laws}
use rlz.Registry.Store.Garbage.{collect_garbage_kept}

-- A part of the view is kept where the values at its locations are.
module _ (brand : Bytes) (before after : Bytes → Bytes → Option Value) where
  ping_times_kept :
      ((m : Bytes) → after (ptimes brand) m ≡ before (ptimes brand) m)
      → (view_of brand after).ping_time ≡ (view_of brand before).ping_time
  ping_times_kept kept = fun_ext λ p. ap qword_in (kept (get_product_name p))

  all_rlzs_kept :
      ((m : Bytes) → after (rlzs brand) m ≡ before (rlzs brand) m)
      → (view_of brand after).rlz ≡ (view_of brand before).rlz
  all_rlzs_kept kept =
      fun_ext λ p. Views.rlzs_kept brand before after kept (get_access_point_name p)

  stateful_kept :
      ((p : Product) (m : Bytes) → after (stateful_at brand p) m ≡ before (stateful_at brand p) m)
      → (view_of brand after).stateful_event ≡ (view_of brand before).stateful_event
  stateful_kept kept =
      fun_ext λ p. fun_ext λ e. ap (λ (x : Option Value). is_some (dword_in x)) (kept p e)

module _ {R : Type 0} (reg : Registry R) (laws : RegistryLaws reg) (grants : Grants reg laws)
    (brand : Bytes) where
  open laws use {value}

  -- What a change of one entry of the RLZs, or of the ping times, leaves alone.
  rlz_entry_frame :
      (r r' : R) (n : Bytes) (o : Option Value)
      → Changes (value r) (value r') (rlzs brand) n o
      → ((view_of brand (value r')).ping_time ≡ (view_of brand (value r)).ping_time)
        × ((view_of brand (value r')).stateful_event ≡ (view_of brand (value r)).stateful_event)
  rlz_entry_frame r r' n o change =
      let kept = Changes.kept_location (value r) (value r') (rlzs brand) n o change in
      (
        ping_times_kept brand (value r) (value r') (λ m. kept (ptimes brand) m refl),
        stateful_kept brand (value r) (value r') (λ q m. kept (stateful_at brand q) m refl),
      )

  ping_entry_frame :
      (r r' : R) (n : Bytes) (o : Option Value)
      → Changes (value r) (value r') (ptimes brand) n o
      → ((view_of brand (value r')).rlz ≡ (view_of brand (value r)).rlz)
        × ((view_of brand (value r')).stateful_event ≡ (view_of brand (value r)).stateful_event)
  ping_entry_frame r r' n o change =
      let kept = Changes.kept_location (value r) (value r') (ptimes brand) n o change in
      (
        all_rlzs_kept brand (value r) (value r') (λ m. kept (rlzs brand) m refl),
        stateful_kept brand (value r) (value r') (λ q m. kept (stateful_at brand q) m refl),
      )

  event_entry_frame :
      (r r' : R) (p : Product) (e : Bytes) (o : Option Value)
      → Changes (value r) (value r') (events_at brand p) e o
      → (view_of brand (value r')).ping_time ≡ (view_of brand (value r)).ping_time
  event_entry_frame r r' p e o change = ping_times_kept brand (value r) (value r') (λ m.
      Changes.kept_location (value r) (value r') (events_at brand p) e o change (ptimes brand) m
        refl)

  stateful_entry_frame :
      (r r' : R) (p : Product) (e : Bytes) (o : Option Value)
      → Changes (value r) (value r') (stateful_at brand p) e o
      → ((view_of brand (value r')).ping_time ≡ (view_of brand (value r)).ping_time)
        × ((view_of brand (value r')).rlz ≡ (view_of brand (value r)).rlz)
  stateful_entry_frame r r' p e o change =
      let kept = Changes.kept_location (value r) (value r') (stateful_at brand p) e o change in
      (
        ping_times_kept brand (value r) (value r') (λ m. kept (ptimes brand) m refl),
        all_rlzs_kept brand (value r) (value r') (λ m. kept (rlzs brand) m refl),
      )

  write_rlz_frame :
      (r r' : R) (p : AccessPoint) (t : Bytes)
      → Store.write_access_point_rlz reg brand r p t ≡ (true, r')
      → ((view_of brand (value r')).ping_time ≡ (view_of brand (value r)).ping_time)
        × ((view_of brand (value r')).stateful_event ≡ (view_of brand (value r)).stateful_event)
  unfolding Store.write_access_point_rlz Store.write_named_rlz
  write_rlz_frame r r' p t h = elim (Option-cases (get_access_point_name p)) [
    | inl nameless ↦ absurd (ground (arith, nameless, h))
    | inr (n, named) ↦
        rlz_entry_frame r r' n (some (text t))
          (Changes.write_rlz_entry reg laws grants brand r r' n t (rw named at h))
  ]

  clear_rlz_frame :
      (r r' : R) (p : AccessPoint)
      → Store.clear_access_point_rlz reg brand r p ≡ (true, r')
      → ((view_of brand (value r')).ping_time ≡ (view_of brand (value r)).ping_time)
        × ((view_of brand (value r')).stateful_event ≡ (view_of brand (value r)).stateful_event)
  unfolding Store.clear_access_point_rlz Store.clear_named_rlz
  clear_rlz_frame r r' p h = elim (Option-cases (get_access_point_name p)) [
    | inl nameless ↦ absurd (ground (arith, nameless, h))
    | inr (n, named) ↦
        rlz_entry_frame r r' n none
          (Contract.rlz_dropped reg laws grants brand r r' n (rw named at h))
  ]

-- For a registry as it is documented and an account that may use its keys: the calls of its store that write
-- leave the other parts of the view as they are, and CollectGarbage changes nothing in the view.
registry_store-StoreFrames :
    {R : Type 0} (reg : Registry R) (laws : RegistryLaws reg) (grants : Grants reg laws)
    (locks : R → Bool) (has_access : R → AccessType → Bool) (brand : Bytes)
    → StoreFrames
        (registry_store reg locks has_access brand)
        (registry_laws reg laws grants locks has_access brand)
unfolding registry_store registry_laws Store.clear_all_product_events
    Store.clear_all_stateful_events
registry_store-StoreFrames reg laws grants locks has_access brand = record {
  write_rlz_frame = write_rlz_frame reg laws grants brand;
  clear_rlz_frame = clear_rlz_frame reg laws grants brand;
  write_ping_frame = λ r r' p t h.
      ping_entry_frame reg laws grants brand r r' (get_product_name p) (some (qword t))
        (Changes.write_ping_entry reg laws grants brand r r' p t h);
  clear_ping_frame = λ r r' p h.
      ping_entry_frame reg laws grants brand r r' (get_product_name p) none
        (Contract.ping_cleared reg laws grants brand r r' p h);
  add_event_frame = λ r r' p e h.
      event_entry_frame reg laws grants brand r r' p e (some (dword 1))
        (Changes.add_event_entry reg laws grants brand r r' p e h);
  clear_event_frame = λ r r' p e h.
      event_entry_frame reg laws grants brand r r' p e none
        (Contract.event_dropped reg laws grants brand r r' p e h);
  add_stateful_frame = λ r r' p e h.
      stateful_entry_frame reg laws grants brand r r' p e (some (dword 1))
        (Changes.add_stateful_entry reg laws grants brand r r' p e h);
  clear_all_events_frame = λ r r' p h. ping_times_kept brand (laws.value r) (laws.value r') (λ m.
      (Contract.all_cleared reg laws grants brand r r' p (bytes "Events") h).1 (ptimes brand) m
        refl);
  clear_all_stateful_frame = λ r r' p h.
      let kept = (Contract.all_cleared reg laws grants brand r r' p (bytes "StatefulEvents") h).1 in
      (
        ping_times_kept brand (laws.value r) (laws.value r') (λ m. kept (ptimes brand) m refl),
        all_rlzs_kept brand (laws.value r) (laws.value r') (λ m. kept (rlzs brand) m refl),
      );
  collect_garbage_frame =
      λ r. ap (view_of brand) (fun_ext λ l. fun_ext λ m. collect_garbage_kept reg laws brand r l m);
}

-- For a registry as it is documented and an account that may create, open and change the keys: the
-- store of the registry, under any brand, keeps the contract of the interface of stores. A write or a
-- clear that returns true has changed its own entry as said and no other RLZ, ping time, event or
-- stateful event, the reads show these entries, CollectGarbage changes none of them, and two names of
-- events are one just where they are the same with no regard to case.
pub registry_store-StoreContract :
    {R : Type 0} (reg : Registry R) (laws : RegistryLaws reg) (grants : Grants reg laws)
    (locks : R → Bool) (has_access : R → AccessType → Bool) (brand : Bytes)
    → StoreContract (registry_store reg locks has_access brand) same_text
unfolding registry_laws
registry_store-StoreContract reg laws grants locks has_access brand = record {
  laws = registry_laws reg laws grants locks has_access brand;
  frames = registry_store-StoreFrames reg laws grants locks has_access brand;
  names = λ e f. refl;
}
