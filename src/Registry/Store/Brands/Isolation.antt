-- ===== src/Registry/Store/Brands/Isolation.antt =====
-- What the store of win/lib/rlz_value_store_registry.cc writes under one brand is not seen under another.
use mathlib.Core.Path.{fun_ext}
use rlz.Prelude.{
  ◌≡◌, refl, Bool, true, false, Option, none, some, Bytes, bytes, inl, inr, Option-cases, arith,
}
use rlz.Enums.{AccessPoint, Product}
use rlz.LibValues.{get_product_name, get_access_point_name}
use rlz.ValueStore.{AccessType, View}
use rlz.ValueStore.Writes.{
  Write, write_ping, clear_ping, write_rlz, clear_rlz, add_event, clear_event, clear_every_event,
  add_stateful, clear_stateful, apply_write,
}
use rlz.Registry.{Value, qword, dword, text, Registry}
use rlz.Registry.Text.{within}
use rlz.Registry.Laws.{RegistryLaws, Grants, qword_in, dword_in, is_there}
use rlz.Registry.Store
use rlz.Registry.Store.{registry_store, is_some}
use rlz.Registry.Store.Locations.{ptimes, rlzs, events_at, stateful_at}
use rlz.Registry.Store.Changes
use rlz.Registry.Store.Changes.{Changes, view_of, rlz_named}
use rlz.Registry.Store.Contract
use rlz.Registry.Store.Brands.{Distinct}
use rlz.Registry.Store.Brands

-- Nothing is changed where a store looks.
record Kept (brand : Bytes) (before after : Bytes → Bytes → Option Value) : Type 0 where
  kept_ptimes : (m : Bytes) → after (ptimes brand) m ≡ before (ptimes brand) m
  kept_rlzs : (m : Bytes) → after (rlzs brand) m ≡ before (rlzs brand) m
  kept_events :
      (q : Product) (m : Bytes) → after (events_at brand q) m ≡ before (events_at brand q) m
  kept_stateful :
      (q : Product) (m : Bytes) → after (stateful_at brand q) m ≡ before (stateful_at brand q) m

-- The view from the values at the locations.
abbrev view_from :
    (Bytes → Option Value)
    → (Bytes → Option Value)
    → (Product → Bytes → Option Value)
    → (Product → Bytes → Option Value)
    → View
view_from ping rlz event stateful = record {
  ping_time = λ p. qword_in (ping (get_product_name p));
  rlz = λ p. rlz_named rlz (get_access_point_name p);
  product_event = λ p e. is_there (event p e);
  stateful_event = λ p e. is_some (dword_in (stateful p e));
}

Kept-view :
    (brand : Bytes) (before after : Bytes → Bytes → Option Value)
    → Kept brand before after
    → view_of brand after ≡ view_of brand before
Kept-view brand before after kept = λ i.
    view_from (fun_ext kept.kept_ptimes i) (fun_ext kept.kept_rlzs i)
      (fun_ext (λ q. fun_ext (kept.kept_events q)) i)
      (fun_ext (λ q. fun_ext (kept.kept_stateful q)) i)

module _ (a b : Bytes) (apart : Distinct a b) (before after : Bytes → Bytes → Option Value) where
  -- A change of one value, under the brand `a`.
  ping_Kept :
      (n : Bytes) (v : Option Value) → Changes before after (ptimes a) n v → Kept b before after
  ping_Kept n v changes =
      let kept = Changes.kept_location before after (ptimes a) n v changes in
      record {
        kept_ptimes = λ m. kept (ptimes b) m (Brands.ptimes_apart a b apart);
        kept_rlzs = λ m. kept (rlzs b) m refl;
        kept_events = λ q m. kept (events_at b q) m refl;
        kept_stateful = λ q m. kept (stateful_at b q) m refl;
      }

  rlz_Kept :
      (n : Bytes) (v : Option Value) → Changes before after (rlzs a) n v → Kept b before after
  rlz_Kept n v changes =
      let kept = Changes.kept_location before after (rlzs a) n v changes in
      record {
        kept_ptimes = λ m. kept (ptimes b) m refl;
        kept_rlzs = λ m. kept (rlzs b) m (Brands.rlzs_apart a b apart);
        kept_events = λ q m. kept (events_at b q) m refl;
        kept_stateful = λ q m. kept (stateful_at b q) m refl;
      }

  event_Kept :
      (p : Product) (n : Bytes) (v : Option Value)
      → Changes before after (events_at a p) n v
      → Kept b before after
  event_Kept p n v changes =
      let kept = Changes.kept_location before after (events_at a p) n v changes in
      record {
        kept_ptimes = λ m. kept (ptimes b) m refl;
        kept_rlzs = λ m. kept (rlzs b) m refl;
        kept_events = λ q m. kept (events_at b q) m (Brands.events_apart a b apart p q);
        kept_stateful = λ q m. kept (stateful_at b q) m refl;
      }

  stateful_Kept :
      (p : Product) (n : Bytes) (v : Option Value)
      → Changes before after (stateful_at a p) n v
      → Kept b before after
  stateful_Kept p n v changes =
      let kept = Changes.kept_location before after (stateful_at a p) n v changes in
      record {
        kept_ptimes = λ m. kept (ptimes b) m refl;
        kept_rlzs = λ m. kept (rlzs b) m refl;
        kept_events = λ q m. kept (events_at b q) m refl;
        kept_stateful = λ q m. kept (stateful_at b q) m (Brands.stateful_apart a b apart p q);
      }

  -- The key of a product is deleted.
  events_Kept :
      (p : Product)
      → ((l m : Bytes) → within (events_at a p) l ≡ false → after l m ≡ before l m)
      → Kept b before after
  events_Kept p kept = record {
    kept_ptimes = λ m. kept (ptimes b) m refl;
    kept_rlzs = λ m. kept (rlzs b) m refl;
    kept_events = λ q m. kept (events_at b q) m (Brands.events_below a b apart p q);
    kept_stateful = λ q m. kept (stateful_at b q) m refl;
  }

  all_stateful_Kept :
      (p : Product)
      → ((l m : Bytes) → within (stateful_at a p) l ≡ false → after l m ≡ before l m)
      → Kept b before after
  all_stateful_Kept p kept = record {
    kept_ptimes = λ m. kept (ptimes b) m refl;
    kept_rlzs = λ m. kept (rlzs b) m refl;
    kept_events = λ q m. kept (events_at b q) m refl;
    kept_stateful = λ q m. kept (stateful_at b q) m (Brands.stateful_below a b apart p q);
  }

module _ {R : Type 0} (reg : Registry R) (laws : RegistryLaws reg) (grants : Grants reg laws)
    (locks : R → Bool) (has_access : R → AccessType → Bool) (a b : Bytes)
    (apart : Distinct a b) where
  open laws use {value}

  rlz_write_Kept :
      (r r' : R) (point : AccessPoint) (rlz : Bytes)
      → Store.write_access_point_rlz reg a r point rlz ≡ (true, r')
      → Kept b (value r) (value r')
  unfolding Store.write_access_point_rlz Store.write_named_rlz
  rlz_write_Kept r r' point rlz h = elim (Option-cases (get_access_point_name point)) [
    | inl nameless ↦ absurd (ground (arith, nameless, h))
    | inr (n, named) ↦
        rlz_Kept a b apart (value r) (value r') n (some (text rlz))
          (Changes.write_rlz_entry reg laws grants a r r' n rlz (rw named at h))
  ]

  rlz_clear_Kept :
      (r r' : R) (point : AccessPoint)
      → Store.clear_access_point_rlz reg a r point ≡ (true, r')
      → Kept b (value r) (value r')
  unfolding Store.clear_access_point_rlz Store.clear_named_rlz
  rlz_clear_Kept r r' point h = elim (Option-cases (get_access_point_name point)) [
    | inl nameless ↦ absurd (ground (arith, nameless, h))
    | inr (n, named) ↦
        rlz_Kept a b apart (value r) (value r') n none
          (Contract.rlz_dropped reg laws grants a r r' n (rw named at h))
  ]

  write_Kept :
      (w : Write) (r r' : R)
      → apply_write (registry_store reg locks has_access a) w r ≡ (true, r')
      → Kept b (value r) (value r')
  unfolding apply_write registry_store Store.clear_all_product_events
      Store.clear_all_stateful_events
  write_Kept (write_ping p t) r r' h =
      ping_Kept a b apart _ _ (get_product_name p) (some (qword t))
        (Changes.write_ping_entry reg laws grants a r r' p t h)
  write_Kept (clear_ping p) r r' h =
      ping_Kept a b apart _ _ (get_product_name p) none
        (Contract.ping_cleared reg laws grants a r r' p h)
  write_Kept (write_rlz p t) r r' h = rlz_write_Kept r r' p t h
  write_Kept (clear_rlz p) r r' h = rlz_clear_Kept r r' p h
  write_Kept (add_event p e) r r' h =
      event_Kept a b apart _ _ p e (some (dword 1))
        (Changes.add_event_entry reg laws grants a r r' p e h)
  write_Kept (clear_event p e) r r' h =
      event_Kept a b apart _ _ p e none (Contract.event_dropped reg laws grants a r r' p e h)
  write_Kept (clear_every_event p) r r' h =
      events_Kept a b apart _ _ p
        (Contract.all_cleared reg laws grants a r r' p (bytes "Events") h).1
  write_Kept (add_stateful p e) r r' h =
      stateful_Kept a b apart _ _ p e (some (dword 1))
        (Changes.add_stateful_entry reg laws grants a r r' p e h)
  write_Kept (clear_stateful p) r r' h =
      all_stateful_Kept a b apart _ _ p
        (Contract.all_cleared reg laws grants a r r' p (bytes "StatefulEvents") h).1

-- For a registry as it is documented, an account that may use its keys, and two brands with no backslash that
-- differ by more than case (one may be empty): no call that writes under one brand, and returns true,
-- changes an RLZ, a ping time, an event or a stateful event that the store shows under the other.
pub brands_isolated :
    {R : Type 0} (reg : Registry R) (laws : RegistryLaws reg) (grants : Grants reg laws)
    (locks : R → Bool) (has_access : R → AccessType → Bool) (a b : Bytes)
    → Distinct a b
    → (w : Write) (r r' : R) → apply_write (registry_store reg locks has_access a) w r ≡ (true, r')
    → view_of b (laws.value r') ≡ view_of b (laws.value r)
brands_isolated reg laws grants locks has_access a b apart w r r' h =
    Kept-view b (laws.value r) (laws.value r')
      (write_Kept reg laws grants locks has_access a b apart w r r' h)
