-- ===== src/Registry/Store/Views.antt =====
-- Changes of the stored values as changes of what the store of win/lib/rlz_value_store_registry.cc shows.
use mathlib.Core.Path.{fun_ext}
use rlz.Prelude.{
  ◌≡◌, ◌≢◌, refl, ap, ◌∙◌, Option, none, some, Bytes, bytes, inl, inr, Option-cases, if◌then◌else◌,
}
use rlz.Enums.{AccessPoint, Product}
use rlz.LibValues.{get_product_name, get_access_point_name}
use rlz.Registry.{Value}
use rlz.Registry.Text.{same_text, same_text_refl}
use rlz.Registry.Laws.{qword_in, dword_in, text_in, is_there}
use rlz.Registry.Store.{key_location, is_some}
use rlz.Registry.Store.Locations
use rlz.Registry.Store.Locations.{
  ptimes, rlzs, events_at, stateful_at, product_names_apart, point_names_apart, children_apart,
  children_within,
}
use rlz.Registry.Store.Changes
use rlz.Registry.Store.Changes.{Changes, view_of, rlz_named, rlz_in, there_if, dword_if}

-- An RLZ is kept where the values of the RLZs are.
pub rlzs_kept :
    (brand : Bytes) (before after : Bytes → Bytes → Option Value)
    → ((m : Bytes) → after (rlzs brand) m ≡ before (rlzs brand) m)
    → (name : Option Bytes)
    → rlz_named (after (rlzs brand)) name ≡ rlz_named (before (rlzs brand)) name
rlzs_kept brand before after kept none = refl
rlzs_kept brand before after kept (some m) = ap (λ (x : Option Value). rlz_in (text_in x)) (kept m)

-- Changes at the ping times, and at the RLZs, as changes of the view.
module _ (brand : Bytes) (before after : Bytes → Bytes → Option Value) (v : Option Value) where
  pub ping_changed :
      (p : Product)
      → Changes before after (ptimes brand) (get_product_name p) v
      → ((view_of brand after).ping_time p ≡ qword_in v)
        × ((q : Product)
            → q ≢ p
            → (view_of brand after).ping_time q ≡ (view_of brand before).ping_time q)
        × ((view_of brand after).product_event ≡ (view_of brand before).product_event)
  ping_changed p changes = (
    ap qword_in (
        Changes.changed_at before after (ptimes brand) (get_product_name p) v changes
          (get_product_name p) (same_text_refl (get_product_name p))),
    λ q ne. ap qword_in (
        Changes.kept_name before after (ptimes brand) (get_product_name p) v changes
          (get_product_name q) (product_names_apart p q ne)),
    fun_ext λ q. fun_ext λ e. ap is_there (
        Changes.kept_location before after (ptimes brand) (get_product_name p) v changes
          (events_at brand q) e (Locations.ptimes_events brand q)),
  )

  pub rlz_changed :
      (p : AccessPoint) (n : Bytes)
      → get_access_point_name p ≡ some n
      → Changes before after (rlzs brand) n v
      → ((view_of brand after).rlz p ≡ rlz_in (text_in v))
        × ((q : AccessPoint) → q ≢ p → (view_of brand after).rlz q ≡ (view_of brand before).rlz q)
        × ((view_of brand after).product_event ≡ (view_of brand before).product_event)
  rlz_changed p n named changes = (
    rw named (
        ap (λ (x : Option Value). rlz_in (text_in x))
          (Changes.changed_at before after (rlzs brand) n v changes n (same_text_refl n))),
    λ q ne. elim (Option-cases (get_access_point_name q)) [
      | inl nameless ↦ rw nameless
      | inr (m, other) ↦ rw other (
          ap (λ (x : Option Value). rlz_in (text_in x))
            (Changes.kept_name before after (rlzs brand) n v changes m
              (point_names_apart p q n m ne named other)))
    ],
    fun_ext λ q. fun_ext λ e. ap is_there (
        Changes.kept_location before after (rlzs brand) n v changes (events_at brand q) e
          (Locations.rlzs_events brand q)),
  )

  pub event_changed :
      (p : Product) (e : Bytes)
      → Changes before after (events_at brand p) e v
      → ((f : Bytes)
          → (view_of brand after).product_event p f
            ≡ (if same_text e f then is_there v else (view_of brand before).product_event p f))
        × ((q : Product)
            → q ≢ p
            → (view_of brand after).product_event q ≡ (view_of brand before).product_event q)
        × ((view_of brand after).rlz ≡ (view_of brand before).rlz)
        × ((view_of brand after).stateful_event ≡ (view_of brand before).stateful_event)
  event_changed p e changes = (
    λ f.
        ap is_there (Changes.changed_name before after (events_at brand p) e v changes f)
        ∙ there_if (same_text e f) v (before (events_at brand p) f),
    λ q ne. fun_ext λ f. ap is_there (
        Changes.kept_location before after (events_at brand p) e v changes (events_at brand q) f
          (children_apart (key_location brand (bytes "Events")) p q ne)),
    fun_ext λ q.
        rlzs_kept brand before after
          (λ m.
            Changes.kept_location before after (events_at brand p) e v changes (rlzs brand) m
              (Locations.events_rlzs brand p))
          (get_access_point_name q),
    fun_ext λ q. fun_ext λ f.
        ap (λ (x : Option Value). is_some (dword_in x))
          (Changes.kept_location before after (events_at brand p) e v changes (stateful_at brand q)
            f (Locations.events_stateful brand p q)),
  )

  pub stateful_changed :
      (p : Product) (e : Bytes)
      → Changes before after (stateful_at brand p) e v
      → ((f : Bytes)
          → (view_of brand after).stateful_event p f ≡ (
              if same_text e f
              then is_some (dword_in v)
              else (view_of brand before).stateful_event p f))
        × ((q : Product)
            → q ≢ p
            → (view_of brand after).stateful_event q ≡ (view_of brand before).stateful_event q)
        × ((view_of brand after).product_event ≡ (view_of brand before).product_event)
  stateful_changed p e changes = (
    λ f.
        ap (λ (x : Option Value). is_some (dword_in x))
          (Changes.changed_name before after (stateful_at brand p) e v changes f)
        ∙ dword_if (same_text e f) v (before (stateful_at brand p) f),
    λ q ne. fun_ext λ f.
        ap (λ (x : Option Value). is_some (dword_in x))
          (Changes.kept_location before after (stateful_at brand p) e v changes
            (stateful_at brand q) f
            (children_apart (key_location brand (bytes "StatefulEvents")) p q ne)),
    fun_ext λ q. fun_ext λ f. ap is_there (
        Changes.kept_location before after (stateful_at brand p) e v changes (events_at brand q) f
          (Locations.stateful_events brand p q)),
  )
