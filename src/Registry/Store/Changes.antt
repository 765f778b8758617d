-- ===== src/Registry/Store/Changes.antt =====
-- Each write of win/lib/rlz_value_store_registry.cc changes one value, for an account that may use the
-- keys; and what the values stand for.

use rlz.Prelude.{
  ℕ, ◌≡◌, refl, sym, ap, ◌∙◌, Bool, true, false, ◌&&◌, [], Option, none, some, Bytes, if◌then◌else◌,
}
use rlz.Enums.{Product}
use rlz.LibValues.{get_product_name, get_access_point_name}
use rlz.ValueStore.{View}
use rlz.Registry.{key_write, opened, Value, qword, dword, text, Registry}
use rlz.Registry.Text.{same_text, same_text_refl}
use rlz.Registry.Laws.{RegistryLaws, Grants, qword_in, dword_in, text_in, is_there}
use rlz.Registry.Store
use rlz.Registry.Store.{
  registry_store, key_location, is_some, rlz_of_value, read_named_rlz, value_size_after,
}
use rlz.Registry.Store.Locations.{ptimes, rlzs, events_at, stateful_at}
use rlz.Registry.Store.Effects

abbrev pub rlz_in : Option Bytes → Bytes
rlz_in none = []
rlz_in (some t) = t

abbrev pub rlz_named : (Bytes → Option Value) → Option Bytes → Bytes
rlz_named value_at none = []
rlz_named value_at (some name) = rlz_in (text_in (value_at name))

-- What the values at the store's locations stand for.
abbrev pub view_of : Bytes → (Bytes → Bytes → Option Value) → View
view_of brand value = record {
  ping_time = λ p. qword_in (value (ptimes brand) (get_product_name p));
  rlz = λ p. rlz_named (value (rlzs brand)) (get_access_point_name p);
  product_event = λ p e. is_there (value (events_at brand p) e);
  stateful_event = λ p e. is_some (dword_in (value (stateful_at brand p) e));
}

-- One value changed, to `v`.
abbrev pub Changes :
    (Bytes → Bytes → Option Value)
    → (Bytes → Bytes → Option Value)
    → Bytes
    → Bytes
    → Option Value
    → Type 0
Changes before after location n v =
    (l m : Bytes) → after l m ≡ (if same_text location l && same_text n m then v else before l m)

module _ (before after : Bytes → Bytes → Option Value) (location n : Bytes) (v : Option Value)
    (changes : Changes before after location n v) where
  pub changed_at : (m : Bytes) → same_text n m ≡ true → after location m ≡ v
  changed_at m same = changes location m ∙ rw (same_text_refl location, same)

  pub changed_name :
      (m : Bytes) → after location m ≡ (if same_text n m then v else before location m)
  changed_name m = changes location m ∙ rw (same_text_refl location)

  pub kept_name : (m : Bytes) → same_text n m ≡ false → after location m ≡ before location m
  kept_name m other = changed_name m ∙ rw other

  pub kept_location : (l m : Bytes) → same_text location l ≡ false → after l m ≡ before l m
  kept_location l m other = changes l m ∙ rw other

pub there_if :
    (b : Bool) (v old : Option Value)
    → is_there (if b then v else old) ≡ (if b then is_there v else is_there old)
there_if true v old = refl
there_if false v old = refl

pub dword_if :
    (b : Bool) (v old : Option Value)
    → is_some (dword_in (if b then v else old))
      ≡ (if b then is_some (dword_in v) else is_some (dword_in old))
dword_if true v old = refl
dword_if false v old = refl

module _ {R : Type 0} (reg : Registry R) (laws : RegistryLaws reg) (grants : Grants reg laws)
    (brand : Bytes) where
  open laws use {value}

  pub write_ping_entry :
      (r r' : R) (p : Product) (t : ℕ)
      → Store.write_ping_time reg brand r p t ≡ (true, r')
      → Changes (value r) (value r') (ptimes brand) (get_product_name p) (some (qword t))
  write_ping_entry r r' p t h =
      Effects.put reg laws grants r r' (ptimes brand) (get_product_name p) (qword t)
        (sym (Effects.write_ping_time_lem reg laws grants brand r p t) ∙ h)

  pub write_rlz_entry :
      (r r' : R) (n t : Bytes)
      → Store.write_named_rlz reg brand r (some n) t ≡ (true, r')
      → Changes (value r) (value r') (rlzs brand) n (some (text t))
  write_rlz_entry r r' n t h =
      Effects.put reg laws grants r r' (rlzs brand) n (text t)
        (sym (Effects.write_named_rlz_lem reg laws grants brand r n t) ∙ h)

  pub add_event_entry :
      (r r' : R) (p : Product) (e : Bytes)
      → Store.add_product_event reg brand r p e ≡ (true, r')
      → Changes (value r) (value r') (events_at brand p) e (some (dword 1))
  add_event_entry r r' p e h =
      Effects.put reg laws grants r r' (events_at brand p) e (dword 1)
        (sym (Effects.add_product_event_lem reg laws grants brand r p e) ∙ h)

  pub add_stateful_entry :
      (r r' : R) (p : Product) (e : Bytes)
      → Store.add_stateful_event reg brand r p e ≡ (true, r')
      → Changes (value r) (value r') (stateful_at brand p) e (some (dword 1))
  add_stateful_entry r r' p e h =
      Effects.put reg laws grants r r' (stateful_at brand p) e (dword 1)
        (sym (Effects.add_stateful_event_lem reg laws grants brand r p e) ∙ h)

  pub dropped :
      (r r' : R) (location n : Bytes) (result : Bool × R)
      → result.1 ≡ reg.delete_value (reg.create_key r location).1 (opened key_write location) n
      → result ≡ (true, r')
      → Changes (value r) (value r') location n none
  dropped r r' location n result e h l m =
      rw (← (ap (λ (x : Bool × R). x.1) h), e) (Effects.drop_value reg laws grants r location n l m)
