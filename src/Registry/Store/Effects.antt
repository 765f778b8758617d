-- ===== src/Registry/Store/Effects.antt =====
-- What each operation of win/lib/rlz_value_store_registry.cc comes down to for an account that may use
-- the keys: one call at the location of its value, and what that does to the stored values.
use rlz.Prelude.{
  ℕ, ◌≡◌, sym, ap, ◌∙◌, true, false, not, ◌&&◌, Option, none, some, Bytes, is_empty, inl, inr,
  Bool-cases, Option-cases, if◌then◌else◌, arith,
}
use rlz.Enums.{Product}
use rlz.LibValues.{get_product_name}
use rlz.LibValues.Names.{get_product_name-letter}
use rlz.Registry.{Rights, key_read, key_write, closed, opened, Value, qword, dword, text, Registry}
use rlz.Registry.Text.{same_text}
use rlz.Registry.Laws.{RegistryLaws, Grants, child, seen, qword_in, dword_in}
use rlz.Registry.Store.{
  key_location, is_some, open_location, get_events_reg_key, clear_all_product_event_values,
  write_ping_time, read_ping_time, clear_ping_time, write_named_rlz, clear_named_rlz,
  add_product_event, clear_product_event, add_stateful_event, is_stateful_event,
}
use rlz.Registry.Store.Locations.{ptimes, rlzs, events_at, stateful_at}

pub named_product : (p : Product) → is_empty (get_product_name p) ≡ false
named_product p = rw (get_product_name-letter p)

location_of : (a b : Bytes) → opened key_write a ≡ opened key_write b → b ≡ a
location_of a b h = cc

module _ {R : Type 0} (reg : Registry R) (brand : Bytes) where
  events_key :
      (r : R) (event_type : Bytes) (p : Product) (rights : Rights)
      → get_events_reg_key reg brand r event_type (some p) rights
        ≡ open_location reg r (child (key_location brand event_type) (get_product_name p)) rights
  unfolding get_events_reg_key
  events_key r event_type p rights = rw (named_product p)

module _ {R : Type 0} (reg : Registry R) (laws : RegistryLaws reg) (grants : Grants reg laws) where
  open laws use {value}

  for_writing :
      (r : R) (location : Bytes)
      → open_location reg r location key_write
        ≡ ((true, opened key_write location), (reg.create_key r location).1)
  unfolding open_location
  for_writing r location = rw (grants.creates r location)

  -- A value is written, and no other.
  pub put :
      (r r' : R) (location n : Bytes) (v : Value)
      → reg.write_value (reg.create_key r location).1 (opened key_write location) n v ≡ (true, r')
      → (l m : Bytes)
      → value r' l m ≡ (if same_text location l && same_text n m then some v else value r l m)
  put r r' location n v h l m =
      let (at, key, effect) =
        laws.written (reg.create_key r location).1 r' (opened key_write location) n v h in
      rw (location_of location at key) at (effect l m)
      ∙ ap (λ (old : Option Value). if same_text location l && same_text n m then some v else old)
          (laws.created r location l m)

  -- A value is deleted, and no other.
  pub drop_value :
      (r : R) (location n l m : Bytes)
      → value (reg.delete_value (reg.create_key r location).1 (opened key_write location) n) l m
        ≡ (if same_text location l && same_text n m then none else value r l m)
  drop_value r location n l m = elim (Bool-cases (same_text location l && same_text n m)) [
    | inl same ↦ rw same (grants.deletes (reg.create_key r location).1 location n l m same)
    | inr other ↦ rw other (
        laws.deleted_others (reg.create_key r location).1 location n l m other
        ∙ laws.created r location l m)
  ]

  -- A location that does not open holds nothing.
  pub unopened :
      (r : R) (location n : Bytes) → reg.open_key r location ≡ false → value r location n ≡ none
  unopened r location n missing = elim (Option-cases (value r location n)) [
    | inl nothing ↦ nothing
    | inr (v, found) ↦ absurd (ground (arith, grants.opens r location n v found))
  ]

  -- What a key opened for reading shows.
  pub shown :
      (r : R) (location n : Bytes)
      → seen (value r) (if reg.open_key r location then opened key_read location else closed) n
        ≡ value r location n
  shown r location n = elim (Bool-cases (reg.open_key r location)) [
    | inl found ↦ rw found
    | inr missing ↦ rw missing (sym (unopened r location n missing))
  ]

  module _ (brand : Bytes) where
    pub write_ping_time_lem :
        (r : R) (p : Product) (t : ℕ)
        → write_ping_time reg brand r p t
          ≡ reg.write_value
              (reg.create_key r (ptimes brand)).1
              (opened key_write (ptimes brand))
              (get_product_name p)
              (qword t)
    unfolding write_ping_time
    write_ping_time_lem r p t = rw (grants.creates r (ptimes brand))

    pub clear_ping_time_lem :
        (r : R) (p : Product)
        → (clear_ping_time reg brand r p).1
          ≡ reg.delete_value
              (reg.create_key r (ptimes brand)).1
              (opened key_write (ptimes brand))
              (get_product_name p)
    unfolding clear_ping_time
    clear_ping_time_lem r p = rw (grants.creates r (ptimes brand))

    pub write_named_rlz_lem :
        (r : R) (n rlz : Bytes)
        → write_named_rlz reg brand r (some n) rlz
          ≡ reg.write_value
              (reg.create_key r (rlzs brand)).1
              (opened key_write (rlzs brand))
              n
              (text rlz)
    unfolding write_named_rlz
    write_named_rlz_lem r n rlz = rw (write_named_rlz, grants.creates r (rlzs brand))

    pub clear_named_rlz_lem :
        (r : R) (n : Bytes)
        → (clear_named_rlz reg brand r (some n)).1
          ≡ reg.delete_value (reg.create_key r (rlzs brand)).1 (opened key_write (rlzs brand)) n
    unfolding clear_named_rlz
    clear_named_rlz_lem r n = rw (grants.creates r (rlzs brand))

    pub add_product_event_lem :
        (r : R) (p : Product) (e : Bytes)
        → add_product_event reg brand r p e
          ≡ reg.write_value
              (reg.create_key r (events_at brand p)).1
              (opened key_write (events_at brand p))
              e
              (dword 1)
    unfolding add_product_event
    add_product_event_lem r p e =
        rw (add_product_event, named_product p, grants.creates r (events_at brand p))

    pub clear_product_event_lem :
        (r : R) (p : Product) (e : Bytes)
        → (clear_product_event reg brand r p e).1
          ≡ reg.delete_value
              (reg.create_key r (events_at brand p)).1
              (opened key_write (events_at brand p))
              e
    unfolding clear_product_event
    clear_product_event_lem r p e = rw (named_product p, grants.creates r (events_at brand p))

    pub add_stateful_event_lem :
        (r : R) (p : Product) (e : Bytes)
        → add_stateful_event reg brand r p e
          ≡ reg.write_value
              (reg.create_key r (stateful_at brand p)).1
              (opened key_write (stateful_at brand p))
              e
              (dword 1)
    unfolding add_stateful_event
    add_stateful_event_lem r p e = rw (named_product p, grants.creates r (stateful_at brand p))

    pub read_ping_time_lem :
        (r : R) (p : Product)
        → read_ping_time reg brand r p ≡ qword_in (value r (ptimes brand) (get_product_name p))
    unfolding read_ping_time
    read_ping_time_lem r p = elim (Bool-cases (reg.open_key r (ptimes brand))) [
      | inl found ↦ rw (found, laws.int64_read)
      | inr missing ↦ rw (missing, unopened r (ptimes brand) (get_product_name p) missing)
    ]

    pub is_stateful_event_lem :
        (r : R) (p : Product) (e : Bytes)
        → is_stateful_event reg brand r p e ≡ is_some (dword_in (value r (stateful_at brand p) e))
    unfolding is_stateful_event
    is_stateful_event_lem r p e =
        rw (named_product p, laws.dword_read, shown r (stateful_at brand p) e)

    pub clear_all_lem :
        (r : R) (p : Product) (event_type : Bytes)
        → clear_all_product_event_values reg brand r p event_type ≡ (
            let r' =
              (reg.delete_key
                (reg.create_key r (key_location brand event_type)).1
                (opened key_write (key_location brand event_type))
                (get_product_name p)).1 in
            (
              not (
                  reg.open_child r'
                    (opened key_write (key_location brand event_type))
                    (get_product_name p)),
              r',
            ))
    unfolding clear_all_product_event_values
    clear_all_lem r p event_type =
        rw (named_product p, grants.creates r (key_location brand event_type))
