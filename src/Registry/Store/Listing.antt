-- ===== src/Registry/Store/Listing.antt =====
-- ReadProductEvents of win/lib/rlz_value_store_registry.cc: its loop lists the values of the key.
use rlz.Prelude.{
  ℕ, zero, suc, ◌+◌, ◌<◌, ◌≡◌, sym, ◌∙◌, Bool, true, false, List, [], ◌∷◌, none, some, Bytes, inl,
  inr, Bool-cases, Option-cases, length, ltb, all, arith,
}
use rlz.Enums.{Product}
use rlz.Registry.{key_read, RegKey, opened, Registry}
use rlz.Registry.Laws.{RegistryLaws, enum_of}
use rlz.Registry.Store.{events_loop, read_product_events}
use rlz.Registry.Store.Locations.{events_at}
use rlz.Registry.Store.Effects.{named_product}

-- A name that the buffer has room for.
abbrev pub is_short : Bytes → Bool
is_short name = ltb (length name) 2048

module _ {R : Type 0} (reg : Registry R) (r : R) (key : RegKey) where
  -- From `n` on, the key lists the names.
  abbrev pub Lists : ℕ → List Bytes → Type 0
  Lists n names = (k j : ℕ) → n + k ≡ j → reg.enum_value r key j ≡ enum_of names k

  Lists-tail :
      (n : ℕ) (name : Bytes) (names : List Bytes) → Lists n (name ∷ names) → Lists (n + 1) names
  Lists-tail n name names lists k j e = lists (suc k) j (omega arith)

  -- Whatever it returns are the names.
  events_loop_sound :
      (fuel n : ℕ) (names es : List Bytes)
      → Lists n names
      → events_loop reg fuel r key n ≡ some es
      → es ≡ names
  unfolding events_loop
  events_loop_sound zero n names es lists h = ground arith
  events_loop_sound (suc fuel) n [] es lists h = ground (arith, lists 0 n (omega arith))
  events_loop_sound (suc fuel) n (name ∷ names) es lists h =
      elim (Option-cases (events_loop reg fuel r key (n + 1))) [
        | inl stops ↦ ground (arith, lists 0 n (omega arith), stops)
        | inr (rest, goes_on) ↦ ground (
          arith,
          lists 0 n (omega arith),
          goes_on,
          events_loop_sound fuel (n + 1) names rest (Lists-tail n name names lists) goes_on,
        )
      ]

  -- With more fuel than there are names, all of them short, it returns them.
  events_loop_total :
      (fuel n : ℕ) (names : List Bytes)
      → Lists n names
      → all is_short names ≡ true
      → length names < fuel
      → events_loop reg fuel r key n ≡ some names
  unfolding events_loop
  events_loop_total zero n names lists short enough = absurd (omega arith)
  events_loop_total (suc fuel) n [] lists short enough = ground (arith, lists 0 n (omega arith))
  events_loop_total (suc fuel) n (name ∷ names) lists short enough = ground (
    arith,
    lists 0 n (omega arith),
    events_loop_total fuel (n + 1) names (Lists-tail n name names lists),
  )

module _ {R : Type 0} (reg : Registry R) (laws : RegistryLaws reg) (brand : Bytes) where
  listed_at :
      (r : R) (location : Bytes)
      → Lists reg r (opened key_read location) 0 (laws.value_names r location)
  listed_at r location k j e =
      let same : j ≡ k = omega arith in rw same (laws.enumerated r location k)

  opened_events :
      (r : R) (p : Product)
      → reg.open_key r (events_at brand p) ≡ true
      → read_product_events reg brand r p
        ≡ events_loop reg
            (suc (length (laws.value_names r (events_at brand p))))
            r
            (opened key_read (events_at brand p))
            0
  unfolding read_product_events
  opened_events r p found = rw (named_product p, found, laws.all_listed r (events_at brand p))

  unopened_events :
      (r : R) (p : Product)
      → reg.open_key r (events_at brand p) ≡ false
      → read_product_events reg brand r p ≡ none
  unfolding read_product_events
  unopened_events r p missing = rw (named_product p, missing)

  -- What ReadProductEvents returns are the names of the values of the product's key.
  pub read_product_events_names :
      (r : R) (p : Product) (es : List Bytes)
      → read_product_events reg brand r p ≡ some es
      → es ≡ laws.value_names r (events_at brand p)
  read_product_events_names r p es h = elim (Bool-cases (reg.open_key r (events_at brand p))) [
    | inl found ↦
        events_loop_sound reg r (opened key_read (events_at brand p))
          (suc (length (laws.value_names r (events_at brand p)))) 0
          (laws.value_names r (events_at brand p)) es (listed_at r (events_at brand p))
          (sym (opened_events r p found) ∙ h)
    | inr missing ↦ absurd (ground (arith, unopened_events r p missing))
  ]

  -- For a registry as it is documented: where the product's key of events can be opened and each name
  -- of its values has less than 2048 bytes, ReadProductEvents ends and returns the names of all of the
  -- values, in the order in which the registry lists them.
  pub read_product_events_lists :
      (r : R) (p : Product)
      → reg.open_key r (events_at brand p) ≡ true
      → all is_short (laws.value_names r (events_at brand p)) ≡ true
      → read_product_events reg brand r p ≡ some (laws.value_names r (events_at brand p))
  read_product_events_lists r p found short =
      opened_events r p found
      ∙ events_loop_total reg r (opened key_read (events_at brand p))
          (suc (length (laws.value_names r (events_at brand p)))) 0
          (laws.value_names r (events_at brand p)) (listed_at r (events_at brand p)) short
          (omega arith)
