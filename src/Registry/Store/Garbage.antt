-- ===== src/Registry/Store/Garbage.antt =====
-- CollectGarbage of win/lib/rlz_value_store_registry.cc changes no value, under any brand.
use rlz.Prelude.{◌≡◌, refl, ◌∙◌, true, List, [], ◌∷◌, Bytes, inl, inr, Bool-cases, ltb, arith}
use rlz.Registry.{Registry, root_key}
use rlz.Registry.Text.{within}
use rlz.Registry.Laws.{RegistryLaws}
use rlz.Registry.Store.{garbage_keys, delete_key_if_empty, delete_empty_keys, collect_garbage}

module _ {R : Type 0} (reg : Registry R) (laws : RegistryLaws reg) where
  open laws use {value}

  empty_deleted :
      (r : R) (key_name l m : Bytes)
      → reg.open_key r key_name ≡ true
      → reg.subkey_count r key_name ≡ 0
      → reg.value_count r key_name ≡ 0
      → value (reg.delete_key r root_key key_name).1 l m ≡ value r l m
  empty_deleted r key_name l m found subkeys values =
      laws.root_deleted r key_name l m (elim (Bool-cases (within key_name l)) [
        | inl below ↦ inr (laws.empty_key r key_name l m found subkeys values below)
        | inr apart ↦ inl apart
      ])

  delete_key_if_empty_kept :
      (r : R) (key_name l m : Bytes)
      → value (delete_key_if_empty reg r key_name).1 l m ≡ value r l m
  unfolding delete_key_if_empty
  delete_key_if_empty_kept r key_name l m = elim (Bool-cases (reg.open_key r key_name)) [
    | inr missing ↦ rw missing refl
    | inl found ↦ elim (Bool-cases (ltb 0 (reg.subkey_count r key_name))) [
      | inl some_keys ↦ rw (found, some_keys) refl
      | inr no_keys ↦ elim (Bool-cases (ltb 0 (reg.value_count r key_name))) [
        | inl some_values ↦ rw (found, no_keys, some_values) refl
        | inr no_values ↦
            rw (found, no_keys, no_values)
              (empty_deleted r key_name l m found (ground arith) (ground arith))
      ]
    ]
  ]

  delete_empty_keys_kept :
      (r : R) (names : List Bytes) (l m : Bytes)
      → value (delete_empty_keys reg r names) l m ≡ value r l m
  unfolding delete_empty_keys
  delete_empty_keys_kept r [] l m = refl
  delete_empty_keys_kept r (key_name ∷ rest) l m =
      delete_empty_keys_kept (delete_key_if_empty reg r key_name).1 rest l m
      ∙ delete_key_if_empty_kept r key_name l m

  -- For a registry as it is documented: CollectGarbage leaves every value at every location, of whatever brand
  -- or program, as it was, whichever of its keys it deletes and whether or not a deletion succeeds.
  pub collect_garbage_kept :
      (brand : Bytes) (r : R) (l m : Bytes) → value (collect_garbage reg brand r) l m ≡ value r l m
  unfolding collect_garbage
  collect_garbage_kept brand r l m = delete_empty_keys_kept r (garbage_keys brand) l m
