-- ===== src/Registry/Store/Unverified.antt =====
-- The checks after the deletions of win/lib/rlz_value_store_registry.cc, which read through a key that
-- is opened with KEY_WRITE.
use rlz.Prelude.{◌≡◌, ap, true, false, not, none, some, Bytes, Bool-cases, inl, inr}
use rlz.Enums.{Product}
use rlz.LibValues.{get_product_name}
use rlz.Registry.{key_write, Registry}
use rlz.Registry.Laws.{RegistryLaws, seen}
use rlz.Registry.Store.{
  is_some, open_location, get_reg_key, get_events_reg_key, clear_ping_time, clear_named_rlz,
  clear_product_event,
}
use rlz.Registry.Store.Locations.{ptimes, rlzs, events_at}
use rlz.Registry.Store.Effects.{named_product}

module _ {R : Type 0} (reg : Registry R) (laws : RegistryLaws reg) where
  -- A key that was opened to be written shows no value.
  unseen :
      (r r' : R) (location n : Bytes)
      → seen (laws.value r') (open_location reg r location key_write).0.1 n ≡ none
  unfolding open_location
  unseen r r' location n = elim (Bool-cases (reg.create_key r location).0) [
    | inl made ↦ rw made
    | inr denied ↦ rw denied
  ]

  no_dword :
      (r r' : R) (location n : Bytes)
      → is_some (reg.read_dword r' (open_location reg r location key_write).0.1 n) ≡ false
  no_dword r r' location n =
      rw (laws.dword_read r' (open_location reg r location key_write).0.1 n, unseen r r' location n)

  -- For a registry as it is documented, where a key that is opened with KEY_WRITE cannot be queried:
  -- ClearPingTime, ClearProductEvent, and ClearAccessPointRlz of a point that has a name, all return
  -- true, whatever becomes of the key and of the value, so also when the key cannot be created or the
  -- value is not deleted.
  pub clear-reports_success :
      (brand : Bytes) (r : R) (p : Product) (name event : Bytes)
      → ((clear_ping_time reg brand r p).0 ≡ true)
        × ((clear_named_rlz reg brand r (some name)).0 ≡ true)
        × ((clear_product_event reg brand r p event).0 ≡ true)
  unfolding clear_ping_time clear_named_rlz clear_product_event get_reg_key get_events_reg_key
  clear-reports_success brand r p name event = (
    ap not (
        laws.raw_unseen _ (open_location reg r (ptimes brand) key_write).0.1 (get_product_name p) 8
          (unseen r _ (ptimes brand) (get_product_name p))),
    ap not (no_dword r _ (rlzs brand) name),
    rw (named_product p) (ap not (no_dword r _ (events_at brand p) event)),
  )
