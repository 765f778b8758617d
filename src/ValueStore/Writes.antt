-- ===== src/ValueStore/Writes.antt =====
-- The calls of lib/rlz_value_store.h that write, as values; CollectGarbage, which gives no result, is not one.
use rlz.Prelude.{ℕ, Bool, Bytes}
use rlz.Enums.{AccessPoint, Product}
use rlz.ValueStore.{RlzValueStore}

pub data Write : Type 0 where
  write_ping : (product : Product) (time : ℕ) → Write
  clear_ping : (product : Product) → Write
  write_rlz : (point : AccessPoint) (rlz : Bytes) → Write
  clear_rlz : (point : AccessPoint) → Write
  add_event : (product : Product) (event : Bytes) → Write
  clear_event : (product : Product) (event : Bytes) → Write
  clear_every_event : (product : Product) → Write
  add_stateful : (product : Product) (event : Bytes) → Write
  clear_stateful : (product : Product) → Write

unfoldable pub apply_write : {S : Type 0} → RlzValueStore S → Write → S → Bool × S
apply_write store (write_ping product time) s = store.write_ping_time s product time
apply_write store (clear_ping product) s = store.clear_ping_time s product
apply_write store (write_rlz point rlz) s = store.write_access_point_rlz s point rlz
apply_write store (clear_rlz point) s = store.clear_access_point_rlz s point
apply_write store (add_event product event) s = store.add_product_event s product event
apply_write store (clear_event product event) s = store.clear_product_event s product event
apply_write store (clear_every_event product) s = store.clear_all_product_events s product
apply_write store (add_stateful product event) s = store.add_stateful_event s product event
apply_write store (clear_stateful product) s = store.clear_all_stateful_events s product
