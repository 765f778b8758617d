-- ===== src/ValueStore/Frames.antt =====
-- What the calls of lib/rlz_value_store.h that write leave alone, beyond `StoreLaws`, and that CollectGarbage
-- changes nothing that a client can see.
use rlz.Prelude.{ℕ, ◌≡◌, Bool, true, false, Bytes, if◌then◌else◌}
use rlz.Enums.{AccessPoint, Product}
use rlz.ValueStore.{RlzValueStore, StoreLaws, can, write_access}

pub record StoreFrames {S : Type 0} (store : RlzValueStore S) (laws : StoreLaws store)
    : Type 0 where
  pub write_rlz_frame :
      (s s' : S) (p : AccessPoint) (rlz : Bytes)
      → store.write_access_point_rlz s p rlz ≡ (true, s')
      → ((laws.view s').ping_time ≡ (laws.view s).ping_time)
        × ((laws.view s').stateful_event ≡ (laws.view s).stateful_event)
  pub clear_rlz_frame :
      (s s' : S) (p : AccessPoint)
      → store.clear_access_point_rlz s p ≡ (true, s')
      → ((laws.view s').ping_time ≡ (laws.view s).ping_time)
        × ((laws.view s').stateful_event ≡ (laws.view s).stateful_event)
  pub write_ping_frame :
      (s s' : S) (p : Product) (time : ℕ)
      → store.write_ping_time s p time ≡ (true, s')
      → ((laws.view s').rlz ≡ (laws.view s).rlz)
        × ((laws.view s').stateful_event ≡ (laws.view s).stateful_event)
  pub clear_ping_frame :
      (s s' : S) (p : Product)
      → store.clear_ping_time s p ≡ (true, s')
      → ((laws.view s').rlz ≡ (laws.view s).rlz)
        × ((laws.view s').stateful_event ≡ (laws.view s).stateful_event)
  pub add_event_frame :
      (s s' : S) (p : Product) (e : Bytes)
      → store.add_product_event s p e ≡ (true, s')
      → (laws.view s').ping_time ≡ (laws.view s).ping_time
  pub clear_event_frame :
      (s s' : S) (p : Product) (e : Bytes)
      → store.clear_product_event s p e ≡ (true, s')
      → (laws.view s').ping_time ≡ (laws.view s).ping_time
  pub clear_all_events_frame :
      (s s' : S) (p : Product)
      → store.clear_all_product_events s p ≡ (true, s')
      → (laws.view s').ping_time ≡ (laws.view s).ping_time
  pub add_stateful_frame :
      (s s' : S) (p : Product) (e : Bytes)
      → store.add_stateful_event s p e ≡ (true, s')
      → ((laws.view s').ping_time ≡ (laws.view s).ping_time)
        × ((laws.view s').rlz ≡ (laws.view s).rlz)
  pub clear_all_stateful_frame :
      (s s' : S) (p : Product)
      → store.clear_all_stateful_events s p ≡ (true, s')
      → ((laws.view s').ping_time ≡ (laws.view s).ping_time)
        × ((laws.view s').rlz ≡ (laws.view s).rlz)
  pub collect_garbage_frame : (s : S) → laws.view (store.collect_garbage s) ≡ laws.view s

-- A store in which ClearProductEvent leaves the product without the event also where it returns false, and
-- keeps the access, wherever it may be written.
pub record ClearsEvents {S : Type 0} (store : RlzValueStore S) (laws : StoreLaws store)
    : Type 0 where
  pub unsuccessful :
      (s s' : S) (p : Product) (e : Bytes)
      → can store s write_access ≡ true
      → store.clear_product_event s p e ≡ (false, s')
      → (f : Bytes)
      → (laws.view s').product_event p f
        ≡ (if laws.same_name e f then false else (laws.view s).product_event p f)
  pub keeps :
      (s : S) (p : Product) (e : Bytes)
      → can store s write_access ≡ true
      → can store (store.clear_product_event s p e).1 write_access ≡ true

-- The whole contract of a store for which two names of events are one where `same` says so.
pub record StoreContract {S : Type 0} (store : RlzValueStore S) (same : Bytes → Bytes → Bool)
    : Type 0 where
  pub laws : StoreLaws store
  pub frames : StoreFrames store laws
  pub names : (e f : Bytes) → laws.same_name e f ≡ same e f
