-- ===== src/ValueStore.antt =====
-- lib/rlz_value_store.h: the class RlzValueStore and its lock as an interface over a state `S`, which
-- holds what the store keeps and the lock. An operation that writes returns its result and the new
-- state; one that reads leaves the state alone. A time is a 64-bit pattern.
pub mod Memory
pub mod Writes
pub mod Frames
use rlz.Prelude.{
  ℕ, ◌<◌, ◌≡◌, ◌≢◌, Bool, true, false, List, [], ◌∷◌, ◌||◌, ◌&&◌, Option, none, some, Bytes, length,
  all, if◌then◌else◌,
}
use rlz.Enums.{AccessPoint, Product}
use rlz.LibValues.{get_access_point_name}
use rlz.LibValues.Names.{is_plain}

pub data AccessType : Type 0 where
  read_access write_access : AccessType

pub record RlzValueStore (S : Type 0) : Type 0 where
  -- ScopedRlzValueStoreLock lock; lock.GetStore() is not NULL
  pub get_store : S → Bool
  pub has_access : S → AccessType → Bool
  pub write_ping_time : S → Product → ℕ → Bool × S
  -- `none` for the result false
  pub read_ping_time : S → Product → Option ℕ
  pub clear_ping_time : S → Product → Bool × S
  pub write_access_point_rlz : S → AccessPoint → Bytes → Bool × S
  -- with the size of the buffer; the second result is the C string in it
  pub read_access_point_rlz : S → AccessPoint → ℕ → Bool × Bytes
  pub clear_access_point_rlz : S → AccessPoint → Bool × S
  pub add_product_event : S → Product → Bytes → Bool × S
  -- the events that the call appends; `none` for the result false
  pub read_product_events : S → Product → Option (List Bytes)
  pub clear_product_event : S → Product → Bytes → Bool × S
  pub clear_all_product_events : S → Product → Bool × S
  pub add_stateful_event : S → Product → Bytes → Bool × S
  pub is_stateful_event : S → Product → Bytes → Bool
  pub clear_all_stateful_events : S → Product → Bool × S
  pub collect_garbage : S → S

-- The guard of the functions of the library: `!store || !store->HasAccess(type)` fails.
abbrev pub can : {S : Type 0} → RlzValueStore S → S → AccessType → Bool
can store s type = store.get_store s && store.has_access s type

-- What a client of the store can see.
pub record View : Type 0 where
  pub ping_time : Product → Option ℕ
  -- [] where no RLZ is stored
  pub rlz : AccessPoint → Bytes
  pub product_event : Product → Bytes → Bool
  pub stateful_event : Product → Bytes → Bool

-- Is a name that `same` takes for `e` in the list?
abbrev pub contains_by : (Bytes → Bytes → Bool) → List Bytes → Bytes → Bool
contains_by same [] e = false
contains_by same (x ∷ xs) e = same x e || contains_by same xs e

-- The contract of the header: an operation that returns true changed its own entry as said, and none of
-- the others that a law names. The rest of what it leaves alone is in Frames.
pub record StoreLaws {S : Type 0} (store : RlzValueStore S) : Type 0 where
  pub view : S → View
  -- which names of events the store takes for one: with no case, some stores do; names of capital
  -- letters and digits are told apart
  pub same_name : Bytes → Bytes → Bool
  pub same_name_refl : (e : Bytes) → same_name e e ≡ true
  pub same_name_plain :
      (e f : Bytes) → all is_plain e ≡ true → all is_plain f ≡ true → same_name e f ≡ true → e ≡ f
  pub read_rlz :
      (s : S) (p : AccessPoint) (name : Bytes) (size : ℕ)
      → get_access_point_name p ≡ some name
      → length ((view s).rlz p) < size
      → store.read_access_point_rlz s p size ≡ (true, (view s).rlz p)
  pub write_rlz :
      (s s' : S) (p : AccessPoint) (rlz : Bytes)
      → store.write_access_point_rlz s p rlz ≡ (true, s')
      → ((view s').rlz p ≡ rlz)
        × ((q : AccessPoint) → q ≢ p → (view s').rlz q ≡ (view s).rlz q)
        × ((view s').product_event ≡ (view s).product_event)
  pub clear_rlz :
      (s s' : S) (p : AccessPoint)
      → store.clear_access_point_rlz s p ≡ (true, s')
      → ((view s').rlz p ≡ [])
        × ((q : AccessPoint) → q ≢ p → (view s').rlz q ≡ (view s).rlz q)
        × ((view s').product_event ≡ (view s).product_event)
  pub read_ping : (s : S) (p : Product) → store.read_ping_time s p ≡ (view s).ping_time p
  pub write_ping :
      (s s' : S) (p : Product) (time : ℕ)
      → store.write_ping_time s p time ≡ (true, s')
      → ((view s').ping_time p ≡ some time)
        × ((q : Product) → q ≢ p → (view s').ping_time q ≡ (view s).ping_time q)
        × ((view s').product_event ≡ (view s).product_event)
  pub clear_ping :
      (s s' : S) (p : Product)
      → store.clear_ping_time s p ≡ (true, s')
      → ((view s').ping_time p ≡ none)
        × ((q : Product) → q ≢ p → (view s').ping_time q ≡ (view s).ping_time q)
        × ((view s').product_event ≡ (view s).product_event)
  pub read_events :
      (s : S) (p : Product) (es : List Bytes)
      → store.read_product_events s p ≡ some es
      → (e : Bytes) → contains_by same_name es e ≡ (view s).product_event p e
  pub add_event :
      (s s' : S) (p : Product) (e : Bytes)
      → store.add_product_event s p e ≡ (true, s')
      → ((f : Bytes)
          → (view s').product_event p f
            ≡ (if same_name e f then true else (view s).product_event p f))
        × ((q : Product) → q ≢ p → (view s').product_event q ≡ (view s).product_event q)
        × ((view s').rlz ≡ (view s).rlz)
        × ((view s').stateful_event ≡ (view s).stateful_event)
  pub clear_event :
      (s s' : S) (p : Product) (e : Bytes)
      → store.clear_product_event s p e ≡ (true, s')
      → ((f : Bytes)
          → (view s').product_event p f
            ≡ (if same_name e f then false else (view s).product_event p f))
        × ((q : Product) → q ≢ p → (view s').product_event q ≡ (view s).product_event q)
        × ((view s').rlz ≡ (view s).rlz)
        × ((view s').stateful_event ≡ (view s).stateful_event)
  pub clear_all_events :
      (s s' : S) (p : Product)
      → store.clear_all_product_events s p ≡ (true, s')
      → ((e : Bytes) → (view s').product_event p e ≡ false)
        × ((q : Product) → q ≢ p → (view s').product_event q ≡ (view s).product_event q)
        × ((view s').rlz ≡ (view s).rlz)
        × ((view s').stateful_event ≡ (view s).stateful_event)
  pub is_stateful :
      (s : S) (p : Product) (e : Bytes)
      → store.is_stateful_event s p e ≡ (view s).stateful_event p e
  pub add_stateful :
      (s s' : S) (p : Product) (e : Bytes)
      → store.add_stateful_event s p e ≡ (true, s')
      → ((f : Bytes)
          → (view s').stateful_event p f
            ≡ (if same_name e f then true else (view s).stateful_event p f))
        × ((q : Product) → q ≢ p → (view s').stateful_event q ≡ (view s).stateful_event q)
        × ((view s').product_event ≡ (view s).product_event)
  pub clear_all_stateful :
      (s s' : S) (p : Product)
      → store.clear_all_stateful_events s p ≡ (true, s')
      → ((e : Bytes) → (view s').stateful_event p e ≡ false)
        × ((q : Product) → q ≢ p → (view s').stateful_event q ≡ (view s).stateful_event q)
        × ((view s').product_event ≡ (view s).product_event)
