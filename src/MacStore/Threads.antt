-- ===== src/MacStore/Threads.antt =====
-- mac/lib/rlz_value_store_mac.mm: RecursiveCrossProcessLock between the threads of a process, with the
-- constructor and the destructor of ScopedRlzValueStoreLock and all of their CHECKs. Each step is one access
-- of what the threads share, or a few under the mutex. A thread is a number from 1 on.
pub mod Phase
pub mod Owner
pub mod Invariant
pub mod Safety
pub mod Release
use rlz.Prelude.{
  ℕ, ◌+◌, ◌-◌, ◌<◌, ◌≡◌, Bool, true, false, not, ◌&&◌, List, [], ◌∷◌, Option, none, some, ltb, ◌==◌,
  if◌then◌else◌,
}

-- recursive_lock_ by its owner (0 where it is free), locking_thread_, whether file_lock_ and g_store_object
-- are set, and g_lock_depth.
pub record Shared : Type 0 where
  pub owner : ℕ
  pub locking_thread : ℕ
  pub file_lock : Bool
  pub lock_depth : ℕ
  pub store_object : Bool

-- Where a thread stands. `stores` has the locks of the thread, the ScopedRlzValueStoreLocks that it has and
-- has not given up, from the innermost one on: whether store_ is set in each.
pub data Pc : Type 0 where
  outside : Pc  -- with no lock
  compare : (stores : List Bool) → Pc  -- pthread_mutex_trylock gave EBUSY
  waiting : (stores : List Bool) → Pc  -- in pthread_mutex_lock
  checking : (stores : List Bool) → Pc  -- before CHECK(locking_thread_ == 0)
  setting : (just_got_lock : Bool) (stores : List Bool) → Pc  -- before locking_thread_ = pthread_self()
  trying : (stores : List Bool) → Pc  -- before CHECK(!file_lock_) and the tries
  counting : (got : Bool) (stores : List Bool) → Pc  -- before ++g_lock_depth
  opening : (got : Bool) (stores : List Bool) → Pc  -- in the constructor after that
  inside : (store : Bool) (stores : List Bool) → Pc  -- with the lock whose store_ is `store`, the innermost
  closing : (store : Bool) (stores : List Bool) → Pc  -- in the destructor, g_lock_depth is 0
  verifying : (store : Bool) (stores : List Bool) → Pc  -- before CHECK(g_recursive_lock.file_lock_)
  clearing_file : (stores : List Bool) → Pc  -- in ReleaseLock, before file_lock_ = nil
  clearing_thread : (stores : List Bool) → Pc  -- before locking_thread_ = 0
  unlocking : (stores : List Bool) → Pc  -- before pthread_mutex_unlock
  crashed : Pc  -- a CHECK failed

-- What is left open: whether a thread with a lock takes another one or gives the last one up, whether
-- a try gets the lock file, and whether dictionaryWithContentsOfFile gives a dictionary.
pub record Choice : Type 0 where
  pub takes : Bool
  pub gets_file : Bool
  pub reads_plist : Bool

-- The call of pthread_mutex_trylock.
unfoldable pub try_mutex : ℕ → List Bool → Shared → Shared × Pc
try_mutex t stores sh =
    if sh.owner == 0 then (record sh { owner = t }, setting true stores) else (sh, compare stores)

-- A thread that has gone through a destructor.
abbrev pub after_scope : List Bool → Pc
after_scope [] = outside
after_scope (store ∷ stores) = inside store stores

-- The constructor of ScopedRlzValueStoreLock after ++g_lock_depth, with its CHECKs of g_store_object.
unfoldable pub open_store : Choice → Bool → List Bool → Shared → Shared × Pc
open_store choice got stores sh =
    if not got
    then (if sh.store_object then (sh, crashed) else (sh, inside false stores))
    else if ltb 1 sh.lock_depth
    then (if sh.store_object then (sh, inside true stores) else (sh, crashed))
    else if sh.store_object
    then (sh, crashed)
    else (record sh { store_object = choice.reads_plist }, inside choice.reads_plist stores)

-- The destructor, to g_lock_depth > 0: where the depth is 0, CHECK(g_lock_depth >= 0) fails after it is
-- counted down.
unfoldable pub count_down : Bool → List Bool → Shared → Shared × Pc
count_down store stores sh = if sh.lock_depth == 0 then (sh, crashed) else (
  record sh { lock_depth = sh.lock_depth - 1 },
  (if 0 == sh.lock_depth - 1 then closing store stores else after_scope stores),
)

-- The destructor at depth 0: the store object is given up, and then the CHECKs of file_lock_.
unfoldable pub drop_store : Bool → Shared → Shared
drop_store store sh = record sh { store_object = if store then false else sh.store_object }

unfoldable pub check_file : Bool → List Bool → Shared → Shared × Pc
check_file store stores sh =
    if store && not sh.file_lock then (sh, crashed) else (sh, clearing_file stores)

-- The step of the thread `t`; `none` where it has to wait, or the process has ended.
unfoldable pub act : ℕ → Choice → Shared → Pc → Option (Shared × Pc)
unfolding try_mutex open_store count_down drop_store check_file
act t choice sh outside = some (try_mutex t [] sh)
act t choice sh (compare stores) =
    if sh.locking_thread == t then some (sh, setting false stores) else some (sh, waiting stores)
act t choice sh (waiting stores) =
    if sh.owner == 0 then some (record sh { owner = t }, checking stores) else none
act t choice sh (checking stores) =
    if sh.locking_thread == 0 then some (sh, setting true stores) else some (sh, crashed)
act t choice sh (setting just_got_lock stores) = some (
  record sh { locking_thread = t },
  (if just_got_lock then trying stores else counting sh.file_lock stores),
)
act t choice sh (trying stores) =
    if sh.file_lock
    then some (sh, crashed)
    else some (record sh { file_lock = choice.gets_file }, counting choice.gets_file stores)
act t choice sh (counting got stores) =
    some (record sh { lock_depth = sh.lock_depth + 1 }, opening got stores)
act t choice sh (opening got stores) = some (open_store choice got stores sh)
act t choice sh (inside store stores) =
    if choice.takes
    then some (try_mutex t (store ∷ stores) sh)
    else some (count_down store stores sh)
act t choice sh (closing store stores) = some (drop_store store sh, verifying store stores)
act t choice sh (verifying store stores) = some (check_file store stores sh)
act t choice sh (clearing_file stores) =
    some (record sh { file_lock = false }, clearing_thread stores)
act t choice sh (clearing_thread stores) = some (record sh { locking_thread = 0 }, unlocking stores)
act t choice sh (unlocking stores) = some (record sh { owner = 0 }, after_scope stores)
act t choice sh crashed = none

pub record System : Type 0 where
  pub shared : Shared
  pub pc : ℕ → Pc

abbrev pub move_to : (ℕ → Pc) → ℕ → Pc → ℕ → Pc
move_to pc t p u = if t == u then p else pc u

-- One thread takes a step; where `readable` is true, the property list can be read.
pub data Step (readable : Bool) (s s' : System) : Type 0 where
  picks :
      (t : ℕ) (choice : Choice) (sh : Shared) (p : Pc)
      → 0 < t
      → (readable ≡ true → choice.reads_plist ≡ true)
      → act t choice s.shared (s.pc t) ≡ some (sh, p)
      → s' ≡ record { shared = sh; pc = move_to s.pc t p }
      → Step readable s s'

abbrev pub initial : System
initial = record {
  shared = record {
    owner = 0;
    locking_thread = 0;
    file_lock = false;
    lock_depth = 0;
    store_object = false;
  };
  pc = λ t. outside;
}

pub data Reach (readable : Bool) : System → Type 0 where
  start : Reach readable initial
  later : {s s' : System} → Reach readable s → Step readable s s' → Reach readable s'

-- The system after what `act` gave for the thread `t`: a thread that has to wait changes nothing.
abbrev pub after : System → ℕ → Option (Shared × Pc) → System
after s t none = s
after s t (some (sh, p)) = record { shared = sh; pc = move_to s.pc t p }

-- A schedule: which thread moves, with its choice.
unfoldable pub run : List (ℕ × Choice) → System → System
run [] s = s
run ((t, choice) ∷ rest) s = run rest (after s t (act t choice s.shared (s.pc t)))
