-- ===== src/MacStore/Lock.antt =====
-- mac/lib/rlz_value_store_mac.mm: the lock of the store, for the calls of one thread. The lock file and the
-- property list are parameters.
pub mod Laws
use rlz.Prelude.{
  ℕ, zero, suc, ◌+◌, ◌-◌, Bool, true, false, not, ◌&&◌, List, [], ◌∷◌, Option, none, some, ltb,
  ◌==◌, if◌then◌else◌,
}

-- A CHECK that fails ends the process.
pub data Run (A : Type 0) : Type 0 where
  crashed : Run A
  returned : A → Run A

-- g_recursive_lock, g_lock_depth and whether g_store_object is set.
pub record LockState : Type 0 where
  -- recursive_lock_ is locked, by this thread
  pub locked : Bool
  -- file_lock_ is not nil
  pub file_lock : Bool
  pub lock_depth : ℕ
  pub store_object : Bool

abbrev pub unlocked : LockState
unlocked = record { locked = false; file_lock = false; lock_depth = 0; store_object = false }

pub record Files : Type 0 where
  -- what tryLock gives, at each try
  pub try_lock : ℕ → Bool
  -- dictionaryWithContentsOfFile is not nil
  pub reads_plist : Bool

abbrev pub max_timeout_ms : ℕ
max_timeout_ms = 5000

abbrev pub sleep_per_try_ms : ℕ
sleep_per_try_ms = 200

-- The loop of the tries: got_file_lock, `none` where it takes more tries than the fuel.
unfoldable pub lock_loop : ℕ → Files → ℕ → ℕ → Option Bool
lock_loop zero files tries elapsed_ms = none
lock_loop (suc fuel) files tries elapsed_ms =
    let later = lock_loop fuel files (tries + 1) (elapsed_ms + sleep_per_try_ms) in
    if files.try_lock tries
    then some true
    else if ltb elapsed_ms max_timeout_ms
    then later
    else some false

-- One try at each 200 ms from 0 to 5000.
abbrev pub max_tries : ℕ
max_tries = 26

unfoldable pub got_of : Option Bool → Bool
got_of none = false
got_of (some got) = got

pub try_get_cross_process_lock : Files → LockState → Run (Bool × LockState)
unfolding lock_loop got_of
try_get_cross_process_lock files st =
    if st.locked
    then returned (st.file_lock, st)
    else if st.file_lock
    then crashed
    else let got_file_lock = got_of (lock_loop max_tries files 0 0) in
      returned (got_file_lock, record st { locked = true; file_lock = got_file_lock })

-- The constructor of ScopedRlzValueStoreLock after the lock, with the depth counted: is store_ set?
open_store : Files → Bool → LockState → Run (Bool × LockState)
open_store files got_distributed_lock st =
    if not got_distributed_lock
    then (if st.store_object then crashed else returned (false, st))
    else if ltb 1 st.lock_depth
    then (if st.store_object then returned (true, st) else crashed)
    else if st.store_object
    then crashed
    else returned (files.reads_plist, record st { store_object = files.reads_plist })

pub scoped_lock : Files → LockState → Run (Bool × LockState)
unfolding try_get_cross_process_lock open_store
scoped_lock files st = elim (try_get_cross_process_lock files st) [
  | crashed ↦ crashed
  | returned (got, st') ↦ open_store files got (record st' { lock_depth = st'.lock_depth + 1 })
]

-- The destructor, with whether store_ is set.
pub scoped_unlock : Bool → LockState → Run LockState
scoped_unlock store st =
    if st.lock_depth == 0
    then crashed
    else if ltb 1 st.lock_depth
    then returned (record st { lock_depth = st.lock_depth - 1 })
    else if store && not st.file_lock
    then crashed
    else returned (record {
      locked = false;
      file_lock = false;
      lock_depth = 0;
      store_object = if store then false else st.store_object;
    })

-- Scopes that hold a lock, and the scopes within them, in their order.
mutual
  pub data Scope : Type 0 where
    scope : Scopes → Scope

  pub data Scopes : Type 0 where
    done : Scopes
    then_scope : Scope → Scopes → Scopes

abbrev pub and_then : {A B : Type 0} → Run A → (A → Run B) → Run B
and_then crashed next = crashed
and_then (returned a) next = next a

mutual
  pub run_scope : Files → LockState → Scope → Run LockState
  run_scope files st (scope inner) =
      and_then (scoped_lock files st)
        (λ locked. and_then (run_scopes files locked.1 inner) (λ left. scoped_unlock locked.0 left))

  pub run_scopes : Files → LockState → Scopes → Run LockState
  run_scopes files st done = returned st
  run_scopes files st (then_scope first rest) =
      and_then (run_scope files st first) (λ left. run_scopes files left rest)
