-- ===== src/MacStore/Lock/Laws.antt =====
-- Nested locks of mac/lib/rlz_value_store_mac.mm.
use rlz.Prelude.{
  ℕ, zero, suc, ◌+◌, ◌*◌, ◌-◌, ◌<◌, ◌≤◌, ◌≡◌, refl, ◌∙◌, Bool, true, false, some, inl, inr,
  Bool-cases, ltb, arith,
}
use rlz.MacStore.Lock.{
  crashed, returned, LockState, unlocked, Files, max_timeout_ms, sleep_per_try_ms, max_tries,
  lock_loop, got_of, try_get_cross_process_lock, open_store, scoped_lock, scoped_unlock, Scope,
  Scopes, scope, done, then_scope, run_scope, run_scopes,
}

-- Does one of the tries get the lock file?
abbrev pub gets_lock : Files → Bool
gets_lock files = got_of (lock_loop max_tries files 0 0)

-- The loop of the tries ends.
lock_loop_ends :
    (fuel tries elapsed : ℕ) (files : Files)
    → elapsed < max_timeout_ms + sleep_per_try_ms
    → max_timeout_ms + sleep_per_try_ms ≤ elapsed + sleep_per_try_ms * fuel
    → (got : Bool) × (lock_loop fuel files tries elapsed ≡ some got)
unfolding lock_loop
lock_loop_ends zero tries elapsed files early enough = absurd (omega arith)
lock_loop_ends (suc fuel) tries elapsed files early enough =
    elim (Bool-cases (files.try_lock tries)) [
      | inl here ↦ (true, ground (arith, here))
      | inr not_here ↦ elim (Bool-cases (ltb elapsed max_timeout_ms)) [
        | inl goes_on ↦
            let sooner : elapsed < max_timeout_ms = ground arith in
            let (got, ended) =
              lock_loop_ends fuel (tries + 1) (elapsed + sleep_per_try_ms) files (omega arith)
                (omega arith) in
            (got, ground (arith, not_here, goes_on, ended))
        | inr too_late ↦ (false, ground (arith, not_here, too_late))
      ]
    ]

-- A lock that is held at a depth: with the file's lock and the store, or with neither.
abbrev pub held : Bool → ℕ → LockState
held with_store depth = record {
  locked = true;
  file_lock = with_store;
  lock_depth = depth;
  store_object = with_store;
}

enter :
    (files : Files) (with_store : Bool) (depth : ℕ)
    → scoped_lock files (held with_store (suc depth))
      ≡ returned (with_store, held with_store (suc (suc depth)))
unfolding scoped_lock try_get_cross_process_lock open_store
enter files true depth =
    let same : suc depth + 1 ≡ suc (suc depth) = omega arith in ground (arith, same)
enter files false depth =
    let same : suc depth + 1 ≡ suc (suc depth) = omega arith in ground (arith, same)

leave :
    (store with_store : Bool) (depth : ℕ)
    → scoped_unlock store (held with_store (suc (suc depth)))
      ≡ returned (held with_store (suc depth))
unfolding scoped_unlock
leave store with_store depth =
    let same : suc (suc depth) - 1 ≡ suc depth = omega arith in ground (arith, same)

scope_step :
    (files : Files) (st st' st'' : LockState) (store : Bool) (inner : Scopes)
    → scoped_lock files st ≡ returned (store, st')
    → run_scopes files st' inner ≡ returned st''
    → run_scope files st (scope inner) ≡ scoped_unlock store st''
unfolding run_scope
scope_step files st st' st'' store inner locks runs = rw (run_scope, locks, runs)

scopes_step :
    (files : Files) (st st' : LockState) (first : Scope) (rest : Scopes)
    → run_scope files st first ≡ returned st'
    → run_scopes files st (then_scope first rest) ≡ run_scopes files st' rest
unfolding run_scopes
scopes_step files st st' first rest runs = rw (run_scopes, runs)

mutual
  unfolding run_scope

  inner_scope :
      (files : Files) (with_store : Bool) (depth : ℕ) (s : Scope)
      → run_scope files (held with_store (suc depth)) s ≡ returned (held with_store (suc depth))
  inner_scope files with_store depth (scope inner) =
      scope_step files (held with_store (suc depth)) (held with_store (suc (suc depth)))
        (held with_store (suc (suc depth))) with_store inner (enter files with_store depth)
        (inner_scopes files with_store (suc depth) inner)
      ∙ leave with_store with_store depth

  inner_scopes :
      (files : Files) (with_store : Bool) (depth : ℕ) (s : Scopes)
      → run_scopes files (held with_store (suc depth)) s ≡ returned (held with_store (suc depth))
  inner_scopes files with_store depth done = refl
  inner_scopes files with_store depth (then_scope first rest) =
      scopes_step files (held with_store (suc depth)) (held with_store (suc depth)) first rest
        (inner_scope files with_store depth first)
      ∙ inner_scopes files with_store depth rest

outer_locks :
    (files : Files)
    → (gets_lock files ≡ true → files.reads_plist ≡ true)
    → scoped_lock files unlocked ≡ returned (gets_lock files, held (gets_lock files) 1)
unfolding scoped_lock try_get_cross_process_lock open_store
outer_locks files readable = elim (Bool-cases (gets_lock files)) [
  | inl got ↦ ground (arith, got, readable got)
  | inr denied ↦ ground (arith, denied)
]

outer_unlocks :
    (with_store : Bool) → scoped_unlock with_store (held with_store 1) ≡ returned unlocked
unfolding scoped_unlock
outer_unlocks true = refl
outer_unlocks false = refl

-- Where the property list cannot be read: the first lock, and the next one.
half_held : LockState
half_held = record { locked = true; file_lock = true; lock_depth = 1; store_object = false }

outer_half :
    (files : Files)
    → gets_lock files ≡ true
    → files.reads_plist ≡ false
    → scoped_lock files unlocked ≡ returned (false, half_held)
unfolding scoped_lock try_get_cross_process_lock open_store half_held
outer_half files got unreadable = ground (arith, got, unreadable)

inner_fails : (files : Files) → scoped_lock files half_held ≡ crashed
unfolding scoped_lock try_get_cross_process_lock open_store half_held
inner_fails files = refl

-- Where the property list can be read whenever the lock file is got: locks of the store that are nested
-- in any way, in one thread, run without a failed CHECK, whether or not the lock file is got, and with the
-- last of them everything is unlocked again.
pub nested_locks :
    (files : Files) (inner : Scopes)
    → (gets_lock files ≡ true → files.reads_plist ≡ true)
    → run_scope files unlocked (scope inner) ≡ returned unlocked
nested_locks files inner readable =
    scope_step files unlocked (held (gets_lock files) 1) (held (gets_lock files) 1)
      (gets_lock files) inner (outer_locks files readable)
      (inner_scopes files (gets_lock files) 0 inner)
    ∙ outer_unlocks (gets_lock files)

-- Where the lock file is got but the property list cannot be read: a lock of the store within another
-- one, in one thread, fails a CHECK, which ends the process.
pub nested_lock_crashes :
    (files : Files) (first rest : Scopes)
    → gets_lock files ≡ true
    → files.reads_plist ≡ false
    → run_scope files unlocked (scope (then_scope (scope first) rest)) ≡ crashed
unfolding run_scope
nested_lock_crashes files first rest got unreadable =
    rw (outer_half files got unreadable, run_scopes, run_scope, inner_fails files)

-- The tries of the constructor are enough for the loop to end.
max_tries_enough : (files : Files) → (got : Bool) × (lock_loop max_tries files 0 0 ≡ some got)
max_tries_enough files = lock_loop_ends max_tries 0 0 files (omega arith) (omega arith)
