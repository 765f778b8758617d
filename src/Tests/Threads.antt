-- ===== src/Tests/Threads.antt =====
-- Schedules for two threads of mac/lib/rlz_value_store_mac.mm.
use rlz.Prelude.{ℕ, ◌≡◌, ◌≢◌, refl, Bool, true, false, List, [], ◌∷◌, arith}
use rlz.MacStore.Threads.{Choice, System, initial, compare, waiting, crashed, act, start, run}
use rlz.MacStore.Threads.Phase.{is_away}
use rlz.MacStore.Threads.Invariant.{run-Reach}
use rlz.MacStore.Threads.Safety.{mutual_exclusion, no_check_fails}
use rlz.MacStore.Threads.Release.{steps_left, turns, mutex_released}

abbrev go_in : Choice
go_in = record { takes = true; gets_file = true; reads_plist = true }

abbrev go_out : Choice
go_out = record { takes = false; gets_file = true; reads_plist = true }

-- Thread 1 takes the lock and another inside it, while thread 2 comes to wait.
abbrev contended : List (ℕ × Choice)
contended =
    (1, go_in)
    ∷ (1, go_in)
    ∷ (2, go_in)
    ∷ (1, go_in)
    ∷ (1, go_in)
    ∷ (1, go_in)
    ∷ (2, go_in)
    ∷ (1, go_in)
    ∷ []

mutual_exclusion_example : is_away ((run contended initial).pc 2) ≡ true
unfolding run act rlz.MacStore.Threads.try_mutex rlz.MacStore.Threads.open_store
mutual_exclusion_example =
    mutual_exclusion (run-Reach {readable = true} contended refl start) 1 2 (omega arith)
      (omega arith) (omega arith) refl

no_check_fails_example :
    ((run contended initial).pc 1 ≢ crashed)
    × ((stores : List Bool) → (run contended initial).pc 1 ≡ waiting stores → stores ≡ [])
unfolding run act rlz.MacStore.Threads.try_mutex rlz.MacStore.Threads.open_store
no_check_fails_example =
    no_check_fails (run-Reach {readable = true} contended refl start) 1 (omega arith)

mutex_released_example :
    (run
      (turns 1 true (steps_left (run contended initial).shared ((run contended initial).pc 1)))
      (run contended initial)).shared.owner
    ≡ 0
unfolding run act rlz.MacStore.Threads.try_mutex rlz.MacStore.Threads.open_store
mutex_released_example =
    mutex_released (run-Reach {readable = true} contended refl start) true (omega arith)

-- Thread 2 is waiting there, and thread 1 is about to compare for its second lock.
contended_state :
    ((run contended initial).pc 2 ≡ waiting [])
    × ((run contended initial).pc 1 ≡ compare (true ∷ []))
unfolding run act rlz.MacStore.Threads.try_mutex rlz.MacStore.Threads.open_store
contended_state = (refl, refl)

-- Where the property list cannot be read, the second lock of a thread fails a CHECK.
abbrev unread : Choice
unread = record { takes = true; gets_file = true; reads_plist = false }

abbrev nested_unread : List (ℕ × Choice)
nested_unread =
    (1, unread)
    ∷ (1, unread)
    ∷ (1, unread)
    ∷ (1, unread)
    ∷ (1, unread)
    ∷ (1, unread)
    ∷ (1, unread)
    ∷ (1, unread)
    ∷ (1, unread)
    ∷ (1, unread)
    ∷ []

nested_crash : (run nested_unread initial).pc 1 ≡ crashed
unfolding run act rlz.MacStore.Threads.try_mutex rlz.MacStore.Threads.open_store
nested_crash = refl
