-- ===== src/MacStore/Threads/Phase.antt =====
-- What the thread that has the lock of mac/lib/rlz_value_store_mac.mm finds, and what its steps keep of that.
use rlz.Prelude.{
  ℕ, suc, ◌-◌, ◌<◌, ◌≡◌, ◌⊎◌, refl, sym, ◌∙◌, Bool, true, false, List, [], ◌∷◌, length, ltb, inl,
  inr, Bool-cases, ◌==◌, if◌then◌else◌, arith,
}
use mathlib.Core.Bool.{true≢false}
use rlz.MacStore.Threads.{
  Shared, Pc, outside, compare, waiting, checking, setting, trying, counting, opening, inside,
  closing, verifying, clearing_file, clearing_thread, unlocking, crashed, Choice, open_store,
  count_down,
}

-- A thread that does not have the mutex.
abbrev pub is_away : Pc → Bool
is_away outside = true
is_away (compare []) = true
is_away (waiting []) = true
is_away _ = false

-- With the mutex, before locking_thread_ is set and after it is cleared.
abbrev pub IsUnset : Shared → Type 0
IsUnset sh =
    (sh.locking_thread ≡ 0)
    × (sh.file_lock ≡ false)
    × (sh.lock_depth ≡ 0)
    × (sh.store_object ≡ false)

abbrev pub AllAre : Bool → List Bool → Type 0
AllAre b [] = Unit {0}
AllAre b (x ∷ xs) = (x ≡ b) × AllAre b xs

-- The locks of the thread share the store object, which needs the lock file; it is there if the property
-- list can be read.
abbrev pub Shares : Bool → Shared → List Bool → Type 0
Shares readable sh stores =
    AllAre sh.store_object stores
    × (sh.store_object ≡ true → sh.file_lock ≡ true)
    × (readable ≡ true → 0 < length stores → sh.file_lock ≡ true → sh.store_object ≡ true)
    × (length stores ≡ 0 → sh.store_object ≡ false)

-- What the thread that has the mutex finds, by where it stands.
abbrev pub Phase : Bool → Shared → Pc → Type 0
Phase readable sh outside = ⊥
Phase readable sh (compare stores) =
    (sh.locking_thread ≡ sh.owner)
    × (sh.lock_depth ≡ length stores)
    × Shares readable sh stores
    × (0 < length stores)
Phase readable sh (waiting stores) = ⊥
Phase readable sh (checking stores) = IsUnset sh × (stores ≡ [])
Phase readable sh (setting true stores) = IsUnset sh × (stores ≡ [])
Phase readable sh (setting false stores) =
    (sh.locking_thread ≡ sh.owner)
    × (sh.lock_depth ≡ length stores)
    × Shares readable sh stores
    × (0 < length stores)
Phase readable sh (trying stores) =
    (sh.locking_thread ≡ sh.owner)
    × (sh.file_lock ≡ false)
    × (sh.lock_depth ≡ 0)
    × (sh.store_object ≡ false)
    × (stores ≡ [])
Phase readable sh (counting got stores) =
    (sh.locking_thread ≡ sh.owner)
    × (sh.lock_depth ≡ length stores)
    × Shares readable sh stores
    × (sh.file_lock ≡ got)
Phase readable sh (opening got stores) =
    (sh.locking_thread ≡ sh.owner)
    × (sh.lock_depth ≡ suc (length stores))
    × Shares readable sh stores
    × (sh.file_lock ≡ got)
Phase readable sh (inside store stores) =
    (sh.locking_thread ≡ sh.owner)
    × (sh.lock_depth ≡ suc (length stores))
    × Shares readable sh (store ∷ stores)
Phase readable sh (closing store stores) =
    (sh.locking_thread ≡ sh.owner)
    × (sh.lock_depth ≡ 0)
    × (store ≡ sh.store_object)
    × (sh.store_object ≡ true → sh.file_lock ≡ true)
    × (stores ≡ [])
Phase readable sh (verifying store stores) =
    (sh.locking_thread ≡ sh.owner)
    × (sh.lock_depth ≡ 0)
    × (sh.store_object ≡ false)
    × (store ≡ true → sh.file_lock ≡ true)
    × (stores ≡ [])
Phase readable sh (clearing_file stores) =
    (sh.locking_thread ≡ sh.owner) × (sh.lock_depth ≡ 0) × (sh.store_object ≡ false) × (stores ≡ [])
Phase readable sh (clearing_thread stores) =
    (sh.locking_thread ≡ sh.owner)
    × (sh.file_lock ≡ false)
    × (sh.lock_depth ≡ 0)
    × (sh.store_object ≡ false)
    × (stores ≡ [])
Phase readable sh (unlocking stores) = IsUnset sh × (stores ≡ [])
Phase readable sh crashed = (sh.locking_thread ≡ sh.owner) × (readable ≡ false)

-- A constructor with the mutex held ends with its lock, or with the CHECK of a store object that is not there
-- because the property list could not be read.
abbrev pub Opened : Bool → ℕ → List Bool → Shared → Shared × Pc → Type 0
Opened readable t stores sh (sh', p) =
    (sh'.owner ≡ t)
    × Phase readable sh' p
    × (sh'.lock_depth ≡ sh.lock_depth)
    × (((store : Bool) × (p ≡ inside store stores)) ⊎ (readable ≡ false))

pub when_true :
    {A : Type 0} (P : A → Type 0) (b : Bool) (x y : A) → b ≡ true → P x → P (if b then x else y)
when_true P true x y h px = px
when_true P false x y h px = absurd (ground (arith, h))

pub when_false :
    {A : Type 0} (P : A → Type 0) (b : Bool) (x y : A) → b ≡ false → P y → P (if b then x else y)
when_false P true x y h py = absurd (ground (arith, h))
when_false P false x y h py = py

pub open_store-Opened :
    (readable : Bool) (t : ℕ) (choice : Choice) (got : Bool) (stores : List Bool) (sh : Shared)
    → sh.owner ≡ t
    → (readable ≡ true → choice.reads_plist ≡ true)
    → Phase readable sh (opening got stores)
    → Opened readable t stores sh (open_store choice got stores sh)
unfolding open_store
open_store-Opened readable t choice false stores sh own reads
      (mine, depth, (same, files, has, none_yet), file) =
    let nothing : sh.store_object ≡ false = ground (arith, files, file) in
    when_false (Opened readable t stores sh) sh.store_object _ _ nothing (
      own,
      (
        mine,
        depth,
        (
          (sym nothing, same),
          files,
          (λ r up got. absurd (ground (arith, got, file))),
          (λ e. nothing),
        ),
      ),
      refl,
      inl (false, refl),
    )
open_store-Opened readable t choice true [] sh own reads
      (mine, depth, (same, files, has, none_yet), file) =
    let flat : ltb 1 sh.lock_depth ≡ false = ground arith in
    when_false (Opened readable t [] sh) (ltb 1 sh.lock_depth) _ _ flat (
      when_false (Opened readable t [] sh) sh.store_object _ _ (none_yet refl) (
        own,
        (
          mine,
          depth,
          ((refl, tt), (λ e. file), (λ r up got. reads r), (λ e. absurd (omega arith))),
        ),
        refl,
        inl (choice.reads_plist, refl),
      ))
open_store-Opened readable t choice true (store ∷ stores) sh own reads
      (mine, depth, (same, files, has, none_yet), file) =
    let deep : ltb 1 sh.lock_depth ≡ true = ground arith in
    when_true (Opened readable t (store ∷ stores) sh) (ltb 1 sh.lock_depth) _ _ deep
      (elim (Bool-cases sh.store_object) [
        | inl there ↦ when_true (Opened readable t (store ∷ stores) sh) sh.store_object _ _ there (
          own,
          (
            mine,
            depth,
            ((sym there, same), files, (λ r up got. there), (λ e. absurd (omega arith))),
          ),
          refl,
          inl (true, refl),
        )
        | inr missing ↦
            let unread = not_read (λ r. has r (omega arith) file) missing in
            when_false (Opened readable t (store ∷ stores) sh) sh.store_object _ _ missing
              (own, (mine, unread), refl, inr unread)
      ])
  where
    not_read :
        (readable ≡ true → sh.store_object ≡ true) → sh.store_object ≡ false → readable ≡ false
    not_read reads missing = elim (Bool-cases readable) [
      | inl r ↦ absurd (true≢false (sym (reads r) ∙ missing))
      | inr unread ↦ unread
    ]

-- A destructor leads to the last lock's end, or to the lock around it.
pub count_down-Phase :
    (readable : Bool) (store : Bool) (stores : List Bool) (sh : Shared)
    → Phase readable sh (inside store stores)
    → Phase readable (count_down store stores sh).0 (count_down store stores sh).1
      × ((count_down store stores sh).0.owner ≡ sh.owner)
unfolding count_down
count_down-Phase readable store [] sh (mine, depth, (same, files, has, none_yet)) =
    let deep : (sh.lock_depth == 0) ≡ false = ground arith in
    let last : (0 == sh.lock_depth - 1) ≡ true = ground arith in
    rw (deep, last) ((mine, omega arith, same.0, files, refl), refl)
count_down-Phase readable store (outer ∷ stores) sh (mine, depth, (same, files, has, none_yet)) =
    let deep : (sh.lock_depth == 0) ≡ false = ground arith in
    let more : (0 == sh.lock_depth - 1) ≡ false = ground arith in
    rw (deep, more)
      (
        (
          mine,
          omega arith,
          (same.1, files, (λ r up got. has r (omega arith) got), (λ e. absurd (omega arith))),
        ),
        refl,
      )
