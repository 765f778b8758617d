-- ===== src/MacStore/Threads/Safety.antt =====
-- Mutual exclusion and the CHECKs of the lock of mac/lib/rlz_value_store_mac.mm.
use rlz.Prelude.{
  ℕ, ◌<◌, ◌≡◌, ◌≢◌, refl, sym, ap, ◌∙◌, subst, Bool, true, false, List, [], ◌∷◌, inl, inr,
  Bool-cases, ◌==◌, arith,
}
use mathlib.Core.Bool.{true≢false}
use rlz.MacStore.Threads.{Shared, Pc, waiting, crashed, System, Reach}
use rlz.MacStore.Threads.Phase.{Phase, is_away}
use rlz.MacStore.Threads.Invariant.{Reach-Inv}

-- A thread that is not away has the mutex.
has_mutex :
    {readable : Bool} {s : System}
    → Reach readable s
    → (t : ℕ) → 0 < t
    → is_away (s.pc t) ≡ false
    → t ≡ s.shared.owner
has_mutex {readable} {s} reached t pos held = elim (Bool-cases (t == s.shared.owner)) [
  | inl same ↦ ground arith
  | inr other ↦
      let away : is_away (s.pc t) ≡ true = (Reach-Inv reached).others_away t pos (ground arith) in
      absurd (ground arith)
]

-- In every reachable state, whether or not the property list can be read: while a thread is between taking the mutex and giving it up, every other thread
-- is outside, or waits for the mutex or is about to.
pub mutual_exclusion :
    {readable : Bool} {s : System}
    → Reach readable s
    → (t u : ℕ) → 0 < t
    → 0 < u
    → t ≢ u
    → is_away (s.pc t) ≡ false
    → is_away (s.pc u) ≡ true
mutual_exclusion {readable} {s} reached t u t_pos u_pos differ t_in =
    elim (Bool-cases (is_away (s.pc u))) [
      | inl away ↦ away
      | inr held ↦
          absurd (differ (has_mutex reached t t_pos t_in ∙ sym (has_mutex reached u u_pos held)))
    ]

-- Where a thread may stand that has not failed a CHECK and does not wait for itself.
abbrev pub IsSound : Pc → Type 0
IsSound p = (p ≢ crashed) × ((stores : List Bool) → p ≡ waiting stores → stores ≡ [])

Phase-IsSound : (sh : Shared) (p : Pc) → Phase true sh p → IsSound p
Phase-IsSound sh p phase = (
  λ e. absurd (true≢false (subst (Phase true sh) e phase).1),
  λ stores e. absurd (subst (Phase true sh) e phase),
)

away-IsSound : (p : Pc) → is_away p ≡ true → IsSound p
away-IsSound p away = (
  λ e. true≢false (sym away ∙ ap is_away e),
  λ stores e. no_locks stores (sym (ap is_away e) ∙ away),
)
  where
    no_locks : (stores : List Bool) → is_away (waiting stores) ≡ true → stores ≡ []
    no_locks [] h = refl
    no_locks (store ∷ stores) h = absurd (true≢false (sym h))

-- In every state that is reachable while the property list can be read: no CHECK of TryGetCrossProcessLock, or
-- of the constructor or the destructor of ScopedRlzValueStoreLock, has failed in any thread, and no thread that
-- has a lock waits for the mutex.
pub no_check_fails :
    {s : System}
    → Reach true s
    → (t : ℕ) → 0 < t
    → (s.pc t ≢ crashed) × ((stores : List Bool) → s.pc t ≡ waiting stores → stores ≡ [])
no_check_fails {s} reached t pos = elim (Bool-cases (t == s.shared.owner)) [
  | inl same ↦
      let mine : t ≡ s.shared.owner = ground arith in
      rw mine (
        Phase-IsSound s.shared (s.pc s.shared.owner)
          ((Reach-Inv reached).owner_phase (omega arith)))
  | inr other ↦ away-IsSound (s.pc t) ((Reach-Inv reached).others_away t pos (ground arith))
]
