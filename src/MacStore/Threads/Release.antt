-- ===== src/MacStore/Threads/Release.antt =====
-- The release of the lock of mac/lib/rlz_value_store_mac.mm.
use rlz.Prelude.{
  ℕ, zero, suc, ◌&&◌, not, ◌+◌, ◌-◌, ◌<◌, ◌≡◌, ◌⊎◌, refl, sym, ap, ◌∙◌, subst, Bool, true, false,
  List, [], ◌∷◌, Option, none, some, inl, inr, ◌==◌, if◌then◌else◌, arith,
}
use mathlib.Core.Bool.{true≢false}
use rlz.MacStore.Threads.{
  Shared, Pc, outside, compare, waiting, checking, setting, trying, counting, opening, inside,
  closing, verifying, clearing_file, clearing_thread, unlocking, crashed, Choice, open_store,
  count_down, act, System, move_to, Reach, after, run,
}
use rlz.MacStore.Threads.Phase.{Phase, when_true, when_false, open_store-Opened, count_down-Phase}
use rlz.MacStore.Threads.Owner.{first_lock}
use rlz.MacStore.Threads.Invariant.{Reach-Inv, moved_here}

-- How many steps the thread with the mutex is from giving it up, where it takes no other lock.
abbrev pub steps_left : Shared → Pc → ℕ
steps_left sh outside = 0
steps_left sh (compare stores) = 10 + sh.lock_depth
steps_left sh (waiting stores) = 0
steps_left sh (checking stores) = 11
steps_left sh (setting just_got_lock stores) = if just_got_lock then 10 else 9 + sh.lock_depth
steps_left sh (trying stores) = 9
steps_left sh (counting got stores) = 8 + sh.lock_depth
steps_left sh (opening got stores) = 6 + sh.lock_depth
steps_left sh (inside store stores) = 5 + sh.lock_depth
steps_left sh (closing store stores) = 5
steps_left sh (verifying store stores) = 4
steps_left sh (clearing_file stores) = 3
steps_left sh (clearing_thread stores) = 2
steps_left sh (unlocking stores) = 1
steps_left sh crashed = 0

abbrev leave : Bool → Choice
leave gets_file = record { takes = false; gets_file = gets_file; reads_plist = true }

-- `n` steps of the thread `t`.
abbrev pub turns : ℕ → Bool → ℕ → List (ℕ × Choice)
turns t gets_file zero = []
turns t gets_file (suc n) = (t, leave gets_file) ∷ turns t gets_file n

-- The step of the thread with the mutex that takes no other lock: one closer, or the last one.
abbrev Closer : ℕ → ℕ → Option (Shared × Pc) → Type 0
Closer t n none = ⊥
Closer t n (some (sh, p)) =
    ((sh.owner ≡ t) × Phase true sh p × (steps_left sh p + 1 ≡ n)) ⊎ ((sh.owner ≡ 0) × (n ≡ 1))

-- The destructor with the depth counted.
count_down_steps :
    (store : Bool) (stores : List Bool) (sh : Shared)
    → Phase true sh (inside store stores)
    → steps_left (count_down store stores sh).0 (count_down store stores sh).1 + 1
      ≡ 5 + sh.lock_depth
unfolding count_down
count_down_steps store [] sh (mine, depth, shares) =
    let deep : (sh.lock_depth == 0) ≡ false = ground arith in
    let last : (0 == sh.lock_depth - 1) ≡ true = ground arith in rw (deep, last) (omega arith)
count_down_steps store (outer ∷ stores) sh (mine, depth, shares) =
    let deep : (sh.lock_depth == 0) ≡ false = ground arith in
    let more : (0 == sh.lock_depth - 1) ≡ false = ground arith in rw (deep, more) (omega arith)

-- The constructor's end.
opening_end :
    (t : ℕ) (gets_file got : Bool) (stores : List Bool) (sh : Shared)
    → sh.owner ≡ t
    → Phase true sh (opening got stores)
    → Closer t (6 + sh.lock_depth) (some (open_store (leave gets_file) got stores sh))
opening_end t gets_file got stores sh own phase =
    let (own', phase', depth, opened) =
      open_store-Opened true t (leave gets_file) got stores sh own (λ _. refl) phase in
    elim opened [
      | inl (store, here) ↦ inl (
        own',
        phase',
        ap (λ (p : Pc). steps_left (open_store (leave gets_file) got stores sh).0 p + 1) here
            ∙ omega arith,
      )
      | inr unread ↦ absurd (true≢false unread)
    ]

closer :
    (t : ℕ) (gets_file : Bool) (sh : Shared) (p : Pc)
    → 0 < t
    → sh.owner ≡ t
    → Phase true sh p
    → Closer t (steps_left sh p) (act t (leave gets_file) sh p)
unfolding act
closer t gets_file sh outside pos own phase = absurd phase
closer t gets_file sh (compare stores) pos own (mine, depth, shares, deep) =
    when_true (Closer t (10 + sh.lock_depth)) (sh.locking_thread == t) _ _ (ground arith)
      (inl (own, (mine, depth, shares, deep), omega arith))
closer t gets_file sh (waiting stores) pos own phase = absurd phase
closer t gets_file sh (checking stores) pos own (unset, last) =
    when_true (Closer t 11) (sh.locking_thread == 0) _ _ (ground (arith, unset.0))
      (inl (own, (unset, last), refl))
closer t gets_file sh (setting true stores) pos own ((unset, no_file, flat, nothing), last) =
    inl (own, (sym own, no_file, flat, nothing, last), refl)
closer t gets_file sh (setting false stores) pos own (mine, depth, shares, deep) =
    inl (own, (sym own, depth, shares, refl), omega arith)
closer t gets_file sh (trying stores) pos own (mine, no_file, flat, nothing, last) =
    when_false (Closer t 9) sh.file_lock _ _ no_file (
      inl (
        own,
        first_lock true gets_file stores sh (mine, no_file, flat, nothing, last),
        omega arith,
      ))
closer t gets_file sh (counting got stores) pos own (mine, depth, shares, file) =
    inl (own, (mine, omega arith, shares, file), omega arith)
closer t gets_file sh (opening got stores) pos own phase =
    opening_end t gets_file got stores sh own phase
closer t gets_file sh (inside store stores) pos own phase =
    let (phase', kept) = count_down-Phase true store stores sh phase in
    inl (kept ∙ own, phase', count_down_steps store stores sh phase)
closer t gets_file sh (closing true stores) pos own (mine, flat, same, files, last) =
    inl (own, (mine, flat, refl, (λ e. files (sym same)), last), refl)
closer t gets_file sh (closing false stores) pos own (mine, flat, same, files, last) =
    inl (own, (mine, flat, sym same, (λ e. absurd (ground (arith, e))), last), refl)
closer t gets_file sh (verifying store stores) pos own (mine, flat, nothing, files, last) =
    when_false (λ x. Closer t 4 (some x)) (store && not sh.file_lock) _ _ (ground (arith, files))
      (inl (own, (mine, flat, nothing, last), refl))
closer t gets_file sh (clearing_file stores) pos own (mine, flat, nothing, last) =
    inl (own, (mine, refl, flat, nothing, last), refl)
closer t gets_file sh (clearing_thread stores) pos own (mine, no_file, flat, nothing, last) =
    inl (own, ((refl, no_file, flat, nothing), last), refl)
closer t gets_file sh (unlocking stores) pos own (unset, last) = inr (refl, refl)
closer t gets_file sh crashed pos own phase = absurd (true≢false phase.1)

Closer-positive : (t n : ℕ) (r : Option (Shared × Pc)) → Closer t n r → 0 < n
Closer-positive t n none c = absurd c
Closer-positive t n (some (sh, p)) (inl (own, phase, left)) = omega arith
Closer-positive t n (some (sh, p)) (inr (free, last)) = omega arith

-- That the rest of the schedule ends with the mutex free, from where its thread is `n` steps from that.
abbrev Frees : ℕ → ℕ → (System → System) → Type 0
Frees n t rest =
    (s : System)
    → s.shared.owner ≡ t
    → Phase true s.shared (s.pc t)
    → steps_left s.shared (s.pc t) ≡ n
    → (rest s).shared.owner ≡ 0

after-free :
    (n t : ℕ) (gets_file : Bool) (s : System) (r : Option (Shared × Pc))
    → Closer t (suc n) r
    → Frees n t (run (turns t gets_file n))
    → (run (turns t gets_file n) (after s t r)).shared.owner ≡ 0
unfolding run
after-free n t gets_file s none c frees = absurd c
after-free n t gets_file s (some (sh, p)) (inl (own, phase, left)) frees =
    let here = moved_here s.pc t p in
    frees (record { shared = sh; pc = move_to s.pc t p }) own (rw here phase)
      (rw here (omega arith))
after-free n t gets_file s (some (sh, p)) (inr (free, last)) frees =
    let none_left : n ≡ 0 = omega arith in rw none_left free

turns-free : (n t : ℕ) (gets_file : Bool) → 0 < t → Frees n t (run (turns t gets_file n))
unfolding run
turns-free zero t gets_file pos s own phase left =
    absurd
      (omega (arith, Closer-positive _ _ _ (closer t gets_file s.shared (s.pc t) pos own phase)))
turns-free (suc n) t gets_file pos s own phase left =
    let step = act t (leave gets_file) s.shared (s.pc t) in
    let closer : Closer t (suc n) step =
      subst (λ k. Closer t k step) left (closer t gets_file s.shared (s.pc t) pos own phase) in
    after-free n t gets_file s step closer (turns-free n t gets_file pos)

-- In every state that is reachable while the property list can be read: the thread with the mutex, when it
-- takes no other lock, gives the mutex up after exactly `steps_left` steps of its own, whether or not it gets the
-- lock file.
pub mutex_released :
    {s : System}
    → Reach true s
    → (gets_file : Bool) → 0 < s.shared.owner
    → (run
        (turns s.shared.owner gets_file (steps_left s.shared (s.pc s.shared.owner)))
        s).shared.owner
      ≡ 0
mutex_released {s} reached gets_file taken =
    turns-free _ s.shared.owner gets_file taken s refl ((Reach-Inv reached).owner_phase taken) refl
