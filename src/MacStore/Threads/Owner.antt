-- ===== src/MacStore/Threads/Owner.antt =====
-- The steps of the thread that has the lock of mac/lib/rlz_value_store_mac.mm keep what it finds.
use rlz.Prelude.{
  ℕ, ◌<◌, ◌≡◌, ◌⊎◌, refl, sym, ap, ◌∙◌, Bool, true, false, not, ◌&&◌, List, [], length, Option,
  none, some, inl, inr, Bool-cases, ◌==◌, arith,
}
use mathlib.Core.Bool.{true≢false}
use rlz.MacStore.Threads.{
  Shared, Pc, outside, compare, waiting, checking, setting, trying, counting, opening, inside,
  closing, verifying, clearing_file, clearing_thread, unlocking, crashed, Choice, act,
}
use rlz.MacStore.Threads.Phase.{
  is_away, IsUnset, Phase, when_true, when_false, open_store-Opened, count_down-Phase,
}

-- After a step of the thread `t`: it has the mutex with its phase, or gave it up.
abbrev pub Held : Bool → ℕ → Option (Shared × Pc) → Type 0
Held readable t none = Unit {0}
Held readable t (some (sh, p)) =
    ((sh.owner ≡ t) × Phase readable sh p) ⊎ ((sh.owner ≡ 0) × IsUnset sh × (is_away p ≡ true))

pub owner_inside :
    (readable : Bool) (t : ℕ) (choice : Choice) (sh : Shared) (store : Bool) (stores : List Bool)
    → 0 < t
    → sh.owner ≡ t
    → Phase readable sh (inside store stores)
    → Held readable t (act t choice sh (inside store stores))
unfolding act
owner_inside readable t choice sh store stores pos own (mine, depth, shares) =
    elim (Bool-cases choice.takes) [
      | inl takes ↦ when_true (Held readable t) choice.takes _ _ takes (
          when_false (λ x. Held readable t (some x)) (sh.owner == 0) _ _ (ground arith)
            (inl (own, (mine, depth, shares, omega arith))))
      | inr leaves ↦
          let (phase, kept) = count_down-Phase readable store stores sh (mine, depth, shares) in
          when_false (Held readable t) choice.takes _ _ leaves (inl (kept ∙ own, phase))
    ]

no_lock : {stores : List Bool} → stores ≡ [] → 0 < length stores → ⊥
no_lock last up = let flat = ap (length {A = Bool}) last in omega arith

-- The lock file was tried, by a thread that has no other lock.
pub first_lock :
    (readable got : Bool) (stores : List Bool) (sh : Shared)
    → Phase readable sh (trying stores)
    → Phase readable (record sh { file_lock = got }) (counting got stores)
first_lock readable got stores sh (mine, no_file, flat, nothing, last) = (
  mine,
  rw last flat,
  (
    rw last tt,
    (λ e. absurd (true≢false (sym e ∙ nothing))),
    (λ r up. absurd (no_lock last up)),
    (λ e. nothing),
  ),
  refl,
)

pub owner_step :
    (readable : Bool) (t : ℕ) (choice : Choice) (sh : Shared) (p : Pc)
    → 0 < t
    → (readable ≡ true → choice.reads_plist ≡ true)
    → sh.owner ≡ t
    → Phase readable sh p
    → Held readable t (act t choice sh p)
unfolding act
owner_step readable t choice sh outside pos reads own phase = absurd phase
owner_step readable t choice sh (compare stores) pos reads own (mine, depth, shares, deep) =
    when_true (Held readable t) (sh.locking_thread == t) _ _ (ground arith)
      (inl (own, (mine, depth, shares, deep)))
owner_step readable t choice sh (waiting stores) pos reads own phase = absurd phase
owner_step readable t choice sh (checking stores) pos reads own (unset, last) =
    when_true (Held readable t) (sh.locking_thread == 0) _ _ (ground (arith, unset.0))
      (inl (own, (unset, last)))
owner_step readable t choice sh (setting true stores) pos reads own
      ((unset, no_file, flat, nothing), last) =
    inl (own, (sym own, no_file, flat, nothing, last))
owner_step readable t choice sh (setting false stores) pos reads own (mine, depth, shares, deep) =
    inl (own, (sym own, depth, shares, refl))
owner_step readable t choice sh (trying stores) pos reads own (mine, no_file, flat, nothing, last) =
    when_false (Held readable t) sh.file_lock _ _ no_file (
      inl
        (own, first_lock readable choice.gets_file stores sh (mine, no_file, flat, nothing, last)))
owner_step readable t choice sh (counting got stores) pos reads own (mine, depth, shares, file) =
    inl (own, (mine, omega arith, shares, file))
owner_step readable t choice sh (opening got stores) pos reads own phase =
    let (own', phase', depth, opened) =
      open_store-Opened readable t choice got stores sh own reads phase in
    inl (own', phase')
owner_step readable t choice sh (inside store stores) pos reads own phase =
    owner_inside readable t choice sh store stores pos own phase
owner_step readable t choice sh (closing true stores) pos reads own
      (mine, flat, same, files, last) =
    inl (own, (mine, flat, refl, (λ e. files (sym same)), last))
owner_step readable t choice sh (closing false stores) pos reads own
      (mine, flat, same, files, last) =
    inl (own, (mine, flat, sym same, (λ e. absurd (ground (arith, e))), last))
owner_step readable t choice sh (verifying store stores) pos reads own
      (mine, flat, nothing, files, last) =
    when_false (λ x. Held readable t (some x)) (store && not sh.file_lock) _ _
      (ground (arith, files)) (inl (own, (mine, flat, nothing, last)))
owner_step readable t choice sh (clearing_file stores) pos reads own (mine, flat, nothing, last) =
    inl (own, (mine, refl, flat, nothing, last))
owner_step readable t choice sh (clearing_thread stores) pos reads own
      (mine, no_file, flat, nothing, last) =
    inl (own, ((refl, no_file, flat, nothing), last))
owner_step readable t choice sh (unlocking stores) pos reads own (unset, last) =
    inr (refl, unset, rw last refl)
owner_step readable t choice sh crashed pos reads own phase = tt
