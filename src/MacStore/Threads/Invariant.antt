-- ===== src/MacStore/Threads/Invariant.antt =====
-- What holds of the lock of mac/lib/rlz_value_store_mac.mm in every state that its threads can reach.
use rlz.Prelude.{
  ℕ, ◌<◌, ◌≡◌, ◌≢◌, ◌⊎◌, refl, sym, ◌∙◌, ap, subst, Bool, true, false, ◌&&◌, ltb, List, [], ◌∷◌,
  Option, none, some, inl, inr, Bool-cases, ◌==◌, ==_refl, arith,
}
use rlz.MacStore.Threads.Owner.{Held, owner_step}
use rlz.MacStore.Threads.Phase.{is_away, IsUnset, Phase, when_true, when_false}
use rlz.MacStore.Threads.{
  Shared, Pc, outside, compare, waiting, checking, setting, trying, counting, opening, inside,
  closing, verifying, clearing_file, clearing_thread, unlocking, crashed, Choice, act, System,
  move_to, Step, picks, Reach, start, later, after, run,
}

pub record Inv (readable : Bool) (sh : Shared) (pc : ℕ → Pc) : Type 0 where
  pub others_away : (u : ℕ) → 0 < u → u ≢ sh.owner → is_away (pc u) ≡ true
  pub free_unset : sh.owner ≡ 0 → IsUnset sh
  pub owner_phase : 0 < sh.owner → Phase readable sh (pc sh.owner)

-- A step of another thread: it stays away, or takes the mutex, which was free.
abbrev Apart : Bool → ℕ → Shared → Option (Shared × Pc) → Type 0
Apart readable t sh none = Unit {0}
Apart readable t sh (some (sh', p)) =
    ((sh' ≡ sh) × (is_away p ≡ true)) ⊎ ((sh.owner ≡ 0) × (sh'.owner ≡ t) × Phase readable sh' p)

free_zero : {n : ℕ} → (n == 0) ≡ true → n ≡ 0
free_zero e = ground arith

other_step :
    (readable : Bool) (t : ℕ) (choice : Choice) (sh : Shared) (p : Pc)
    → 0 < t
    → (sh.owner ≡ 0 → IsUnset sh)
    → (0 < sh.owner → sh.locking_thread ≢ t)
    → is_away p ≡ true
    → Apart readable t sh (act t choice sh p)
unfolding act
other_step readable t choice sh outside pos unset other away = elim (Bool-cases (sh.owner == 0)) [
  | inl free ↦
      when_true (λ x. Apart readable t sh (some x)) (sh.owner == 0) _ _ free
        (inr (free_zero free, refl, (unset (free_zero free), refl)))
  | inr taken ↦
      when_false (λ x. Apart readable t sh (some x)) (sh.owner == 0) _ _ taken (inl (refl, refl))
]
other_step readable t choice sh (compare []) pos unset other away =
    elim (Bool-cases (sh.locking_thread == t)) [
      | inl same ↦ absurd (ground arith)
      | inr differs ↦
          when_false (Apart readable t sh) (sh.locking_thread == t) _ _ differs (inl (refl, refl))
    ]
other_step readable t choice sh (compare (s ∷ ss)) pos unset other away = absurd (ground arith)
other_step readable t choice sh (waiting []) pos unset other away =
    elim (Bool-cases (sh.owner == 0)) [
      | inl free ↦
          when_true (Apart readable t sh) (sh.owner == 0) _ _ free
            (inr (free_zero free, refl, (unset (free_zero free), refl)))
      | inr taken ↦ when_false (Apart readable t sh) (sh.owner == 0) _ _ taken tt
    ]
other_step readable t choice sh (waiting (s ∷ ss)) pos unset other away = absurd (ground arith)
other_step readable t choice sh (checking stores) pos unset other away = absurd (ground arith)
other_step readable t choice sh (setting just_got_lock stores) pos unset other away =
    absurd (ground arith)
other_step readable t choice sh (trying stores) pos unset other away = absurd (ground arith)
other_step readable t choice sh (counting got stores) pos unset other away = absurd (ground arith)
other_step readable t choice sh (opening got stores) pos unset other away = absurd (ground arith)
other_step readable t choice sh (inside store stores) pos unset other away = absurd (ground arith)
other_step readable t choice sh (closing store stores) pos unset other away = absurd (ground arith)
other_step readable t choice sh (verifying store stores) pos unset other away =
    absurd (ground arith)
other_step readable t choice sh (clearing_file stores) pos unset other away = absurd (ground arith)
other_step readable t choice sh (clearing_thread stores) pos unset other away =
    absurd (ground arith)
other_step readable t choice sh (unlocking stores) pos unset other away = absurd (ground arith)
other_step readable t choice sh crashed pos unset other away = absurd (ground arith)

pub moved_here : (pc : ℕ → Pc) (t : ℕ) (p : Pc) → move_to pc t p t ≡ p
moved_here pc t p = rw (==_refl t) refl

moved_elsewhere : (pc : ℕ → Pc) (t u : ℕ) (p : Pc) → u ≢ t → move_to pc t p u ≡ pc u
moved_elsewhere pc t u p differ = let no : (t == u) ≡ false = ground arith in rw no refl

Phase-locking_thread :
    (readable : Bool) (sh : Shared) (p : Pc)
    → Phase readable sh p
    → (sh.locking_thread ≡ 0) ⊎ (sh.locking_thread ≡ sh.owner)
Phase-locking_thread readable sh outside phase = absurd phase
Phase-locking_thread readable sh (compare stores) phase = inr phase.0
Phase-locking_thread readable sh (waiting stores) phase = absurd phase
Phase-locking_thread readable sh (checking stores) phase = inl phase.0.0
Phase-locking_thread readable sh (setting true stores) phase = inl phase.0.0
Phase-locking_thread readable sh (setting false stores) phase = inr phase.0
Phase-locking_thread readable sh (trying stores) phase = inr phase.0
Phase-locking_thread readable sh (counting got stores) phase = inr phase.0
Phase-locking_thread readable sh (opening got stores) phase = inr phase.0
Phase-locking_thread readable sh (inside store stores) phase = inr phase.0
Phase-locking_thread readable sh (closing store stores) phase = inr phase.0
Phase-locking_thread readable sh (verifying store stores) phase = inr phase.0
Phase-locking_thread readable sh (clearing_file stores) phase = inr phase.0
Phase-locking_thread readable sh (clearing_thread stores) phase = inr phase.0
Phase-locking_thread readable sh (unlocking stores) phase = inl phase.0.0
Phase-locking_thread readable sh crashed phase = inr phase.0

Phase-moved :
    (readable : Bool) (sh : Shared) (pc : ℕ → Pc) (t u : ℕ) (p : Pc)
    → u ≡ t
    → Phase readable sh p
    → Phase readable sh (move_to pc t p u)
Phase-moved readable sh pc t u p same phase =
    subst (Phase readable sh) (sym (ap (move_to pc t p) same ∙ moved_here pc t p)) phase

-- The others are where they were, so a thread that took or gave up the mutex is all that matters.
Held-Inv :
    (readable : Bool) (t : ℕ) (sh sh' : Shared) (pc : ℕ → Pc) (p : Pc)
    → 0 < t
    → sh.owner ≡ t
    → Inv readable sh pc
    → Held readable t (some (sh', p))
    → Inv readable sh' (move_to pc t p)
Held-Inv readable t sh sh' pc p pos own inv (inl (own', phase)) = record {
  others_away = λ u up differ.
      rw (moved_elsewhere pc t u p (λ e. differ (e ∙ sym own')))
        (inv.others_away u up (λ e. differ (e ∙ own ∙ sym own')));
  free_unset = λ free. absurd (omega arith);
  owner_phase = λ up. Phase-moved readable sh' pc t sh'.owner p own' phase;
}
Held-Inv readable t sh sh' pc p pos own inv (inr (free, unset, away)) = record {
  others_away = λ u up differ. elim (Bool-cases (t == u)) [
    | inl same ↦ rw same away
    | inr other ↦ rw other (inv.others_away u up (ground arith))
  ];
  free_unset = λ _. unset;
  owner_phase = λ up. absurd (omega arith);
}

Apart-Inv :
    (readable : Bool) (t : ℕ) (sh sh' : Shared) (pc : ℕ → Pc) (p : Pc)
    → 0 < t
    → sh.owner ≢ t
    → Inv readable sh pc
    → Apart readable t sh (some (sh', p))
    → Inv readable sh' (move_to pc t p)
Apart-Inv readable t sh sh' pc p pos apart inv (inl (same, away)) = rw same (record {
  others_away = λ u up differ. elim (Bool-cases (t == u)) [
    | inl here ↦ rw here away
    | inr other ↦ rw other (inv.others_away u up differ)
  ];
  free_unset = inv.free_unset;
  owner_phase = λ up. rw (moved_elsewhere pc t sh.owner p apart) (inv.owner_phase up);
})
Apart-Inv readable t sh sh' pc p pos apart inv (inr (free, own', phase)) = record {
  others_away = λ u up differ.
      rw (moved_elsewhere pc t u p (λ e. differ (e ∙ sym own')))
        (inv.others_away u up (omega arith));
  free_unset = λ free'. absurd (omega arith);
  owner_phase = λ up. Phase-moved readable sh' pc t sh'.owner p own' phase;
}

act-Inv :
    (readable : Bool) (t : ℕ) (choice : Choice) (s : System) (sh : Shared) (p : Pc)
    → 0 < t
    → (readable ≡ true → choice.reads_plist ≡ true)
    → act t choice s.shared (s.pc t) ≡ some (sh, p)
    → Inv readable s.shared s.pc
    → Inv readable sh (move_to s.pc t p)
act-Inv readable t choice s sh p pos reads step inv = elim (Bool-cases (s.shared.owner == t)) [
  | inl mine ↦
      let own : s.shared.owner ≡ t = ground arith in
      let phase : Phase readable s.shared (s.pc t) =
        subst (λ u. Phase readable s.shared (s.pc u)) own (inv.owner_phase (omega arith)) in
      Held-Inv readable t s.shared sh s.pc p pos own inv (
        subst (Held readable t) step
          (owner_step readable t choice s.shared (s.pc t) pos reads own phase))
  | inr other ↦
      let apart : s.shared.owner ≢ t = ground arith in
      let elsewhere : 0 < s.shared.owner → s.shared.locking_thread ≢ t = λ up.
        elim (Phase-locking_thread readable s.shared (s.pc s.shared.owner) (inv.owner_phase up)) [
          | inl unset ↦ ground arith
          | inr mine ↦ ground arith
        ] in
      Apart-Inv readable t s.shared sh s.pc p pos apart inv (
        subst (Apart readable t s.shared) step (
          other_step readable t choice s.shared (s.pc t) pos inv.free_unset elsewhere
            (inv.others_away t pos (λ e. apart (sym e)))))
]

Step-Inv :
    {readable : Bool} {s s' : System}
    → Step readable s s'
    → Inv readable s.shared s.pc
    → Inv readable s'.shared s'.pc
Step-Inv {readable} {s} (picks t choice sh p pos reads step after) inv =
    rw after (act-Inv readable t choice s sh p pos reads step inv)

pub Reach-Inv : {readable : Bool} {s : System} → Reach readable s → Inv readable s.shared s.pc
Reach-Inv start = record {
  others_away = λ u up differ. refl;
  free_unset = λ _. (refl, refl, refl, refl);
  owner_phase = λ up. absurd (omega arith);
}
Reach-Inv (later reached step) = Step-Inv step (Reach-Inv reached)

-- Threads from 1 on, which find a property list that can be read.
abbrev all_threads : List (ℕ × Choice) → Bool
all_threads [] = true
all_threads ((t, choice) ∷ rest) = (ltb 0 t && choice.reads_plist) && all_threads rest

after-Reach :
    {readable : Bool} {s : System} (t : ℕ) (choice : Choice) (r : Option (Shared × Pc))
    → 0 < t
    → choice.reads_plist ≡ true
    → act t choice s.shared (s.pc t) ≡ r
    → Reach readable s
    → Reach readable (after s t r)
after-Reach t choice none pos reads step reached = reached
after-Reach t choice (some (sh, p)) pos reads step reached =
    later reached (picks t choice sh p pos (λ _. reads) step refl)

-- Every such schedule leads to a reachable state.
pub run-Reach :
    {readable : Bool} (steps : List (ℕ × Choice)) {s : System}
    → all_threads steps ≡ true
    → Reach readable s
    → Reach readable (run steps s)
unfolding run
run-Reach [] threads reached = reached
run-Reach ((t, choice) ∷ rest) threads reached =
    run-Reach rest (ground arith)
      (after-Reach t choice _ (ground arith) (ground arith) refl reached)
