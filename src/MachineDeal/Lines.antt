-- ===== src/MachineDeal/Lines.antt =====
-- GetResponseLine of win/lib/machine_deal.cc, called again and again, splits the text at line feeds.
use rlz.Prelude.{
  ℕ, zero, suc, ◌+◌, ◌-◌, ◌<◌, ◌≤◌, ◌⊎◌, ◌≡◌, refl, sym, ap, ◌∙◌, [], ◌∷◌, none, some, Bytes, inl,
  inr, Bool-cases, Option-cases, take, drop, split, ◌==◌, arith,
}
use rlz.MachineDeal.{index_of, get_response_line, lines_from, response_lines}

-- A line feed at `room` or behind, or none, leaves the text whole.
whole_line :
    (room : ℕ) (t : Bytes)
    → ((k : ℕ) → index_of 10 t ≡ some k → room ≤ k)
    → split 10 (take room t) ≡ take room t ∷ []
unfolding index_of split
whole_line zero t far = refl
whole_line (suc room) [] far = refl
whole_line (suc room) (b ∷ t) far = elim (Bool-cases (b == 10)) [
  | inl feed ↦ absurd (omega (arith, far 0 (rw feed)))
  | inr other ↦ rw (
    other,
    whole_line room t (λ k found.
        let further : suc room ≤ suc k = far (suc k) (rw (other, found)) in omega arith),
  )
]

-- The first line feed, with `left` characters after it.
first_line :
    (room k left : ℕ) (t : Bytes)
    → index_of 10 t ≡ some k
    → room ≡ suc (k + left)
    → split 10 (take room t) ≡ take k t ∷ split 10 (take left (drop (suc k) t))
unfolding index_of split
first_line zero k left t found size = absurd (omega arith)
first_line (suc room) k left [] found size = ground arith
first_line (suc room) zero left (b ∷ t) found size = elim (Bool-cases (b == 10)) [
  | inl feed ↦ let same : room ≡ left = omega arith in rw (feed, same)
  | inr other ↦ elim (Option-cases (index_of 10 t)) [
    | inl nothing ↦ ground (arith, other, nothing)
    | inr (later, found_later) ↦ ground (arith, other, found_later)
  ]
]
first_line (suc room) (suc k) left (b ∷ t) found size = elim (Bool-cases (b == 10)) [
  | inl feed ↦ ground (arith, feed)
  | inr other ↦ elim (Option-cases (index_of 10 t)) [
    | inl nothing ↦ ground (arith, other, nothing)
    | inr (later, found_later) ↦
        let same : later ≡ k = ground (arith, other, found_later) in
        rw (other, first_line room k left t (rw (← same) found_later) (omega arith))
  ]
]

drop-empty : (j : ℕ) → ◌≡◌ {A = Bytes} (drop j []) []
drop-empty zero = refl
drop-empty (suc j) = refl

drop_again : (i j n : ℕ) (t : Bytes) → n ≡ i + j → drop j (drop i t) ≡ drop n t
drop_again zero j n t h = let same : n ≡ j = omega arith in rw same
drop_again (suc i) j zero t h = absurd (omega arith)
drop_again (suc i) j (suc n) [] h = drop-empty j
drop_again (suc i) j (suc n) (b ∷ t) h = drop_again i j n t (omega arith)

-- No line where the walk has ended, and past the end.
no_more : (fuel size : ℕ) (t : Bytes) → lines_from fuel t size none ≡ []
unfolding lines_from get_response_line
no_more zero size t = refl
no_more (suc fuel) size t = refl

past_end : (fuel size i : ℕ) (t : Bytes) → size < i → lines_from fuel t size (some i) ≡ []
unfolding lines_from get_response_line
past_end zero size i t h = refl
past_end (suc fuel) size i t h = ground arith

-- A walk whose next line is the last, or has a line feed at `k`.
last_step :
    (fuel room i size : ℕ) (t : Bytes)
    → size ≡ i + room
    → ((k : ℕ) → index_of 10 (drop i t) ≡ some k → room < k)
    → lines_from (suc fuel) t size (some i) ≡ take room (drop i t) ∷ []
unfolding lines_from get_response_line
last_step fuel room i size t h far =
    let left : size - i ≡ room = omega arith in
    elim (Option-cases (index_of 10 (drop i t))) [
      | inl nothing ↦ ground (arith, nothing, left, no_more fuel size t)
      | inr (k, found) ↦ ground (arith, found, left, far k found, no_more fuel size t)
    ]

feed_step :
    (fuel room i size k : ℕ) (t : Bytes)
    → size ≡ i + room
    → index_of 10 (drop i t) ≡ some k
    → k ≤ room
    → lines_from (suc fuel) t size (some i)
      ≡ take k (drop i t) ∷ lines_from fuel t size (some (i + k + 1))
unfolding lines_from get_response_line
feed_step fuel room i size k t h found near = ground (arith, found)

three : (k room : ℕ) → (k < room) ⊎ (k ≡ room) ⊎ (room < k)
three k room = omega arith

order : (k room : ℕ) → (room < k) ⊎ (k ≡ room) ⊎ ((left : ℕ) × (room ≡ suc (k + left)))
order k room = elim (three k room) [
  | inl before ↦ inr (inr (room - (k + 1), omega arith))
  | inr (inl same) ↦ inr (inl same)
  | inr (inr after) ↦ inl after
]

lines_from-split :
    (fuel room i size : ℕ) (t : Bytes)
    → size ≡ i + room
    → suc room < fuel
    → lines_from fuel t size (some i) ≡ split 10 (take room (drop i t))
lines_from-split zero room i size t h enough = absurd (omega arith)
lines_from-split (suc fuel) room i size t h enough = elim (Option-cases (index_of 10 (drop i t))) [
  | inl nothing ↦
      last_step fuel room i size t h (λ k found. absurd (ground (arith, nothing, found)))
      ∙ sym (whole_line room (drop i t) (λ k found. absurd (ground (arith, nothing, found))))
  | inr (k, found) ↦ elim (order k room) [
    | inl beyond ↦
        last_step fuel room i size t h (λ j here. ground (arith, found, here))
        ∙ sym (whole_line room (drop i t) (λ j here. ground (arith, found, here)))
    | inr (inl same) ↦
        feed_step fuel room i size k t h found (omega arith)
        ∙ (ap (◌∷◌ (take k (drop i t))) (past_end fuel size (i + k + 1) t (omega arith))
            ∙ (rw same refl
                ∙ sym (whole_line room (drop i t) (λ j here. ground (arith, found, here)))))
    | inr (inr (left, size_of)) ↦
        feed_step fuel room i size k t h found (omega arith)
        ∙ (ap (◌∷◌ (take k (drop i t))) (
              lines_from-split fuel left (i + k + 1) size t (omega arith) (omega arith)
              ∙ ap (λ (rest : Bytes). split 10 (take left rest))
                  (sym (drop_again i (suc k) (i + k + 1) t (omega arith))))
            ∙ sym (first_line room k left (drop i t) found size_of))
  ]
]

-- The calls of GetResponseLine from index 0 on end, and give the lines of the text before the position
-- response_length: its parts between line feeds, in their order.
pub response_lines-split :
    (response_text : Bytes) (response_length : ℕ)
    → response_lines response_text response_length ≡ split 10 (take response_length response_text)
unfolding response_lines
response_lines-split response_text response_length =
    lines_from-split (response_length + 2) response_length 0 response_length response_text
      (omega arith) (omega arith)
