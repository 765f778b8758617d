-- ===== src/Prelude/Lists.antt =====
-- Lists measured and indexed by native numbers, under the library's names.
use Prim.Native.Nat.{ℕ, zero, suc, ◌+◌, ◌≤◌, min}
use mathlib.Core.Path.{◌≡◌, refl, ap}
use mathlib.Core.Bool.{Bool, true, ◌&&◌}
use mathlib.Core.List.{List, [], ◌∷◌, ◌++◌}
use native.Mathlib.Omega.{arith}

module _ {ℓ} {A : Type ℓ} where
  abbrev pub length : List A → ℕ
  length [] = 0
  length (x ∷ xs) = suc (length xs)

  abbrev pub get_or : List A → ℕ → A → A
  get_or [] i d = d
  get_or (x ∷ xs) zero d = x
  get_or (x ∷ xs) (suc i) d = get_or xs i d

  abbrev pub take : ℕ → List A → List A
  take zero xs = []
  take (suc n) [] = []
  take (suc n) (x ∷ xs) = x ∷ take n xs

  abbrev pub drop : ℕ → List A → List A
  drop zero xs = xs
  drop (suc n) [] = []
  drop (suc n) (x ∷ xs) = drop n xs

  -- A write out of bounds changes nothing.
  abbrev pub set : List A → ℕ → A → List A
  set [] i v = []
  set (x ∷ xs) zero v = v ∷ xs
  set (x ∷ xs) (suc i) v = x ∷ set xs i v

  abbrev pub replicate : ℕ → A → List A
  replicate zero a = []
  replicate (suc n) a = a ∷ replicate n a

  -- Every element satisfies a test.
  abbrev pub all : (A → Bool) → List A → Bool
  all p [] = true
  all p (x ∷ xs) = p x && all p xs

module _ {ℓ} {A : Type ℓ} where
  pub length-append : (xs ys : List A) → length (xs ++ ys) ≡ length xs + length ys
  length-append [] ys = omega arith
  length-append (x ∷ xs) ys = omega (arith, length-append xs ys)

  pub length-take : (n : ℕ) (xs : List A) → length (take n xs) ≡ min n (length xs)
  length-take zero xs = omega arith
  length-take (suc n) [] = omega arith
  length-take (suc n) (x ∷ xs) = omega (arith, length-take n xs)

  pub take_all : (n : ℕ) (xs : List A) → length xs ≤ n → take n xs ≡ xs
  take_all zero [] h = refl
  take_all zero (x ∷ xs) h = absurd (omega arith)
  take_all (suc n) [] h = refl
  take_all (suc n) (x ∷ xs) h = ap (◌∷◌ x) (take_all n xs (omega arith))

  -- Positions in a text of two parts.
  pub drop_at : (s t : List A) (n : ℕ) → n ≡ length s → drop n (s ++ t) ≡ t
  drop_at [] t n h = rw h
  drop_at (c ∷ s) t zero h = absurd (omega arith)
  drop_at (c ∷ s) t (suc n) h = drop_at s t n (omega arith)

  pub take_at : (s t : List A) (n k : ℕ) → n ≡ length s + k → take n (s ++ t) ≡ s ++ take k t
  take_at [] t n k h = let e : n ≡ k = omega arith in rw e
  take_at (c ∷ s) t zero k h = absurd (omega arith)
  take_at (c ∷ s) t (suc n) k h = ap (◌∷◌ c) (take_at s t n k (omega arith))

  pub set-append :
      (s t : List A) (n k : ℕ) (v : A) → n ≡ length s + k → set (s ++ t) n v ≡ s ++ set t k v
  set-append [] t n k v h = let e : n ≡ k = omega arith in rw e
  set-append (c ∷ s) t zero k v h = absurd (omega arith)
  set-append (c ∷ s) t (suc n) k v h = ap (◌∷◌ c) (set-append s t n k v (omega arith))
