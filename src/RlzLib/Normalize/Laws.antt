-- ===== src/RlzLib/Normalize/Laws.antt =====
-- What NormalizeRlz of lib/rlz_lib.cc guarantees.
use rlz.Prelude.{
  ℕ, zero, suc, ◌≤◌, ◌≡◌, refl, ap, [], ◌∷◌, Bytes, all, length, arith, Bool, true, false, inl, inr,
  Option, none, some, Option-cases,
}
use rlz.Enums.{AccessPoint, last_access_point}
use rlz.LibValues.{get_access_point_name}
use rlz.Base.{Base}
use rlz.RlzLib.Normalize.{
  is_access_point_supported, is_good_rlz_char, normalize_loop, normalize_rlz, max_rlz_length,
}

-- Every supported access point has a name.
abbrev has_name : Option Bytes → Bool
has_name none = false
has_name (some name) = true

supported_named :
    (point : AccessPoint)
    → is_access_point_supported point ≡ true
    → has_name (get_access_point_name point) ≡ true
unfolding is_access_point_supported get_access_point_name
supported_named last_access_point h = h
supported_named _ h = refl

pub supported_name :
    (point : AccessPoint)
    → is_access_point_supported point ≡ true
    → (name : Bytes) × (get_access_point_name point ≡ some name)
supported_name point h = elim (Option-cases (get_access_point_name point)) [
  | inl none_there ↦ absurd (ground (arith, supported_named point h, none_there))
  | inr found ↦ found
]

module _ (base : Base) where
  -- The substitute is a good character.
  dot_is_good : is_good_rlz_char base b'.' ≡ true
  unfolding is_good_rlz_char
  dot_is_good = ground arith

  normalize_loop_good :
      (room : ℕ) (raw : Bytes) → all (is_good_rlz_char base) (normalize_loop base room raw) ≡ true
  unfolding normalize_loop
  normalize_loop_good zero raw = refl
  normalize_loop_good (suc room) [] = refl
  normalize_loop_good (suc room) (c ∷ raw) =
      ground (arith, dot_is_good, normalize_loop_good room raw)

  normalize_loop-le : (room : ℕ) (raw : Bytes) → length (normalize_loop base room raw) ≤ room
  unfolding normalize_loop
  normalize_loop-le zero raw = omega arith
  normalize_loop-le (suc room) [] = omega arith
  normalize_loop-le (suc room) (c ∷ raw) = omega (arith, normalize_loop-le room raw)

  normalize_loop_fixed :
      (room : ℕ) (raw : Bytes)
      → length raw ≤ room
      → all (is_good_rlz_char base) raw ≡ true
      → normalize_loop base room raw ≡ raw
  unfolding normalize_loop
  normalize_loop_fixed zero [] h g = refl
  normalize_loop_fixed zero (c ∷ raw) h g = absurd (omega arith)
  normalize_loop_fixed (suc room) [] h g = refl
  normalize_loop_fixed (suc room) (c ∷ raw) h g = ground (arith, normalize_loop_fixed room raw)

  normalize_loop-length :
      (room : ℕ) (raw : Bytes)
      → length raw ≤ room
      → length (normalize_loop base room raw) ≡ length raw
  unfolding normalize_loop
  normalize_loop-length zero [] h = refl
  normalize_loop-length zero (c ∷ raw) h = absurd (omega arith)
  normalize_loop-length (suc room) [] h = refl
  normalize_loop-length (suc room) (c ∷ raw) h =
      ap suc (normalize_loop-length room raw (omega arith))

  pub normalize_rlz-length :
      (raw : Bytes) → length raw ≤ max_rlz_length → length (normalize_rlz base raw) ≡ length raw
  unfolding normalize_rlz
  normalize_rlz-length raw h = normalize_loop-length max_rlz_length raw h

  -- The text that NormalizeRlz writes has at most 64 characters, all of them good, and to normalize
  -- twice is to normalize once.
  pub normalize_rlz_canonical :
      (raw : Bytes)
      → (length (normalize_rlz base raw) ≤ max_rlz_length)
        × (all (is_good_rlz_char base) (normalize_rlz base raw) ≡ true)
        × (normalize_rlz base (normalize_rlz base raw) ≡ normalize_rlz base raw)
  unfolding normalize_rlz
  normalize_rlz_canonical raw = (
    normalize_loop-le max_rlz_length raw,
    normalize_loop_good max_rlz_length raw,
    normalize_loop_fixed max_rlz_length _ (normalize_loop-le max_rlz_length raw)
        (normalize_loop_good max_rlz_length raw),
  )

  -- NormalizeRlz leaves a text of at most 64 good characters as it is.
  pub normalize_rlz_fixed :
      (raw : Bytes)
      → length raw ≤ max_rlz_length
      → all (is_good_rlz_char base) raw ≡ true
      → normalize_rlz base raw ≡ raw
  unfolding normalize_rlz
  normalize_rlz_fixed raw h good = normalize_loop_fixed max_rlz_length raw h good
