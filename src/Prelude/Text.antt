-- ===== src/Prelude/Text.antt =====
-- Texts as lists of bytes: C strings up to their NUL, and `std::string`. The operations are those of
-- the C++ standard library that the sources call.
use Prim.Native.Nat.{ℕ, suc}
use Prim.Native.Char.{code}
use Prim.Native.String.{String}
use mathlib.Core.Path.{◌≡◌, refl}
use mathlib.Core.Bool.{Bool, true, false, ◌&&◌, ◌||◌}
use mathlib.Core.Option
use mathlib.Core.Option.{Option, none, some}
use mathlib.Core.List.{List, [], ◌∷◌}
use native.Mathlib.Omega.{arith}
use rlz.Prelude.Tests.{◌==◌, if◌then◌else◌}

abbrev pub Bytes : Type 0
Bytes = List ℕ

-- The bytes of an ASCII literal.
abbrev pub bytes : String → Bytes
bytes String.[] = []
bytes (String.◌∷◌ c s) = code c ∷ bytes s

-- strcmp(s, t) == 0, and == on std::string.
abbrev pub bytes_eq : Bytes → Bytes → Bool
bytes_eq [] [] = true
bytes_eq [] (b ∷ t) = false
bytes_eq (a ∷ s) [] = false
bytes_eq (a ∷ s) (b ∷ t) = (a == b) && bytes_eq s t

pub bytes_eq_sound : (s t : Bytes) → bytes_eq s t ≡ true → s ≡ t
bytes_eq_sound [] [] h = refl
bytes_eq_sound [] (b ∷ t) h = ground arith
bytes_eq_sound (a ∷ s) [] h = ground arith
bytes_eq_sound (a ∷ s) (b ∷ t) h = ground (arith, bytes_eq_sound s t)

pub bytes_eq_refl : (s : Bytes) → bytes_eq s s ≡ true
bytes_eq_refl [] = refl
bytes_eq_refl (a ∷ s) = ground (arith, bytes_eq_refl s)

-- s.empty(), and s[0] == 0 for a C string.
abbrev pub is_empty : Bytes → Bool
is_empty [] = true
is_empty (b ∷ s) = false

-- Does `t` begin with `s`?
abbrev pub has_prefix : Bytes → Bytes → Bool
has_prefix [] t = true
has_prefix (a ∷ s) [] = false
has_prefix (a ∷ s) (b ∷ t) = (a == b) && has_prefix s t

-- t.find(s): the least position at which `s` occurs; `none` is npos.
unfoldable pub find : Bytes → Bytes → Option ℕ
find s [] = if is_empty s then some 0 else none
find s (b ∷ t) = if has_prefix s (b ∷ t) then some 0 else Option.map suc (find s t)

-- t.find_first_of(set).
abbrev pub has_byte : Bytes → ℕ → Bool
has_byte [] b = false
has_byte (c ∷ cs) b = (b == c) || has_byte cs b

unfoldable pub find_first_of : Bytes → Bytes → Option ℕ
find_first_of cs [] = none
find_first_of cs (b ∷ t) = if has_byte cs b then some 0 else Option.map suc (find_first_of cs t)

-- The parts of a text that the positions of the separator `c` delimit, the last one included: what
-- a walk `end = t.find(c, begin); part = t.substr(begin, end - begin); begin = end + 1` meets.
abbrev pub onto_first : ℕ → List Bytes → List Bytes
onto_first a [] = (a ∷ []) ∷ []
onto_first a (p ∷ ps) = (a ∷ p) ∷ ps

unfoldable pub split : ℕ → Bytes → List Bytes
split c [] = [] ∷ []
split c (b ∷ t) = let parts = split c t in if b == c then [] ∷ parts else onto_first b parts
