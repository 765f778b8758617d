-- ===== src/Registry/Text.antt =====
-- Names and locations in the registry, which are compared with no regard to case.
use mathlib.Core.List.{map-append, append_assoc}
use rlz.Prelude.{
  ℕ, ◌-◌, ◌≡◌, refl, sym, ◌∙◌, Bool, true, ◌&&◌, [], ◌∷◌, ◌++◌, map, Bytes, bytes_eq, bytes_eq_refl,
  bytes_eq_sound, has_prefix, leb, ==_refl, all, if◌then◌else◌, arith,
}
use rlz.LibValues.Names.{is_plain}

abbrev pub upcase : ℕ → ℕ
upcase c = if leb b'a' c && leb c b'z' then c - 32 else c

abbrev pub fold_case : Bytes → Bytes
fold_case s = map upcase s

abbrev pub same_text : Bytes → Bytes → Bool
same_text s t = bytes_eq (fold_case s) (fold_case t)

-- The separator of a location.
abbrev pub separator : Bytes
separator = 92 ∷ []

-- Is the second location the first, or below it?
abbrev pub within : Bytes → Bytes → Bool
within top l = has_prefix (fold_case top ++ separator) (fold_case l ++ separator)

fold_case_plain : (s : Bytes) → all is_plain s ≡ true → fold_case s ≡ s
fold_case_plain [] h = refl
fold_case_plain (c ∷ s) h = ground (arith, fold_case_plain s)

pub same_text_plain :
    (s t : Bytes) → all is_plain s ≡ true → all is_plain t ≡ true → same_text s t ≡ true → s ≡ t
same_text_plain s t h k same =
    sym (fold_case_plain s h)
    ∙ (bytes_eq_sound (fold_case s) (fold_case t) same ∙ fold_case_plain t k)

pub same_text_refl : (s : Bytes) → same_text s s ≡ true
same_text_refl s = bytes_eq_refl (fold_case s)

-- A common front of two texts makes no difference.
front_eq : (x s t : Bytes) → bytes_eq (x ++ s) (x ++ t) ≡ bytes_eq s t
front_eq [] s t = refl
front_eq (c ∷ x) s t = rw (==_refl c) (front_eq x s t)

front_prefix : (x s t : Bytes) → has_prefix (x ++ s) (x ++ t) ≡ has_prefix s t
front_prefix [] s t = refl
front_prefix (c ∷ x) s t = rw (==_refl c) (front_prefix x s t)

pub same_text_front : (x s t : Bytes) → same_text (x ++ s) (x ++ t) ≡ same_text s t
same_text_front x s t =
    rw (map-append upcase x s, map-append upcase x t)
      (front_eq (fold_case x) (fold_case s) (fold_case t))

pub within_refl : (s : Bytes) → within s s ≡ true
within_refl s = prefix_refl (fold_case s ++ separator)
  where
    prefix_refl : (t : Bytes) → has_prefix t t ≡ true
    prefix_refl [] = refl
    prefix_refl (c ∷ t) = rw (==_refl c) (prefix_refl t)

pub within_front : (x s t : Bytes) → within (x ++ s) (x ++ t) ≡ within s t
within_front x s t =
    rw
      (
        map-append upcase x s,
        map-append upcase x t,
        append_assoc (fold_case x) (fold_case s) separator,
        append_assoc (fold_case x) (fold_case t) separator,
      )
      (front_prefix (fold_case x) (fold_case s ++ separator) (fold_case t ++ separator))
