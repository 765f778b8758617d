-- ===== src/Base/Sample.antt =====
-- One way to meet the assumptions of `Base`: examples run on it. Its checksum is a sum and its digest
-- is constant; it stands for no code.
use rlz.Prelude.{
  map, split, ℕ, ◌+◌, ◌≡◌, refl, true, not, ◌&&◌, ◌||◌, [], ◌∷◌, ◌++◌, Bytes, has_prefix, leb, all,
  if◌then◌else◌, arith, replicate,
}
use rlz.Base.{Base, BaseLaws, is_whitespace}

sum : ℕ → Bytes → ℕ
sum crc [] = crc
sum crc (c ∷ s) = sum (crc + c) s

trim_front : Bytes → Bytes
trim_front [] = []
trim_front (c ∷ s) = let rest = trim_front s in if is_whitespace c then rest else c ∷ s

onto_trimmed : ℕ → Bytes → Bytes
onto_trimmed c [] = if is_whitespace c then [] else c ∷ []
onto_trimmed c (d ∷ s) = c ∷ d ∷ s

trim_back : Bytes → Bytes
trim_back [] = []
trim_back (c ∷ s) = onto_trimmed c (trim_back s)

unfoldable pub sample : Base
unfolding sum trim_front trim_back onto_trimmed
sample = record {
  is_ascii_alpha = λ c. leb b'a' c && leb c b'z' || leb b'A' c && leb c b'Z';
  is_ascii_digit = λ c. leb b'0' c && leb c b'9';
  trim_leading = trim_front;
  trim_all = λ s. trim_back (trim_front s);
  starts_with_ascii = λ str search. has_prefix search str;
  split_string = λ s c. map (λ token. trim_back (trim_front token)) (split c s);
  crc32 = sum;
  sha1_hash_string = λ s. replicate 20 7;
}

sum-append : (crc : ℕ) (s t : Bytes) → sum (sum crc s) t ≡ sum crc (s ++ t)
unfolding sum
sum-append crc [] t = refl
sum-append crc (c ∷ s) t = sum-append (crc + c) s t

trim_front_space : (t : Bytes) → all is_whitespace t ≡ true → trim_front t ≡ []
unfolding trim_front
trim_front_space [] h = refl
trim_front_space (c ∷ t) h = ground (arith, trim_front_space t)

trim_back_space : (t : Bytes) → all is_whitespace t ≡ true → trim_back t ≡ []
unfolding trim_back onto_trimmed
trim_back_space [] h = refl
trim_back_space (c ∷ t) h = ground (arith, trim_back_space t)

trim_back_end :
    (s t : Bytes)
    → all (λ c. not (is_whitespace c)) s ≡ true
    → all is_whitespace t ≡ true
    → trim_back (s ++ t) ≡ s
unfolding trim_back onto_trimmed
trim_back_end [] t h k = trim_back_space t k
trim_back_end (c ∷ []) t h k = ground (arith, trim_back_space t)
trim_back_end (c ∷ d ∷ s) t h k = ground (arith, trim_back_end (d ∷ s) t)

trim_end :
    (s t : Bytes)
    → all (λ c. not (is_whitespace c)) s ≡ true
    → all is_whitespace t ≡ true
    → sample.trim_all (s ++ t) ≡ s
unfolding sample
trim_end [] t h k = ground (arith, trim_front_space t)
trim_end (c ∷ s) t h k = ground (arith, trim_back_end (c ∷ s) t)

pub sample-BaseLaws : BaseLaws sample
unfolding sample
sample-BaseLaws = record {
  alpha = λ c. refl;
  digit = λ c. refl;
  starts_with = λ str search. refl;
  trim_leading_none = λ c s h. ground arith;
  trim_all_end = trim_end;
  trim_leading_empty = refl;
  crc32_empty = λ crc. refl;
  crc32_append = sum-append;
  sha1_length = λ s. refl;
}
