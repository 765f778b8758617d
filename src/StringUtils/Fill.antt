-- ===== src/StringUtils/Fill.antt =====
-- The backward loop of BytesToString writes two digits for each byte, in order.
use rlz.Prelude.{
  ℕ, zero, suc, ◌+◌, ◌*◌, ◌/◌, ◌%◌, ◌<◌, ◌≤◌, ◌≡◌, refl, ap, ◌∙◌, true, [], ◌∷◌, ◌++◌, some, Bytes,
  get_or, set, replicate, length, take, drop, arith,
}
use mathlib.Core.List.{append_assoc, append-nil}
use rlz.StringUtils.{fill, bytes_to_string}
use rlz.StringUtils.Hex.{pairs, AreBytes, digit, low_nibble}

take-suc :
    (i : ℕ) (source : Bytes)
    → i < length source
    → take (suc i) source ≡ take i source ++ get_or source i 0 ∷ []
take-suc i [] h = absurd (omega arith)
take-suc zero (b ∷ source) h = refl
take-suc (suc i) (b ∷ source) h = ap (◌∷◌ b) (take-suc i source (omega arith))

pairs-append : (xs ys : Bytes) → pairs (xs ++ ys) ≡ pairs xs ++ pairs ys
pairs-append [] ys = refl
pairs-append (b ∷ xs) ys = rw (pairs-append xs ys)

get_or-AreBytes : (i : ℕ) (source : Bytes) → AreBytes source → get_or source i 0 < 256
get_or-AreBytes i [] h = omega arith
get_or-AreBytes zero (b ∷ source) h = h.0
get_or-AreBytes (suc i) (b ∷ source) h = get_or-AreBytes i source h.1

length-set : (s : Bytes) (i v : ℕ) → length (set s i v) ≡ length s
length-set [] i v = refl
length-set (x ∷ s) zero v = refl
length-set (x ∷ s) (suc i) v = ap suc (length-set s i v)

drop-set_pair :
    (n m a b : ℕ) (s : Bytes)
    → m ≡ suc n
    → suc n < length s
    → drop n (set (set s n a) m b) ≡ a ∷ b ∷ drop (suc m) s
drop-set_pair n m a b [] e h = absurd (omega arith)
drop-set_pair zero m a b (x ∷ []) e h = absurd (omega arith)
drop-set_pair zero m a b (x ∷ y ∷ s) e h = rw e
drop-set_pair (suc n) zero a b (x ∷ s) e h = absurd (omega arith)
drop-set_pair (suc n) (suc m) a b (x ∷ s) e h = drop-set_pair n m a b s (omega arith) (omega arith)

module _ (source : Bytes) (valid : AreBytes source) where
  fill-pairs :
      (i n : ℕ) (s : Bytes)
      → n ≡ 2 * i
      → i ≤ length source
      → n ≤ length s
      → fill source i s ≡ pairs (take i source) ++ drop n s
  unfolding fill
  fill-pairs zero n s e h k = rw e
  fill-pairs (suc i) n s e h k =
      let b = get_or source i 0 in
      let short = get_or-AreBytes i source valid in
      let s' = set (set s (2 * i) (digit (b / 16))) (2 * i + 1) (digit (b % 16)) in
      let n-eq : n ≡ suc (2 * i + 1) = omega arith in
      rw (low_nibble b short, n-eq)
        (fill-pairs i (2 * i) s' refl (omega arith) (
            omega (
              arith,
              length-set (set s (2 * i) (digit (b / 16))) (2 * i + 1) (digit (b % 16)),
              length-set s (2 * i) (digit (b / 16)),
            ))
          ∙ rw (
            drop-set_pair (2 * i) (2 * i + 1) (digit (b / 16)) (digit (b % 16)) s (omega arith)
                (omega arith),
            take-suc i source h,
            pairs-append (take i source) (b ∷ []),
            append_assoc,
          ))

drop-length : (n : ℕ) (s : Bytes) → length s ≤ n → drop n s ≡ []
drop-length zero [] h = refl
drop-length zero (x ∷ s) h = absurd (omega arith)
drop-length (suc n) [] h = refl
drop-length (suc n) (x ∷ s) h = drop-length n s (omega arith)

length-replicate : (n a : ℕ) → length (replicate n a) ≡ n
length-replicate zero a = refl
length-replicate (suc n) a = ap suc (length-replicate n a)

-- BytesToString succeeds on at least one byte, and writes the pairs of the first `data_len` bytes.
pub bytes_to_string-pairs :
    (source : Bytes) (data_len : ℕ) (string : Bytes)
    → AreBytes source
    → 0 < data_len
    → data_len ≤ length source
    → bytes_to_string (some source) data_len (some string)
      ≡ (true, some (pairs (take data_len source)))
unfolding bytes_to_string
bytes_to_string-pairs source data_len string valid h k =
    let filled =
      fill-pairs source valid data_len (data_len * 2) (replicate (data_len * 2) 0) (omega arith) k
        (omega (arith, length-replicate (data_len * 2) 0)) in
    let rest =
      drop-length (data_len * 2) (replicate (data_len * 2) 0)
        (omega (arith, length-replicate (data_len * 2) 0)) in
    ground (arith, filled, rest, append-nil (pairs (take data_len source)))
