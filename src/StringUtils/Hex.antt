-- ===== src/StringUtils/Hex.antt =====
-- Proofs about the hexadecimal conversions of lib/string_utils.cc.
use rlz.Prelude.{
  ℕ, ◌+◌, ◌*◌, ◌/◌, ◌%◌, ◌^◌, ◌<◌, ◌≡◌, refl, ◌∙◌, Bool, true, false, not, ◌&&◌, ◌||◌, [], ◌∷◌,
  some, Bytes, ◌==◌, ==_iff, get_or, bit_and, arith, all_below, all_below_sound, bit_or_nibble,
}
use rlz.StringUtils.{
  pointee, get_hex_value, hex_digits, hex_string_to_integer, digits_loop, skip_whitespace, skip_0x,
}

-- The digit for a value below 16.
abbrev pub digit : ℕ → ℕ
digit d = get_or hex_digits d 0

-- Two digits for each byte.
abbrev pub pairs : Bytes → Bytes
pairs [] = []
pairs (b ∷ source) = digit (b / 16) ∷ digit (b % 16) ∷ pairs source

-- Every element is a byte.
abbrev pub AreBytes : Bytes → Type 0
AreBytes [] = Unit {0}
AreBytes (b ∷ source) = (b < 256) × AreBytes source

low_nibble_table : all_below 256 (λ b. bit_and b 15 == b % 16) ≡ true
unfolding all_below
low_nibble_table = refl

pub low_nibble : (b : ℕ) → b < 256 → bit_and b 15 ≡ b % 16
low_nibble b h = (==_iff _ _).0 (all_below_sound 256 _ b low_nibble_table h)

-- What the reader makes of one digit: no separator, and its value.
reads_back : ℕ → Bool
reads_back d =
    let c = digit d in
    let (is_digit, value) = get_hex_value c (some 0) in
    is_digit && (pointee value == d) && not (c == 9 || c == b' ') && not (c == b'X' || c == b'x')

reads_back_table : all_below 16 reads_back ≡ true
unfolding all_below reads_back get_hex_value
reads_back_table = refl

-- A digit is read as its value, and is neither a separator nor the x of a prefix.
record Reads (d : ℕ) : Type 0 where
  accepted : (get_hex_value (digit d) (some 0)).0 ≡ true
  value : pointee (get_hex_value (digit d) (some 0)).1 ≡ d
  no_space : (digit d == 9 || digit d == b' ') ≡ false
  no_x : (digit d == b'X' || digit d == b'x') ≡ false

digit-Reads : (d : ℕ) → d < 16 → Reads d
unfolding reads_back
digit-Reads d h = ground (arith, all_below_sound 16 reads_back d reads_back_table h)

digits_loop-digit :
    (number d : ℕ) (text : Bytes)
    → d < 16
    → digits_loop number (digit d ∷ text) ≡ digits_loop (number * 16 % 2 ^ 32 + d) text
unfolding digits_loop
digits_loop-digit number d text h =
    let r = digit-Reads d h in
    let e : number * 16 % 2 ^ 32 ≡ number % 2 ^ 28 * 16 = omega arith in
    rw (r.accepted, r.value, e, bit_or_nibble (number % 2 ^ 28) d h)

-- The number that bytes stand for, the first one on top, as a 32-bit pattern.
abbrev pub big_endian : ℕ → Bytes → ℕ
big_endian number [] = number
big_endian number (b ∷ source) = big_endian ((number * 256 + b) % 2 ^ 32) source

two_digits :
    (number b : ℕ)
    → b < 256
    → (number * 16 % 2 ^ 32 + b / 16) * 16 % 2 ^ 32 + b % 16 ≡ (number * 256 + b) % 2 ^ 32
two_digits number b h = omega arith

digits_loop-pairs :
    (number : ℕ) (source : Bytes)
    → AreBytes source
    → digits_loop number (pairs source) ≡ big_endian number source
digits_loop-pairs number [] h = unfold digits_loop in refl
digits_loop-pairs number (b ∷ source) h =
    digits_loop-digit number (b / 16) (digit (b % 16) ∷ pairs source) (omega arith)
    ∙ digits_loop-digit (number * 16 % 2 ^ 32 + b / 16) (b % 16) (pairs source) (omega arith)
    ∙ rw (two_digits number b h.0) (digits_loop-pairs ((number * 256 + b) % 2 ^ 32) source h.1)

-- A text of pairs has nothing to skip.
skip_whitespace-pairs :
    (source : Bytes) → AreBytes source → skip_whitespace (pairs source) ≡ pairs source
unfolding skip_whitespace
skip_whitespace-pairs [] h = refl
skip_whitespace-pairs (b ∷ source) h = rw (digit-Reads (b / 16) (omega arith)).no_space

skip_0x-pairs : (source : Bytes) → AreBytes source → skip_0x (pairs source) ≡ pairs source
unfolding skip_0x
skip_0x-pairs [] h = refl
skip_0x-pairs (b ∷ source) h = rw (digit-Reads (b % 16) (omega arith)).no_x (ground arith)

pub hex_string_to_integer-pairs :
    (source : Bytes)
    → AreBytes source
    → hex_string_to_integer (some (pairs source)) ≡ big_endian 0 source
unfolding hex_string_to_integer
hex_string_to_integer-pairs source h =
    rw (skip_whitespace-pairs source h, skip_0x-pairs source h) (digits_loop-pairs 0 source h)
