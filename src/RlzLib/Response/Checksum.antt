-- ===== src/RlzLib/Response/Checksum.antt =====
-- Which responses IsPingResponseValid of lib/rlz_lib.cc accepts.
use mathlib.Core.List.{append_assoc, append-nil}
use rlz.Prelude.{
  ℕ, ◌+◌, ◌-◌, ◌/◌, ◌%◌, ◌≤◌, ◌≡◌, refl, ◌∙◌, true, false, not, [], ◌∷◌, ◌++◌, Option, none, some,
  Bytes, bytes, find, take, take_at, drop_at, drop, length, length-append, all, ltb, ==_refl,
  is_empty, arith, all_below, all_below_sound,
}
use rlz.Base.{Base, BaseLaws, is_whitespace}
use rlz.Crc32.{crc32_buffer, crc32_text-buffer}
use rlz.StringUtils.{is_ascii}
use rlz.StringUtils.Hex.{AreBytes, pairs, digit, big_endian, hex_string_to_integer-pairs}
use rlz.RlzLib.Response.{
  or_else, plus, is_ping_response_valid, checksum_matches, max_ping_response_length,
}

-- The line feed and the word before the checksum.
abbrev pub checksum_param : Bytes
checksum_param = 10 ∷ bytes "crc32: "

-- What stands behind the checksum: nothing, or a line feed and any text.
abbrev pub tail_text : Option Bytes → Bytes
tail_text none = []
tail_text (some rest) = 10 ∷ rest

not_empty : (s t : Bytes) (c : ℕ) → is_empty (s ++ c ∷ t) ≡ false
not_empty [] t c = refl
not_empty (b ∷ s) t c = refl

plain_digit_table : all_below 16 (λ d. not (is_whitespace (digit d))) ≡ true
unfolding all_below
plain_digit_table = refl

pub no_space-pairs :
    (source : Bytes) → AreBytes source → all (λ c. not (is_whitespace c)) (pairs source) ≡ true
no_space-pairs [] h = refl
no_space-pairs (b ∷ source) h = ground (
  arith,
  all_below_sound 16 (λ d. not (is_whitespace (digit d))) (b / 16) plain_digit_table,
  all_below_sound 16 (λ d. not (is_whitespace (digit d))) (b % 16) plain_digit_table,
  no_space-pairs source h.1,
)

find-line_feed :
    (s rest : Bytes)
    → all (λ c. not (is_whitespace c)) s ≡ true
    → find (10 ∷ []) (s ++ 10 ∷ rest) ≡ some (length s)
unfolding find
find-line_feed [] rest h = refl
find-line_feed (c ∷ s) rest h = ground (arith, find-line_feed s rest)

find-line_feed_none :
    (s : Bytes) → all (λ c. not (is_whitespace c)) s ≡ true → find (10 ∷ []) s ≡ none
unfolding find
find-line_feed_none [] h = refl
find-line_feed_none (c ∷ s) h = ground (arith, find-line_feed_none s)

-- The word of the checksum line.
abbrev pub word : Bytes
word = bytes "crc32: "

module _ (base : Base) (laws : BaseLaws base) (message source : Bytes) (i : ℕ) where
  abbrev pub text_with : Bytes → Bytes
  text_with tail = message ++ (word ++ (pairs source ++ tail))

  module _ (at_feed : i + 1 ≡ length message) (valid : AreBytes source) where
    hex_end :
        (tail : Option Bytes)
        → or_else
            (plus (i + 1) (find (10 ∷ []) (drop (i + 1) (text_with (tail_text tail)))))
            (length (text_with (tail_text tail)))
          ≡ i + 8 + length (pairs source)
    unfolding find
    hex_end none =
        rw
          (
            drop_at message (word ++ (pairs source ++ [])) (i + 1) at_feed,
            append-nil,
            find-line_feed_none (pairs source) (no_space-pairs source valid),
          )
          (omega (arith, length-append message (word ++ pairs source)))
    hex_end (some rest) =
        rw
          (
            drop_at message (word ++ (pairs source ++ 10 ∷ rest)) (i + 1) at_feed,
            find-line_feed (pairs source) rest (no_space-pairs source valid),
          )
          (omega arith)

    -- The digits, and the line feed if there is one.
    checksum_text :
        (tail : Option Bytes)
        → take (length (pairs source) + 1) (drop (i + 8) (text_with (tail_text tail)))
          ≡ pairs source ++ take 1 (tail_text tail)
    checksum_text tail =
        let e : i + 8 ≡ length (message ++ word) = omega (arith, length-append message word) in
        rw
          (
            ← append_assoc message word (pairs source ++ tail_text tail),
            drop_at (message ++ word) (pairs source ++ tail_text tail) (i + 8) e,
          )
          (take_at (pairs source) (tail_text tail) (length (pairs source) + 1) 1 refl)

    trimmed :
        (tail : Option Bytes)
        → base.trim_all (pairs source ++ take 1 (tail_text tail)) ≡ pairs source
    trimmed none = laws.trim_all_end (pairs source) [] (no_space-pairs source valid) refl
    trimmed (some rest) =
        laws.trim_all_end (pairs source) (10 ∷ []) (no_space-pairs source valid) refl

    checksum_matches-pairs :
        (crc : ℕ) (tail : Option Bytes)
        → big_endian 0 source ≡ crc
        → checksum_matches base (text_with (tail_text tail)) i 8 (true, crc) ≡ (true, some i)
    unfolding checksum_matches
    checksum_matches-pairs crc tail h =
        let span : i + 8 + length (pairs source) - (i + 8) + 1 ≡ length (pairs source) + 1 =
          omega arith in
        rw (
          hex_end tail,
          span,
          checksum_text tail,
          trimmed tail,
          hex_string_to_integer-pairs source valid,
          h,
          ==_refl crc,
        )

  -- A response of a message, the word "crc32: ", the bytes `source` in hexadecimal digits, and
  -- either nothing or a line feed and any text is accepted, with the position of the line feed
  -- that ends the message, if that is the first line feed that "crc32: " follows, the message is
  -- ASCII, `source` stands for the message's CRC-32, and the whole is not longer than
  -- kMaxPingResponseLength.
  pub is_ping_response_valid-pairs :
      (tail : Option Bytes)
      → i + 1 ≡ length message
      → AreBytes source
      → all is_ascii message ≡ true
      → big_endian 0 source ≡ crc32_buffer base message
      → find checksum_param (text_with (tail_text tail)) ≡ some i
      → length (text_with (tail_text tail)) ≤ max_ping_response_length
      → is_ping_response_valid base (some (text_with (tail_text tail))) ≡ (true, some i)
  unfolding is_ping_response_valid
  is_ping_response_valid-pairs tail at_feed valid ascii sum first short =
      let sizes = length-append message (word ++ (pairs source ++ tail_text tail)) in
      let short' : ltb max_ping_response_length (length (text_with (tail_text tail))) ≡ false =
        ground (arith, short) in
      let head : take (i + 1) (text_with (tail_text tail)) ≡ message =
        take_at message (word ++ (pairs source ++ tail_text tail)) (i + 1) 0 (omega arith)
        ∙ append-nil message in
      rw (
        short',
        first,
        head,
        crc32_text-buffer base laws message ascii,
        checksum_matches-pairs at_feed valid (crc32_buffer base message) tail sum,
        not_empty message (drop 1 word ++ (pairs source ++ tail_text tail)) b'c',
      )
