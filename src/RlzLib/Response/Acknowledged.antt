-- ===== src/RlzLib/Response/Acknowledged.antt =====
-- A response of lib/rlz_lib.cc that acknowledges events, from its text to the store.
use mathlib.Core.List.{append_assoc, append-nil}
use rlz.Prelude.{
  none, drop, ℕ, suc, ◌-◌, ◌≤◌, ◌≡◌, refl, ap, ◌∙◌, Bool, true, false, not, ◌&&◌, List, [], ◌∷◌,
  ◌++◌, some, Bytes, bytes, find, split, take, length, length-append, all, ltb, ◌==◌, arith,
}
use rlz.Enums.{AccessPoint, Event, Product}
use rlz.LibValues.Names.{is_plain}
use rlz.Base.{Base, BaseLaws, is_whitespace}
use rlz.Crc32.{crc32_buffer}
use rlz.StringUtils.{is_ascii}
use rlz.StringUtils.Hex.{AreBytes, pairs, big_endian}
use rlz.ValueStore.{RlzValueStore, StoreLaws, can, contains_by, write_access}
use rlz.ValueStore.Frames.{ClearsEvents}
use rlz.Platform.{Platform}
use rlz.RlzLib.EventsCgi.Bounds.{joined}
use rlz.RlzLib.Response.{
  response_line, line_or_skip, parse_ping_response, max_ping_response_length,
  is_ping_response_valid,
}
use rlz.RlzLib.Response.Checksum.{
  checksum_param, word, no_space-pairs, is_ping_response_valid-pairs,
}
use rlz.RlzLib.Response.Returned.{Values, ArePlain, Values-ArePlain}
use rlz.RlzLib.Response.Confirmed.{response_line-events}
use rlz.RlzLib.Response.Lines.{position_after, parse_ping_response-each_line}

-- An ASCII character that is no line feed.
abbrev in_line : ℕ → Bool
in_line c = not (c == 10) && ltb c 0x80

in_line-append :
    (s t : Bytes) → all in_line s ≡ true → all in_line t ≡ true → all in_line (s ++ t) ≡ true
in_line-append [] t h k = k
in_line-append (c ∷ s) t h k = ground (arith, in_line-append s t)

plain_in_line : (v : Bytes) → all is_plain v ≡ true → all in_line v ≡ true
plain_in_line [] h = refl
plain_in_line (c ∷ v) h = ground (arith, plain_in_line v)

joined-in_line :
    (first : Bool) (vs : List Bytes) → ArePlain vs → all in_line (joined first vs) ≡ true
joined-in_line first [] h = refl
joined-in_line true (v ∷ vs) h =
    in_line-append v (joined false vs) (plain_in_line v h.0) (joined-in_line false vs h.2)
joined-in_line false (v ∷ vs) h =
    in_line-append v (joined false vs) (plain_in_line v h.0) (joined-in_line false vs h.2)

-- Digits have no whitespace, so no line feed.
no_feed :
    (s : Bytes) → all (λ c. not (is_whitespace c)) s ≡ true → all (λ c. not (c == 10)) s ≡ true
no_feed [] h = refl
no_feed (c ∷ s) h = ground (arith, no_feed s)

split_one : (s : Bytes) → all (λ c. not (c == 10)) s ≡ true → split 10 s ≡ s ∷ []
unfolding split
split_one [] h = refl
split_one (c ∷ s) h = ground (arith, split_one s)

split-line :
    (line rest : Bytes)
    → all in_line line ≡ true
    → split 10 (line ++ (10 ∷ rest)) ≡ line ∷ split 10 rest
unfolding split
split-line [] rest h = refl
split-line (c ∷ line) rest h = ground (arith, split-line line rest)

find-line :
    (line rest : Bytes)
    → all in_line line ≡ true
    → find checksum_param (line ++ (10 ∷ (word ++ rest))) ≡ some (length line)
unfolding find
find-line [] rest h = refl
find-line (c ∷ line) rest h = ground (arith, find-line line rest)

ascii_line : (line : Bytes) → all in_line line ≡ true → all is_ascii (line ++ 10 ∷ []) ≡ true
unfolding is_ascii
ascii_line [] h = refl
ascii_line (c ∷ line) h = ground (arith, ascii_line line)

abbrev pub events_line : List Bytes → Bytes
events_line vs = bytes "events: " ++ joined true vs

-- The line of the events, and the line of the checksum with the bytes `source` in hexadecimal digits.
abbrev pub acknowledgement : List Bytes → Bytes → Bytes
acknowledgement vs source = (events_line vs ++ 10 ∷ []) ++ (word ++ (pairs source ++ []))

events_line-in_line :
    (events : List (AccessPoint × Event)) (vs : List Bytes)
    → Values events vs
    → all in_line (events_line vs) ≡ true
events_line-in_line events vs h = joined-in_line true vs (Values-ArePlain events vs h)

-- The text with its line feed in the middle.
acknowledgement_lines :
    (vs : List Bytes) (source : Bytes)
    → acknowledgement vs source ≡ events_line vs ++ (10 ∷ (word ++ (pairs source ++ [])))
acknowledgement_lines vs source =
    append_assoc (events_line vs) (10 ∷ []) (word ++ (pairs source ++ []))

checksum_line :
    (source : Bytes)
    → AreBytes source
    → split 10 (word ++ (pairs source ++ [])) ≡ (word ++ (pairs source ++ [])) ∷ []
checksum_line source valid =
    split_one (word ++ (pairs source ++ []))
      (rw append-nil (no_feed (pairs source) (no_space-pairs source valid)))

module _ {S : Type 0} (base : Base) (base_laws : BaseLaws base) (store : RlzValueStore S)
    (platform : Platform S) (laws : StoreLaws store) (clears : ClearsEvents store laws) where
  open laws use {view, same_name}

  -- The text is valid, with its checksum at the end of the line of the events.
  acknowledgement_valid :
      (events : List (AccessPoint × Event)) (vs : List Bytes) (source : Bytes)
      → Values events vs
      → AreBytes source
      → big_endian 0 source ≡ crc32_buffer base (events_line vs ++ 10 ∷ [])
      → length (acknowledgement vs source) ≤ max_ping_response_length
      → is_ping_response_valid base (some (acknowledgement vs source))
        ≡ (true, some (length (events_line vs)))
  acknowledgement_valid events vs source h valid sum short =
      let line = events_line-in_line events vs h in
      is_ping_response_valid-pairs base base_laws (events_line vs ++ 10 ∷ []) source
        (length (events_line vs)) none (omega (arith, length-append (events_line vs) (10 ∷ [])))
        valid (ascii_line (events_line vs) line) sum
        (ap (find checksum_param) (acknowledgement_lines vs source)
          ∙ find-line (events_line vs) (pairs source ++ []) line)
        short

  -- Not on Windows, in a store that can be written, where ClearProductEvent leaves the product without the event
  -- also when it returns false: for a response that is the line "events: " with the values of some events, a line
  -- feed, and "crc32: " with the CRC-32 of that in hexadecimal digits, of at most kMaxPingResponseLength bytes,
  -- ParsePingResponse returns true, and then the product has just those of its events that the store does not
  -- take for one of the values.
  pub parse_ping_response-acknowledgement :
      (s : S) (product : Product) (events : List (AccessPoint × Event)) (vs : List Bytes)
      (source f : Bytes)
      → can store s write_access ≡ true
      → platform.os_win ≡ false
      → Values events vs
      → AreBytes source
      → big_endian 0 source ≡ crc32_buffer base (events_line vs ++ 10 ∷ [])
      → length (acknowledgement vs source) ≤ max_ping_response_length
      → let parsed =
          parse_ping_response base store platform s product (acknowledgement vs source) in
        (parsed.0 ≡ true)
        × ((view parsed.1).product_event product f
            ≡ ((view s).product_event product f && not (contains_by same_name vs f)))
  parse_ping_response-acknowledgement s product events vs source f writable not_win h valid sum
        short =
      let line = events_line-in_line events vs h in
      let last = word ++ (pairs source ++ []) in
      let lines : split 10 (acknowledgement vs source) ≡ (events_line vs ∷ []) ++ last ∷ [] =
        ap (split 10) (acknowledgement_lines vs source)
        ∙ (split-line (events_line vs) last line
            ∙ ap (λ (ps : List Bytes). events_line vs ∷ ps) (checksum_line source valid)) in
      let parsed =
        parse_ping_response-each_line base store platform s product (acknowledgement vs source) last
          (events_line vs ∷ []) (length (drop 1 (events_line vs))) writable not_win
          (acknowledgement_valid events vs source h valid sum short) lines in
      let ended : suc (length (drop 1 (events_line vs)))
            - position_after base store 0 (events_line vs ∷ [])
          ≡ 0 =
        omega arith in
      let state : parse_ping_response base store platform s product (acknowledgement vs source)
          ≡ (true, response_line base store s product (events_line vs)) =
        parsed
        ∙ ap
            (λ (n : ℕ). (
              true,
              line_or_skip base store (response_line base store s product (events_line vs)) product
                  (take n last),
            ))
            ended in
      (
        ap (λ (x : Bool × S). x.0) state,
        ap (λ (x : Bool × S). (view x.1).product_event product f) state
            ∙ response_line-events base base_laws store laws clears s product events vs f writable
                h,
      )
