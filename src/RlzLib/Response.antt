-- ===== src/RlzLib/Response.antt =====
-- lib/rlz_lib.cc: IsPingResponseValid, GetEventsFromResponseString and ParsePingResponse. A position
-- that std::string::find does not find is `none`.
pub mod Checksum
pub mod Returned
pub mod Lines
pub mod Confirmed
pub mod Acknowledged
use rlz.Prelude.{
  ℕ, suc, ◌+◌, ◌-◌, Bool, true, false, not, ◌||◌, List, [], ◌∷◌, ◌++◌, Option, none, some, Bytes,
  bytes, find, find_first_of, split, take, drop, length, is_empty, ltb, leb, ◌==◌, if◌then◌else◌,
}
use rlz.Enums.{AccessPoint, Event, Product, no_access_point, invalid_event}
use rlz.LibValues.{
  get_access_point_from_name, get_event_from_name, events_cgi_variable,
  stateful_events_cgi_variable, events_cgi_separator, rlz_cgi_variable,
}
use rlz.Base.{Base}
use rlz.Crc32.{crc32_text}
use rlz.StringUtils.{hex_string_to_integer}
use rlz.ValueStore.{RlzValueStore, can, write_access}
use rlz.Platform.{Platform}
use rlz.RlzLib.Normalize.{is_access_point_supported, max_rlz_length}
use rlz.RlzLib.AccessPoints.{set_access_point_rlz}
use rlz.RlzLib.Events.{clear_product_event, record_stateful_event}
use rlz.RlzLib.PingParams.{is_no_access_point}

abbrev pub max_ping_response_length : ℕ
max_ping_response_length = 0x4000

-- s.find(t), or the given position for npos; s.find(c, begin) on the rest from `begin`.
abbrev pub or_else : Option ℕ → ℕ → ℕ
or_else none d = d
or_else (some n) d = n

abbrev pub plus : ℕ → Option ℕ → Option ℕ
plus n none = none
plus n (some k) = some (n + k)

module _ (base : Base) where
  -- From the checksum's index, the length of "crc32: " with or without the line feed, and the result
  -- of Crc32 on the message: the result, and *checksum_idx (`none` for -1).
  checksum_matches : Bytes → ℕ → ℕ → Bool × ℕ → Bool × Option ℕ
  checksum_matches response index param_size (false, calculated_crc) = (false, none)
  checksum_matches response index param_size (true, calculated_crc) =
      let end =
        or_else (plus (index + 1) (find (10 ∷ []) (drop (index + 1) response))) (length response) in
      let begin = index + param_size in
      let checksum = base.trim_all (take (end - begin + 1) (drop begin response)) in
      (calculated_crc == hex_string_to_integer (some checksum), some index)

  find_checksum : Bytes → Option ℕ → Bool × Option ℕ
  unfolding checksum_matches
  find_checksum response (some index) =
      checksum_matches response index 8 (crc32_text base (take (index + 1) response))
  find_checksum response none =
      if base.starts_with_ascii response (bytes "crc32: ")
      then checksum_matches response 0 7 (crc32_text base [])
      else (false, none)

  -- The result, and *checksum_idx for a `checksum_idx` that is not NULL; `none` is -1, its value
  -- before the call in the callers.
  unfoldable pub is_ping_response_valid : Option Bytes → Bool × Option ℕ
  unfolding find_checksum
  is_ping_response_valid none = (false, none)
  is_ping_response_valid (some response) =
      if is_empty response
      then (false, none)
      else if ltb max_ping_response_length (length response)
      then (false, none)
      else find_checksum response (find (10 ∷ bytes "crc32: ") response)

-- One event of a response: "<access point><event>"; `none` where it is passed over.
event_of : Bool × AccessPoint → Bool × Event → Option (AccessPoint × Event)
event_of (false, point) event = none
event_of (true, point) (false, event) = none
event_of (true, no_access_point) (true, event) = none
event_of (true, point) (true, invalid_event) = none
event_of (true, point) (true, event) = some (point, event)

unfoldable pub returned_event : Bytes → Option (AccessPoint × Event)
unfolding event_of
returned_event event_string =
    if not (length event_string == 3)
    then none
    else event_of (get_access_point_from_name (some (take 2 event_string)))
        (get_event_from_name (some (drop (length event_string - 1) event_string)))

unfoldable pub returned_events : List Bytes → List (AccessPoint × Event)
unfolding returned_event
returned_events [] = []
returned_events (event_string ∷ rest) = elim (returned_event event_string) [
  | none ↦ returned_events rest
  | some event ↦ event ∷ returned_events rest
]

-- The text up to the first of "\r\n ".
abbrev pub until_blank : Bytes → Bytes
until_blank s = take (or_else (find_first_of (13 ∷ 10 ∷ 32 ∷ []) s) (length s)) s

module _ (base : Base) where
  unfoldable pub get_events_from_response_string : Bytes → Bytes → List (AccessPoint × Event)
  get_events_from_response_string response_line field_header = returned_events (
      split events_cgi_separator
        (until_blank (base.trim_leading (drop (length field_header) response_line))))

module _ {S : Type 0} (store : RlzValueStore S) where
  unfoldable pub clear_events : S → Product → List (AccessPoint × Event) → S
  clear_events s product [] = s
  clear_events s product ((point, event) ∷ rest) =
      clear_events (clear_product_event store s product point event).1 product rest

  unfoldable pub record_events : S → Product → List (AccessPoint × Event) → S
  record_events s product [] = s
  record_events s product ((point, event) ∷ rest) =
      record_events (record_stateful_event store s product point event).1 product rest

module _ {S : Type 0} (base : Base) (store : RlzValueStore S) where
  -- An RLZ line with its separator at `separator_index`; the result of GetAccessPointFromName.
  rlz_for_point : S → Bytes → ℕ → Bool × AccessPoint → S
  rlz_for_point s line separator_index (false, point) = s
  rlz_for_point s line separator_index (true, point) =
      let rlz_value = until_blank (base.trim_leading (drop (separator_index + 2) line)) in
      if is_no_access_point point
      then s
      else if ltb max_rlz_length (length rlz_value)
      then s
      else if is_access_point_supported point
      then (set_access_point_rlz base store s point (some rlz_value)).1
      else s

  rlz_line : S → Bytes → Option ℕ → S
  unfolding rlz_for_point
  rlz_line s line none = s
  rlz_line s line (some separator_index) = rlz_for_point s line separator_index (
      get_access_point_from_name
        (some (take (separator_index - length rlz_cgi_variable) (drop 3 line))))

  -- One line that is not empty.
  unfoldable pub response_line : S → Product → Bytes → S
  unfolding rlz_line
  response_line s product line =
      if base.starts_with_ascii line rlz_cgi_variable
      then rlz_line s line (find (bytes ": ") line)
      else if base.starts_with_ascii line (events_cgi_variable ++ bytes ": ")
      then clear_events store s product
          (get_events_from_response_string base line (events_cgi_variable ++ bytes ": "))
      else if base.starts_with_ascii line (stateful_events_cgi_variable ++ bytes ": ")
      then record_events store s product
          (get_events_from_response_string base line (stateful_events_cgi_variable ++ bytes ": "))
      else s

  abbrev pub line_or_skip : S → Product → Bytes → S
  line_or_skip s product [] = s
  line_or_skip s product (c ∷ line) = response_line s product (c ∷ line)

  -- The loop over the lines from position `line_begin`. Each line but the last ends at its line feed;
  -- the last ends at `response_length`, the position of the checksum.
  unfoldable pub lines_loop : S → Product → ℕ → ℕ → List Bytes → S
  lines_loop s product response_length line_begin [] = s
  lines_loop s product response_length line_begin (line ∷ []) =
      line_or_skip s product (take (response_length - line_begin) line)
  lines_loop s product response_length line_begin (line ∷ next ∷ rest) =
      lines_loop (line_or_skip s product line) product response_length
        (line_begin + length line + 1) (next ∷ rest)

module _ {S : Type 0} (base : Base) (store : RlzValueStore S) (platform : Platform S) where
  parse_valid : S → Product → Bytes → Bool × Option ℕ → Bool × S
  parse_valid s product response (false, index) = (false, s)
  parse_valid s product response (true, none) = (true, s)
  parse_valid s product response (true, some response_length) =
      let s' = lines_loop base store s product response_length 0 (split 10 response) in
      if response_length == 0 then (true, s) else (
        true,
        if platform.os_win
            then (platform.set_machine_deal_code_from_ping_response s' response).1
            else s',
      )

  -- For a `response` that is not NULL.
  unfoldable pub parse_ping_response : S → Product → Bytes → Bool × S
  unfolding parse_valid
  parse_ping_response s product response =
      if not (can store s write_access)
      then (false, s)
      else parse_valid s product response (is_ping_response_valid base (some response))
