-- ===== src/RlzLib/Response/Returned.antt =====
-- The events of a response line are read back from the text that lists them.
use mathlib.Core.List.{append-nil}
use rlz.Prelude.{
  ℕ, ◌≡◌, ◌≢◌, refl, ap, ◌∙◌, Bool, true, false, not, List, [], ◌∷◌, ◌++◌, none, some, Bytes,
  has_byte, find_first_of, split, take_all, drop, length, all, arith,
}
use rlz.Enums.{AccessPoint, Event, no_access_point, invalid_event}
use rlz.LibValues.{events_cgi_separator}
use rlz.LibValues.Names.{get_access_point_from_name_iff, get_event_from_name_iff, is_plain}
use rlz.Base.{Base, BaseLaws}
use rlz.RlzLib.Events.{event_value}
use rlz.RlzLib.Events.Laws.{
  event_value_shape, value_plain, no_access_point_name, invalid_event_name,
}
use rlz.RlzLib.EventsCgi.Bounds.{joined}
use rlz.RlzLib.Response.{
  event_of, returned_event, returned_events, until_blank, get_events_from_response_string,
}

event_of_valid :
    (point : AccessPoint) (event : Event)
    → point ≢ no_access_point
    → event ≢ invalid_event
    → event_of (true, point) (true, event) ≡ some (point, event)
unfolding event_of
event_of_valid no_access_point event h k = absurd (h refl)
event_of_valid _ invalid_event h k = absurd (k refl)
event_of_valid _ _ h k = refl

-- The value of an event is read back as its access point and its event.
pub returned_event-event_value :
    (point : AccessPoint) (event : Event) (v : Bytes)
    → event_value point event ≡ some v
    → returned_event v ≡ some (point, event)
unfolding returned_event
returned_event-event_value point event v h =
    let (a, b, c, e, hp, he) = event_value_shape point event v h in
    let point_ne : point ≢ no_access_point = λ same. ground (arith, no_access_point_name, same) in
    let event_ne : event ≢ invalid_event = λ same. ground (arith, invalid_event_name, same) in
    rw
      (
        e,
        (get_access_point_from_name_iff (a ∷ b ∷ []) point).1 hp,
        (get_event_from_name_iff (c ∷ []) event).1 he,
      )
      (event_of_valid point event point_ne event_ne)

-- The values of a list of events.
abbrev pub Values : List (AccessPoint × Event) → List Bytes → Type 0
Values [] [] = Unit {0}
Values [] (v ∷ vs) = ⊥
Values (pair ∷ pairs) [] = ⊥
Values ((point, event) ∷ pairs) (v ∷ vs) = (event_value point event ≡ some v) × Values pairs vs

returned_events-Values :
    (pairs : List (AccessPoint × Event)) (vs : List Bytes)
    → Values pairs vs
    → returned_events vs ≡ pairs
unfolding returned_events
returned_events-Values [] [] h = refl
returned_events-Values [] (v ∷ vs) h = absurd h
returned_events-Values (pair ∷ pairs) [] h = absurd h
returned_events-Values ((point, event) ∷ pairs) (v ∷ vs) h =
    rw (returned_event-event_value point event v h.0, returned_events)
      (ap (◌∷◌ (point, event)) (returned_events-Values pairs vs h.1))

-- The values hold capital letters and digits, and none is empty.
abbrev pub ArePlain : List Bytes → Type 0
ArePlain [] = Unit {0}
ArePlain (v ∷ vs) = (all is_plain v ≡ true) × (v ≢ []) × ArePlain vs

pub Values-ArePlain :
    (pairs : List (AccessPoint × Event)) (vs : List Bytes) → Values pairs vs → ArePlain vs
Values-ArePlain [] [] h = tt
Values-ArePlain [] (v ∷ vs) h = absurd h
Values-ArePlain (pair ∷ pairs) [] h = absurd h
Values-ArePlain ((point, event) ∷ pairs) (v ∷ vs) h =
    let (plain, ne) = value_plain point event v h.0 in (plain, ne, Values-ArePlain pairs vs h.1)

split_plain : (v : Bytes) → all is_plain v ≡ true → split b',' v ≡ v ∷ []
unfolding split
split_plain [] h = refl
split_plain (c ∷ v) h = ground (arith, split_plain v)

split_plain-comma :
    (v rest : Bytes) → all is_plain v ≡ true → split b',' (v ++ b',' ∷ rest) ≡ v ∷ split b',' rest
unfolding split
split_plain-comma [] rest h = refl
split_plain-comma (c ∷ v) rest h = ground (arith, split_plain-comma v rest)

split-joined :
    (v : Bytes) (vs : List Bytes) → ArePlain (v ∷ vs) → split b',' (v ++ joined false vs) ≡ v ∷ vs
split-joined v [] h = rw append-nil (split_plain v h.0)
split-joined v (w ∷ vs) h =
    split_plain-comma v (w ++ joined false vs) h.0 ∙ ap (◌∷◌ v) (split-joined w vs h.2)

abbrev no_blank : ℕ → Bool
no_blank c = not (has_byte (13 ∷ 10 ∷ 32 ∷ []) c)

find_first_of_absent :
    (t : Bytes) → all no_blank t ≡ true → find_first_of (13 ∷ 10 ∷ 32 ∷ []) t ≡ none
unfolding find_first_of
find_first_of_absent [] h = refl
find_first_of_absent (c ∷ t) h = ground (arith, find_first_of_absent t)

until_blank_none : (t : Bytes) → all no_blank t ≡ true → until_blank t ≡ t
until_blank_none t h = rw (find_first_of_absent t h) (take_all (length t) t (omega arith))

no_blank-append :
    (v t : Bytes) → all is_plain v ≡ true → all no_blank t ≡ true → all no_blank (v ++ t) ≡ true
no_blank-append [] t h k = k
no_blank-append (c ∷ v) t h k = ground (arith, no_blank-append v t)

no_blank-joined : (vs : List Bytes) → ArePlain vs → all no_blank (joined false vs) ≡ true
no_blank-joined [] h = refl
no_blank-joined (v ∷ vs) h = no_blank-append v (joined false vs) h.0 (no_blank-joined vs h.2)

drop-append : (s t : Bytes) → drop (length s) (s ++ t) ≡ t
drop-append [] t = refl
drop-append (c ∷ s) t = drop-append s t

no_events : returned_events (split events_cgi_separator (until_blank [])) ≡ returned_events []
unfolding returned_events returned_event split find_first_of
no_events = refl

module _ (base : Base) (laws : BaseLaws base) where
  trim_plain : (v t : Bytes) → all is_plain v ≡ true → v ≢ [] → base.trim_leading (v ++ t) ≡ v ++ t
  trim_plain [] t h ne = absurd (ne refl)
  trim_plain (c ∷ v) t h ne = laws.trim_leading_none c (v ++ t) (ground arith)

  -- From a line that is a header and the comma-separated values of a list of events that all have
  -- a value, GetEventsFromResponseString gives that list.
  pub get_events_from_response_string-joined :
      (header : Bytes) (pairs : List (AccessPoint × Event)) (vs : List Bytes)
      → Values pairs vs
      → get_events_from_response_string base (header ++ joined true vs) header ≡ pairs
  unfolding get_events_from_response_string
  get_events_from_response_string-joined header pairs [] h =
      rw (drop-append header (joined true []), laws.trim_leading_empty)
        (no_events ∙ returned_events-Values pairs [] h)
  get_events_from_response_string-joined header pairs (v ∷ vs) h =
      let plain = Values-ArePlain pairs (v ∷ vs) h in
      rw
        (
          drop-append header (joined true (v ∷ vs)),
          trim_plain v (joined false vs) plain.0 plain.1,
          until_blank_none (v ++ joined false vs)
              (no_blank-append v (joined false vs) plain.0 (no_blank-joined vs plain.2)),
          split-joined v vs plain,
        )
        (returned_events-Values pairs (v ∷ vs) h)
