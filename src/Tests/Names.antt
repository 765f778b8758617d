-- ===== src/Tests/Names.antt =====
-- Examples for lib/lib_values.cc and for the values of events and RLZs in lib/rlz_lib.cc.
use rlz.Prelude.{◌≡◌, refl, true, false, [], ◌∷◌, some, bytes, split, find_first_of}
use rlz.Enums.{ie_default_search, ie_home_page, no_access_point, set_to_google, install}
use rlz.LibValues.{
  get_access_point_name, get_access_point_from_name, get_event_name, get_event_from_name,
}
use rlz.Base.Sample.{sample}
use rlz.RlzLib.Normalize.{normalize_rlz, is_good_rlz_char}
use rlz.RlzLib.Events.{event_value}
use rlz.RlzLib.Response.{get_events_from_response_string, returned_events, returned_event}

-- The empty name is that of NO_ACCESS_POINT.
empty_name : get_access_point_from_name (some []) ≡ (true, no_access_point)
unfolding get_access_point_from_name
empty_name = refl

unknown_name : get_access_point_from_name (some (bytes "ZZ")) ≡ (false, no_access_point)
unfolding get_access_point_from_name
unknown_name = refl

value_event : event_value ie_default_search set_to_google ≡ some (bytes "I7S")
unfolding event_value get_access_point_name get_event_name
value_event = refl

normalized : normalize_rlz sample (bytes "1R1 &x") ≡ bytes "1R1..x"
unfolding normalize_rlz is_good_rlz_char sample
normalized = refl

value_home : event_value ie_home_page install ≡ some (bytes "W1I")
unfolding event_value get_access_point_name get_event_name
value_home = refl

-- What is not an event, and what stands behind a space, is passed over.
mixed_line :
    get_events_from_response_string sample (bytes "events: I7S,XX,ZZI,W1I W1S") (bytes "events: ")
    ≡ (ie_default_search, set_to_google) ∷ (ie_home_page, install) ∷ []
unfolding get_events_from_response_string returned_events returned_event split find_first_of
    get_access_point_from_name get_event_from_name sample
mixed_line = refl
