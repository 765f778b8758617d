-- ===== src/Tests/Stores.antt =====
-- Examples for the functions of lib/rlz_lib.cc and lib/rlz_lib_clear.cc over a store in memory.
use rlz.Prelude.{◌≡◌, ◌≢◌, ◌⊎◌, inr, refl, true, false, List, [], ◌∷◌, none, some, bytes, arith}
use rlz.Enums.{
  AccessPoint, no_access_point, ie_default_search, ie_home_page, set_to_google, install,
  toolbar_notifier, desktop,
}
use rlz.LibValues.{get_access_point_name, get_event_name}
use rlz.Base.Sample.{sample}
use rlz.ValueStore.{can, read_access, write_access}
use rlz.ValueStore.Memory.{Memory, memory, memory-StoreLaws, memory-StoreFrames, memory-same_name}
use rlz.RlzLib.Normalize.{normalize_rlz, is_good_rlz_char, is_access_point_supported}
use rlz.RlzLib.AccessPoints.{get_access_point_rlz, set_access_point_rlz}
use rlz.RlzLib.AccessPoints.Laws.{get_access_point_rlz-set_access_point_rlz}
use rlz.RlzLib.Events.{
  event_value, record_product_event, record_stateful_event, clear_product_event,
}
use rlz.RlzLib.Events.Laws.{
  record_product_event_view, record_product_event-record_stateful_event, clear_product_event_view,
}
use rlz.RlzLib.Clear.{
  clear_all_product_events, clear_product_state, supplementary_branding, end_supplementary_branding,
}
use rlz.RlzLib.Clear.Laws.{nested_branding}
use rlz.RlzLib.Clear.State.{ClearsState, Cleared, clear_product_state_view}

abbrev pub empty_store : Memory
empty_store = record {
  locked_out = false;
  readable = true;
  writable = true;
  ping_times = λ p. none;
  rlzs = λ p. [];
  events = λ p. [];
  stateful = λ p. [];
}

abbrev locked_store : Memory
locked_store = record empty_store { locked_out = true }

-- After SetAccessPointRlz of "1R1 x" for the default search.
abbrev with_rlz : Memory
with_rlz =
    (set_access_point_rlz sample memory empty_store ie_default_search (some (bytes "1R1 x"))).1

set_rlz :
    set_access_point_rlz sample memory empty_store ie_default_search (some (bytes "1R1 x"))
    ≡ (true, with_rlz)
unfolding set_access_point_rlz is_access_point_supported normalize_rlz is_good_rlz_char sample
    memory
set_rlz = refl

get_access_point_rlz-set_access_point_rlz_example :
    get_access_point_rlz memory with_rlz ie_default_search (some 65)
    ≡ (true, normalize_rlz sample (bytes "1R1 x"))
get_access_point_rlz-set_access_point_rlz_example =
    get_access_point_rlz-set_access_point_rlz sample memory memory-StoreLaws empty_store with_rlz
      ie_default_search (bytes "1R1 x") 65 set_rlz readable (omega arith)
  where
    readable : can memory with_rlz read_access ≡ true
    readable =
        unfold set_access_point_rlz is_access_point_supported normalize_rlz is_good_rlz_char sample
          memory in
        refl

not_home : ie_home_page ≢ ie_default_search
not_home e = ground arith

-- After RecordProductEvent of "I7S" for the notifier.
abbrev pub recorded_store : Memory
recorded_store =
    (record_product_event memory empty_store toolbar_notifier ie_default_search set_to_google).1

recorded_event :
    record_product_event memory empty_store toolbar_notifier ie_default_search set_to_google
    ≡ (true, recorded_store)
unfolding record_product_event event_value get_access_point_name get_event_name memory
recorded_event = refl

pub default_value : event_value ie_default_search set_to_google ≡ some (bytes "I7S")
unfolding event_value get_access_point_name get_event_name
default_value = refl

home_value : event_value ie_home_page install ≡ some (bytes "W1I")
unfolding event_value get_access_point_name get_event_name
home_value = refl

other_product : desktop ≢ toolbar_notifier
other_product e = ground arith

record_product_event_view_example :
    (((memory-StoreLaws.view empty_store).stateful_event toolbar_notifier (bytes "I7S") ≡ true)
      × (empty_store ≡ recorded_store))
    ⊎ (((memory-StoreLaws.view empty_store).stateful_event toolbar_notifier (bytes "I7S") ≡ false)
        × ((memory-StoreLaws.view recorded_store).product_event toolbar_notifier (bytes "I7S")
            ≡ true)
        × ((memory-StoreLaws.view recorded_store).product_event toolbar_notifier (bytes "W1I")
            ≡ (memory-StoreLaws.view empty_store).product_event toolbar_notifier (bytes "W1I"))
        × ((memory-StoreLaws.view recorded_store).product_event desktop
            ≡ (memory-StoreLaws.view empty_store).product_event desktop)
        × ((memory-StoreLaws.view recorded_store).rlz ≡ (memory-StoreLaws.view empty_store).rlz)
        × ((memory-StoreLaws.view recorded_store).stateful_event
            ≡ (memory-StoreLaws.view empty_store).stateful_event))
record_product_event_view_example =
    record_product_event_view memory memory-StoreLaws empty_store recorded_store toolbar_notifier
      desktop ie_default_search set_to_google (bytes "I7S") (bytes "W1I") recorded_event
      default_value (memory-same_name (bytes "I7S") (bytes "W1I")) other_product

abbrev stateful_store : Memory
stateful_store =
    (record_stateful_event memory empty_store toolbar_notifier ie_default_search set_to_google).1

record_product_event-record_stateful_event_example :
    record_product_event memory stateful_store toolbar_notifier ie_default_search set_to_google
    ≡ (true, stateful_store)
record_product_event-record_stateful_event_example =
    record_product_event-record_stateful_event memory memory-StoreLaws empty_store stateful_store
      toolbar_notifier ie_default_search set_to_google recorded writable
  where
    recorded :
        record_stateful_event memory empty_store toolbar_notifier ie_default_search set_to_google
        ≡ (true, stateful_store)
    recorded =
        unfold record_stateful_event event_value get_access_point_name get_event_name memory in refl

    writable : can memory stateful_store write_access ≡ true
    writable =
        unfold record_stateful_event event_value get_access_point_name get_event_name memory in refl

abbrev cleared_store : Memory
cleared_store =
    (clear_product_event memory recorded_store toolbar_notifier ie_default_search set_to_google).1

not_install : install ≢ set_to_google
not_install e = ground arith

clear_product_event_view_example :
    ((memory-StoreLaws.view cleared_store).product_event toolbar_notifier (bytes "I7S") ≡ false)
    × ((memory-StoreLaws.view cleared_store).product_event toolbar_notifier (bytes "W1I")
        ≡ (memory-StoreLaws.view recorded_store).product_event toolbar_notifier (bytes "W1I"))
    × ((memory-StoreLaws.view cleared_store).product_event desktop
        ≡ (memory-StoreLaws.view recorded_store).product_event desktop)
clear_product_event_view_example =
    clear_product_event_view memory memory-StoreLaws recorded_store cleared_store toolbar_notifier
      desktop ie_default_search ie_home_page set_to_google install (bytes "I7S") (bytes "W1I")
      cleared default_value home_value (inr not_install) other_product
  where
    cleared :
        clear_product_event memory recorded_store toolbar_notifier ie_default_search set_to_google
        ≡ (true, cleared_store)
    cleared =
        unfold clear_product_event record_product_event event_value get_access_point_name
          get_event_name memory in
        refl

abbrev emptied_store : Memory
emptied_store = (clear_all_product_events memory recorded_store toolbar_notifier).1

nested_branding_example :
    (supplementary_branding true (some (bytes "AAAA")) [] ≡ bytes "AAAA")
    × (supplementary_branding true
          (some (bytes "BBBB"))
          (supplementary_branding true (some (bytes "AAAA")) [])
        ≡ bytes "AAAA")
    × (end_supplementary_branding true (
          supplementary_branding true
            (some (bytes "BBBB"))
            (supplementary_branding true (some (bytes "AAAA")) []))
        ≡ [])
nested_branding_example = nested_branding (bytes "AAAA") (bytes "BBBB") refl

-- An event, a ping time and two RLZs of the notifier and other products.
abbrev full_store : Memory
full_store = record recorded_store { ping_times = λ p. some 5; rlzs = λ p. bytes "1R1" }

abbrev two_points : List AccessPoint
two_points = ie_default_search ∷ no_access_point ∷ ie_home_page ∷ []

memory-ClearsState : ClearsState memory two_points
unfolding memory
memory-ClearsState = record {
  events_clear = λ s product. refl;
  stateful_clear = λ s product. refl;
  ping_clear = λ s product. refl;
  rlz_clear = λ s point listed. refl;
}

full_writable : can memory full_store write_access ≡ true
unfolding record_product_event event_value get_access_point_name get_event_name memory
full_writable = refl

clear_product_state_view_example :
    Cleared memory memory-StoreLaws memory-StoreFrames two_points toolbar_notifier
      (memory-StoreLaws.view full_store)
      (memory-StoreLaws.view
        (clear_product_state memory full_store toolbar_notifier (some two_points)))
clear_product_state_view_example =
    clear_product_state_view memory memory-StoreLaws memory-StoreFrames full_store toolbar_notifier
      two_points memory-ClearsState full_writable
