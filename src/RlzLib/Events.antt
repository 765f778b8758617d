-- ===== src/RlzLib/Events.antt =====
-- lib/rlz_lib.cc: recording and clearing the events of a product.
pub mod Laws
use rlz.Prelude.{
  Bool, true, false, not, ◌||◌, ◌++◌, Option, none, some, Bytes, is_empty, if◌then◌else◌,
}
use rlz.Enums.{AccessPoint, Event, Product}
use rlz.LibValues.{get_access_point_name, get_event_name}
use rlz.ValueStore.{RlzValueStore, can, write_access}

-- The value of an event, "%s%s" of the two names; `none` where one of them is NULL or empty.
join_names : Option Bytes → Option Bytes → Option Bytes
join_names none event_name = none
join_names (some point_name) none = none
join_names (some point_name) (some event_name) =
    if is_empty point_name || is_empty event_name then none else some (point_name ++ event_name)

unfoldable pub event_value : AccessPoint → Event → Option Bytes
unfolding join_names
event_value point event = join_names (get_access_point_name point) (get_event_name event)

module _ {S : Type 0} (store : RlzValueStore S) where
  -- Do `act` with the value of the event, or return false.
  with_value : S → Option Bytes → (Bytes → Bool × S) → Bool × S
  with_value s none act = (false, s)
  with_value s (some value) act = act value

  unfoldable pub record_stateful_event : S → Product → AccessPoint → Event → Bool × S
  unfolding with_value
  record_stateful_event s product point event =
      if not (can store s write_access)
      then (false, s)
      else with_value s (event_value point event)
          (λ value. store.add_stateful_event s product value)

  unfoldable pub record_product_event : S → Product → AccessPoint → Event → Bool × S
  unfolding with_value
  record_product_event s product point event =
      if not (can store s write_access)
      then (false, s)
      else with_value s (event_value point event) λ value.
        if store.is_stateful_event s product value
        then (true, s)
        else store.add_product_event s product value

  unfoldable pub clear_product_event : S → Product → AccessPoint → Event → Bool × S
  unfolding with_value
  clear_product_event s product point event =
      if not (can store s write_access)
      then (false, s)
      else with_value s (event_value point event)
          (λ value. store.clear_product_event s product value)
