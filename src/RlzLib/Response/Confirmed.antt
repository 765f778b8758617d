-- ===== src/RlzLib/Response/Confirmed.antt =====
-- The events that a response confirms are cleared: the "events: " line of ParsePingResponse in
-- lib/rlz_lib.cc.
use rlz.Prelude.{
  if◌then◌else◌, ◌≡◌, refl, ◌∙◌, Bool, true, false, not, ◌&&◌, ◌||◌, List, [], ◌∷◌, ◌++◌, some,
  Bytes, bytes, arith,
}
use rlz.Enums.{AccessPoint, Event, Product}
use rlz.LibValues.{rlz_cgi_variable}
use rlz.Base.{Base, BaseLaws}
use rlz.ValueStore.{RlzValueStore, StoreLaws, can, contains_by, write_access}
use rlz.ValueStore.Frames.{ClearsEvents}
use rlz.RlzLib.Events.{event_value, clear_product_event}
use rlz.RlzLib.EventsCgi.Bounds.{joined}
use rlz.RlzLib.Response.{response_line, clear_events}
use rlz.RlzLib.Response.Returned.{Values, get_events_from_response_string-joined}

cleared_if : (same held : Bool) → (if same then false else held) ≡ (held && not same)
cleared_if same held = ground arith

true_right : (a : Bool) → a ≡ (a && true)
true_right true = refl
true_right false = refl

one_more : (a b c : Bool) → ((a && not b) && not c) ≡ (a && not (b || c))
one_more a b c = ground arith

module _ {S : Type 0} (store : RlzValueStore S) (laws : StoreLaws store)
    (clears : ClearsEvents store laws) where
  open laws use {view, same_name}

  clears_one :
      (s : S) (product : Product) (point : AccessPoint) (event : Event) (v : Bytes)
      → can store s write_access ≡ true
      → event_value point event ≡ some v
      → (clear_product_event store s product point event).1
        ≡ (store.clear_product_event s product v).1
  unfolding clear_product_event
  clears_one s product point event v writable e = rw (writable, e)

  cleared_view :
      (s : S) (product : Product) (v f : Bytes)
      → can store s write_access ≡ true
      → (view (store.clear_product_event s product v).1).product_event product f
        ≡ ((view s).product_event product f && not (same_name v f))
  cleared_view s product v f writable =
      result_cases (store.clear_product_event s product v) refl
      ∙ cleared_if (same_name v f) ((view s).product_event product f)
    where
      result_cases :
          (r : Bool × S)
          → store.clear_product_event s product v ≡ r
          → (view r.1).product_event product f
            ≡ (if same_name v f then false else (view s).product_event product f)
      result_cases (true, s') h = (laws.clear_event s s' product v h).0 f
      result_cases (false, s') h = clears.unsuccessful s s' product v writable h f

  -- Clearing the events of a list removes their values, and no other event of the product.
  clear_events_view :
      (s : S) (product : Product) (pairs : List (AccessPoint × Event)) (vs : List Bytes) (f : Bytes)
      → can store s write_access ≡ true
      → Values pairs vs
      → (view (clear_events store s product pairs)).product_event product f
        ≡ ((view s).product_event product f && not (contains_by same_name vs f))
  unfolding clear_events
  clear_events_view s product [] [] f writable h = true_right ((view s).product_event product f)
  clear_events_view s product [] (v ∷ vs) f writable h = absurd h
  clear_events_view s product (pair ∷ pairs) [] f writable h = absurd h
  clear_events_view s product ((point, event) ∷ pairs) (v ∷ vs) f writable h =
      rw (clears_one s product point event v writable h.0) (
        clear_events_view (store.clear_product_event s product v).1 product pairs vs f
          (clears.keeps s product v writable) h.1
        ∙ rw (cleared_view s product v f writable) (
            one_more ((view s).product_event product f) (same_name v f)
              (contains_by same_name vs f)))

module _ {S : Type 0} (base : Base) (base_laws : BaseLaws base) (store : RlzValueStore S)
    (laws : StoreLaws store) (clears : ClearsEvents store laws) where
  open laws use {view, same_name}

  events_line :
      (s : S) (product : Product) (pairs : List (AccessPoint × Event)) (vs : List Bytes)
      → Values pairs vs
      → response_line base store s product (bytes "events: " ++ joined true vs)
        ≡ clear_events store s product pairs
  unfolding response_line
  events_line s product pairs vs h = rw (
    base_laws.starts_with (bytes "events: " ++ joined true vs) rlz_cgi_variable,
    base_laws.starts_with (bytes "events: " ++ joined true vs) (bytes "events: "),
    get_events_from_response_string-joined base base_laws (bytes "events: ") pairs vs h,
  )

  -- A response line "events: " with the comma-separated values of a list of events that all have a
  -- value, where the store can be written and clears events, removes from the events of the
  -- product just those that the store takes for one of the values.
  pub response_line-events :
      (s : S) (product : Product) (pairs : List (AccessPoint × Event)) (vs : List Bytes) (f : Bytes)
      → can store s write_access ≡ true
      → Values pairs vs
      → (view
            (response_line base store s product (bytes "events: " ++ joined true vs))).product_event
          product f
        ≡ ((view s).product_event product f && not (contains_by same_name vs f))
  response_line-events s product pairs vs f writable h =
      rw (events_line s product pairs vs h)
        (clear_events_view store laws clears s product pairs vs f writable h)
