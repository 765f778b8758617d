-- ===== src/RlzLib/EventsCgi/Bounds.antt =====
-- The text that GetProductEventsAsCgi of lib/rlz_lib.cc builds, and the bounds of its writes.
use mathlib.Core.List.{append_assoc, append-nil}
use rlz.Prelude.{
  ℕ, ◌+◌, ◌-◌, ◌≤◌, ◌<◌, ◌≡◌, sym, ◌∙◌, Bool, true, false, not, ◌&&◌, List, [], ◌∷◌, ◌++◌, some,
  Bytes, take, take_all, length, length-append, length-take, leb, min, if◌then◌else◌, arith,
}
use rlz.Enums.{Product}
use rlz.LibValues.{events_cgi_separator}
use rlz.ValueStore.{RlzValueStore, can, read_access}
use rlz.RlzLib.EventsCgi.{
  Cgi, finish, cgi_arg, larger, append_events, get_product_events_as_cgi, max_cgi_length,
}

abbrev divider : Bool → Bytes
divider first = if first then [] else events_cgi_separator ∷ []

-- The events, with a comma before each but the first.
abbrev pub joined : Bool → List Bytes → Bytes
joined first [] = []
joined first (event ∷ rest) = divider first ++ (event ++ joined false rest)

-- events=<event>,<event>...
abbrev pub cgi_of : List Bytes → Bytes
cgi_of events = cgi_arg ++ joined true events

abbrev is_nil : List Bytes → Bool
is_nil [] = true
is_nil (e ∷ events) = false

-- What the loop ends with where there is room for everything.
record Complete (cgi_size : ℕ) (first : Bool) (text : Bytes) (events : List Bytes) (c : Cgi)
    : Type 0 where
  whole : c.text ≡ text ++ joined first events
  result : c.ok ≡ not (first && is_nil events)
  within : c.top ≤ cgi_size

append_events-Complete :
    (cgi_size : ℕ) (first : Bool) (text : Bytes) (top : ℕ) (events : List Bytes)
    → length text + length (joined first events) < cgi_size
    → top ≤ cgi_size
    → Complete cgi_size first text events (append_events cgi_size first text top events)
unfolding append_events
append_events-Complete n first text top [] h k = record {
  whole = sym (append-nil text);
  result = ground arith;
  within = ground arith;
}
append_events-Complete n first text top (e ∷ rest) h k =
    let sizes = length-append (divider first) (e ++ joined false rest) in
    let sizes' = length-append e (joined false rest) in
    let d = length (divider first) in
    let room : leb n (length text + d) ≡ false = ground (arith, sizes, sizes') in
    let fits = take_all (n - (length text + d)) e (omega (arith, sizes, sizes')) in
    let text' = text ++ (divider first ++ e) in
    let longer = length-append text (divider first ++ e) in
    let longer' = length-append (divider first) e in
    let top' = larger (larger top (length text + 1)) n in
    let ih =
      append_events-Complete n false text' top' rest (omega (arith, sizes, sizes', longer, longer'))
        (ground (arith, sizes, sizes')) in
    rw (room, fits)
      (record {
        whole = ih.whole ∙ simp append_assoc;
        result = ground (arith, ih.result);
        within = ih.within;
      })

module _ {S : Type 0} (store : RlzValueStore S) where
  -- For a product with events e, es whose CGI text fits below the size of the buffer and has at most
  -- kMaxCgiLength bytes, GetProductEventsAsCgi in a readable store returns true and that text, and
  -- writes within the buffer only.
  pub get_product_events_as_cgi_fits :
      (s : S) (product : Product) (cgi_size : ℕ) (e : Bytes) (es : List Bytes)
      → can store s read_access ≡ true
      → store.read_product_events s product ≡ some (e ∷ es)
      → length (cgi_of (e ∷ es)) < cgi_size
      → length (cgi_of (e ∷ es)) ≤ max_cgi_length
      → let c = get_product_events_as_cgi store s product (some cgi_size) in
        (c.ok ≡ true) × (c.text ≡ cgi_of (e ∷ es)) × (c.top ≤ cgi_size)
  unfolding get_product_events_as_cgi
  get_product_events_as_cgi_fits s product n e es readable events h k =
      let whole = length-append cgi_arg (joined true (e ∷ es)) in
      let done =
        append_events-Complete (min (max_cgi_length + 1) n) true cgi_arg (length cgi_arg) (e ∷ es)
          (omega (arith, whole)) (omega (arith, whole)) in
      let small : leb (min (max_cgi_length + 1) n) (length cgi_arg) ≡ false =
        ground (arith, whole) in
      let some_room : leb n 0 ≡ false = ground arith in
      rw (readable, events, small, some_room) (ground (arith, done.whole, done.result, done.within))

-- Where the first event does not fit, the loop ends with a NUL one past the end.
append_events_over :
    (cgi_size : ℕ) (top : ℕ) (text e : Bytes) (es : List Bytes)
    → length text < cgi_size
    → cgi_size ≤ length text + length e
    → top ≤ cgi_size
    → (append_events cgi_size true text top (e ∷ es)).top ≡ cgi_size + 1
unfolding append_events
append_events_over n top text e [] h k t = ground (
  arith,
  length-append text (take (n - (length text + 0)) e),
  length-take (n - (length text + 0)) e,
)
append_events_over n top text e (e' ∷ es) h k t = ground (
  arith,
  length-append text (take (n - (length text + 0)) e),
  length-take (n - (length text + 0)) e,
)

module _ {S : Type 0} (store : RlzValueStore S) where
  -- The call comes down to the loop over the events.
  enters_loop :
      (s : S) (product : Product) (cgi_size : ℕ) (events : List Bytes)
      → can store s read_access ≡ true
      → store.read_product_events s product ≡ some events
      → length cgi_arg < cgi_size
      → cgi_size ≤ max_cgi_length + 1
      → get_product_events_as_cgi store s product (some cgi_size)
        ≡ finish store (append_events cgi_size true cgi_arg (length cgi_arg) events)
  unfolding get_product_events_as_cgi
  enters_loop s product n events readable stored h l =
      let small : leb n (length cgi_arg) ≡ false = ground arith in
      let some_room : leb n 0 ≡ false = ground arith in
      let size : min (max_cgi_length + 1) n ≡ n = omega arith in
      rw (readable, stored, size, small, some_room)

  finish-top : (c : Cgi) → 1 ≤ c.top → (finish store c).top ≡ c.top
  unfolding finish
  finish-top c h = ground arith

  -- For a buffer of at most kMaxCgiLength + 1 bytes that has room for "events=" and a NUL, but not for
  -- the first event and a NUL, GetProductEventsAsCgi in a readable store writes one byte past the
  -- buffer's end.
  pub get_product_events_as_cgi_overrun :
      (s : S) (product : Product) (cgi_size : ℕ) (e : Bytes) (es : List Bytes)
      → can store s read_access ≡ true
      → store.read_product_events s product ≡ some (e ∷ es)
      → length cgi_arg < cgi_size
      → cgi_size ≤ length cgi_arg + length e
      → cgi_size ≤ max_cgi_length + 1
      → (get_product_events_as_cgi store s product (some cgi_size)).top ≡ cgi_size + 1
  get_product_events_as_cgi_overrun s product n e es readable events h k l =
      let over = append_events_over n (length cgi_arg) cgi_arg e es h k (omega arith) in
      let c = append_events n true cgi_arg (length cgi_arg) (e ∷ es) in
      rw (enters_loop s product n (e ∷ es) readable events h l)
        (finish-top c (omega (arith, over)) ∙ over)
