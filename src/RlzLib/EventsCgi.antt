-- ===== src/RlzLib/EventsCgi.antt =====
-- lib/rlz_lib.cc: GetProductEventsAsCgi and its helper, with the writes into the caller's buffer.
pub mod Bounds
use rlz.Prelude.{
  ℕ, suc, ◌+◌, ◌-◌, Bool, true, false, not, List, [], ◌∷◌, ◌++◌, Option, none, some, Bytes, bytes,
  take, length, ltb, leb, min, if◌then◌else◌,
}
use rlz.Enums.{Product}
use rlz.LibValues.{events_cgi_variable, events_cgi_separator}
use rlz.ValueStore.{RlzValueStore, can, read_access}

abbrev pub max_cgi_length : ℕ
max_cgi_length = 2048

-- The result, the C string that is left in the buffer, and one more than the highest index that was
-- written: the writes are within a buffer of `n` bytes exactly when `top` is at most `n`.
pub record Cgi : Type 0 where
  pub ok : Bool
  pub text : Bytes
  pub top : ℕ

-- "%s=" of kEventsCgiVariable.
abbrev pub cgi_arg : Bytes
cgi_arg = events_cgi_variable ++ bytes "="

abbrev pub larger : ℕ → ℕ → ℕ
larger a b = if ltb a b then b else a

-- The loop over the events. `text` holds cgi[0] to cgi[index - 1], so that `index` is its length. The
-- test `size <= 0` on an int is `cgi_size <= index + divider`; strncpy fills the buffer up to cgi_size.
append_events : ℕ → Bool → Bytes → ℕ → List Bytes → Cgi
append_events cgi_size first text top [] = record {
  ok = not first;
  text = text;
  top = larger top (length text + 1);
}
append_events cgi_size first text top (event ∷ rest) =
    let index = length text in
    let top' = larger top (index + 1) in
    let divider = if first then [] else events_cgi_separator ∷ [] in
    let size = cgi_size - (index + length divider) in
    let text' = text ++ (divider ++ take size event) in
    let next = append_events cgi_size false text' (larger top' cgi_size) rest in
    if leb cgi_size (index + length divider)
    then record { ok = leb (max_cgi_length + 1) cgi_size; text = text; top = top' }
    else next

module _ {S : Type 0} (store : RlzValueStore S) where
  with_events : ℕ → Option (List Bytes) → Cgi
  with_events cgi_size none = record { ok = false; text = cgi_arg; top = length cgi_arg }
  with_events cgi_size (some events) = append_events cgi_size true cgi_arg (length cgi_arg) events

  get_product_events_as_cgi_helper : Product → ℕ → S → Cgi
  unfolding append_events with_events
  get_product_events_as_cgi_helper product cgi_size s =
      if leb cgi_size (length cgi_arg)
      then record { ok = false; text = []; top = 0 }
      else with_events cgi_size (store.read_product_events s product)

  -- On failure the caller's buffer is reset to the empty string; cgi[0] was written before.
  finish : Cgi → Cgi
  finish c = record { ok = c.ok; text = if c.ok then c.text else []; top = larger 1 c.top }

  unfoldable pub get_product_events_as_cgi : S → Product → Option ℕ → Cgi
  unfolding get_product_events_as_cgi_helper finish
  get_product_events_as_cgi s product none = record { ok = false; text = []; top = 0 }
  get_product_events_as_cgi s product (some cgi_size) =
      if leb cgi_size 0
      then record { ok = false; text = []; top = 0 }
      else if not (can store s read_access)
      then record { ok = false; text = []; top = 1 }
      else finish (get_product_events_as_cgi_helper product (min (max_cgi_length + 1) cgi_size) s)
