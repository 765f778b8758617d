-- ===== src/MachineDeal.antt =====
-- win/lib/machine_deal.cc, and RegKeyReadValue of win/lib/registry_util.cc: the machine deal code
-- (DCC). The lock and the registry key are parameters over a state `R`. Wide strings are ASCII here and
-- stand as their bytes. The text of a call that returns false is [].
pub mod Laws
pub mod Lines
use rlz.Prelude.{
  ℕ, zero, suc, ◌+◌, ◌-◌, Bool, true, false, not, ◌&&◌, ◌||◌, List, [], ◌∷◌, ◌++◌, Option, none,
  some, Bytes, bytes, bytes_eq, is_empty, has_byte, take, drop, length, ltb, leb, ◌==◌,
  if◌then◌else◌,
}
use mathlib.Core.Option
use rlz.Base.{Base}
use rlz.RlzLib.PingParams.{max_dcc_length}
use rlz.RlzLib.Response.{is_ping_response_valid}

pub record MachineKey (R : Type 0) : Type 0 where
  -- LibMutex lock; !lock.failed()
  pub locks : R → Bool
  -- the key under HKEY_LOCAL_MACHINE is Valid when opened for reading, and for reading and writing
  pub opens_read : R → Bool
  pub opens_write : R → Bool
  -- ReadValue of "DCC" into a wstring; `none` for an error
  pub read_value : R → Option Bytes
  -- RegKeyWriteValue of "DCC"
  pub write_value : R → Bytes → Bool × R
  pub delete_value : R → R
  -- ReadValue of "DCC" into a buffer of so many bytes succeeds
  pub reads_raw : R → ℕ → Bool

module _ (base : Base) where
  unfoldable pub is_good_dcc_char : ℕ → Bool
  is_good_dcc_char ch =
      if base.is_ascii_alpha ch || base.is_ascii_digit ch
      then true
      else has_byte (bytes "_-!@$*();.<>,:") ch

  -- The loop over the positions below the limit: `room` is kMaxDccLength - index.
  dcc_chars : ℕ → Bytes → Bytes
  dcc_chars zero raw_dcc = []
  dcc_chars (suc room) [] = []
  dcc_chars (suc room) (current ∷ raw_dcc) =
      (if is_good_dcc_char current then current else b'.') ∷ dcc_chars room raw_dcc

  unfoldable pub normalize_dcc : Bytes → Bytes
  unfolding dcc_chars
  normalize_dcc raw_dcc = dcc_chars max_dcc_length raw_dcc

  -- GetResponseValue, with a `value` that is not NULL.
  value_of : List Bytes → Bool × Bytes
  value_of (key ∷ value ∷ []) = (true, value)
  value_of _ = (false, [])

  unfoldable pub get_response_value : Bytes → Bytes → Bool × Bytes
  unfolding value_of
  get_response_value response_line response_key =
      if not (base.starts_with_ascii response_line response_key)
      then (false, [])
      else value_of (base.split_string response_line 58)

-- strchr: the position of a character.
pub index_of : ℕ → Bytes → Option ℕ
index_of c [] = none
index_of c (b ∷ t) = if b == c then some 0 else Option.map suc (index_of c t)

-- GetResponseLine, with pointers that are not NULL: the line and the next *search_index, where `none` is
-- -1; `none` for the result false.
pub get_response_line : Bytes → ℕ → Option ℕ → Option (Bytes × Option ℕ)
unfolding index_of
get_response_line response_text response_length none = none
get_response_line response_text response_length (some line_begin) =
    if ltb response_length line_begin
    then none
    else let rest = drop line_begin response_text in
      elim (index_of 10 rest) [
        | none ↦ some (take (response_length - line_begin) rest, none)
        | some size ↦
            if ltb response_length (line_begin + size)
            then some (take (response_length - line_begin) rest, none)
            else some (take size rest, some (line_begin + size + 1))
      ]

-- The lines of the calls from a *search_index on.
pub lines_from : ℕ → Bytes → ℕ → Option ℕ → List Bytes
unfolding get_response_line
lines_from zero response_text response_length search_index = []
lines_from (suc fuel) response_text response_length search_index =
    elim (get_response_line response_text response_length search_index) [
      | none ↦ []
      | some (response_line, next_index) ↦
          response_line ∷ lines_from fuel response_text response_length next_index
    ]

-- The lines that the loop meets, from index 0 on: each call but the last goes past a character.
unfoldable pub response_lines : Bytes → ℕ → List Bytes
unfolding lines_from
response_lines response_text response_length =
    lines_from (response_length + 2) response_text response_length (some 0)

-- RegKeyReadValue with what ReadValue gives and the buffer's size.
unfoldable pub reg_key_read_value : Option Bytes → ℕ → Bool × Bytes
reg_key_read_value none value_size = (false, [])
reg_key_read_value (some value_string) value_size =
    if ltb value_size (length value_string)
    then (false, [])
    else (true, take (value_size - 1) value_string)

module _ {R : Type 0} (key : MachineKey R) where
  -- MachineDealCode::Get; the buffer is `none` for NULL, or its size.
  unfoldable pub deal_code_get : R → Option ℕ → Bool × Bytes
  deal_code_get r none = (false, [])
  deal_code_get r (some dcc_size) =
      if not (key.locks r)
      then (false, [])
      else if leb dcc_size 0
      then (false, [])
      else if not (key.opens_read r)
      then (false, [])
      else reg_key_read_value (key.read_value r) dcc_size

  unfoldable pub deal_code_clear : R → Bool × R
  deal_code_clear r =
      let r' = key.delete_value r in
      if not (key.opens_write r)
      then (false, r)
      else (not (key.reads_raw r' (max_dcc_length + 1)), r')

  as_cgi : Bool × Bytes → Bool × Bytes
  as_cgi (false, dcc) = (false, [])
  as_cgi (true, dcc) = (true, bytes "dcc=" ++ dcc)

  unfoldable pub get_as_cgi : R → Option ℕ → Bool × Bytes
  unfolding as_cgi
  get_as_cgi r none = (false, [])
  get_as_cgi r (some cgi_size) =
      if leb cgi_size 0
      then (false, [])
      else if leb cgi_size 4
      then (false, [])
      else as_cgi (deal_code_get r (some (cgi_size - 4)))

module _ {R : Type 0} (base : Base) (key : MachineKey R) where
  unfoldable pub deal_code_set : R → Bytes → Bool × R
  deal_code_set r dcc =
      if not (key.locks r)
      then (false, r)
      else if ltb max_dcc_length (length dcc)
      then (false, r)
      else if not (key.opens_write r)
      then (false, r)
      else key.write_value r (normalize_dcc base dcc)

-- old_dcc_confirmed, and the new code once *has_new_dcc.
abbrev pub Scan : Type 0
Scan = Bool × Option Bytes

abbrev has_code : Option Bytes → Bool
has_code none = false
has_code (some dcc) = true

module _ (base : Base) where
  -- One line; `none` where the code returns false at once.
  dcc_line : Bytes → Scan → Bytes → Option Scan
  dcc_line stored_dcc (old_dcc_confirmed, new_dcc) line =
      let old = get_response_value base line (bytes "dcc") in
      let new = get_response_value base line (bytes "set_dcc") in
      if not old_dcc_confirmed && old.0
      then (if not (bytes_eq old.1 stored_dcc) then none else some (true, new_dcc))
      else if not (has_code new_dcc) && new.0
      then (if ltb max_dcc_length (length new.1)
          then some (old_dcc_confirmed, new_dcc)
          else some (old_dcc_confirmed, some new.1))
      else some (old_dcc_confirmed, new_dcc)

  -- The loop: old_dcc_confirmed at its end (`none` where it returns), and the new code.
  unfoldable pub dcc_loop : Bytes → Scan → List Bytes → Option Bool × Option Bytes
  unfolding dcc_line
  dcc_loop stored_dcc (old_dcc_confirmed, new_dcc) [] = (some old_dcc_confirmed, new_dcc)
  dcc_loop stored_dcc (old_dcc_confirmed, new_dcc) (line ∷ rest) =
      elim (dcc_line stored_dcc (old_dcc_confirmed, new_dcc) line) [
        | none ↦ (none, new_dcc)
        | some scan ↦ dcc_loop stored_dcc scan rest
      ]

pub record NewCode : Type 0 where
  pub ok : Bool
  pub has_new_dcc : Bool
  pub new_dcc : Bytes

-- strlcpy of the new code into a buffer.
copy_code : ℕ → Option Bytes → Bytes
copy_code size none = []
copy_code size (some dcc) = take (size - 1) dcc

-- What stands in stored_dcc.
abbrev pub stored_text : Bool × Bytes → Bytes
stored_text (false, dcc) = []
stored_text (true, dcc) = dcc

-- From the end of the loop to the result.
new_code : Bytes → ℕ → Option Bool × Option Bytes → NewCode
unfolding copy_code
new_code stored_dcc size (none, new_dcc) = record {
  ok = false;
  has_new_dcc = has_code new_dcc;
  new_dcc = [];
}
new_code stored_dcc size (some old_dcc_confirmed, new_dcc) = record {
  ok = old_dcc_confirmed || is_empty stored_dcc;
  has_new_dcc = has_code new_dcc;
  new_dcc = copy_code size new_dcc;
}

module _ {R : Type 0} (base : Base) (key : MachineKey R) where
  scan_response : R → Bytes → ℕ → Bool × Option ℕ → NewCode
  unfolding new_code
  scan_response r response size (true, some response_length) =
      let stored_dcc = stored_text (deal_code_get key r (some (max_dcc_length + 1))) in
      new_code stored_dcc size
        (dcc_loop base stored_dcc (false, none) (response_lines response response_length))
  scan_response r response size (true, none) =
      new_code (stored_text (deal_code_get key r (some (max_dcc_length + 1)))) size
        (some false, none)
  scan_response r response size (false, index) = record {
    ok = false;
    has_new_dcc = false;
    new_dcc = [];
  }

  -- With a has_new_dcc and a new_dcc that are not NULL, *has_new_dcc being false before the call.
  unfoldable pub get_new_code_from_ping_response : R → Bytes → ℕ → NewCode
  unfolding scan_response
  get_new_code_from_ping_response r response new_dcc_size =
      if new_dcc_size == 0
      then record { ok = false; has_new_dcc = false; new_dcc = [] }
      else scan_response r response new_dcc_size (is_ping_response_valid base (some response))

  unfoldable pub set_from_ping_response : R → Bytes → Bool × R
  set_from_ping_response r response =
      let c = get_new_code_from_ping_response r response (max_dcc_length + 1) in
      if c.ok && c.has_new_dcc then deal_code_set base key r c.new_dcc else (c.ok, r)
