-- ===== src/RlzLib/Ping.antt =====
-- lib/rlz_lib.cc: the functions that form, send and parse a financial ping.
pub mod Laws
pub mod Steps
use rlz.Prelude.{
  ℕ, Bool, true, false, not, [], Option, none, some, Bytes, length, leb, if◌then◌else◌,
}
use rlz.Enums.{Product}
use rlz.Base.{Base}
use rlz.ValueStore.{RlzValueStore}
use rlz.Platform.{Platform}
use rlz.FinancialPing.{Request, form_request, is_ping_time, update_last_ping_time}
use rlz.RlzLib.Response.{parse_ping_response}

-- A std::string into a buffer of `size` bytes, where it fits with its NUL.
abbrev copy_out : Bool × Bytes → ℕ → Bool × Bytes
copy_out (false, text) size = (false, [])
copy_out (true, text) size = if leb size (length text) then (false, []) else (true, text)

abbrev pub response_of : Option Bytes → Bool × Bytes
response_of none = (false, [])
response_of (some response) = (true, response)

module _ {S : Type 0} (store : RlzValueStore S) (platform : Platform S) where
  unfoldable pub form_financial_ping_request : S → Product → Request → Option ℕ → Bool × Bytes
  form_financial_ping_request s product r none = (false, [])
  form_financial_ping_request s product r (some request_buffer_size) =
      if leb request_buffer_size 0
      then (false, [])
      else copy_out (form_request store platform s product r) request_buffer_size

  unfoldable pub ping_financial_server : S → Product → Bytes → Option ℕ → Bool × Bytes
  ping_financial_server s product request none = (false, [])
  ping_financial_server s product request (some response_buffer_size) =
      if leb response_buffer_size 0
      then (false, [])
      else if not (is_ping_time store platform s product false)
      then (false, [])
      else copy_out (response_of (platform.ping_server s request)) response_buffer_size

module _ {S : Type 0} (base : Base) (store : RlzValueStore S) (platform : Platform S) where
  unfoldable pub parse_financial_ping_response : S → Product → Bytes → Bool × S
  parse_financial_ping_response s product response =
      parse_ping_response base store platform (update_last_ping_time store platform s product).1
        product response

  parse_answer : S → Product → Option Bytes → Bool × S
  parse_answer s product none = (false, s)
  parse_answer s product (some response) =
      parse_ping_response base store platform s product response

  send_formed : S → Product → Bool → Bool × Bytes → Bool × S
  unfolding parse_answer
  send_formed s product skip_time_check (false, request) = (false, s)
  send_formed s product skip_time_check (true, request) =
      if not (is_ping_time store platform s product skip_time_check)
      then (false, s)
      else let s' = (update_last_ping_time store platform s product).1 in
        parse_answer s' product (platform.ping_server s' request)

  -- The overload with the time check as an argument; the other one passes false.
  unfoldable pub send_financial_ping : S → Product → Request → Bool → Bool × S
  unfolding send_formed
  send_financial_ping s product r skip_time_check =
      send_formed s product skip_time_check (form_request store platform s product r)
