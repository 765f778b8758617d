-- ===== src/Tests/Responses.antt =====
-- Examples for the responses and the CGI text of lib/rlz_lib.cc over a store in memory.
use rlz.Prelude.{◌≡◌, ◌≤◌, refl, true, false, [], ◌∷◌, ◌++◌, none, some, Bytes, bytes, find, arith}
use rlz.Enums.{toolbar_notifier}
use rlz.LibValues.{get_access_point_name, get_event_name}
use rlz.Base.Sample.{sample, sample-BaseLaws}
use rlz.ValueStore.{can, read_access}
use rlz.ValueStore.Memory.{memory}
use rlz.Crc32.{crc32_text, crc32_buffer}
use rlz.StringUtils.{is_ascii, hex_string_to_integer}
use rlz.RlzLib.Events.{event_value, record_product_event}
use rlz.RlzLib.EventsCgi.{get_product_events_as_cgi}
use rlz.RlzLib.EventsCgi.Bounds.{
  cgi_of, get_product_events_as_cgi_fits, get_product_events_as_cgi_overrun,
}
use rlz.RlzLib.Response.{is_ping_response_valid}
use rlz.RlzLib.Response.Checksum.{is_ping_response_valid-pairs}
use rlz.Tests.Stores.{recorded_store}

-- A response of one line of message; 0x82 is the sum that `sample` computes.
abbrev one_line : Bytes
one_line = b'x' ∷ 10 ∷ []

abbrev pub answer_text : Bytes
answer_text = bytes "x" ++ (10 ∷ bytes "crc32: 82")

is_ping_response_valid-pairs_example :
    is_ping_response_valid sample (some answer_text) ≡ (true, some 1)
unfolding find crc32_buffer is_ascii sample
is_ping_response_valid-pairs_example =
    is_ping_response_valid-pairs sample sample-BaseLaws one_line (0x82 ∷ []) 1 none refl
      (omega arith, tt) refl refl refl (omega arith)

wrong_sum :
    is_ping_response_valid sample (some (bytes "x" ++ (10 ∷ bytes "crc32: 83"))) ≡ (false, some 1)
unfolding is_ping_response_valid find crc32_text is_ascii hex_string_to_integer sample
wrong_sum = refl

recorded_readable : can memory recorded_store read_access ≡ true
unfolding record_product_event event_value get_access_point_name get_event_name memory
recorded_readable = refl

recorded_list : memory.read_product_events recorded_store toolbar_notifier ≡ some (bytes "I7S" ∷ [])
unfolding record_product_event event_value get_access_point_name get_event_name memory
recorded_list = refl

get_product_events_as_cgi_fits_example :
    let c = get_product_events_as_cgi memory recorded_store toolbar_notifier (some 20) in
    (c.ok ≡ true) × (c.text ≡ cgi_of (bytes "I7S" ∷ [])) × (c.top ≤ 20)
get_product_events_as_cgi_fits_example =
    get_product_events_as_cgi_fits memory recorded_store toolbar_notifier 20 (bytes "I7S") []
      recorded_readable recorded_list (omega arith) (omega arith)

get_product_events_as_cgi_overrun_example :
    (get_product_events_as_cgi memory recorded_store toolbar_notifier (some 10)).top ≡ 11
get_product_events_as_cgi_overrun_example =
    get_product_events_as_cgi_overrun memory recorded_store toolbar_notifier 10 (bytes "I7S") []
      recorded_readable recorded_list (omega arith) (omega arith) (omega arith)
