-- ===== src/Tests/Pings.antt =====
-- Examples for the pings of lib/rlz_lib.cc and lib/financial_ping.cc over a store in memory.
use rlz.Prelude.{
  ◌+◌, ◌≡◌, refl, true, false, ◌&&◌, [], ◌∷◌, ◌++◌, Option, none, some, Bytes, bytes, find, split,
  length, arith,
}
use rlz.Enums.{ie_default_search, no_access_point, toolbar_notifier}
use rlz.Base.Sample.{sample}
use rlz.ValueStore.{can, read_access, write_access}
use rlz.ValueStore.Memory.{Memory, memory, memory-StoreLaws}
use rlz.Platform.{Platform}
use rlz.Crc32.{crc32_text}
use rlz.StringUtils.{is_ascii, hex_string_to_integer}
use rlz.RlzLib.Response.{is_ping_response_valid, line_or_skip, parse_ping_response}
use rlz.RlzLib.Response.Lines.{parse_ping_response-each_line}
use rlz.RlzLib.Ping.{
  form_financial_ping_request, ping_financial_server, parse_financial_ping_response,
  send_financial_ping,
}
use rlz.RlzLib.Ping.Steps.{three_steps}
use rlz.FinancialPing.{Request, form_request, is_ping_time, update_last_ping_time}
use rlz.FinancialPing.Times.{is_due, is_ping_time_schedule, is_ping_time-update_last_ping_time}
use rlz.Tests.Stores.{empty_store}
use rlz.Tests.Responses.{answer_text}

-- A machine outside Windows whose clock stands at 1000, and the server's answer.
abbrev machine : Option Bytes → Platform Memory
machine answer = record {
  os_win = false;
  now = λ s. 1000;
  brand = λ s. [];
  machine_id = λ s. some (bytes "ID");
  ping_server = λ s request. answer;
  get_machine_deal_code = λ s size. (false, []);
  set_machine_deal_code_from_ping_response = λ s response. (false, s);
}

abbrev silent : Platform Memory
silent = machine none

abbrev answering : Platform Memory
answering = machine (some answer_text)

empty_readable : can memory empty_store read_access ≡ true
unfolding memory
empty_readable = refl

empty_writable : can memory empty_store write_access ≡ true
unfolding memory
empty_writable = refl

-- A store whose last ping was at time 5.
abbrev pinged_store : Memory
pinged_store = record empty_store { ping_times = λ p. some 5 }

pinged_readable : can memory pinged_store read_access ≡ true
unfolding memory
pinged_readable = refl

pinged_time : memory.read_ping_time pinged_store toolbar_notifier ≡ some 5
unfolding memory
pinged_time = refl

is_ping_time_schedule_example :
    is_ping_time memory silent pinged_store toolbar_notifier true
    ≡ is_due memory silent pinged_store toolbar_notifier true 5
is_ping_time_schedule_example =
    is_ping_time_schedule memory silent pinged_store toolbar_notifier true 5 pinged_readable
      pinged_time (omega arith) (omega arith)

abbrev updated_store : Memory
updated_store = (update_last_ping_time memory silent empty_store toolbar_notifier).1

updated : update_last_ping_time memory silent empty_store toolbar_notifier ≡ (true, updated_store)
unfolding update_last_ping_time memory
updated = refl

updated_readable : can memory updated_store read_access ≡ true
unfolding update_last_ping_time memory
updated_readable = refl

is_ping_time-update_last_ping_time_example :
    is_ping_time memory silent updated_store toolbar_notifier false ≡ false
is_ping_time-update_last_ping_time_example =
    is_ping_time-update_last_ping_time memory silent memory-StoreLaws empty_store updated_store
      updated_store toolbar_notifier updated refl updated_readable (omega arith) (omega arith)
      (omega arith)

answer_valid : is_ping_response_valid sample (some answer_text) ≡ (true, some 1)
unfolding is_ping_response_valid find crc32_text is_ascii hex_string_to_integer sample
answer_valid = refl

answer_lines : split 10 answer_text ≡ (bytes "x" ∷ []) ++ bytes "crc32: 82" ∷ []
unfolding split
answer_lines = refl

parse_ping_response-each_line_example :
    parse_ping_response sample memory silent empty_store toolbar_notifier answer_text ≡ (
      true,
      line_or_skip sample memory
          (line_or_skip sample memory empty_store toolbar_notifier (bytes "x"))
          toolbar_notifier
          [],
    )
parse_ping_response-each_line_example =
    parse_ping_response-each_line sample memory silent empty_store toolbar_notifier answer_text
      (bytes "crc32: 82") (bytes "x" ∷ []) 0 empty_writable refl answer_valid answer_lines

abbrev request : Request
request = record {
  access_points = some (ie_default_search ∷ no_access_point ∷ []);
  product_signature = some (bytes "sig");
  product_brand = none;
  product_id = none;
  product_lang = some (bytes "en");
  exclude_machine_id = true;
}

abbrev request_text : Bytes
request_text = (form_request memory silent empty_store toolbar_notifier request).1

request_formed :
    form_request memory silent empty_store toolbar_notifier request ≡ (true, request_text)
unfolding form_request memory
request_formed = refl

request_formed' :
    form_request memory answering empty_store toolbar_notifier request
    ≡ (true, (form_request memory answering empty_store toolbar_notifier request).1)
unfolding form_request memory
request_formed' = refl

-- With no ping time stored, it is time.
first_ping : is_ping_time memory silent empty_store toolbar_notifier false ≡ true
unfolding is_ping_time memory
first_ping = refl

first_ping' : is_ping_time memory answering empty_store toolbar_notifier false ≡ true
unfolding is_ping_time memory
first_ping' = refl

updated' :
    update_last_ping_time memory answering empty_store toolbar_notifier ≡ (true, updated_store)
unfolding update_last_ping_time memory
updated' = refl

locked :
    (form_request memory silent
        (record empty_store { locked_out = true })
        toolbar_notifier
        request).0
      && is_ping_time memory silent
          (record empty_store { locked_out = true })
          toolbar_notifier
          false
    ≡ false
unfolding form_request memory
locked = refl

abbrev answered_request : Bytes
answered_request = (form_request memory answering empty_store toolbar_notifier request).1

three_steps_example :
    (form_financial_ping_request memory answering empty_store toolbar_notifier request
        (some (length answered_request + 1))
      ≡ (true, answered_request))
    × (ping_financial_server memory answering empty_store toolbar_notifier answered_request
          (some 4096)
        ≡ (true, answer_text))
    × (parse_financial_ping_response sample memory answering empty_store toolbar_notifier
          answer_text
        ≡ send_financial_ping sample memory answering empty_store toolbar_notifier request false)
three_steps_example =
    three_steps sample memory answering empty_store toolbar_notifier request answered_request
      answer_text (length answered_request + 1) 4096 request_formed' first_ping' refl refl
      (omega arith) (omega arith)
