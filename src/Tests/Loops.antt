-- ===== src/Tests/Loops.antt =====
-- Examples for PingServer of lib/financial_ping.cc over Chrome's network stack.
use rlz.Prelude.{ℕ, zero, suc, ◌<◌, ◌≡◌, refl, none, some, bytes}
use rlz.ValueStore.Memory.{memory}
use rlz.Tests.Stores.{empty_store}
use rlz.PingServer.Chrome.{
  ChromeNet, Event, other_task, quit_closure, url_fetch_complete, set_url_request_context,
  ping_server,
}
use rlz.PingServer.Chrome.Laws.{
  after_events, Timed, Returns, make_calls, ping_calls, ping_server-Returns,
}

-- Counts down to the delayed task; the answer comes two events before it.
abbrev answering_event : ℕ → Event × ℕ
answering_event zero = (quit_closure, zero)
answering_event (suc zero) = (other_task, zero)
answering_event (suc (suc zero)) = (url_fetch_complete, 1)
answering_event (suc (suc (suc n))) = (other_task, suc (suc n))

abbrev answering : ChromeNet ℕ ℕ
answering = record {
  message_loop = λ n. n;
  create_fetcher = λ n url. n;
  set_load_flags = λ n flags. n;
  set_request_context = λ n context. n;
  post_start = λ n. n;
  post_delayed_quit = λ n minutes. minutes;
  next_event = answering_event;
  response_code = λ n. 200;
  response_as_string = λ n. some (bytes "rlz: 0");
  print_int = λ n. bytes "80";
}

counts_down : (n : ℕ) → (answering_event (after_events answering n n)).0 ≡ quit_closure
counts_down zero = refl
counts_down (suc zero) = refl
counts_down (suc (suc zero)) = refl
counts_down (suc (suc (suc n))) = counts_down (suc (suc n))

answering_Timed : Timed answering
answering_Timed n minutes = (minutes, counts_down minutes)

ping_server-Returns_example :
    (k : ℕ) × ((fuel : ℕ)
      → k < fuel
      → Returns answering (make_calls answering (ping_calls answering 7 (bytes "/ping")) 0) k (
          ping_server answering fuel 0
            (set_url_request_context memory empty_store none (some 7)).1
            (bytes "/ping")))
unfolding memory
ping_server-Returns_example =
    ping_server-Returns answering memory empty_store none 7 answering_Timed refl 0 (bytes "/ping")
