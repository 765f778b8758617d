-- ===== src/PingServer/Chrome.antt =====
-- FinancialPing::PingServer of lib/financial_ping.cc over Chrome's network stack, and SetURLRequestContext.
-- The fetcher and the message loop are parameters over a state `N`; a context is of the type `C`.
pub mod Laws
use rlz.Prelude.{
  ℕ, zero, suc, ◌≤◌, ◌≡◌, Bool, true, false, List, [], ◌∷◌, ◌++◌, Option, none, some, Bytes, bytes,
  ◌==◌, if◌then◌else◌, arith,
}
use rlz.LibValues.{financial_server, financial_port}
use rlz.ValueStore.{RlzValueStore}

pub data LoadFlag : Type 0 where
  load_disable_cache load_do_not_send_auth_data load_do_not_prompt_for_login
        load_do_not_send_cookies load_do_not_save_cookies :
      LoadFlag

-- What the message loop calls next: the delegate's OnURLFetchComplete, the closure that quits, or another task.
pub data Event : Type 0 where
  url_fetch_complete quit_closure other_task : Event

pub record ChromeNet (N C : Type 0) : Type 0 where
  -- MessageLoop loop
  pub message_loop : N → N
  -- URLFetcher::Create with a URL, for GET, and the delegate of the loop
  pub create_fetcher : N → Bytes → N
  pub set_load_flags : N → List LoadFlag → N
  pub set_request_context : N → C → N
  -- PostTask with the fetcher's Start, and PostNonNestableDelayedTask with the closure that quits and a delay in minutes
  pub post_start : N → N
  pub post_delayed_quit : N → ℕ → N
  pub next_event : N → Event × N
  pub response_code : N → ℕ
  -- `none` for the result false
  pub response_as_string : N → Option Bytes
  -- "%d" of StringPrintf
  pub print_int : ℕ → Bytes

-- How the call ends: a failed CHECK, a loop that does not quit within the fuel, or the result and *response.
pub data Outcome : Type 0 where
  crashed stuck : Outcome
  returned : (result : Bool) (response : Bytes) → Outcome

-- g_context; `none` for NULL.
unfoldable pub set_url_request_context :
    {S C : Type 0} → RlzValueStore S → S → Option C → Option C → Bool × Option C
set_url_request_context store s g_context context =
    if store.get_store s then (true, context) else (false, g_context)

-- Both OnURLFetchComplete and the closure call Quit.
abbrev quits : Event → Bool
quits url_fetch_complete = true
quits quit_closure = true
quits other_task = false

abbrev load_flags : List LoadFlag
load_flags =
    load_disable_cache ∷ load_do_not_send_auth_data ∷ load_do_not_prompt_for_login
    ∷ load_do_not_send_cookies ∷ load_do_not_save_cookies ∷ []

-- In minutes.
abbrev pub timeout : ℕ
timeout = 5

module _ {N C : Type 0} (net : ChromeNet N C) where
  -- loop.Run
  run_loop : ℕ → N → Option N
  run_loop zero n = none
  run_loop (suc fuel) n =
      let (event, n') = net.next_event n in
      let rest = run_loop fuel n' in if quits event then some n' else rest

  answer_of : Option Bytes → Outcome
  answer_of none = returned false []
  answer_of (some response) = returned true response

  -- From loop.Run on.
  after_loop : Option N → Outcome
  unfolding answer_of
  after_loop none = stuck
  after_loop (some n) =
      if net.response_code n == 200 then answer_of (net.response_as_string n) else returned false []

  url_of : Bytes → Bytes
  url_of request =
      bytes "http://"
      ++ (financial_server ++ (bytes ":" ++ (net.print_int financial_port ++ request)))

  -- The loop with its two tasks, as it starts.
  pub posted : N → C → Bytes → N
  unfolding url_of
  posted n context request =
      let fetcher = net.create_fetcher (net.message_loop n) (url_of request) in
      let ready = net.set_request_context (net.set_load_flags fetcher load_flags) context in
      net.post_delayed_quit (net.post_start ready) timeout

  pub ping_server : ℕ → N → Option C → Bytes → Outcome
  unfolding after_loop run_loop posted
  ping_server fuel n none request = crashed
  ping_server fuel n (some context) request = after_loop (run_loop fuel (posted n context request))
