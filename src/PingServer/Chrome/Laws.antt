-- ===== src/PingServer/Chrome/Laws.antt =====
-- PingServer of lib/financial_ping.cc over Chrome's network stack ends and gives the answer.
use rlz.Prelude.{
  ℕ, zero, suc, ◌<◌, ◌≤◌, ◌≡◌, refl, Bool, true, false, Bool-cases, List, [], ◌∷◌, ◌++◌, Option,
  none, some, inl, inr, Bytes, bytes, ◌==◌, arith,
}
use rlz.ValueStore.{RlzValueStore}
use rlz.PingServer.Chrome.{
  ChromeNet, LoadFlag, load_disable_cache, load_do_not_send_auth_data, load_do_not_prompt_for_login,
  load_do_not_send_cookies, load_do_not_save_cookies, quit_closure, Outcome, returned,
  set_url_request_context, quits, run_loop, answer_of, after_loop, posted, ping_server,
}

-- The calls of the network stack before the loop runs.
pub data Call (C : Type 0) : Type 0 where
  makes_loop : Call C
  creates_fetcher : (url : Bytes) → Call C
  sets_flags : (flags : List LoadFlag) → Call C
  sets_context : (context : C) → Call C
  posts_start : Call C
  posts_quit : (minutes : ℕ) → Call C

module _ {N C : Type 0} (net : ChromeNet N C) where
  abbrev pub make_call : Call C → N → N
  make_call makes_loop n = net.message_loop n
  make_call (creates_fetcher url) n = net.create_fetcher n url
  make_call (sets_flags flags) n = net.set_load_flags n flags
  make_call (sets_context context) n = net.set_request_context n context
  make_call posts_start n = net.post_start n
  make_call (posts_quit minutes) n = net.post_delayed_quit n minutes

  abbrev pub make_calls : List (Call C) → N → N
  make_calls [] n = n
  make_calls (call ∷ calls) n = make_calls calls (make_call call n)

  -- What a ping asks of the network, with no cache, cookies, login or authentication.
  abbrev pub ping_calls : C → Bytes → List (Call C)
  ping_calls context request =
      makes_loop
      ∷ creates_fetcher (bytes "http://clients1.google.com:" ++ (net.print_int 80 ++ request))
      ∷ sets_flags (
          load_disable_cache ∷ load_do_not_send_auth_data ∷ load_do_not_prompt_for_login
          ∷ load_do_not_send_cookies ∷ load_do_not_save_cookies ∷ [])
      ∷ sets_context context
      ∷ posts_start
      ∷ posts_quit 5
      ∷ []

  -- The state after some events.
  abbrev pub after_events : ℕ → N → N
  after_events zero n = n
  after_events (suc k) n = after_events k (net.next_event n).1

  -- A loop that has the delayed task calls it at some point, if it runs that long.
  abbrev pub Timed : Type 0
  Timed =
      (n : N) (minutes : ℕ)
      → (k : ℕ) × ((net.next_event (after_events k (net.post_delayed_quit n minutes))).0
          ≡ quit_closure)

  -- The result and the text for the state in which the loop quit.
  abbrev pub Answers : N → Bool → Bytes → Type 0
  Answers n result response =
      (result ≡ true → (net.response_code n ≡ 200) × (net.response_as_string n ≡ some response))
      × ((text : Bytes)
          → net.response_code n ≡ 200
          → net.response_as_string n ≡ some text
          → result ≡ true)
      × (result ≡ false → response ≡ [])

  -- The loop that runs from `n` quits with its event number `j`, counted from 0, and not before.
  abbrev pub QuitsAt : N → ℕ → Type 0
  QuitsAt n j =
      (quits (net.next_event (after_events j n)).0 ≡ true)
      × ((i : ℕ) → i < j → quits (net.next_event (after_events i n)).0 ≡ false)

  -- A call that returns with the answer of the state in which the loop that ran from `n` has quit, after
  -- at most `k` events and that one.
  abbrev pub Returns : N → ℕ → Outcome → Type 0
  Returns n k outcome =
      (j : ℕ) × (j ≤ k)
      × QuitsAt n j
      × ((result : Bool) × (response : Bytes) × (outcome ≡ returned result response)
          × Answers (net.next_event (after_events j n)).1 result response)

  quits_later :
      (n : N) (j : ℕ)
      → quits (net.next_event n).0 ≡ false
      → QuitsAt (net.next_event n).1 j
      → QuitsAt n (suc j)
  quits_later n j later (here, before) = (here, earlier)
    where
      earlier : (i : ℕ) → i < suc j → quits (net.next_event (after_events i n)).0 ≡ false
      earlier zero small = later
      earlier (suc i) small = before i (omega arith)

  run_loop-quits :
      (k fuel : ℕ) (n : N)
      → (net.next_event (after_events k n)).0 ≡ quit_closure
      → k < fuel
      → (j : ℕ) × (j ≤ k)
        × QuitsAt n j
        × (run_loop net fuel n ≡ some (net.next_event (after_events j n)).1)
  unfolding run_loop
  run_loop-quits k zero n quit enough = absurd (omega arith)
  run_loop-quits zero (suc fuel) n quit enough =
      (0, omega arith, (rw quit refl, λ i small. absurd (omega arith)), rw quit refl)
  run_loop-quits (suc k) (suc fuel) n quit enough = elim (Bool-cases (quits (net.next_event n).0)) [
    | inl now ↦ (0, omega arith, (now, λ i small. absurd (omega arith)), rw now refl)
    | inr later ↦
        let (j, near, ends, here) = run_loop-quits k fuel (net.next_event n).1 quit (omega arith) in
        (suc j, omega arith, quits_later n j later ends, rw later here)
  ]

  -- An outcome that is the answer of the state `m`.
  abbrev AnswerOf : N → Outcome → Type 0
  AnswerOf m outcome =
      (result : Bool) × (response : Bytes) × (outcome ≡ returned result response)
      × Answers m result response

  answer_of-AnswerOf :
      (m : N) (string : Option Bytes)
      → net.response_as_string m ≡ string
      → net.response_code m ≡ 200
      → AnswerOf m (answer_of net string)
  unfolding answer_of
  answer_of-AnswerOf m none got ok = (
    false,
    [],
    refl,
    (
      (λ e. absurd (ground arith)),
      (λ text fine has. absurd (ground (arith, got, has))),
      (λ _. refl),
    ),
  )
  answer_of-AnswerOf m (some response) got ok = (
    true,
    response,
    refl,
    ((λ _. (ok, got)), (λ text fine has. refl), (λ e. absurd (ground arith))),
  )

  after_loop-AnswerOf : (m : N) → AnswerOf m (after_loop net (some m))
  unfolding after_loop
  after_loop-AnswerOf m = elim (Bool-cases (net.response_code m == 200)) [
    | inl ok ↦ rw ok (answer_of-AnswerOf m _ refl (ground arith))
    | inr bad ↦ rw bad (
      false,
      [],
      refl,
      (
        (λ e. absurd (ground arith)),
        (λ text fine has. absurd (ground (arith, bad, fine))),
        (λ _. refl),
      ),
    )
  ]

-- Where SetURLRequestContext got the lock, with a context that is not NULL, and a message loop calls the
-- delayed task at some point, if it runs that long: PingServer fails no CHECK, and makes the calls of
-- `ping_calls` in their order, with that context, before it runs the loop. There is a number k of events such
-- that, with more fuel than that, it returns: the loop from there quits with the first event that quits, which
-- has at most k before it, and in the state after that event the result is true with the text of the answer just where
-- the status code is 200 and there is a text, and else false with no text.
pub ping_server-Returns :
    {N C S : Type 0} (net : ChromeNet N C) (store : RlzValueStore S) (s : S) (g_context : Option C)
    (context : C)
    → Timed net
    → store.get_store s ≡ true
    → (n : N) (request : Bytes)
    → (k : ℕ) × ((fuel : ℕ)
        → k < fuel
        → Returns net (make_calls net (ping_calls net context request) n) k (
            ping_server net fuel n
              (set_url_request_context store s g_context (some context)).1
              request))
unfolding ping_server posted set_url_request_context
ping_server-Returns net store s g_context context timed open_store n request =
    let (k, quit) = timed _ _ in
    (
      k,
      λ fuel enough.
          let (j, near, ends, here) =
            run_loop-quits net k fuel (posted net n context request) quit enough in
          (j, near, ends, rw (open_store, here) (after_loop-AnswerOf net _)),
    )
