-- ===== src/PingServer/Handles.antt =====
-- The handles of PingServer of lib/financial_ping.cc, which are closed on every way out.
use rlz.Prelude.{
  ℕ, zero, suc, ◌≡◌, refl, ◌∙◌, Bool, true, false, not, List, [], ◌∷◌, ◌++◌, Option, none, some,
  Bytes, bytes, if◌then◌else◌, arith,
}
use rlz.LibValues.{
  financial_server, financial_port, financial_ping_user_agent, financial_ping_response_objects,
}
use rlz.RlzLib.Response.{max_ping_response_length}
use rlz.PingServer.{
  Internet, Handle, inet_handle, connection_handle, http_handle, Answer, read_loop, close_after,
  send_and_read, with_connection, with_inet, ping_server,
}

-- The handles that are open, the last one first: a call that succeeds opens one, and the one opened last
-- can be closed.
pub record HandleLaws {N : Type 0} (net : Internet N) : Type 0 where
  pub handles : N → List Handle
  pub opens :
      (n : N) (agent : Bytes)
      → handles (net.internet_open n agent).1
        ≡ (if (net.internet_open n agent).0 then inet_handle ∷ handles n else handles n)
  pub connects :
      (n : N) (server : Bytes) (port : ℕ)
      → handles (net.internet_connect n server port).1 ≡ (
          if (net.internet_connect n server port).0
          then connection_handle ∷ handles n
          else handles n)
  pub asks :
      (n : N) (verb object : Bytes) (types : List Bytes)
      → handles (net.http_open_request n verb object types).1 ≡ (
          if (net.http_open_request n verb object types).0
          then http_handle ∷ handles n
          else handles n)
  pub sends : (n : N) → handles (net.http_send_request n).1 ≡ handles n
  pub reads : (n : N) (size : ℕ) → handles (net.internet_read_file n size).1 ≡ handles n
  pub closes :
      (n : N) (handle : Handle) (rest : List Handle)
      → handles n ≡ handle ∷ rest
      → handles (net.internet_close_handle n handle) ≡ rest

module _ {N : Type 0} (net : Internet N) (laws : HandleLaws net) where
  open laws use {handles}

  -- What the loop does with a read.
  after_read :
      (fuel : ℕ) (n : N) (response : Bytes) (bytes_read : Option Bytes)
      → ((longer : Bytes) → handles (read_loop net fuel n longer).1 ≡ handles n)
      → handles
          (elim bytes_read as (λ _. Answer × N) [
            | none ↦ (some (true, response), n)
            | some [] ↦ (some (true, response), n)
            | some (b ∷ buffer) ↦ read_loop net fuel n (response ++ (b ∷ buffer))
          ]).1
        ≡ handles n
  after_read fuel n response none later = refl
  after_read fuel n response (some []) later = refl
  after_read fuel n response (some (b ∷ buffer)) later = later (response ++ (b ∷ buffer))

  read_loop-handles :
      (fuel : ℕ) (n : N) (response : Bytes) → handles (read_loop net fuel n response).1 ≡ handles n
  unfolding read_loop
  read_loop-handles zero n response = refl
  read_loop-handles (suc fuel) n response =
      let (bytes_read, n') = net.internet_read_file n max_ping_response_length in
      after_read fuel n' response bytes_read (λ longer. read_loop-handles fuel n' longer)
      ∙ laws.reads n max_ping_response_length

  send-handles : (fuel : ℕ) (n : N) → handles (send_and_read net fuel n).1 ≡ handles n
  unfolding send_and_read
  send-handles fuel n =
      ground (arith, laws.sends n, read_loop-handles fuel (net.http_send_request n).1 [])

  -- A handle that is closed after what is done with it.
  scope-handles :
      (handle : Handle) (n : N) (opened : Bool × N) (inner : N → Answer × N)
      → handles opened.1 ≡ (if opened.0 then handle ∷ handles n else handles n)
      → ((m : N) → handles (inner m).1 ≡ handles m)
      → handles
          (if not opened.0
            then (some (false, []), opened.1)
            else close_after net handle (inner opened.1)).1
        ≡ handles n
  unfolding close_after
  scope-handles handle n (false, n') inner h keeps = h
  scope-handles handle n (true, n') inner h keeps =
      laws.closes (inner n').1 handle (handles n) (keeps n' ∙ h)

  connection-handles :
      (fuel : ℕ) (n : N) (request : Bytes)
      → handles (with_connection net fuel n request).1 ≡ handles n
  unfolding with_connection
  connection-handles fuel n request =
      scope-handles http_handle n
        (net.http_open_request n (bytes "GET") request financial_ping_response_objects)
        (λ m. send_and_read net fuel m)
        (laws.asks n (bytes "GET") request financial_ping_response_objects)
        (λ m. send-handles fuel m)

  inet-handles :
      (fuel : ℕ) (n : N) (request : Bytes) → handles (with_inet net fuel n request).1 ≡ handles n
  unfolding with_inet
  inet-handles fuel n request =
      scope-handles connection_handle n (net.internet_connect n financial_server financial_port)
        (λ m. with_connection net fuel m request) (laws.connects n financial_server financial_port)
        (λ m. connection-handles fuel m request)

-- For WinInet as it is documented: PingServer closes every handle that it opened, and no other, whatever
-- fails on the way and however the reads end.
pub ping_server-handles :
    {N : Type 0} (net : Internet N) (laws : HandleLaws net) (fuel : ℕ) (n : N) (request : Bytes)
    → laws.handles (ping_server net fuel n request).1 ≡ laws.handles n
unfolding ping_server
ping_server-handles net laws fuel n request =
    scope-handles net laws inet_handle n (net.internet_open n financial_ping_user_agent)
      (λ m. with_inet net fuel m request) (laws.opens n financial_ping_user_agent)
      (λ m. inet-handles net laws fuel m request)
