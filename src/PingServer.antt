-- ===== src/PingServer.antt =====
-- FinancialPing::PingServer of lib/financial_ping.cc over WinInet, which is a parameter over a state `N` of
-- the connection. A handle that goes out of scope is closed, the last one first.
pub mod Laws
pub mod Handles
pub mod Chrome
use rlz.Prelude.{
  ℕ, zero, suc, ◌+◌, Bool, true, false, not, List, [], ◌∷◌, ◌++◌, Option, none, some, Bytes, bytes,
  ◌==◌, if◌then◌else◌,
}
use rlz.LibValues.{
  financial_server, financial_port, financial_ping_user_agent, financial_ping_response_objects,
}
use rlz.RlzLib.Response.{max_ping_response_length}

-- The handles of a call.
pub data Handle : Type 0 where
  inet_handle connection_handle http_handle : Handle

pub record Internet (N : Type 0) : Type 0 where
  -- InternetOpen for a user agent, InternetConnect to a server and a port, and HttpOpenRequest for a verb,
  -- an object and the types to accept; each gives a handle
  pub internet_open : N → Bytes → Bool × N
  pub internet_connect : N → Bytes → ℕ → Bool × N
  pub http_open_request : N → Bytes → Bytes → List Bytes → Bool × N
  pub http_send_request : N → Bool × N
  -- HttpQueryInfo of the status code; `none` for an error
  pub http_query_status : N → Option ℕ
  -- InternetReadFile into a buffer of so many bytes: what it read, `none` for an error
  pub internet_read_file : N → ℕ → Option Bytes × N
  pub internet_close_handle : N → Handle → N

-- What a call gives: the result and *response, `none` where the reads take more steps than the fuel.
abbrev pub Answer : Type 0
Answer = Option (Bool × Bytes)

module _ {N : Type 0} (net : Internet N) where
  -- The loop of the reads, with what was appended to *response.
  pub read_loop : ℕ → N → Bytes → Answer × N
  read_loop zero n response = (none, n)
  read_loop (suc fuel) n response =
      let (bytes_read, n') = net.internet_read_file n max_ping_response_length in
      elim bytes_read [
        | none ↦ (some (true, response), n')
        | some [] ↦ (some (true, response), n')
        | some (b ∷ buffer) ↦ read_loop fuel n' (response ++ (b ∷ buffer))
      ]

  -- What is done with a handle, which is closed then.
  close_after : Handle → Answer × N → Answer × N
  close_after handle (answer, n) = (answer, net.internet_close_handle n handle)

  -- From HttpSendRequest on.
  send_and_read : ℕ → N → Answer × N
  unfolding read_loop
  send_and_read fuel n =
      let (sent, n') = net.http_send_request n in
      if not sent then (some (false, []), n') else elim (net.http_query_status n') [
        | none ↦ (some (false, []), n')
        | some status ↦ if not (status == 200) then (some (false, []), n') else read_loop fuel n' []
      ]

  -- With the connection's handle, and with the first handle.
  with_connection : ℕ → N → Bytes → Answer × N
  unfolding send_and_read close_after
  with_connection fuel n request =
      let (opened, n') =
        net.http_open_request n (bytes "GET") request financial_ping_response_objects in
      if not opened then (some (false, []), n') else close_after http_handle (send_and_read fuel n')

  with_inet : ℕ → N → Bytes → Answer × N
  unfolding with_connection close_after
  with_inet fuel n request =
      let (connected, n') = net.internet_connect n financial_server financial_port in
      if not connected
      then (some (false, []), n')
      else close_after connection_handle (with_connection fuel n' request)

  pub ping_server : ℕ → N → Bytes → Answer × N
  unfolding with_inet close_after
  ping_server fuel n request =
      let (opened, n') = net.internet_open n financial_ping_user_agent in
      if not opened
      then (some (false, []), n')
      else close_after inet_handle (with_inet fuel n' request)
