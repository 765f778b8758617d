-- ===== src/PingServer/Laws.antt =====
-- The reads of PingServer of lib/financial_ping.cc end and give the whole text; its handles are closed.
use mathlib.Core.List.{append_assoc, append-nil}
use rlz.Prelude.{
  ℕ, zero, suc, ◌+◌, ◌<◌, ◌≡◌, sym, ap, ◌∙◌, true, [], ◌∷◌, ◌++◌, some, Bytes, bytes, length,
  length-append, arith,
}
use rlz.LibValues.{
  financial_server, financial_port, financial_ping_user_agent, financial_ping_response_objects,
}
use rlz.RlzLib.Response.{max_ping_response_length}
use rlz.PingServer.{
  Internet, read_loop, close_after, send_and_read, with_connection, with_inet, ping_server,
}

-- Reads that do not fail, and how they use up the text that is still to come: a read that gives nothing
-- stands at the end of the text.
pub record Delivers {N : Type 0} (net : Internet N) : Type 0 where
  pub body : N → Bytes
  pub delivered :
      (n : N) (size : ℕ)
      → (chunk : Bytes) × ((net.internet_read_file n size).0 ≡ some chunk)
        × (body n ≡ chunk ++ body (net.internet_read_file n size).1)
  pub at_end : (n : N) (size : ℕ) → (net.internet_read_file n size).0 ≡ some [] → body n ≡ []

module _ {N : Type 0} (net : Internet N) (delivers : Delivers net) where
  open delivers use {body}

  -- The state after a read.
  abbrev next : N → N
  next n = (net.internet_read_file n max_ping_response_length).1

  -- A read of `chunk`, from what the loop does after it.
  read_step :
      (fuel : ℕ) (n : N) (response chunk : Bytes)
      → length (body n) < suc fuel
      → (net.internet_read_file n max_ping_response_length).0 ≡ some chunk
      → body n ≡ chunk ++ body (next n)
      → ((longer : Bytes)
          → length (body (next n)) < fuel
          → (read_loop net fuel (next n) longer).0 ≡ some (true, longer ++ body (next n)))
      → (read_loop net (suc fuel) n response).0 ≡ some (true, response ++ body n)
  unfolding read_loop
  read_step fuel n response [] enough got rest later =
      rw (read_loop, got, delivers.at_end n max_ping_response_length got)
        (ap (λ (t : Bytes). some (true, t)) (sym (append-nil response)))
  read_step fuel n response (b ∷ buffer) enough got rest later =
      let size : length (body n) ≡ length (b ∷ buffer) + length (body (next n)) =
        ap length rest ∙ length-append (b ∷ buffer) (body (next n)) in
      rw (read_loop, got, rest)
        (later (response ++ (b ∷ buffer)) (omega arith)
          ∙ ap (λ (t : Bytes). some (true, t)) (append_assoc response (b ∷ buffer) (body (next n))))

  -- With more fuel than there is text, the loop appends the text.
  read_all :
      (fuel : ℕ) (n : N) (response : Bytes)
      → length (body n) < fuel
      → (read_loop net fuel n response).0 ≡ some (true, response ++ body n)
  read_all zero n response enough = absurd (omega arith)
  read_all (suc fuel) n response enough =
      let (chunk, got, rest) = delivers.delivered n max_ping_response_length in
      read_step fuel n response chunk enough got rest
        (λ longer room. read_all fuel (next n) longer room)

-- Where each handle is got, the request is sent, the status is 200 and the reads deliver the text of the
-- answer without an error: with more fuel than that text has bytes, PingServer returns true and
-- exactly the text.
pub ping_server-body :
    {N : Type 0} (net : Internet N) (delivers : Delivers net) (n n1 n2 n3 n4 : N) (request : Bytes)
    (fuel : ℕ)
    → net.internet_open n financial_ping_user_agent ≡ (true, n1)
    → net.internet_connect n1 financial_server financial_port ≡ (true, n2)
    → net.http_open_request n2 (bytes "GET") request financial_ping_response_objects ≡ (true, n3)
    → net.http_send_request n3 ≡ (true, n4)
    → net.http_query_status n4 ≡ some 200
    → length (delivers.body n4) < fuel
    → (ping_server net fuel n request).0 ≡ some (true, delivers.body n4)
unfolding ping_server with_inet with_connection send_and_read close_after
ping_server-body net delivers n n1 n2 n3 n4 request fuel opened connect ask sent status enough =
    ground (arith, opened, connect, ask, sent, status, read_all net delivers fuel n4 [] enough)
