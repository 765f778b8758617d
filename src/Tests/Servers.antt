-- ===== src/Tests/Servers.antt =====
-- Examples for PingServer of lib/financial_ping.cc.
use rlz.Prelude.{ℕ, ◌≡◌, refl, true, List, [], ◌∷◌, ◌++◌, Option, some, Bytes, bytes, arith}
use rlz.PingServer.{Handle, inet_handle, connection_handle, http_handle, Internet, ping_server}
use rlz.PingServer.Laws.{Delivers, ping_server-body}
use rlz.PingServer.Handles.{HandleLaws, ping_server-handles}

-- The chunks that are still to come, and the open handles.
abbrev pub Connection : Type 0
Connection = List (List ℕ) × List Handle

abbrev whole : List (List ℕ) → Bytes
whole [] = []
whole ([] ∷ chunks) = whole chunks
whole ((b ∷ chunk) ∷ chunks) = b ∷ (chunk ++ whole chunks)

abbrev take_chunk : List (List ℕ) → List ℕ × List (List ℕ)
take_chunk [] = ([], [])
take_chunk ([] ∷ chunks) = take_chunk chunks
take_chunk ((b ∷ chunk) ∷ chunks) = (b ∷ chunk, chunks)

abbrev without_last : List Handle → List Handle
without_last [] = []
without_last (h ∷ hs) = hs

abbrev pub wire : Internet Connection
wire = record {
  internet_open = λ n agent. (true, (n.0, inet_handle ∷ n.1));
  internet_connect = λ n server port. (true, (n.0, connection_handle ∷ n.1));
  http_open_request = λ n verb object types. (true, (n.0, http_handle ∷ n.1));
  http_send_request = λ n. (true, n);
  http_query_status = λ n. some 200;
  internet_read_file = λ n size. (some (take_chunk n.0).0, ((take_chunk n.0).1, n.1));
  internet_close_handle = λ n handle. (n.0, without_last n.1);
}

pub split_off :
    (chunks : List (List ℕ)) → whole chunks ≡ (take_chunk chunks).0 ++ whole (take_chunk chunks).1
split_off [] = refl
split_off ([] ∷ chunks) = split_off chunks
split_off ((b ∷ chunk) ∷ chunks) = refl

pub nothing_left :
    (chunks : List (List ℕ))
    → ◌≡◌ {A = Option (List ℕ)} (some (take_chunk chunks).0) (some [])
    → whole chunks ≡ []
nothing_left [] h = refl
nothing_left ([] ∷ chunks) h = nothing_left chunks h
nothing_left ((b ∷ chunk) ∷ chunks) h = ground arith

abbrev wire_delivers : Delivers wire
wire_delivers = record {
  body = λ n. whole n.0;
  delivered = λ n size. ((take_chunk n.0).0, refl, split_off n.0);
  at_end = λ n size h. nothing_left n.0 h;
}

abbrev pub answer : Connection
answer = (bytes "rlz: " ∷ bytes "0" ∷ [], [])

abbrev with_handles : List Handle → Connection
with_handles hs = (answer.0, hs)

ping_server-body_example :
    (ping_server wire 9 answer (bytes "/ping")).0 ≡ some (true, bytes "rlz: 0")
ping_server-body_example =
    ping_server-body wire wire_delivers answer (with_handles (inet_handle ∷ []))
      (with_handles (connection_handle ∷ inet_handle ∷ []))
      (with_handles (http_handle ∷ connection_handle ∷ inet_handle ∷ []))
      (with_handles (http_handle ∷ connection_handle ∷ inet_handle ∷ [])) (bytes "/ping") 9 refl
      refl refl refl refl (omega arith)

last_closed :
    (hs : List Handle) (handle : Handle) (rest : List Handle)
    → hs ≡ handle ∷ rest
    → without_last hs ≡ rest
last_closed hs handle rest h = rw h

wire_handles : HandleLaws wire
wire_handles = record {
  handles = λ n. n.1;
  opens = λ n agent. refl;
  connects = λ n server port. refl;
  asks = λ n verb object types. refl;
  sends = λ n. refl;
  reads = λ n size. refl;
  closes = λ n handle rest h. last_closed n.1 handle rest h;
}

ping_server-handles_example :
    wire_handles.handles (ping_server wire 9 answer (bytes "/ping")).1 ≡ wire_handles.handles answer
ping_server-handles_example = ping_server-handles wire wire_handles 9 answer (bytes "/ping")
