-- ===== src/RlzLib/Response/Lines.antt =====
-- What ParsePingResponse of lib/rlz_lib.cc does with the lines of a response.
use rlz.Prelude.{
  ℕ, suc, ◌+◌, ◌-◌, ◌≡◌, ◌⊎◌, refl, true, false, List, [], ◌∷◌, ◌++◌, some, Bytes, split, take,
  length, arith,
}
use rlz.Enums.{Product}
use rlz.Base.{Base}
use rlz.ValueStore.{RlzValueStore, can, write_access}
use rlz.Platform.{Platform}
use rlz.RlzLib.Response.{is_ping_response_valid, line_or_skip, lines_loop, parse_ping_response}

module _ {S : Type 0} (base : Base) (store : RlzValueStore S) where
  -- Every line in order, in full.
  abbrev pub each_line : S → Product → List Bytes → S
  each_line s product [] = s
  each_line s product (line ∷ rest) =
      each_line (line_or_skip base store s product line) product rest

  -- The position behind the lines and their line feeds.
  abbrev pub position_after : ℕ → List Bytes → ℕ
  position_after begin [] = begin
  position_after begin (line ∷ rest) = position_after (begin + length line + 1) rest

  lines_loop-each_line :
      (s : S) (product : Product) (n begin : ℕ) (lines : List Bytes) (last : Bytes)
      → lines_loop base store s product n begin (lines ++ last ∷ [])
        ≡ line_or_skip base store
            (each_line s product lines)
            product
            (take (n - position_after begin lines) last)
  unfolding lines_loop
  lines_loop-each_line s product n begin [] last = refl
  lines_loop-each_line s product n begin (line ∷ []) last = refl
  lines_loop-each_line s product n begin (line ∷ next ∷ rest) last =
      lines_loop-each_line (line_or_skip base store s product line) product n
        (begin + length line + 1) (next ∷ rest) last

module _ {S : Type 0} (base : Base) (store : RlzValueStore S) (platform : Platform S) where
  -- With no write access, or for a response that fails IsPingResponseValid, ParsePingResponse returns
  -- false and leaves the state.
  pub parse_ping_response_rejects :
      (s : S) (product : Product) (response : Bytes)
      → (can store s write_access ≡ false)
        ⊎ ((is_ping_response_valid base (some response)).0 ≡ false)
      → parse_ping_response base store platform s product response ≡ (false, s)
  unfolding parse_ping_response
  parse_ping_response_rejects s product response h = ground arith

  -- A valid response, not on Windows and in a store that can be written, whose checksum stands
  -- behind position 0: every line that ends in a line feed is carried out in full, in order, also
  -- one behind the checksum; only what stands behind the last line feed is cut at the position of
  -- the checksum.
  pub parse_ping_response-each_line :
      (s : S) (product : Product) (response last : Bytes) (lines : List Bytes) (index : ℕ)
      → can store s write_access ≡ true
      → platform.os_win ≡ false
      → is_ping_response_valid base (some response) ≡ (true, some (suc index))
      → split 10 response ≡ lines ++ last ∷ []
      → parse_ping_response base store platform s product response ≡ (
        true,
        line_or_skip base store
            (each_line base store s product lines)
            product
            (take (suc index - position_after base store 0 lines) last),
      )
  unfolding parse_ping_response
  parse_ping_response-each_line s product response last lines index writable not_win valid parts =
      rw
        (
          writable,
          valid,
          parts,
          lines_loop-each_line base store s product (suc index) 0 lines last,
          not_win,
        )
        (ground arith)
