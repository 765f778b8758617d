-- ===== src/MachineDeal/Laws.antt =====
-- What win/lib/machine_deal.cc keeps and refuses.
use rlz.Prelude.{
  ℕ, zero, suc, ◌-◌, ◌+◌, ◌≤◌, ◌<◌, ◌≡◌, refl, ap, ◌∙◌, Bool, true, false, not, ◌&&◌, List, [], ◌∷◌,
  Option, none, some, Bytes, bytes, bytes_eq, is_empty, all, length, length-take, take, take_all,
  ltb, leb, arith,
}
use rlz.Base.{Base}
use rlz.RlzLib.PingParams.{max_dcc_length}
use rlz.RlzLib.Response.{is_ping_response_valid}
use rlz.MachineDeal.{
  MachineKey, Scan, is_good_dcc_char, dcc_chars, normalize_dcc, get_response_value, response_lines,
  reg_key_read_value, deal_code_get, deal_code_set, dcc_line, dcc_loop, stored_text, new_code,
  get_new_code_from_ping_response, set_from_ping_response,
}

-- A key keeps what is written to it.
pub record KeyLaws {R : Type 0} (key : MachineKey R) : Type 0 where
  pub kept :
      (r r' : R) (dcc : Bytes) → key.write_value r dcc ≡ (true, r') → key.read_value r' ≡ some dcc

module _ (base : Base) where
  dot_good : is_good_dcc_char base b'.' ≡ true
  unfolding is_good_dcc_char
  dot_good = ground arith

  dcc_chars_good :
      (room : ℕ) (raw : Bytes) → all (is_good_dcc_char base) (dcc_chars base room raw) ≡ true
  unfolding dcc_chars
  dcc_chars_good zero raw = refl
  dcc_chars_good (suc room) [] = refl
  dcc_chars_good (suc room) (c ∷ raw) = ground (arith, dot_good, dcc_chars_good room raw)

  dcc_chars-le : (room : ℕ) (raw : Bytes) → length (dcc_chars base room raw) ≤ room
  unfolding dcc_chars
  dcc_chars-le zero raw = omega arith
  dcc_chars-le (suc room) [] = omega arith
  dcc_chars-le (suc room) (c ∷ raw) = omega (arith, dcc_chars-le room raw)

  normalize_dcc-le : (raw : Bytes) → length (normalize_dcc base raw) ≤ max_dcc_length
  unfolding normalize_dcc
  normalize_dcc-le raw = dcc_chars-le max_dcc_length raw

  normalize_dcc_good : (raw : Bytes) → all (is_good_dcc_char base) (normalize_dcc base raw) ≡ true
  unfolding normalize_dcc
  normalize_dcc_good raw = dcc_chars_good max_dcc_length raw

  pub normalize_dcc_some :
      (c : ℕ) (raw : Bytes) → (d : ℕ) × (ds : Bytes) × (normalize_dcc base (c ∷ raw) ≡ d ∷ ds)
  unfolding normalize_dcc dcc_chars
  normalize_dcc_some c raw = (_, _, refl)

module _ {R : Type 0} (base : Base) (key : MachineKey R) (laws : KeyLaws key) where
  written :
      (r r' : R) (dcc : Bytes)
      → deal_code_set base key r dcc ≡ (true, r')
      → key.read_value r' ≡ some (normalize_dcc base dcc)
  unfolding deal_code_set
  written r r' dcc h = laws.kept r r' (normalize_dcc base dcc) (ground arith)

  -- A code that Set stored is read back by Get, where the lock is free and the key opens, into a buffer
  -- of more than kMaxDccLength bytes; it is the normalized code, of at most kMaxDccLength characters
  -- that are all good.
  pub deal_code_get-deal_code_set :
      (r r' : R) (dcc : Bytes) (size : ℕ)
      → deal_code_set base key r dcc ≡ (true, r')
      → key.locks r' ≡ true
      → key.opens_read r' ≡ true
      → max_dcc_length < size
      → (deal_code_get key r' (some size) ≡ (true, normalize_dcc base dcc))
        × (length (normalize_dcc base dcc) ≤ max_dcc_length)
        × (all (is_good_dcc_char base) (normalize_dcc base dcc) ≡ true)
  unfolding deal_code_get reg_key_read_value
  deal_code_get-deal_code_set r r' dcc size h free opens room =
      let short = normalize_dcc-le base dcc in
      let some_room : leb size 0 ≡ false = ground arith in
      let fits : ltb size (length (normalize_dcc base dcc)) ≡ false = ground (arith, short) in
      (
        rw (free, opens, some_room, written r r' dcc h, fits)
            (ap (λ (t : Bytes). (true, t))
              (take_all (size - 1) (normalize_dcc base dcc) (omega (arith, short)))),
        short,
        normalize_dcc_good base dcc,
      )

module _ {R : Type 0} (key : MachineKey R) where
  -- Where the lock is free and the key opens, Get into a buffer of as many bytes as the stored
  -- code has characters, at least one, returns true, but with a text that is one character short.
  pub deal_code_get_short :
      (r : R) (dcc : Bytes) (size : ℕ)
      → key.locks r ≡ true
      → key.opens_read r ≡ true
      → key.read_value r ≡ some dcc
      → length dcc ≡ suc size
      → (deal_code_get key r (some (suc size)) ≡ (true, take size dcc))
        × (length (take size dcc) ≡ size)
  unfolding deal_code_get reg_key_read_value
  deal_code_get_short r dcc size free opens stored same =
      let fits : ltb (suc size) (length dcc) ≡ false = ground arith in
      let some_room : leb (suc size) 0 ≡ false = ground arith in
      let shorter : suc size - 1 ≡ size = omega arith in
      (rw (free, opens, stored, fits, some_room, shorter), length-take size dcc ∙ omega arith)

module _ (base : Base) where
  -- Does the line confirm the stored code?
  abbrev pub confirms : Bytes → Bytes → Bool
  confirms stored_dcc line =
      (get_response_value base line (bytes "dcc")).0
      && bytes_eq (get_response_value base line (bytes "dcc")).1 stored_dcc

  -- A loop that ends with the old code confirmed.
  abbrev confirmed : Option Bool × Option Bytes → Bool
  confirmed (none, new_dcc) = false
  confirmed (some b, new_dcc) = b

  -- A scan that has not met the confirmation.
  abbrev waiting : Option Scan → Bool
  waiting none = true
  waiting (some (old_dcc_confirmed, new_dcc)) = not old_dcc_confirmed

  dcc_line_unmet :
      (stored_dcc : Bytes) (new_dcc : Option Bytes) (line : Bytes)
      → confirms stored_dcc line ≡ false
      → waiting (dcc_line base stored_dcc (false, new_dcc) line) ≡ true
  unfolding dcc_line
  dcc_line_unmet stored_dcc none line h = ground arith
  dcc_line_unmet stored_dcc (some dcc) line h = ground arith

  goes_on :
      (stored_dcc : Bytes) (new_dcc : Option Bytes) (rest : List Bytes) (o : Option Scan)
      → waiting o ≡ true
      → ((n : Option Bytes) → confirmed (dcc_loop base stored_dcc (false, n) rest) ≡ false)
      → confirmed
          (elim o [ none ↦ (none, new_dcc) | some scan ↦ dcc_loop base stored_dcc scan rest ])
        ≡ false
  goes_on stored_dcc new_dcc rest none h ih = refl
  goes_on stored_dcc new_dcc rest (some (false, n)) h ih = ih n
  goes_on stored_dcc new_dcc rest (some (true, n)) h ih = absurd (ground arith)

  dcc_loop_unconfirmed :
      (stored_dcc : Bytes) (new_dcc : Option Bytes) (lines : List Bytes)
      → all (λ line. not (confirms stored_dcc line)) lines ≡ true
      → confirmed (dcc_loop base stored_dcc (false, new_dcc) lines) ≡ false
  unfolding dcc_loop
  dcc_loop_unconfirmed stored_dcc new_dcc [] h = refl
  dcc_loop_unconfirmed stored_dcc new_dcc (line ∷ rest) h =
      let (here, later) =
        both (confirms stored_dcc line) (all (λ l. not (confirms stored_dcc l)) rest) h in
      goes_on stored_dcc new_dcc rest (dcc_line base stored_dcc (false, new_dcc) line)
        (dcc_line_unmet stored_dcc new_dcc line here)
        (λ n. dcc_loop_unconfirmed stored_dcc n rest later)
    where
      both : (a b : Bool) → not a && b ≡ true → (a ≡ false) × (b ≡ true)
      both a b h = ground arith

module _ {R : Type 0} (base : Base) (key : MachineKey R) where
  -- What Get gives for the comparison with the response.
  abbrev pub stored_dcc_of : R → Bytes
  stored_dcc_of r = stored_text (deal_code_get key r (some (max_dcc_length + 1)))

  new_code_unconfirmed :
      (stored_dcc : Bytes) (size : ℕ) (end : Option Bool × Option Bytes)
      → is_empty stored_dcc ≡ false
      → confirmed base end ≡ false
      → (new_code stored_dcc size end).ok ≡ false
  unfolding new_code
  new_code_unconfirmed stored_dcc size (none, new_dcc) h k = refl
  new_code_unconfirmed stored_dcc size (some b, new_dcc) h k = ground arith

  -- While a code is stored, a valid response none of whose lines before the checksum confirms it makes
  -- SetFromPingResponse return false and leave the registry as it is, whatever new code the response
  -- brings.
  pub set_from_ping_response_unconfirmed :
      (r : R) (response : Bytes) (index : ℕ)
      → is_ping_response_valid base (some response) ≡ (true, some index)
      → is_empty (stored_dcc_of r) ≡ false
      → all (λ line. not (confirms base (stored_dcc_of r) line)) (response_lines response index)
        ≡ true
      → set_from_ping_response base key r response ≡ (false, r)
  unfolding set_from_ping_response get_new_code_from_ping_response
  set_from_ping_response_unconfirmed r response index valid stored none_confirms =
      let end = dcc_loop base (stored_dcc_of r) (false, none) (response_lines response index) in
      let fails = new_code_unconfirmed (stored_dcc_of r) (max_dcc_length + 1) end stored (
        dcc_loop_unconfirmed base (stored_dcc_of r) none (response_lines response index)
          none_confirms) in
      rw (valid, fails)
