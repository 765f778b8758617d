-- ===== src/Tests/Deals.antt =====
-- Examples for win/lib/machine_deal.cc over a registry that holds a code or none.
use rlz.Prelude.{
  ◌≡◌, refl, true, false, not, [], ◌∷◌, ◌++◌, Option, none, some, Bytes, bytes, find, split, take,
  length, all, is_empty, arith,
}
use rlz.Base.Sample.{sample}
use rlz.Crc32.{crc32_text}
use rlz.StringUtils.{is_ascii, hex_string_to_integer}
use rlz.RlzLib.Response.{is_ping_response_valid}
use rlz.MachineDeal.{
  MachineKey, is_good_dcc_char, normalize_dcc, get_response_value, response_lines,
  reg_key_read_value, deal_code_get, deal_code_set, dcc_loop, set_from_ping_response,
  get_new_code_from_ping_response,
}
use rlz.MachineDeal.Lines.{response_lines-split}
use rlz.MachineDeal.Laws.{
  KeyLaws, confirms, stored_dcc_of, deal_code_get_short, set_from_ping_response_unconfirmed,
}

abbrev hive : MachineKey (Option Bytes)
hive = record {
  locks = λ r. true;
  opens_read = λ r. true;
  opens_write = λ r. true;
  read_value = λ r. r;
  write_value = λ r dcc. (true, some dcc);
  delete_value = λ r. none;
  reads_raw = λ r size. false;
}

hive-KeyLaws : KeyLaws hive
hive-KeyLaws = record { kept = λ r r' dcc h. ground (arith, h) }

abbrev stored : Option Bytes
stored = some (bytes "A.C")

set_code : deal_code_set sample hive none (bytes "A&C") ≡ (true, stored)
unfolding deal_code_set normalize_dcc is_good_dcc_char sample
set_code = refl

deal_code_get_short_example :
    (deal_code_get hive stored (some 3) ≡ (true, take 2 (bytes "A.C")))
    × (length (take 2 (bytes "A.C")) ≡ 2)
deal_code_get_short_example = deal_code_get_short hive stored (bytes "A.C") 2 refl refl refl refl

-- A new code without the confirmation of the old one; 0x444 is the sum of `sample`.
abbrev message_text : Bytes
message_text = bytes "set_dcc: XYZ" ++ (10 ∷ [])

abbrev unconfirmed_text : Bytes
unconfirmed_text = message_text ++ bytes "crc32: 444"

text_valid : is_ping_response_valid sample (some unconfirmed_text) ≡ (true, some 12)
unfolding is_ping_response_valid find crc32_text is_ascii hex_string_to_integer sample
text_valid = refl

code_stored : is_empty (stored_dcc_of sample hive stored) ≡ false
unfolding deal_code_get reg_key_read_value
code_stored = refl

no_line :
    all
      (λ line. not (confirms sample (stored_dcc_of sample hive stored) line))
      (response_lines unconfirmed_text 12)
    ≡ true
unfolding deal_code_get reg_key_read_value response_lines split get_response_value sample
no_line = refl

set_from_ping_response_unconfirmed_example :
    set_from_ping_response sample hive stored unconfirmed_text ≡ (false, stored)
set_from_ping_response_unconfirmed_example =
    set_from_ping_response_unconfirmed sample hive stored unconfirmed_text 12 text_valid code_stored
      no_line

-- Where no code is stored, the new code is taken.
first_code : set_from_ping_response sample hive none unconfirmed_text ≡ (true, some (bytes "XYZ"))
unfolding set_from_ping_response get_new_code_from_ping_response is_ping_response_valid find
    crc32_text is_ascii hex_string_to_integer deal_code_get deal_code_set reg_key_read_value
    response_lines split get_response_value dcc_loop normalize_dcc is_good_dcc_char sample
first_code = refl

-- A line that confirms the stored code lets the new one in.
abbrev confirmed_text : Bytes
confirmed_text = bytes "dcc: A.C" ++ (10 ∷ bytes "set_dcc: XYZ") ++ (10 ∷ bytes "crc32: 684")

next_code : set_from_ping_response sample hive stored confirmed_text ≡ (true, some (bytes "XYZ"))
unfolding set_from_ping_response get_new_code_from_ping_response is_ping_response_valid find
    crc32_text is_ascii hex_string_to_integer deal_code_get deal_code_set reg_key_read_value
    response_lines split get_response_value dcc_loop normalize_dcc is_good_dcc_char sample
next_code = refl

response_lines-split_example :
    response_lines (bytes "a: 1\nb\n\nlast") 8 ≡ split 10 (take 8 (bytes "a: 1\nb\n\nlast"))
response_lines-split_example = response_lines-split (bytes "a: 1\nb\n\nlast") 8
