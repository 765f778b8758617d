-- ===== src/Tests/Dlls.antt =====
-- Examples for win/dll/exports.cc over a sample registry, which holds the deal code too.
use rlz.Prelude.{
  ◌≡◌, refl, true, false, List, [], ◌∷◌, none, some, bytes, ◌∙◌, length, ltb, if◌then◌else◌, ℕ,
  Bytes,
}
use rlz.Enums.{toolbar_notifier, ie_default_search}
use rlz.Base.Sample.{sample}
use rlz.ValueStore.{can, read_access}
use rlz.MachineDeal.{MachineKey, deal_code_set, normalize_dcc, is_good_dcc_char}
use rlz.MachineDeal.Laws.{KeyLaws}
use rlz.Registry.{text}
use rlz.Registry.Laws.{text_in}
use rlz.Registry.Sample.{Change, set, value_in, sample_registry, sample_laws, sample_account}
use rlz.Registry.Store.{registry_store}
use rlz.Registry.Store.Effects.{read_ping_time_lem}
use rlz.FinancialPing.{Request, is_ping_time}
use rlz.FinancialPing.Times.{is_ping_time_first}
use rlz.WinSystem.{Machine, windows_store, windows_platform}
use rlz.WinDll.{set_machine_deal_code, get_ping_params}
use rlz.WinDll.Laws.{params_with, get_ping_params-set_machine_deal_code}
use rlz.Tests.Machines.{long_domain}
use rlz.Tests.Servers.{Connection, wire, answer}

abbrev dcc_location : Bytes
dcc_location = bytes "HKLM"

abbrev dcc_key : MachineKey (List Change)
dcc_key = record {
  locks = λ r. true;
  opens_read = λ r. true;
  opens_write = λ r. true;
  read_value = λ r. text_in (value_in r dcc_location (bytes "DCC"));
  write_value = λ r dcc. (true, set dcc_location (bytes "DCC") (some (text dcc)) ∷ r);
  delete_value = λ r. set dcc_location (bytes "DCC") none ∷ r;
  reads_raw = λ r size. false;
}

dcc_key-KeyLaws : KeyLaws dcc_key
dcc_key-KeyLaws = record { kept = λ r r' dcc h. rw (← second r r' dcc h) refl }
  where
    second :
        (r r' : List Change) (dcc : Bytes)
        → dcc_key.write_value r dcc ≡ (true, r')
        → set dcc_location (bytes "DCC") (some (text dcc)) ∷ r ≡ r'
    second r r' dcc h = cc

abbrev desk : Machine (List Change) Connection ℕ
desk = record {
  reg = sample_registry;
  key = dcc_key;
  has_access = λ r t. true;
  clock = λ r. record { high_date_time = 30000000; low_date_time = 7 };
  api = long_domain;
  net = wire;
  connection = λ r. answer;
  fuel = 20000;
}

abbrev request : Request
request = record {
  access_points = some [];
  product_signature = some (bytes "sig");
  product_brand = none;
  product_id = none;
  product_lang = none;
  exclude_machine_id = false;
}

no_ping_time : (windows_store sample desk []).read_ping_time [] toolbar_notifier ≡ none
unfolding registry_store rlz.LibValues.get_product_name
no_ping_time = read_ping_time_lem sample_registry sample_laws sample_account [] [] toolbar_notifier

desk_readable : can (windows_store sample desk []) [] read_access ≡ true
unfolding registry_store
desk_readable = refl

desk_due :
    is_ping_time
      (windows_store sample desk [])
      (windows_platform sample desk [])
      []
      toolbar_notifier
      false
    ≡ true
desk_due =
    is_ping_time_first (windows_store sample desk []) (windows_platform sample desk []) []
      toolbar_notifier false no_ping_time
    ∙ desk_readable

abbrev with_code : List Change
with_code = set dcc_location (bytes "DCC") (some (text (bytes "A.C"))) ∷ []

code_set : set_machine_deal_code sample desk [] [] (bytes "A&C") ≡ (true, with_code)
unfolding set_machine_deal_code deal_code_set normalize_dcc is_good_dcc_char sample
code_set = refl

with_code_readable : can (windows_store sample desk []) with_code read_access ≡ true
unfolding registry_store
with_code_readable = refl

get_ping_params-set_machine_deal_code_example :
    get_ping_params sample desk [] with_code (some (ie_default_search ∷ [])) (some 60) ≡ (
      let text =
        params_with sample desk [] with_code
          (ie_default_search ∷ [])
          (normalize_dcc sample (bytes "A&C")) in
      if ltb (length text) 60 then (true, text) else (false, []))
get_ping_params-set_machine_deal_code_example =
    get_ping_params-set_machine_deal_code sample desk [] dcc_key-KeyLaws [] with_code b'A'
      (bytes "&C") (ie_default_search ∷ []) 60 code_set refl refl with_code_readable
