-- ===== src/Tests/Macs.antt =====
-- Examples for the store of mac/lib/rlz_value_store_mac.mm and its lock.
use rlz.Prelude.{
  ◌≡◌, refl, Bool, true, false, not, ◌&&◌, List, [], ◌∷◌, ◌++◌, ◌==◌, none, Bytes, bytes, bytes_eq,
  arith,
}
use rlz.ValueStore.{AccessType, RlzValueStore, StoreLaws, can, contains_by, write_access}
use rlz.Enums.{toolbar_notifier, ie_default_search, set_to_google}
use rlz.Base.Sample.{sample, sample-BaseLaws}
use rlz.Platform.{Platform}
use rlz.Crc32.{crc32_buffer}
use rlz.StringUtils.Hex.{big_endian}
use rlz.RlzLib.Response.{parse_ping_response}
use rlz.RlzLib.Response.Acknowledged.{
  events_line, acknowledgement, parse_ping_response-acknowledgement,
}
use rlz.Tests.Stores.{default_value}
use rlz.ValueStore.Writes.{add_event, apply_write}
use rlz.MacStore.Dict.{Dict, empty}
use rlz.MacStore.Store.{mac_store}
use rlz.MacStore.Store.Frames.{mac_store-StoreContract, mac_store-ClearsEvents}
use rlz.MacStore.Store.Contract.{mac_laws}
use rlz.ValueStore.Frames.{StoreContract}
use rlz.MacStore.Store.Views.{view_of}
use rlz.MacStore.Store.Brands.{mac_brands_isolated}
use rlz.MacStore.Lock.{
  Run, crashed, returned, unlocked, Files, Scope, Scopes, scope, done, then_scope, run_scope,
}
use rlz.MacStore.Lock.Laws.{nested_locks, nested_lock_crashes}

abbrev always : Dict → Bool
always dict = true

abbrev may_all : Dict → AccessType → Bool
may_all dict t = true

mac_store-StoreContract_example : StoreContract (mac_store always may_all (bytes "TEST")) bytes_eq
mac_store-StoreContract_example = mac_store-StoreContract always may_all (bytes "TEST")

-- The lock file is got at the third try.
abbrev third_try : Files
third_try = record { try_lock = λ n. n == 2; reads_plist = true }

abbrev no_plist : Files
no_plist = record { try_lock = λ n. n == 2; reads_plist = false }

-- A scope with two in it, of which the first has one.
abbrev two_inside : Scopes
two_inside = then_scope (scope (then_scope (scope done) done)) (then_scope (scope done) done)

nested_locks_example : run_scope third_try unlocked (scope two_inside) ≡ returned unlocked
nested_locks_example = nested_locks third_try two_inside (λ got. refl)

nested_lock_crashes_example :
    run_scope no_plist unlocked (scope (then_scope (scope done) done)) ≡ crashed
unfolding rlz.MacStore.Lock.lock_loop rlz.MacStore.Lock.got_of
nested_lock_crashes_example = nested_lock_crashes no_plist done done refl refl

mac_brands_isolated_example :
    view_of []
      (apply_write
        (mac_store always may_all (bytes "TEST"))
        (add_event toolbar_notifier (bytes "I7S"))
        empty).1
    ≡ view_of [] empty
mac_brands_isolated_example =
    mac_brands_isolated always may_all (bytes "TEST") [] (add_event toolbar_notifier (bytes "I7S"))
      empty refl

-- A machine that is no Windows, over the store of Mac.
abbrev mac_machine : Platform Dict
mac_machine = record {
  os_win = false;
  now = λ d. 1000;
  brand = λ d. bytes "TEST";
  machine_id = λ d. none;
  ping_server = λ d request. none;
  get_machine_deal_code = λ d size. (false, []);
  set_machine_deal_code_from_ping_response = λ d response. (false, d);
}

abbrev mac : RlzValueStore Dict
mac = mac_store always may_all (bytes "TEST")

abbrev mac_contract : StoreLaws mac
mac_contract = mac_laws always may_all (bytes "TEST")

abbrev recorded_dict : Dict
recorded_dict = (apply_write mac (add_event toolbar_notifier (bytes "I7S")) empty).1

mac_writable : can mac recorded_dict write_access ≡ true
unfolding mac_store
mac_writable = refl

-- The event that was recorded; 0x3CC is the sum of `sample` for its line.
abbrev recorded_value : List Bytes
recorded_value = bytes "I7S" ∷ []

recorded_sum :
    big_endian 0 (3 ∷ 0xCC ∷ []) ≡ crc32_buffer sample (events_line recorded_value ++ 10 ∷ [])
unfolding crc32_buffer sample
recorded_sum = refl

parse_ping_response-acknowledgement_example :
    ((parse_ping_response sample mac mac_machine recorded_dict toolbar_notifier
        (acknowledgement recorded_value (3 ∷ 0xCC ∷ []))).0
      ≡ true)
    × ((mac_contract.view
            (parse_ping_response sample mac mac_machine recorded_dict toolbar_notifier
              (acknowledgement recorded_value (3 ∷ 0xCC ∷ []))).1).product_event
          toolbar_notifier
          (bytes "I7S")
        ≡ ((mac_contract.view recorded_dict).product_event toolbar_notifier (bytes "I7S")
            && not (contains_by mac_contract.same_name recorded_value (bytes "I7S"))))
parse_ping_response-acknowledgement_example =
    parse_ping_response-acknowledgement sample sample-BaseLaws mac mac_machine mac_contract
      (mac_store-ClearsEvents true (λ t. true) (bytes "TEST")) recorded_dict toolbar_notifier
      ((ie_default_search, set_to_google) ∷ []) recorded_value (3 ∷ 0xCC ∷ []) (bytes "I7S")
      mac_writable refl (default_value, tt) (omega arith, (omega arith, tt)) recorded_sum
      (omega arith)
