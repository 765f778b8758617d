-- ===== src/WinDll.antt =====
-- win/dll/exports.cc: the functions that the DLL exports, over the library as it is built for Windows, and the
-- functions on the deal code of win/lib/rlz_lib_win.cc that they forward to.
pub mod Laws
use rlz.Prelude.{ℕ, Bool, true, false, List, Option, none, some, Bytes}
use rlz.Enums.{AccessPoint, Product, Event}
use rlz.Base.{Base}
use rlz.AccessControl
use rlz.AccessControl.{AclApi}
use rlz.MachineDeal.{deal_code_get, deal_code_set, get_as_cgi, set_from_ping_response}
use rlz.FinancialPing.{Request}
use rlz.RlzLib.AccessPoints
use rlz.RlzLib.Events
use rlz.RlzLib.EventsCgi
use rlz.RlzLib.EventsCgi.{Cgi}
use rlz.RlzLib.Clear
use rlz.RlzLib.PingParams
use rlz.RlzLib.Ping
use rlz.RlzLib.Response
use rlz.WinSystem.{Machine, windows_store, windows_platform}

module _ {R N Sid : Type 0} (base : Base) (machine : Machine R N Sid) (brand : Bytes) where
  pub record_product_event : R → Product → AccessPoint → Event → Bool × R
  record_product_event = Events.record_product_event (windows_store base machine brand)

  pub get_product_events_as_cgi : R → Product → Option ℕ → Cgi
  get_product_events_as_cgi = EventsCgi.get_product_events_as_cgi (windows_store base machine brand)

  pub clear_all_product_events : R → Product → Bool × R
  clear_all_product_events = Clear.clear_all_product_events (windows_store base machine brand)

  pub clear_product_event : R → Product → AccessPoint → Event → Bool × R
  clear_product_event = Events.clear_product_event (windows_store base machine brand)

  pub get_access_point_rlz : R → AccessPoint → Option ℕ → Bool × Bytes
  get_access_point_rlz = AccessPoints.get_access_point_rlz (windows_store base machine brand)

  pub set_access_point_rlz : R → AccessPoint → Option Bytes → Bool × R
  set_access_point_rlz = AccessPoints.set_access_point_rlz base (windows_store base machine brand)

  unfoldable pub set_machine_deal_code : R → Bytes → Bool × R
  set_machine_deal_code = deal_code_set base machine.key

  pub get_machine_deal_code_as_cgi : R → Option ℕ → Bool × Bytes
  get_machine_deal_code_as_cgi = get_as_cgi machine.key

  -- GetMachineDealCode of rlz_lib_win.cc.
  pub get_machine_deal_code2 : R → Option ℕ → Bool × Bytes
  get_machine_deal_code2 = deal_code_get machine.key

  pub get_ping_params : R → Option (List AccessPoint) → Option ℕ → Bool × Bytes
  get_ping_params =
      PingParams.get_ping_params (windows_store base machine brand)
        (windows_platform base machine brand)

  pub parse_ping_response : R → Product → Bytes → Bool × R
  parse_ping_response =
      Response.parse_ping_response base (windows_store base machine brand)
        (windows_platform base machine brand)

  pub is_ping_response_valid : Option Bytes → Bool × Option ℕ
  is_ping_response_valid = Response.is_ping_response_valid base

  pub set_machine_deal_code_from_ping_response : R → Bytes → Bool × R
  set_machine_deal_code_from_ping_response = set_from_ping_response base machine.key

  pub send_financial_ping : R → Product → Request → Bool × R
  send_financial_ping r product request =
      Ping.send_financial_ping base (windows_store base machine brand)
        (windows_platform base machine brand) r product request false

  pub send_financial_ping_no_delay : R → Product → Request → Bool × R
  send_financial_ping_no_delay r product request =
      Ping.send_financial_ping base (windows_store base machine brand)
        (windows_platform base machine brand) r product request true

  pub clear_product_state : R → Product → Option (List AccessPoint) → R
  clear_product_state = Clear.clear_product_state (windows_store base machine brand)

pub create_machine_state :
    {R Sid Acl Sd : Type 0} → AclApi Sid Acl → AccessControl.MachineApi R Sid Acl Sd → R → Bool × R
create_machine_state = AccessControl.create_machine_state
