-- ===== src/WinDll/Laws.antt =====
-- What the functions of the DLL of win/dll/exports.cc do together.
use rlz.Prelude.{
  ℕ, ◌+◌, ◌≡◌, refl, true, false, List, [], ◌∷◌, ◌++◌, some, Bytes, bytes, length, ltb,
  if◌then◌else◌, arith,
}
use rlz.Enums.{AccessPoint, Product}
use rlz.Base.{Base}
use rlz.ValueStore.{can, read_access}
use rlz.FinancialPing.{Request, is_ping_time}
use rlz.FinancialPing.Times.{is_ping_time-sooner}
use rlz.MachineDeal.{normalize_dcc}
use rlz.MachineDeal.Laws.{KeyLaws, normalize_dcc_some, deal_code_get-deal_code_set}
use rlz.RlzLib.PingParams.{max_dcc_length}
use rlz.RlzLib.PingParams.Laws.{params_of, get_ping_params-dcc}
use rlz.RlzLib.Ping
use rlz.WinSystem.{Machine, windows_store, windows_platform}
use rlz.WinDll.{
  set_machine_deal_code, get_ping_params, send_financial_ping, send_financial_ping_no_delay,
}

module _ {R N Sid : Type 0} (base : Base) (machine : Machine R N Sid) (brand : Bytes) where
  -- Whenever it is time for SendFinancialPing, SendFinancialPingNoDelay does the same: it returns the same
  -- result and leaves the same state.
  pub no_delay_sends :
      (r : R) (product : Product) (request : Request)
      → is_ping_time
          (windows_store base machine brand)
          (windows_platform base machine brand)
          r
          product
          false
        ≡ true
      → send_financial_ping_no_delay base machine brand r product request
        ≡ send_financial_ping base machine brand r product request
  unfolding send_financial_ping send_financial_ping_no_delay Ping.send_financial_ping
  no_delay_sends r product request due = ground (
    arith,
    due,
    is_ping_time-sooner (windows_store base machine brand) (windows_platform base machine brand) r
        product due,
  )

  -- The text that GetPingParams is to write on Windows, where a code is stored.
  abbrev pub params_with : R → List AccessPoint → Bytes → Bytes
  params_with r points dcc =
      params_of (windows_store base machine brand) (windows_platform base machine brand) r points
      ++ (bytes "&dcc=" ++ dcc)

  -- After a successful SetMachineDealCode of a code that is not empty, GetPingParams, where the lock is free, the
  -- key of the code opens and the store may be read, writes the entries of the access points and then "&dcc="
  -- with the normalized code, if that is shorter than the buffer; otherwise it returns false and leaves the
  -- empty string.
  pub get_ping_params-set_machine_deal_code :
      (laws : KeyLaws machine.key) (r r' : R) (c : ℕ) (dcc : Bytes) (points : List AccessPoint)
      (cgi_size : ℕ)
      → set_machine_deal_code base machine brand r (c ∷ dcc) ≡ (true, r')
      → machine.key.locks r' ≡ true
      → machine.key.opens_read r' ≡ true
      → can (windows_store base machine brand) r' read_access ≡ true
      → get_ping_params base machine brand r' (some points) (some cgi_size) ≡ (
          let text = params_with r' points (normalize_dcc base (c ∷ dcc)) in
          if ltb (length text) cgi_size then (true, text) else (false, []))
  unfolding set_machine_deal_code get_ping_params
  get_ping_params-set_machine_deal_code laws r r' c dcc points n h free opens readable =
      let (d, ds, normal) = normalize_dcc_some base c dcc in
      let (read, short, good) =
        deal_code_get-deal_code_set base machine.key laws r r' (c ∷ dcc) (max_dcc_length + 1) h free
          opens (omega arith) in
      rw normal (
        get_ping_params-dcc (windows_store base machine brand) (windows_platform base machine brand)
          r' points n d ds refl (rw normal at read) readable)
