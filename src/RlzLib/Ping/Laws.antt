-- ===== src/RlzLib/Ping/Laws.antt =====
-- SendFinancialPing of lib/rlz_lib.cc and the ping time.
use rlz.Prelude.{◌≡◌, Bool, true, false, ◌&&◌, none, some, Bytes, arith}
use rlz.Enums.{Product}
use rlz.Base.{Base}
use rlz.ValueStore.{RlzValueStore, StoreLaws}
use rlz.Platform.{Platform}
use rlz.FinancialPing.{Request, form_request, is_ping_time, update_last_ping_time}
use rlz.FinancialPing.Times.{update_stored}
use rlz.RlzLib.Response.{parse_ping_response}
use rlz.RlzLib.Ping.{send_financial_ping}

module _ {S : Type 0} (base : Base) (store : RlzValueStore S) (platform : Platform S) where
  -- SendFinancialPing leaves the state and returns false if the request cannot be formed or if it is
  -- not the time to ping, whatever the server would answer.
  pub send_financial_ping_early :
      (s : S) (product : Product) (r : Request) (skip_time_check : Bool)
      → (form_request store platform s product r).0
          && is_ping_time store platform s product skip_time_check
        ≡ false
      → send_financial_ping base store platform s product r skip_time_check ≡ (false, s)
  unfolding send_financial_ping
  send_financial_ping_early s product r skip h = ground arith

module _ {S : Type 0} (base : Base) (store : RlzValueStore S) (platform : Platform S)
    (laws : StoreLaws store) where
  open laws use {view}

  -- Where the request is formed, it is time to ping and the update of the ping time succeeds, a server
  -- that does not answer makes SendFinancialPing return false, in a state that has the present as the
  -- ping time of the product.
  pub send_financial_ping_silent :
      (s s' : S) (product : Product) (r : Request) (skip_time_check : Bool) (request : Bytes)
      → form_request store platform s product r ≡ (true, request)
      → is_ping_time store platform s product skip_time_check ≡ true
      → update_last_ping_time store platform s product ≡ (true, s')
      → platform.ping_server s' request ≡ none
      → (send_financial_ping base store platform s product r skip_time_check ≡ (false, s'))
        × ((view s').ping_time product ≡ some (platform.now s))
  unfolding send_financial_ping
  send_financial_ping_silent s s' product r skip request formed due updated silent =
      (rw (formed, due, updated, silent), update_stored store platform laws s s' product updated)

  -- Where the request is formed, it is time to ping and the update of the ping time succeeds, an
  -- answer of the server is parsed, and gives the result, in a state that has the present as the
  -- ping time of the product.
  pub send_financial_ping_answered :
      (s s' : S) (product : Product) (r : Request) (skip_time_check : Bool)
      (request response : Bytes)
      → form_request store platform s product r ≡ (true, request)
      → is_ping_time store platform s product skip_time_check ≡ true
      → update_last_ping_time store platform s product ≡ (true, s')
      → platform.ping_server s' request ≡ some response
      → (send_financial_ping base store platform s product r skip_time_check
          ≡ parse_ping_response base store platform s' product response)
        × ((view s').ping_time product ≡ some (platform.now s))
  unfolding send_financial_ping
  send_financial_ping_answered s s' product r skip request response formed due updated answer =
      (rw (formed, due, updated, answer), update_stored store platform laws s s' product updated)
