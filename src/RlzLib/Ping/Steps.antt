-- ===== src/RlzLib/Ping/Steps.antt =====
-- SendFinancialPing of lib/rlz_lib.cc and its steps as functions of their own.
use rlz.Prelude.{ℕ, ◌<◌, ◌≡◌, refl, true, false, leb, some, Bytes, length, arith}
use rlz.Enums.{Product}
use rlz.Base.{Base}
use rlz.ValueStore.{RlzValueStore}
use rlz.Platform.{Platform}
use rlz.FinancialPing.{Request, form_request, is_ping_time, update_last_ping_time}
use rlz.RlzLib.Ping.{
  form_financial_ping_request, ping_financial_server, parse_financial_ping_response,
  send_financial_ping,
}

module _ {S : Type 0} (base : Base) (store : RlzValueStore S) (platform : Platform S) where
  -- Where a request is formed, it is time to ping, the server gives the same response before and after the update
  -- of the ping time, and the buffers are larger than the request and the response: FormFinancialPingRequest gives
  -- the request, PingFinancialServer the response, and ParseFinancialPingResponse of it the same result and
  -- state as one call of SendFinancialPing.
  pub three_steps :
      (s : S) (product : Product) (r : Request) (request response : Bytes)
      (request_size response_size : ℕ)
      → form_request store platform s product r ≡ (true, request)
      → is_ping_time store platform s product false ≡ true
      → platform.ping_server s request ≡ some response
      → platform.ping_server (update_last_ping_time store platform s product).1 request
        ≡ some response
      → length request < request_size
      → length response < response_size
      → (form_financial_ping_request store platform s product r (some request_size)
          ≡ (true, request))
        × (ping_financial_server store platform s product request (some response_size)
            ≡ (true, response))
        × (parse_financial_ping_response base store platform s product response
            ≡ send_financial_ping base store platform s product r false)
  unfolding form_financial_ping_request ping_financial_server parse_financial_ping_response
      send_financial_ping
  three_steps s product r request response n m formed due before after fits room =
      let n_some : leb n 0 ≡ false = ground arith in
      let m_some : leb m 0 ≡ false = ground arith in
      let request_fits : leb n (length request) ≡ false = ground arith in
      let response_fits : leb m (length response) ≡ false = ground arith in
      (
        rw (n_some, formed, request_fits) refl,
        rw (m_some, due, before, response_fits) refl,
        rw (formed, due, after) refl,
      )
