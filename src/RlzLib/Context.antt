-- ===== src/RlzLib/Context.antt =====
-- lib/rlz_lib.cc: SetURLRequestContext, with the value of g_context before the call.
use rlz.Prelude.{Bool, Option}
use rlz.ValueStore.{RlzValueStore}
use rlz.PingServer.Chrome

pub set_url_request_context :
    {S C : Type 0} → RlzValueStore S → S → Option C → Option C → Bool × Option C
set_url_request_context store s g_context context =
    Chrome.set_url_request_context store s g_context context
