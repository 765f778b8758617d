-- ===== src/Platform.antt =====
-- What the functions of lib/ use of the machine, the network and the Windows parts, over the state `S`
-- of the value store. A call reads the state that it is made in.
use rlz.Prelude.{ℕ, Bool, Option, Bytes}

pub record Platform (S : Type 0) : Type 0 where
  -- the macro OS_WIN
  pub os_win : Bool
  -- GetSystemTimeAsInt64, as a 64-bit pattern
  pub now : S → ℕ
  -- SupplementaryBranding::GetBrand
  pub brand : S → Bytes
  -- GetMachineId; `none` for the result false
  pub machine_id : S → Option Bytes
  -- FinancialPing::PingServer with a request: the response, `none` for the result false
  pub ping_server : S → Bytes → Option Bytes
  -- GetMachineDealCode into a buffer of the given size: the result and the buffer's text
  pub get_machine_deal_code : S → ℕ → Bool × Bytes
  -- SetMachineDealCodeFromPingResponse
  pub set_machine_deal_code_from_ping_response : S → Bytes → Bool × S
