-- ===== src/WinSystem.antt =====
-- The library as it is built for Windows: the value store in the registry, the machine identifier, the deal
-- code and PingServer over WinInet are put together over one state `R` of the machine. With the clock of
-- lib/financial_ping.cc and the functions of win/lib/rlz_lib_win.cc on the deal code.
use rlz.Prelude.{ℕ, ◌+◌, ◌*◌, ◌^◌, Bool, true, false, [], Option, none, some, Bytes}
use rlz.Base.{Base}
use rlz.ValueStore.{AccessType, RlzValueStore}
use rlz.Platform.{Platform}
use rlz.Registry.{Registry}
use rlz.Registry.Store.{registry_store}
use rlz.MachineDeal.{MachineKey, deal_code_get, set_from_ping_response}
use rlz.MachineId.{Cache, get_machine_id}
use rlz.RawMachineId.Windows.{MachineApi, get_raw_machine_id}
use rlz.PingServer.{Internet, Answer, ping_server}

-- FILETIME: two words of 32 bits.
pub record FileTime : Type 0 where
  pub high_date_time : ℕ
  pub low_date_time : ℕ

unfoldable pub get_system_time_as_int64 : FileTime → ℕ
get_system_time_as_int64 now_as_file_time =
    now_as_file_time.high_date_time * 2 ^ 32 + now_as_file_time.low_date_time

-- What the machine gives; `N` is a state of a connection and `Sid` the type of security identifiers.
pub record Machine (R N Sid : Type 0) : Type 0 where
  pub reg : Registry R
  pub key : MachineKey R
  pub has_access : R → AccessType → Bool
  pub clock : R → FileTime
  pub api : MachineApi Sid
  pub net : Internet N
  pub connection : R → N
  -- more steps than a response has bytes
  pub fuel : ℕ

-- The static variables as they are first.
abbrev pub no_id : Cache
no_id = record { calculated_id = []; calculated = false }

abbrev id_of : Bool × Option Bytes → Option Bytes
id_of (true, id) = id
id_of (false, id) = none

abbrev response_in : Answer → Option Bytes
response_in (some (true, response)) = some response
response_in _ = none

module _ {R N Sid : Type 0} (base : Base) (machine : Machine R N Sid) (brand : Bytes) where
  abbrev pub windows_store : RlzValueStore R
  windows_store = registry_store machine.reg machine.key.locks machine.has_access brand

  abbrev pub windows_platform : Platform R
  windows_platform = record {
    os_win = true;
    now = λ r. get_system_time_as_int64 (machine.clock r);
    brand = λ r. brand;
    machine_id =
        λ r. id_of (get_machine_id base no_id (get_raw_machine_id machine.api) (some [])).0;
    ping_server = λ r request.
        response_in (ping_server machine.net machine.fuel (machine.connection r) request).0;
    get_machine_deal_code = λ r size. deal_code_get machine.key r (some size);
    set_machine_deal_code_from_ping_response = set_from_ping_response base machine.key;
  }
