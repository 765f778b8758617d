-- ===== src/Lib.antt =====
-- The RLZ library: it keeps RLZ strings (one per access point) and events (per product) in a value
-- store, reports them to a server in a financial ping, and carries out the server's response.
--
-- The parts, and the files that model them:
--   StringUtils   lib/string_utils.cc: hexadecimal text and bytes.
--   Crc8          lib/crc8.cc: the checksum of the machine identifier.
--   Crc32         lib/crc32_wrapper.cc: the checksum of a ping response, over zlib's crc32.
--   Enums, LibValues  lib/rlz_enums.h and lib/lib_values.cc: access points, products and events, their
--                 names and the searches by name, the CGI words and the ping intervals.
--   ValueStore    lib/rlz_value_store.h: the class RlzValueStore and its lock as a record of
--                 operations over a state type, ValueStore/Writes its calls as values, StoreFrames what
--                 the calls that write leave alone. StoreLaws is the header's contract over the View of a
--                 state, and StoreContract both, where a store says itself which names of events are one; ValueStore/Memory has
--                 a store that meets it, Registry/Store the one of Windows, MacStore/Store that of Mac.
--   RlzLib        lib/rlz_lib.cc and lib/rlz_lib_clear.cc. Normalize has NormalizeRlz and
--                 IsAccessPointSupported; AccessPoints GetAccessPointRlz and SetAccessPointRlz; Events
--                 RecordProductEvent, RecordStatefulEvent and ClearProductEvent; EventsCgi
--                 GetProductEventsAsCgi; PingParams GetPingParams; Response IsPingResponseValid,
--                 GetEventsFromResponseString and ParsePingResponse (Response/Acknowledged takes a
--                 response from its text to the store); Ping the functions that form, send
--                 and parse a ping; Clear ClearAllProductEvents, ClearProductState and
--                 SupplementaryBranding (Clear/State takes ClearProductState as a whole); Context
--                 SetURLRequestContext.
--   FinancialPing lib/financial_ping.cc: FormRequest, IsPingTime and the ping time.
--   PingServer    PingServer of the same file over WinInet: the handles and the loop of the reads. In
--                 PingServer/Chrome the same over Chrome's network stack, with SetURLRequestContext.
--   MachineId     lib/machine_id.cc: GetMachineId with its cache, and GetMachineIdImpl.
--   MachineDeal   win/lib/machine_deal.cc, with RegKeyReadValue of win/lib/registry_util.cc: the machine
--                 deal code in the registry and in a ping response. Platform has its functions as
--                 parameters for the ping.
--   Registry      the registry under HKEY_CURRENT_USER as base::win::RegKey gives it: a record of
--                 operations, what is documented of them (Laws), and a registry for which that holds
--                 (Sample). Registry/Store is win/lib/rlz_value_store_registry.cc: Locations has its keys,
--                 Effects what an operation comes down to, Changes and Views what that means for a client,
--                 Contract the laws of the value store, Listing ReadProductEvents, Unverified the checks
--                 after a deletion, Brands the keys under two brands, Garbage CollectGarbage, Frames
--                 what the calls that write leave alone, and the whole contract.
--   AccessControl win/lib/rlz_lib_win.cc: HasAccess and CreateMachineState, over the security API.
--   ProcessInfo   win/lib/process_info.cc, with HasUserKeyAccess of win/lib/registry_util.cc: the rights of
--                 the process, over the token API, with the static variables as a state.
--   LibMutex      win/lib/lib_mutex.cc: the mutex between processes, over the API of the kernel.
--   RawMachineId  GetRawMachineId of win/lib/machine_id_win.cc and of mac/lib/machine_id_mac.cc, over the
--                 API of Windows and over what IOKit gives.
--   MacStore      mac/lib/rlz_value_store_mac.mm: Dict the dictionaries of a property list, Store the class
--                 RlzValueStoreMac with the laws of the value store (Views, Changes, Events, Points,
--                 Contract) with its brands (Brands) and the frames of its calls (Frames), Lock the lock
--                 of the store and its nesting in one thread, Threads that lock between the threads
--                 of a process, with the store object and all the CHECKs: a step is one access of what they
--                 share, or a few under the mutex, a state is reached by any steps of any threads.
--   WinSystem     the library as it is built for Windows: the value store in the registry, the machine
--                 identifier, the deal code, the clock of lib/financial_ping.cc and PingServer over WinInet
--                 as the parameters of the library's functions.
--   WinDll        win/dll/exports.cc over that, with the forwards of win/lib/rlz_lib_win.cc.
--   Base          what the code calls of the Chromium base library and of zlib, with the documented
--                 behaviour that the proofs rely on; Base/Sample shows that it can hold.
--   Platform      the clock, the network, the brand, the machine identifier and the machine deal code,
--                 as parameters.
--   Tests         the theorems at concrete inputs, and runs of the definitions.
--
-- How it is modelled. A function that returns bool and writes through a pointer returns both results;
-- a NULL pointer is `none`. A C string or std::string is a list of bytes. Code that changes the store
-- takes the state and returns the new one. Numbers are natural numbers: an int that wraps is a 32-bit
-- pattern, a time a 64-bit pattern, with the remainder written out. GetProductEventsAsCgi also records
-- the highest index that it writes, so that bounds can be stated. The loops are structural recursions on
-- a list, a text or a number, but for these: the loop of ReadProductEvents has as fuel one more than the
-- values that the registry lists in the key, and the loop of PingServer has fuel as an argument, which is
-- enough when it is more than the bytes that are to be read, or over Chrome's network stack more than the
-- events before one that quits the message loop; the calls of GetResponseLine have two more
-- than the length of the text, and the lock of Mac has its 26 tries. A read of the store of Mac drops the
-- empty dictionaries that the code creates on the way, which show nothing to a client. The registry
-- compares names with no regard to case; a key that is opened with KEY_WRITE cannot be queried.
--
-- Not modelled: the clock outside Windows, which is arithmetic on floating-point numbers; the files of the
-- store of Mac and their paths; CopyRegistryTree and InitializeTempHivesForTesting of win/lib/rlz_lib_win.cc,
-- which serve tests; the calls of IOKit, of the Windows API and of Chrome's message loop, which are parameters;
-- and assertions, which have no effect in a release build.
pub mod Prelude
pub mod StringUtils
pub mod Enums
pub mod LibValues
pub mod Base
pub mod Crc8
pub mod Crc32
pub mod ValueStore
pub mod Platform
pub mod RlzLib
pub mod FinancialPing
pub mod MachineId
pub mod MachineDeal
pub mod Registry
pub mod AccessControl
pub mod ProcessInfo
pub mod PingServer
pub mod RawMachineId
pub mod MacStore
pub mod LibMutex
pub mod WinSystem
pub mod WinDll
pub mod Tests
