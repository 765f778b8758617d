-- ===== src/RlzLib.antt =====
-- lib/rlz_lib.cc, lib/rlz_lib_clear.cc: the functions of the library over a value store.
pub mod Normalize
pub mod Events
pub mod EventsCgi
pub mod AccessPoints
pub mod PingParams
pub mod Response
pub mod Ping
pub mod Clear
pub mod Context
