-- ===== src/RawMachineId.antt =====
-- GetRawMachineId of the platforms: win/lib/machine_id_win.cc and mac/lib/machine_id_mac.cc.
pub mod Windows
pub mod Mac
