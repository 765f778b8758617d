-- ===== src/MacStore.antt =====
-- mac/lib/rlz_value_store_mac.mm: the value store in a property list, and its lock.
pub mod Dict
pub mod Store
pub mod Lock
pub mod Threads
