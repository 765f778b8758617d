-- ===== src/Tests.antt =====
-- The theorems at concrete inputs, and runs of the definitions.
mod Numbers
mod Names
mod Stores
mod Threads
mod Responses
mod Pings
mod Deals
mod Dlls
mod Registries
mod Rights
mod Machines
mod Servers
mod Macs
mod Locks
mod Loops
