-- ===== src/Tests.antt =====
-- Tests of the definitions, and the theorems at concrete inputs.
mod Samples
mod Servers
mod Streams
mod Pools
mod Messages
mod Shutdown
mod Requests
mod Turns
mod Sessions
mod Settings
mod Registry
mod Wholes
mod Exits
mod Smokes
mod Faults
mod Histories
