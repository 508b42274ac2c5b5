-- ===== src/Tests.antt =====
-- The theorems at concrete inputs.
mod Output
mod Names
mod Codec
mod Runs
mod Locks
mod Wire
mod Whole
mod Owners
mod Commands
mod Disks
mod Endings
mod Starts
mod Served
mod Machines
