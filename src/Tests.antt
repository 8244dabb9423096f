-- ===== src/Tests.antt =====
-- Concrete states, runs of the code on them, and the theorems at them.
mod States
mod Lists
mod Timers
mod Sync
mod Calls
mod Hooks
mod Rounds
mod Switch
mod Waits
mod Env
mod Registers
mod Wakes
mod Hosts
mod Life
mod Clocks
mod Served
mod Signals
mod Polls
mod Names
