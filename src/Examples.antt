-- ===== src/Examples.antt =====
-- Tests, and the theorems at concrete inputs.
mod Setting
mod Settings
mod Server
mod Storages
mod Meters
mod Ideal
mod Sleepers
mod Tasks
mod Stats
mod Limits
mod Rates
mod Checkers
mod Disk
mod Stores
mod Configs
mod Sources
mod Logs
mod Steps
mod Starts
