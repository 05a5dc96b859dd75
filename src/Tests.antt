-- ===== src/Tests.antt =====
-- Small platforms that the assumptions hold of, and the theorems at concrete inputs over them.
pub mod Demo
pub mod Frame
mod Session
mod Checks
mod Diagnostics
mod Bank
mod Accounts
mod Rounds
mod Mysql
mod Handlers
mod Requests
mod Path
mod Startup
mod Service
mod Gate
mod Http
mod Text
mod Players
