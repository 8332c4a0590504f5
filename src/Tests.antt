-- ===== src/Tests.antt =====
-- A bench with one switch, one agent and one tester, and the theorems at concrete runs on it.
pub mod Bench
mod Validation
pub mod Execution
mod Suite
pub mod Application
mod Aos
mod Secfunc
pub mod Commission
pub mod Console
mod Client
mod Snmp
