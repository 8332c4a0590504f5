-- ===== src/Validation.antt =====
-- validation_service.py (src/switchtest/services/validation_service.py): `Probes` has what the handlers
-- call and the shared helpers, `Checks` the handlers that read an output or a probe, `Snmp` those that
-- exchange SNMP requests, `Trap` the one that waits for a trap, `Service` the dispatch.
pub mod Probes
pub mod Checks
pub mod Snmp
pub mod Trap
pub mod Service
pub mod Report
pub mod Agent
pub mod Restore
pub mod TrapRestore
