-- ===== src/Execution.antt =====
-- execution_service.py (src/switchtest/services/execution_service.py): `Steps` has the session that a
-- testcase mutates and `_run_steps`, `RunTest` has `run_test`; the other children are proofs.
pub mod Steps
pub mod RunTest
mod Frame
mod Cleanup
mod Verdict
mod Tried
pub mod Outcome
pub mod DryRun
