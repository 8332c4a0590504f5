-- ===== src/Orchestrator.antt =====
-- orchestrator.py (src/switchtest/orchestrator.py) with the baseline, recovery and metadata services
-- (src/switchtest/services): `Services` has the three small services, `Suite` has `run_suite`; the
-- other children are proofs. Console output (`typer.echo`) is left out: nothing reads it.
pub mod Services
pub mod Suite
pub mod Rounds
pub mod Loop
pub mod Status
pub mod Disconnect
