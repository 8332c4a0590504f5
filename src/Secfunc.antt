-- ===== src/Secfunc.antt =====
-- scripts/run_secfunc.py: the run of all security-functional checks. `Plan` has the phases and what is
-- said of a result, `Accounts` the provisioned accounts, `Run` the steps and `main`; the other children
-- are proofs. Text on the console is left out, but for the last line of the summary.
pub mod Plan
pub mod Accounts
pub mod Run
pub mod Selection
pub mod Bounds
pub mod Results
pub mod Retry
pub mod Removal
