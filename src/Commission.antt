-- ===== src/Commission.antt =====
-- scripts/commission.py: the first set-up of a factory-reset switch over the serial console. `Text` has the
-- functions on what the switch prints, `Stage` the data, `Login`, `Network` and `Services` the stages, `Run` the
-- run of the stages with its report; the other children are proofs. Text for the user is left out.
pub mod Text
pub mod Stage
pub mod Login
pub mod Network
pub mod Services
pub mod Run
pub mod Ends
pub mod Client
pub mod Progress
pub mod Success
pub mod Probing
pub mod Policy
pub mod Waiting
