-- ===== src/Console.antt =====
-- console/client.py (src/switchtest/infrastructure/console): the transport over a serial console. `Text` has the patterns
-- and the functions on what was read, `Port` the serial port with the loops that read, `Session` the login, the commands
-- and the life of the connection; the other children are proofs.
pub mod Text
pub mod Port
pub mod Session
pub mod Fuel
pub mod Frame
pub mod Life
pub mod Operations
pub mod Close
pub mod Output
pub mod Ansi
