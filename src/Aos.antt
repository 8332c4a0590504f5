-- ===== src/Aos.antt =====
-- drivers/aos.py (src/switchtest/drivers/aos.py): the driver of AOS switches. `Output` has the functions
-- on what a switch prints, `Wire` what the driver
-- calls outside, `Driver` the driver over its transports, `Sessions`, `Connection` and `Sends` what its
-- calls leave and send.
pub mod Output
pub mod Wire
pub mod Driver
pub mod Sessions
pub mod Connection
pub mod Sends
