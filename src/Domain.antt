-- ===== src/Domain.antt =====
-- The data model (src/switchtest/domain): enums, testcases, results, the runtime context, devices.
pub mod Enums
pub mod TestCase
pub mod Results
pub mod Runtime
pub mod Lab
pub mod Devices
