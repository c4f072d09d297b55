-- ===== src/Tests.antt =====
-- Runs of the definitions at concrete inputs, and the properties applied to them.
pub mod Fixtures
pub mod Devices
pub mod Listeners
pub mod Collector
pub mod Access
pub mod Telemetry
pub mod Consoles
