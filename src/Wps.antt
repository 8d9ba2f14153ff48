-- ===== src/Wps.antt =====
-- services/wps: the processing service.
mod Tests
pub mod Inputs
pub mod Jobs
pub mod Execute
