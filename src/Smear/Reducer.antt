-- ===== src/Smear/Reducer.antt =====
-- The reducer that drives the protocol: smear-cursor/src/core/reducer and core/event.rs.
pub mod Config
pub mod Snapshot
pub mod ProbePolicy
pub mod Effects
pub mod Delays
pub mod Requests
pub mod Cleaning
pub mod Planning
pub mod Observing
pub mod ProbeReports
pub mod Probes
pub mod Clocks
pub mod Applying
pub mod Reports
pub mod Machine
