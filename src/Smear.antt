-- ===== src/Smear.antt =====
-- The reducer-owned state of the smear-cursor plugin, nvim/rust/plugins/smear-cursor/src.
pub mod Types
pub mod Payloads
pub mod Timers
pub mod Demand
pub mod Policy
pub mod Cleanup
pub mod Probe
pub mod Protocol
pub mod Reducer
pub mod Agenda
pub mod Dispatch
pub mod LruCache
