-- ===== src/Smear/Protocol.antt =====
-- The state of the reducer: smear-cursor/src/core/state/protocol.rs.
pub mod Phase
pub mod Core
pub mod Setters
pub mod Moves
pub mod Steps
pub mod Edges
pub mod Generations
pub mod Retention
pub mod Proposals
