-- ===== src/Bandwidth.antt =====
-- Traffic shaping (internal/bandwidth): the plan of tc commands and the enforcer that runs them.
pub mod Plan
pub mod State
pub mod Devices
pub mod Enforcer
pub mod Moves
pub mod Trace
pub mod Synced
pub mod Settled
pub mod Rates
