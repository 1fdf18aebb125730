-- ===== src/Tests.antt =====
-- Concrete runs of the theorems.
mod Agents
mod Wire
mod Shaping
mod Counters
mod Backends
mod Pools
mod Texts
mod Imports
mod Passes
