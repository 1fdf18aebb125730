-- ===== src/Stats.antt =====
-- Traffic counters and the statistics cache (internal/stats).
pub mod Lifetime
pub mod Cache
