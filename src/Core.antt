-- ===== src/Core.antt =====
-- The `core` application: what the other applications share.
pub mod Scoring
