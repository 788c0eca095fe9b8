-- ===== src/Competition.antt =====
-- The `competition` application: its data, and the services that change it.
pub mod Model
pub mod Ranking
pub mod Eligibility
pub mod Enrollment
pub mod Snapshot
pub mod Leaderboard
pub mod Promotion
pub mod Removal
pub mod Generation
