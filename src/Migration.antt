-- ===== src/Migration.antt =====
-- src/migration: the migrator.
pub mod History
pub mod Migrator
pub mod Loop
pub mod Run
pub mod Outcomes
pub mod Entries
pub mod Checks
pub mod Database
pub mod Progress
pub mod Steps
pub mod Completion
pub mod Tracking
pub mod Flags
pub mod CleanUp
pub mod Totality
pub mod Toy
pub mod Samples
