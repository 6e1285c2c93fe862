-- ===== src/Backup.antt =====
-- The backup bootstrap peers: src/backup-bootstrap/.
pub mod Selector
pub mod Storage
pub mod Rounds
pub mod Backfill
pub mod Distinct
pub mod Selection
pub mod Official
pub mod Filling
pub mod Saving
pub mod Running
pub mod Isolation
mod Tests
