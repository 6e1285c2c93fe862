-- ===== src/Metrics.antt =====
-- The gauges of src/metrics.ts that the node's state sets.
pub mod Update
pub mod Stale
pub mod Tests
