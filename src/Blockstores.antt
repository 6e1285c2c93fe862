-- ===== src/Blockstores.antt =====
-- The two wrappers around the S3 blockstore: src/blockstore-cache.ts and src/blockstore-network.ts.
-- The wrapped store, of the package `interface-blockstore`, is not part of the repository: here is
-- what the wrappers use of it, on a state of its own.
pub mod Cache
pub mod Caching
pub mod Truncation
pub mod Network
pub mod Stages
pub mod Retrieval
pub mod Dictionary
mod Tests
