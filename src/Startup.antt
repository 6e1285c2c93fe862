-- ===== src/Startup.antt =====
-- The start of the program: src/index.ts, src/startup/ and what they configure.
pub mod Env
pub mod Storage
pub mod Buckets
pub mod Waiting
pub mod Loops
pub mod Dialling
pub mod Still
pub mod Resuming
pub mod Shutdown
pub mod Sharding
pub mod Logging
pub mod Main
pub mod Order
mod Tests
