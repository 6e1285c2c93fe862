-- ===== src/Bitswap.antt =====
-- `SimpleBitswap` of src/bitswap.ts: the framing of the read loop, the wants, the stream pool.
pub mod Frames
pub mod FrameSteps
pub mod Framing
pub mod State
pub mod Streams
pub mod Wants
pub mod Messages
mod Tests
