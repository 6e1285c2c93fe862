-- ===== src/Codec.antt =====
-- The bitswap message format of src/bitswap-codec.ts: fields, encoders, decoders.
pub mod Fields
pub mod Encode
pub mod Decode
pub mod Concat
pub mod Layout
pub mod Steps
pub mod Parts
pub mod Messages
pub mod CidPrefix
pub mod Hanging
pub mod Short
pub mod Ending
mod Tests
