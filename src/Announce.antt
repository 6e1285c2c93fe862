-- ===== src/Announce.antt =====
-- The announcements of content to the DHT: their record in the datastore (src/ipfs-node.ts),
-- `announceContent` (src/api/dht.ts) and the re-provide loop (src/reprovide.ts).
pub mod Status
pub mod Events
pub mod Keys
pub mod Soundness
pub mod Reproviding
pub mod Frame
pub mod Encoding
mod Tests
