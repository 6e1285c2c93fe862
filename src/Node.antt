-- ===== src/Node.antt =====
-- `IPFSNode` of src/ipfs-node.ts: the wrapped datastore and the pins.
pub mod Pins
pub mod Pinning
pub mod Listing
pub mod Dictionary
mod Tests
