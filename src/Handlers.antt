-- ===== src/Handlers.antt =====
-- The handlers of the HTTP API, one file of src/api/ after another.
pub mod Answers
pub mod Pins
pub mod Dht
pub mod Claims
pub mod Pinned
pub mod Paths
pub mod Blocks
pub mod Retrieving
pub mod Segments
pub mod Counts
pub mod Stats
pub mod Inherited
pub mod Numbers
pub mod Agents
pub mod BlockStat
pub mod Sizes
pub mod Peers
pub mod PeerLists
pub mod Connections
pub mod Contacting
pub mod Health
pub mod Dispatch
pub mod Safe
mod Tests
mod StatsTests
mod DispatchTests
