-- ===== src/Multiaddrs.antt =====
-- What the program uses of the package `@multiformats/multiaddr`, which is not part of the
-- repository: the peer id of an address, if it has one, its text, and the parsing of a text.
use ipfs_shard.Shared.{String, Option}

pub record Multiaddrs : Type 1 where
  pub Addr : Type 0
  pub peer_id : Addr → Option String
  pub to_string : Addr → String
  pub parse : String → Option Addr
