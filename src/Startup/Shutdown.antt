-- ===== src/Startup/Shutdown.antt =====
-- Nothing that the background loops of src/startup/loops.ts do is left after their stop functions were
-- called: with src/backup-bootstrap/index.ts and src/reprovide.ts.
use ipfs_shard.Shared.{[]}
use ipfs_shard.Multiformats.{Multiformats}
use ipfs_shard.Multiaddrs.{Multiaddrs}
use ipfs_shard.Node.Pins.{Datastore}
use ipfs_shard.Announce.Status.{Json}
use ipfs_shard.Announce.Events.{success_at, Provide, reprovide_cid, reprovide_all}
use ipfs_shard.Announce.Events
use ipfs_shard.Backup.Rounds.{Dial, dial_all}
use ipfs_shard.Backup.Rounds
use ipfs_shard.Startup.Loops.{Background}
use ipfs_shard.Startup.Still.{Halted, Still}

module _ (m : Multiformats) (a : Multiaddrs) (d : Datastore) (json : Json) where
  abbrev Idle : Background m a d json → Background m a d json → Type 0
  Idle w w' = Halted m a d json w' × Still m a d json [] w.announcing.store w w'
