-- ===== src/Announce/Status.antt =====
-- `getDHTStatus` and `setDHTStatus` of src/ipfs-node.ts. JSON with UTF-8 is an argument: the bytes
-- of a record, and the record in some bytes, if they have one.
use Prim.Native.String.{◌++◌ as text_append}
use ipfs_shard.Shared.{ℕ, List, Option, none, String}
use ipfs_shard.Multiformats.{Multiformats}
use ipfs_shard.Node.Pins.{Tried, returned, threw, Datastore}

pub data Status : Type 0 where
  pending success failed : Status

pub record AnnounceRecord : Type 0 where
  pub status : Status
  pub announced_at : ℕ
  pub error : Option String

pub record Json : Type 0 where
  pub stringify : AnnounceRecord → List ℕ
  pub parse : List ℕ → Option AnnounceRecord

module _ (m : Multiformats) (d : Datastore) (json : Json) where
  unfoldable pub status_key : m.Cid → String
  status_key cid = text_append "/local/dht-announces/" (m.to_string cid)

  -- Every exception, of the read or of `JSON.parse`, ends in `null`.
  abbrev pub parse_status : Tried (List ℕ) → Option AnnounceRecord
  parse_status (returned content) = json.parse content
  parse_status (threw err) = none

  unfoldable pub get_status : m.Cid → d.Store → Option AnnounceRecord
  unfolding status_key
  get_status cid s = parse_status (d.get (status_key cid) s)

  -- An exception is logged, and the store is as before.
  abbrev pub or_unchanged : d.Store → Tried d.Store → d.Store
  or_unchanged s (returned s') = s'
  or_unchanged s (threw err) = s

  unfoldable pub set_status : m.Cid → AnnounceRecord → d.Store → d.Store
  unfolding status_key
  set_status cid r s = or_unchanged s (d.put (status_key cid) (json.stringify r) s)
