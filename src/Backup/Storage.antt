-- ===== src/Backup/Storage.antt =====
-- `loadBackupPeers` and `saveBackupPeers` of src/backup-bootstrap/storage.ts. The datastore holds
-- at most one entry under the key; JSON of an array of texts stands for the array.
use ipfs_shard.Shared.{List, [], ◌∷◌, map, Bool, Option, none, some, String, if◌then◌else◌}
use ipfs_shard.Multiaddrs.{Multiaddrs}

-- The bytes under the key: the JSON of an array of texts, or something that does not parse so.
pub data Stored : Type 0 where
  texts : List String → Stored
  garbage : Stored

-- What `datastore.get` does.
pub data Got : Type 0 where
  value : Stored → Got
  not_found : Got
  failed : Got

abbrev pub cons_addr {ℓ} : {A : Type ℓ} → Option A → Option (List A) → Option (List A)
cons_addr none rest = none
cons_addr (some a) none = none
cons_addr (some a) (some rest) = some (a ∷ rest)

abbrev pub or_empty {ℓ} : {A : Type ℓ} → Option (List A) → List A
or_empty none = []
or_empty (some addrs) = addrs

module _ (m : Multiaddrs) where
  -- `json.map(addr => multiaddr(addr))`; one text that is no address makes it throw.
  unfoldable pub parse_all : List String → Option (List m.Addr)
  parse_all [] = some []
  parse_all (s ∷ ss) = cons_addr (m.parse s) (parse_all ss)

  unfoldable pub load_backup_peers : Got → List m.Addr
  load_backup_peers (value (texts ss)) = or_empty (parse_all ss)
  load_backup_peers (value garbage) = []
  load_backup_peers not_found = []
  load_backup_peers failed = []

  -- `puts` says if `datastore.put` succeeds; an exception is caught and logged.
  unfoldable pub save_backup_peers : Bool → List m.Addr → Option Stored → Option Stored
  save_backup_peers puts peers old = if puts then some (texts (map m.to_string peers)) else old

-- A datastore whose `get` succeeds.
abbrev pub get_stored : Option Stored → Got
get_stored none = not_found
get_stored (some s) = value s
