-- ===== src/Backup/Saving.antt =====
-- `saveBackupPeers` followed by `loadBackupPeers`: src/backup-bootstrap/storage.ts.
use ipfs_shard.Shared.{List, [], ◌∷◌, map, true, some, Option, ◌≡◌, All, refl}
use ipfs_shard.Multiaddrs.{Multiaddrs}
use ipfs_shard.Backup.Storage.{Stored, get_stored, parse_all, load_backup_peers, save_backup_peers}

module _ (m : Multiaddrs) where
  -- The address can be written as text and read back.
  abbrev pub Printable : m.Addr → Type 0
  Printable a = m.parse (m.to_string a) ≡ some a

  parse_all-map :
      (addrs : List m.Addr) → All Printable addrs → parse_all m (map m.to_string addrs) ≡ some addrs
  unfolding parse_all
  parse_all-map [] p = refl
  parse_all-map (a ∷ addrs) (h, p) = rw (h, parse_all-map addrs p) refl

  -- Loading gives back the saved addresses, in order, if each is read back from its text; what
  -- was stored before does not matter.
  pub load_backup_peers-save :
      (addrs : List m.Addr) (old : Option Stored)
      → All Printable addrs
      → load_backup_peers m (get_stored (save_backup_peers m true addrs old)) ≡ addrs
  unfolding load_backup_peers save_backup_peers
  load_backup_peers-save addrs old p = rw (parse_all-map addrs p) refl
