-- ===== src/Backup/Selector.antt =====
-- `selectPeersToSave` of src/backup-bootstrap/selector.ts. The random order is an argument.
use ipfs_shard.Shared.{
  ℕ, List, [], ◌∷◌, ◌++◌, Bool, true, false, not, Option, none, some, String, str_eq, length, take,
  leb, ltb, ◌&&◌, if◌then◌else◌,
}
use ipfs_shard.Shared.Assoc.{has, add}
use ipfs_shard.Multiaddrs.{Multiaddrs}

abbrev pub max_backup_peers : ℕ
max_backup_peers = 20

-- JavaScript takes an empty text for false.
unfoldable pub truthy : Option String → Option String
truthy none = none
truthy (some id) = if str_eq id "" then none else some id

unfoldable pub add_id : Option String → List String → List String
add_id none ids = ids
add_id (some id) ids = add id ids

unfoldable pub is_unofficial : List String → Option String → Bool
is_unofficial official none = true
is_unofficial official (some id) = not (has id official)

-- Is the address one that the backfill takes?
unfoldable pub is_new : Option String → List String → Bool
is_new none ids = false
is_new (some id) ids = not (has id ids)

module _ (m : Multiaddrs) where
  abbrev pub id_of : m.Addr → Option String
  id_of a = truthy (m.peer_id a)

  -- The loops that fill a `Set` of peer ids.
  unfoldable pub collect_ids : List m.Addr → List String → List String
  collect_ids [] ids = ids
  collect_ids (a ∷ addrs) ids = collect_ids addrs (add_id (id_of a) ids)

  unfoldable pub without_official : List String → List m.Addr → List m.Addr
  without_official official [] = []
  without_official official (a ∷ addrs) =
      let rest = without_official official addrs in
      if is_unofficial official (id_of a) then a ∷ rest else rest

  unfoldable pub backfill : ℕ → List m.Addr → List m.Addr → List String → List m.Addr
  backfill max [] result ids = result
  backfill max (a ∷ previous) result ids = elim (leb max (length result)) [
    | true ↦ result
    | false ↦ elim (is_new (id_of a) ids) [
      | true ↦ backfill max previous (result ++ (a ∷ [])) (add_id (id_of a) ids)
      | false ↦ backfill max previous result ids
    ]
  ]

  unfoldable pub has_any : List m.Addr → Bool
  has_any [] = false
  has_any (a ∷ addrs) = true

  unfoldable pub select_peers_to_save :
      (List m.Addr → List m.Addr) → List m.Addr → List m.Addr → List m.Addr → ℕ → List m.Addr
  select_peers_to_save shuffle [] official previous max = []
  select_peers_to_save shuffle (a ∷ addrs) official previous max =
      let filtered = without_official (collect_ids official []) (shuffle (a ∷ addrs)) in
      let result = take max filtered in
      if ltb (length result) max && has_any previous
      then backfill max previous result (collect_ids result [])
      else result
