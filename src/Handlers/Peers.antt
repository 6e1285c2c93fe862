-- ===== src/Handlers/Peers.antt =====
-- `handlePeers` of src/api/peers.ts. The texts of a connection are read once, by `toString`; the part
-- of the path that is read as the peer id is an argument.
use ipfs_shard.Shared.{
  ℕ, List, [], ◌∷◌, map, length, Option, none, some, String, str_eq, if◌then◌else◌,
}
use ipfs_shard.Shared.Assoc.{insert, add}
use ipfs_shard.Handlers.Answers.{Answer, ok, refused}
use ipfs_shard.Handlers.Stats.{ConnDirection}

pub record Connection : Type 0 where
  pub remote_peer : String
  pub remote_addr : Option String
  pub direction : ConnDirection

pub record Peer : Type 0 where
  pub peer : String
  pub addr : String
  pub direction : ConnDirection

pub data PeersContent : Type 0 where
  peer_ids : List String → ℕ → PeersContent
  detailed_peers : List Peer → PeersContent
  detailed_peer : Peer → PeersContent

pub data PeersAction : Type 0 where
  list detailed : PeersAction
  detailed_single : String → PeersAction

-- `text || 'unknown'`
abbrev pub or_unknown : Option String → String
or_unknown none = "unknown"
or_unknown (some s) = if str_eq s "" then "unknown" else s

abbrev pub peer_of : Connection → Peer
peer_of c = record {
  peer = c.remote_peer;
  addr = or_unknown c.remote_addr;
  direction = c.direction;
}

-- `new Set(…)`
unfoldable pub set_of : List Connection → List String → List String
unfolding add
set_of [] ids = ids
set_of (c ∷ cs) ids = set_of cs (add c.remote_peer ids)

-- `new Map(…)`
unfoldable pub map_of : List Connection → List (String × Connection) → List (String × Connection)
unfolding insert
map_of [] by_peer = by_peer
map_of (c ∷ cs) by_peer = map_of cs (insert c.remote_peer c by_peer)

abbrev pub values : {A : Type 0} → List (String × A) → List A
values [] = []
values ((key, v) ∷ entries) = v ∷ values entries

unfoldable pub find : String → List Connection → Option Connection
find peer_id [] = none
find peer_id (c ∷ cs) = if str_eq c.remote_peer peer_id then some c else find peer_id cs

abbrev pub matched : String → Option Connection → Answer PeersContent
matched peer_id none = refused 404 "Peer not connected"
matched peer_id (some c) = ok (detailed_peer (record (peer_of c) { peer = peer_id }))

unfoldable pub handle_peers : PeersAction → List Connection → Answer PeersContent
unfolding set_of map_of find
handle_peers list cs = let ids = set_of cs [] in ok (peer_ids ids (length ids))
handle_peers detailed cs = ok (detailed_peers (map peer_of (values (map_of cs []))))
handle_peers (detailed_single peer_id) cs = matched peer_id (find peer_id cs)
