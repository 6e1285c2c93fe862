-- ===== src/Handlers/PeerLists.antt =====
-- The three views of the connected peers in src/api/peers.ts agree.
use ipfs_shard.Shared.{
  List, [], ◌∷◌, ◌++◌, map, length, Bool, true, false, ◌||◌, Option, none, some, String, str_eq,
  eq_iff, ◌≡◌, refl, sym, ap, ◌∙◌, inl, inr, arith, Bool-cases, Option-cases, if◌then◌else◌,
}
use ipfs_shard.Shared.Assoc.{insert, has, add, has-add, Distinct, Distinct-add}
use ipfs_shard.Handlers.Answers.{ok, refused}
use ipfs_shard.Handlers.Peers.{
  Connection, Peer, peer_ids, detailed_peers, detailed_peer, list, detailed, detailed_single,
  peer_of, set_of, map_of, values, find, matched, handle_peers,
}

-- The ids under which connections stand, each with its own.
abbrev keys_of : List (String × Connection) → List String
keys_of [] = []
keys_of ((key, c) ∷ entries) = key ∷ keys_of entries

abbrev Keyed : List (String × Connection) → Type 0
Keyed [] = Unit
Keyed ((key, c) ∷ entries) = (c.remote_peer ≡ key) × Keyed entries

keys_of-insert :
    (key : String) (c : Connection) (entries : List (String × Connection))
    → keys_of (insert key c entries) ≡ add key (keys_of entries)
unfolding insert add has
keys_of-insert key c [] = refl
keys_of-insert key c ((j, d) ∷ entries) = elim (Bool-cases (str_eq j key)) [
  | inl here ↦ rw here refl
  | inr away ↦
      rw away (ap (◌∷◌ j) (keys_of-insert key c entries) ∙ deeper (has key (keys_of entries)))
]
  where
    deeper :
        (b : Bool)
        → j ∷ (if b then keys_of entries else keys_of entries ++ (key ∷ []))
          ≡ (if b then j ∷ keys_of entries else j ∷ (keys_of entries ++ (key ∷ [])))
    deeper true = refl
    deeper false = refl

Keyed-insert :
    (c : Connection) (entries : List (String × Connection))
    → Keyed entries
    → Keyed (insert c.remote_peer c entries)
unfolding insert
Keyed-insert c [] keyed = (refl, tt)
Keyed-insert c ((j, d) ∷ entries) (own, keyed) = elim (Bool-cases (str_eq j c.remote_peer)) [
  | inl here ↦ rw here (sym ((eq_iff j c.remote_peer).0 here), keyed)
  | inr away ↦ rw away (own, Keyed-insert c entries keyed)
]

names_of-Keyed :
    (entries : List (String × Connection))
    → Keyed entries
    → map (λ (p : Peer). p.peer) (map peer_of (values entries)) ≡ keys_of entries
names_of-Keyed [] keyed = refl
names_of-Keyed ((key, c) ∷ entries) (own, keyed) = cc (own, names_of-Keyed entries keyed)

map_of-set_of :
    (cs : List Connection) (entries : List (String × Connection))
    → Keyed entries
    → (keys_of (map_of cs entries) ≡ set_of cs (keys_of entries)) × Keyed (map_of cs entries)
unfolding map_of set_of
map_of-set_of [] entries keyed = (refl, keyed)
map_of-set_of (c ∷ cs) entries keyed =
    let (keys, own) =
      map_of-set_of cs (insert c.remote_peer c entries) (Keyed-insert c entries keyed) in
    (keys ∙ ap (set_of cs) (keys_of-insert c.remote_peer c entries), own)

Distinct-set_of :
    (cs : List Connection) (ids : List String) → Distinct ids → Distinct (set_of cs ids)
unfolding set_of
Distinct-set_of [] ids d = d
Distinct-set_of (c ∷ cs) ids d =
    Distinct-set_of cs (add c.remote_peer ids) (Distinct-add c.remote_peer ids d)

abbrev found : Option Connection → Bool
found none = false
found (some c) = true

has-set_of :
    (peer_id : String) (cs : List Connection) (ids : List String)
    → has peer_id (set_of cs ids) ≡ (found (find peer_id cs) || has peer_id ids)
unfolding set_of find
has-set_of peer_id [] ids = refl
has-set_of peer_id (c ∷ cs) ids = elim (Bool-cases (str_eq c.remote_peer peer_id)) [
  | inl here ↦ ground (
    arith,
    has-set_of peer_id cs (add c.remote_peer ids),
    has-add c.remote_peer peer_id ids,
    here,
  )
  | inr away ↦ ground (
    arith,
    has-set_of peer_id cs (add c.remote_peer ids),
    has-add c.remote_peer peer_id ids,
    away,
  )
]

-- What `/peers/detailed/<id>` must answer.
abbrev pub Single : String → List Connection → Bool → Type 0
Single peer_id cs true =
    (p : Peer) × ((handle_peers (detailed_single peer_id) cs ≡ ok (detailed_peer p))
      × (p.peer ≡ peer_id))
Single peer_id cs false =
    handle_peers (detailed_single peer_id) cs ≡ refused 404 "Peer not connected"

matched-Single :
    (peer_id : String) (cs : List Connection) → Single peer_id cs (has peer_id (set_of cs []))
unfolding handle_peers
matched-Single peer_id cs = elim (Option-cases (find peer_id cs)) [
  | inl e ↦ rw (has-set_of peer_id cs [], e) (ap (matched peer_id) e)
  | inr (c, e) ↦
      rw (has-set_of peer_id cs [], e)
        (record (peer_of c) { peer = peer_id }, (ap (matched peer_id) e, refl))
]

-- `/peers` lists each connected peer once; `/peers/detailed` has one entry for each of them, in the same
-- order, however many connections there are; and `/peers/detailed/<id>` is answered with an entry for
-- that id exactly if `/peers` lists the id, and else with 404.
pub handle_peers-Single :
    (cs : List Connection)
    → (ids : List String) × ((peers : List Peer) × ((handle_peers list cs
            ≡ ok (peer_ids ids (length ids)))
          × ((handle_peers detailed cs ≡ ok (detailed_peers peers))
              × ((Distinct ids × (map (λ (p : Peer). p.peer) peers ≡ ids))
                  × ((peer_id : String) → Single peer_id cs (has peer_id ids))))))
unfolding handle_peers Distinct
handle_peers-Single cs =
    let (keys, keyed) = map_of-set_of cs [] tt in
    (
      set_of cs [],
      (
        map peer_of (values (map_of cs [])),
        (
          refl,
          (
            refl,
            (
              (Distinct-set_of cs [] tt, names_of-Keyed (map_of cs []) keyed ∙ keys),
              λ peer_id. matched-Single peer_id cs,
            ),
          ),
        ),
      ),
    )
