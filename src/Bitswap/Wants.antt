-- ===== src/Bitswap/Wants.antt =====
-- The wants: `want` with its abort listener, the received blocks of `_handleMessage`, and `stop`
-- of src/bitswap.ts.
pub mod Promises
pub mod Accounting
pub mod StaleAbort
use ipfs_shard.Shared.{
  ℕ, ◌+◌, List, [], ◌∷◌, ◌++◌, Option, none, some, String, true, ◌==◌, if◌then◌else◌,
}
use ipfs_shard.Shared.Assoc.{lookup, insert, remove}
use ipfs_shard.Multiformats.{Multiformats}
use ipfs_shard.Bitswap.State.{
  StreamInfo, Outcome, resolved, rejected, settle, PendingWant, Bitswap, World,
}

unfoldable pub drop_storing : ℕ → List (ℕ × List ℕ) → List (ℕ × List ℕ)
drop_storing d [] = []
drop_storing d ((e, content) ∷ s) =
    if e == d then drop_storing d s else (e, content) ∷ drop_storing d s

abbrev pub streams_of : List (String × StreamInfo) → List ℕ
streams_of [] = []
streams_of ((peer, info) ∷ pool) = info.stream ∷ streams_of pool

-- `streamInfo.closed = true` for every entry.
abbrev pub close_all : List (String × StreamInfo) → List (String × StreamInfo)
close_all [] = []
close_all ((peer, info) ∷ pool) = (peer, record info { closed = true }) ∷ close_all pool

module _ (m : Multiformats) where
  -- The entry of the wanted CID if there is one, else a new one; the number is the deferred whose
  -- promise the caller gets. The broadcast that a new want starts is `broadcast_want`.
  unfoldable pub want : m.Cid → World m → World m × ℕ
  want cid w =
      let key = m.to_string cid in
      let pending : PendingWant m = record {
        deferred = w.issued;
        cid = cid;
        broadcasted_to = [];
      } in
      elim (lookup key w.node.pending_wants) [
        | some existing ↦ (w, existing.deferred)
        | none ↦ (
          record w {
            node = record w.node { pending_wants = insert key pending w.node.pending_wants };
            issued = w.issued + 1;
          },
          w.issued,
        )
      ]

  -- The abort listener that `want` sets for a new entry. It deletes by key, whichever entry is
  -- there now.
  unfoldable pub on_abort : m.Cid → ℕ → World m → World m
  on_abort cid deferred w = record w {
    node = record w.node { pending_wants = remove (m.to_string cid) w.node.pending_wants };
    settled = settle deferred (rejected "Aborted") w.settled;
  }

  -- A block arrives for the CID: its want, if any, leaves the map before the block is stored.
  unfoldable pub take_block : m.Cid → List ℕ → World m → World m
  take_block cid content w =
      let key = m.to_string cid in
      elim (lookup key w.node.pending_wants) [
        | none ↦ w
        | some p ↦ record w {
          node = record w.node { pending_wants = remove key w.node.pending_wants };
          storing = (p.deferred, content) ∷ w.storing;
        }
      ]

  -- `blockstore.put` has ended, well or with an exception that is caught: the want is resolved.
  unfoldable pub finish_store : ℕ → List ℕ → World m → World m
  unfolding drop_storing
  finish_store deferred content w = record w {
    settled = settle deferred (resolved content) w.settled;
    storing = drop_storing deferred w.storing;
  }

  abbrev pub reject_all : List (String × PendingWant m) → List (ℕ × Outcome) → List (ℕ × Outcome)
  reject_all [] s = s
  reject_all ((key, p) ∷ wants) s =
      reject_all wants (settle p.deferred (rejected "Bitswap stopped") s)

  -- The streams of the pool, with their entries.
  abbrev pub close_streams : World m → World m
  close_streams w = record w {
    node = record w.node { stream_pool = close_all w.node.stream_pool };
    hung_up = streams_of w.node.stream_pool ++ w.hung_up;
  }

  unfoldable pub stop : World m → World m
  stop w =
      let shut = close_streams w in
      record shut {
        node = record shut.node { stream_pool = []; pending_wants = []; registrar_ids = [] };
        settled = reject_all shut.node.pending_wants shut.settled;
      }
