-- ===== src/Announce/Events.antt =====
-- `announceContent` of src/api/dht.ts, and a run of the re-provide loop of src/reprovide.ts.
use ipfs_shard.Shared.{
  ℕ, suc, ◌-◌, ◌/◌, List, [], ◌∷◌, ◌++◌, map, Bool, true, false, Option, none, some, String,
  if◌then◌else◌,
}
use ipfs_shard.Multiformats.{Multiformats}
use ipfs_shard.Node.Pins.{Tried, returned, threw, Datastore, pin_ls}
use ipfs_shard.Announce.Status.{pending, success, failed, AnnounceRecord, Json, set_status}

abbrev pub pending_at : ℕ → AnnounceRecord
pending_at now = record { status = pending; announced_at = now; error = none }

abbrev pub success_at : ℕ → AnnounceRecord
success_at now = record { status = success; announced_at = now; error = none }

abbrev pub failed_at : ℕ → String → AnnounceRecord
failed_at now err = record { status = failed; announced_at = now; error = some err }

-- What happens while `contentRouting.provide` is awaited: the exception, if it throws, and whether
-- `stop` is called; and the time when it ends.
pub record Provide : Type 0 where
  pub error : Option String
  pub stops : Bool
  pub now : ℕ

module _ (m : Multiformats) (d : Datastore) (json : Json) where
  -- `asked` is the sequence of the calls of `contentRouting.provide`, and `provided` of those that
  -- succeeded. The other fields are the re-provide loop's flag, counters and gauges.
  pub record Announcing : Type 0 where
    pub store : d.Store
    pub asked : List m.Cid
    pub provided : List m.Cid
    pub stopped : Bool
    pub reprovided : ℕ
    pub reprovide_errors : ℕ
    pub last_run : ℕ
    pub duration_ms : ℕ

  -- `pending` is written, then the provide starts; the caller does not wait for it.
  unfoldable pub announce_content : m.Cid → ℕ → Announcing → Announcing
  announce_content cid now w = record w {
    store = set_status m d json cid (pending_at now) w.store;
    asked = w.asked ++ (cid ∷ []);
  }

  -- The two callbacks on the promise of `provide`.
  unfoldable pub on_provided : m.Cid → ℕ → Announcing → Announcing
  on_provided cid now w = record w {
    store = set_status m d json cid (success_at now) w.store;
    provided = w.provided ++ (cid ∷ []);
  }

  unfoldable pub on_provide_failed : m.Cid → String → ℕ → Announcing → Announcing
  on_provide_failed cid err now w = record w {
    store = set_status m d json cid (failed_at now err) w.store;
  }

  -- The body of the loop for one text; a text that is no CID counts as an error.
  unfoldable pub reprovide_cid : Provide → m.Cid → Announcing → Announcing
  reprovide_cid p cid w =
      let flag = if p.stops then true else w.stopped in
      elim p.error [
        | none ↦ record w {
          store = set_status m d json cid (success_at p.now) w.store;
          asked = w.asked ++ (cid ∷ []);
          provided = w.provided ++ (cid ∷ []);
          stopped = flag;
          reprovided = suc w.reprovided;
        }
        | some err ↦ record w {
          asked = w.asked ++ (cid ∷ []);
          stopped = flag;
          reprovide_errors = suc w.reprovide_errors;
        }
      ]

  abbrev pub reprovide_parsed : Provide → Option m.Cid → Announcing → Announcing
  reprovide_parsed p none w = record w { reprovide_errors = suc w.reprovide_errors }
  reprovide_parsed p (some cid) w = reprovide_cid p cid w

  -- The loop; the `n`-th text meets `net n`.
  unfoldable pub reprovide_all : (ℕ → Provide) → ℕ → List String → Announcing → Announcing
  unfolding reprovide_cid
  reprovide_all net n [] w = w
  reprovide_all net n (text ∷ texts) w = elim w.stopped [
    | true ↦ w
    | false ↦ reprovide_all net (suc n) texts (reprovide_parsed (net n) (m.parse text) w)
  ]

  -- The gauges are set behind the loop, also where it was broken off.
  abbrev pub reprovide_listed : (ℕ → Provide) → ℕ → ℕ → Tried (List m.Cid) → Announcing → Announcing
  reprovide_listed net start end (threw err) w = w
  reprovide_listed net start end (returned cids) w =
      record (reprovide_all net 0 (map m.to_string cids) w) {
        last_run = end / 1000;
        duration_ms = end - start;
      }

  unfoldable pub run_reprovide_loop : (ℕ → Provide) → ℕ → ℕ → Announcing → Announcing
  unfolding reprovide_all
  run_reprovide_loop net start end w =
      if w.stopped then w else reprovide_listed net start end (pin_ls m d w.store) w

  unfoldable pub stop : Announcing → Announcing
  stop w = if w.stopped then w else record w { stopped = true }
