-- ===== src/Startup/Still.antt =====
-- What the background loops of src/startup/loops.ts may leave behind their stop functions.
use ipfs_shard.Shared.{
  ℕ, List, [], ◌∷◌, ◌++◌, append-nil, true, false, Option, String, none, some, ◌≡◌, refl, sym,
}
use ipfs_shard.Multiformats.{Multiformats}
use ipfs_shard.Multiaddrs.{Multiaddrs}
use ipfs_shard.Node.Pins.{Datastore}
use ipfs_shard.Announce.Status.{Json, set_status}
use ipfs_shard.Announce.Events.{success_at, Announcing}
use ipfs_shard.Backup.Rounds.{Backups}
use ipfs_shard.Startup.Loops.{
  Resumption, behind_dial, behind_backup, behind_save, behind_provide, resumes, Bootstrap,
  Background, Callback, dials, discovers, backs_up, reprovides, clears,
}

module _ (m : Multiformats) (a : Multiaddrs) (d : Datastore) (json : Json) where
  -- All five loops are stopped.
  abbrev pub Halted : Background m a d json → Type 0
  Halted w =
      (w.bootstrap.stopped ≡ true)
      × ((w.discovery.stopped ≡ true)
          × ((w.backups.stopped ≡ true) × ((w.announcing.stopped ≡ true) × (w.clearing ≡ false))))

  -- What a provide that ends behind the stop has left: the CID, and its status.
  abbrev pub provided_by : Option String → m.Cid → List m.Cid
  provided_by none cid = cid ∷ []
  provided_by (some err) cid = []

  abbrev pub status_by : Option String → m.Cid → ℕ → d.Store → d.Store
  status_by none cid now s = set_status m d json cid (success_at now) s
  status_by (some err) cid now s = s

  abbrev rest_provides : Resumption m a d json → List m.Cid
  rest_provides (behind_dial p addr net connected addrs) = []
  rest_provides (behind_backup ended net n addrs) = []
  rest_provides (behind_save peers now) = []
  rest_provides (behind_provide p cid net n texts start end) = provided_by p.error cid

  abbrev rest_store : Resumption m a d json → d.Store → d.Store
  rest_store (behind_dial p addr net connected addrs) s = s
  rest_store (behind_backup ended net n addrs) s = s
  rest_store (behind_save peers now) s = s
  rest_store (behind_provide p cid net n texts start end) s = status_by p.error cid p.now s

  -- Of a callback that begins, nothing.
  abbrev pub late_provides : Callback m a d json → List m.Cid
  late_provides (dials net connected) = []
  late_provides (discovers key) = []
  late_provides (backs_up e) = []
  late_provides (reprovides net start end) = []
  late_provides clears = []
  late_provides (resumes r) = rest_provides r

  abbrev pub late_store : Callback m a d json → d.Store → d.Store
  late_store (dials net connected) s = s
  late_store (discovers key) s = s
  late_store (backs_up e) s = s
  late_store (reprovides net start end) s = s
  late_store clears s = s
  late_store (resumes r) s = rest_store r s

  abbrev pub all_provides : List (Callback m a d json) → List m.Cid
  all_provides [] = []
  all_provides (c ∷ cs) = late_provides c ++ all_provides cs

  abbrev pub all_stores : List (Callback m a d json) → d.Store → d.Store
  all_stores [] s = s
  all_stores (c ∷ cs) s = all_stores cs (late_store c s)

  -- No new dial, no new key in the DHT, no new provide, no new clearing and no new write of the backup
  -- peers; of the provides and the statuses, those of `late` and `store`.
  pub record Still (late : List m.Cid) (store : d.Store) (w w' : Background m a d json)
      : Type 0 where
    pub bootstrap : w'.bootstrap.dialled ≡ w.bootstrap.dialled
    pub discovery : w'.discovery ≡ w.discovery
    pub asked : w'.announcing.asked ≡ w.announcing.asked
    pub provided : w'.announcing.provided ≡ w.announcing.provided ++ late
    pub statuses : w'.announcing.store ≡ store
    pub cleared : w'.cleared ≡ w.cleared
    pub dialled : w'.backups.dialled ≡ w.backups.dialled
    pub stored : w'.backups.stored ≡ w.backups.stored

  abbrev pub Step : Callback m a d json → Background m a d json → Background m a d json → Type 0
  Step c w w' = Halted w' × Still (late_provides c) (late_store c w.announcing.store) w w'

  pub quiet : (w : Background m a d json) → Still [] w.announcing.store w w
  quiet w = record {
    bootstrap = refl;
    discovery = refl;
    asked = refl;
    provided = sym (append-nil w.announcing.provided);
    statuses = refl;
    cleared = refl;
    dialled = refl;
    stored = refl;
  }

  pub with_bootstrap :
      (w : Background m a d json) (b : Bootstrap a)
      → b.dialled ≡ w.bootstrap.dialled
      → Still [] w.announcing.store w (record w { bootstrap = b })
  with_bootstrap w b e = record {
    bootstrap = e;
    discovery = refl;
    asked = refl;
    provided = sym (append-nil w.announcing.provided);
    statuses = refl;
    cleared = refl;
    dialled = refl;
    stored = refl;
  }

  pub with_backups :
      (w : Background m a d json) (b : Backups a)
      → b.dialled ≡ w.backups.dialled
      → b.stored ≡ w.backups.stored
      → Still [] w.announcing.store w (record w { backups = b })
  with_backups w b e f = record {
    bootstrap = refl;
    discovery = refl;
    asked = refl;
    provided = sym (append-nil w.announcing.provided);
    statuses = refl;
    cleared = refl;
    dialled = e;
    stored = f;
  }

  pub with_announcing :
      (w : Background m a d json) (b : Announcing m d json) (late : List m.Cid) (store : d.Store)
      → b.asked ≡ w.announcing.asked
      → b.provided ≡ w.announcing.provided ++ late
      → b.store ≡ store
      → Still late store w (record w { announcing = b })
  with_announcing w b late store e f g = record {
    bootstrap = refl;
    discovery = refl;
    asked = e;
    provided = f;
    statuses = g;
    cleared = refl;
    dialled = refl;
    stored = refl;
  }
