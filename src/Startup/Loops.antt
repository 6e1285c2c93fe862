-- ===== src/Startup/Loops.antt =====
-- The loops of src/startup/loops.ts: `startBootstrapDialLoop`, `startDHTDiscoveryLoop`, and
-- `startBackgroundLoops`, which starts these and two more. A callback runs to its end before the next
-- one, but for `stop`, which may come during a dial or a provide; what a callback that was suspended by
-- then does when it goes on is a callback of its own.
use ipfs_shard.Shared.{
  ℕ, suc, ◌-◌, ◌/◌, List, [], ◌∷◌, ◌++◌, Bool, true, false, Option, none, some, String, str_eq,
  if◌then◌else◌,
}
use ipfs_shard.Shared.Assoc.{has}
use ipfs_shard.Multiformats.{Multiformats}
use ipfs_shard.Multiaddrs.{Multiaddrs}
use ipfs_shard.Node.Pins.{Datastore}
use ipfs_shard.Announce.Status.{Json}
use ipfs_shard.Announce.Events.{
  Provide, Announcing, reprovide_cid, reprovide_all, run_reprovide_loop,
}
use ipfs_shard.Announce.Events
use ipfs_shard.Backup.Rounds.{Dial, Backups}
use ipfs_shard.Backup.Rounds
use ipfs_shard.Backup.Isolation.{Event, run_event}

-- A 32-byte key that is put into the DHT, and how the put ends makes no difference.
pub record Discovery : Type 0 where
  pub stopped : Bool
  pub announce_counter : ℕ
  pub puts : List (List ℕ)

-- `none`: there is no DHT service.
unfoldable pub announce_to_network : Option (List ℕ) → Discovery → Discovery
announce_to_network none w = w
announce_to_network (some key) w =
    if w.stopped
    then w
    else record w { announce_counter = suc w.announce_counter; puts = w.puts ++ (key ∷ []) }

unfoldable pub stop_discovery : Discovery → Discovery
stop_discovery w = if w.stopped then w else record w { stopped = true }

module _ (a : Multiaddrs) where
  -- `dialled` is the sequence of the calls of `libp2p.dial`; `dialed_count` is that of the last round.
  pub record Bootstrap : Type 0 where
    pub stopped : Bool
    pub dialled : List a.Addr
    pub dialed_count : ℕ

  -- `getPeerId()`, if it is not empty.
  abbrev pub peer_id_of : Option String → Option String
  peer_id_of none = none
  peer_id_of (some id) = if str_eq id "" then none else some id

  unfoldable pub dial_bootstrap : Dial → a.Addr → Bootstrap → Bootstrap
  dial_bootstrap p addr w = record {
    stopped = if p.stops then true else w.stopped;
    dialled = w.dialled ++ (addr ∷ []);
    dialed_count = if p.reached then suc w.dialed_count else w.dialed_count;
  }

  -- An address without a peer id, or of a connected peer, is passed over.
  unfoldable pub is_dialled : List String → Option String → Bool
  is_dialled connected none = false
  is_dialled connected (some id) = if has id connected then false else true

  -- The loop over the addresses; a dial of an address meets `net` of it.
  unfoldable pub dial_each : (a.Addr → Dial) → List String → List a.Addr → Bootstrap → Bootstrap
  unfolding dial_bootstrap is_dialled
  dial_each net connected [] w = w
  dial_each net connected (addr ∷ addrs) w = elim w.stopped [
    | true ↦ w
    | false ↦ elim (is_dialled connected (peer_id_of (a.peer_id addr))) [
      | true ↦ dial_each net connected addrs (dial_bootstrap (net addr) addr w)
      | false ↦ dial_each net connected addrs w
    ]
  ]

  unfoldable pub dial_bootstrap_peers :
      (a.Addr → Dial) → List String → List a.Addr → Bootstrap → Bootstrap
  unfolding dial_each
  dial_bootstrap_peers net connected addrs w =
      if w.stopped then w else dial_each net connected addrs (record w { dialed_count = 0 })

  unfoldable pub stop_bootstrap : Bootstrap → Bootstrap
  stop_bootstrap w = if w.stopped then w else record w { stopped = true }

module _ (m : Multiformats) (a : Multiaddrs) (d : Datastore) (json : Json) where
  -- The states of the five loops; `clearing` says that the timer of `clearUnsupportedPeers` runs, and
  -- `cleared` counts its calls.
  pub record Background : Type 0 where
    pub bootstrap : Bootstrap a
    pub discovery : Discovery
    pub backups : Backups a
    pub announcing : Announcing m d json
    pub clearing : Bool
    pub cleared : ℕ

  -- The rest of a callback behind an `await` in which it was suspended: behind a dial of a bootstrap peer,
  -- with the addresses left; behind the reading of the backup peers or a dial of one of them; behind the
  -- write of the backup peers; behind a provide, with the texts left and the two times of the run. The
  -- dial, the write or the provide itself was called before.
  pub data Resumption : Type 0 where
    behind_dial : Dial → a.Addr → (a.Addr → Dial) → List String → List a.Addr → Resumption
    behind_backup : Option Dial → (ℕ → Dial) → ℕ → List a.Addr → Resumption
    behind_save : List a.Addr → ℕ → Resumption
    behind_provide : Provide → m.Cid → (ℕ → Provide) → ℕ → List String → ℕ → ℕ → Resumption

  unfoldable pub resume_bootstrap :
      Dial → a.Addr → (a.Addr → Dial) → List String → List a.Addr → Bootstrap a → Bootstrap a
  unfolding dial_each
  resume_bootstrap p addr net connected addrs w =
      let ended : Bootstrap a = record (dial_bootstrap a p addr w) { dialled = w.dialled } in
      dial_each a net connected addrs ended

  abbrev pub count_ended : Option Dial → Backups a → Backups a
  count_ended none b = b
  count_ended (some p) b = record b {
    stopped = if p.stops then true else b.stopped;
    successes = if p.reached then suc b.successes else b.successes;
    failures = if p.reached then b.failures else suc b.failures;
  }

  unfoldable pub resume_backups : Option Dial → (ℕ → Dial) → ℕ → List a.Addr → Backups a → Backups a
  resume_backups ended net n addrs b = Rounds.dial_all a net n addrs (count_ended ended b)

  unfoldable pub resume_reprovide :
      Provide
      → m.Cid
      → (ℕ → Provide)
      → ℕ
      → List String
      → ℕ
      → ℕ
      → Announcing m d json
      → Announcing m d json
  resume_reprovide p cid net n texts start end w =
      let ended : Announcing m d json = record (reprovide_cid m d json p cid w) {
        asked = w.asked;
      } in
      record (reprovide_all m d json net n texts ended) {
        last_run = end / 1000;
        duration_ms = end - start;
      }

  -- A callback of one of the loops.
  pub data Callback : Type 0 where
    dials : (a.Addr → Dial) → List String → Callback
    discovers : Option (List ℕ) → Callback
    backs_up : Event a → Callback
    reprovides : (ℕ → Provide) → ℕ → ℕ → Callback
    clears : Callback
    resumes : Resumption → Callback

  unfoldable pub resume : Resumption → Background → Background
  unfolding resume_bootstrap resume_backups resume_reprovide
  resume (behind_dial p addr net connected addrs) w = record w {
    bootstrap = resume_bootstrap p addr net connected addrs w.bootstrap;
  }
  resume (behind_backup ended net n addrs) w = record w {
    backups = resume_backups ended net n addrs w.backups;
  }
  resume (behind_save peers now) w = record w {
    backups = record w.backups { previously_saved = peers; last_save_time = now };
  }
  resume (behind_provide p cid net n texts start end) w = record w {
    announcing = resume_reprovide p cid net n texts start end w.announcing;
  }

  -- `addrs` are the addresses the loops were started with.
  unfoldable pub run_callback : List a.Addr → Callback → Background → Background
  unfolding dial_bootstrap_peers announce_to_network resume
  run_callback addrs (dials net connected) w = record w {
    bootstrap = dial_bootstrap_peers a net connected addrs w.bootstrap;
  }
  run_callback addrs (discovers key) w = record w {
    discovery = announce_to_network key w.discovery;
  }
  run_callback addrs (backs_up e) w = record w { backups = run_event a e w.backups }
  run_callback addrs (reprovides net start end) w = record w {
    announcing = run_reprovide_loop m d json net start end w.announcing;
  }
  run_callback addrs (resumes r) w = resume r w
  run_callback addrs clears w = if w.clearing then record w { cleared = suc w.cleared } else w

  unfoldable pub run_callbacks : List a.Addr → List Callback → Background → Background
  unfolding run_callback
  run_callbacks addrs [] w = w
  run_callbacks addrs (c ∷ cs) w = run_callbacks addrs cs (run_callback addrs c w)

  -- `stopFunctions.forEach((fn) => fn())` on what `startBackgroundLoops` returned.
  unfoldable pub stop_background_loops : Background → Background
  unfolding stop_bootstrap stop_discovery
  stop_background_loops w = record {
    bootstrap = stop_bootstrap a w.bootstrap;
    discovery = stop_discovery w.discovery;
    backups = Rounds.stop a w.backups;
    announcing = Events.stop m d json w.announcing;
    clearing = false;
    cleared = w.cleared;
  }
