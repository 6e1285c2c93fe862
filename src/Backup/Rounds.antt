-- ===== src/Backup/Rounds.antt =====
-- `startBackupBootstrapLoop` of src/backup-bootstrap/index.ts: its state and its callbacks. A
-- callback runs to its end before the next one, but for `stop`, which may come during a dial.
use ipfs_shard.Shared.{
  ℕ, suc, List, [], ◌∷◌, ◌++◌, Bool, true, false, not, ◌&&◌, Option, none, some, ltb, leb,
  if◌then◌else◌,
}
use ipfs_shard.Multiaddrs.{Multiaddrs}
use ipfs_shard.Backup.Selector.{id_of, select_peers_to_save, max_backup_peers}
use ipfs_shard.Backup.Storage.{Stored, Got, load_backup_peers, save_backup_peers}

abbrev pub min_peer_threshold : ℕ
min_peer_threshold = 25

-- What happens while a dial is awaited: whether the peer is reached, and whether `stop` is called.
pub record Dial : Type 0 where
  pub reached : Bool
  pub stops : Bool

module _ (m : Multiaddrs) where
  -- `dialled` is the sequence of calls of `libp2p.dial`; the counters are those of src/metrics.ts;
  -- `stored` is the datastore's entry.
  pub record Backups : Type 0 where
    pub stopped : Bool
    pub previously_saved : List m.Addr
    pub last_save_time : ℕ
    pub stored : Option Stored
    pub rounds_timer : ℕ
    pub rounds_disconnect : ℕ
    pub successes : ℕ
    pub failures : ℕ
    pub dialled : List m.Addr

  pub data Trigger : Type 0 where
    timer : Trigger
    disconnect : Trigger

  unfoldable pub count_round : Trigger → Backups → Backups
  count_round timer b = record b { rounds_timer = suc b.rounds_timer }
  count_round disconnect b = record b { rounds_disconnect = suc b.rounds_disconnect }

  -- `await node.libp2p.dial(peerAddr)` and the counter behind it.
  unfoldable pub dial : Dial → m.Addr → Backups → Backups
  dial d a b = record b {
    stopped = if d.stops then true else b.stopped;
    successes = if d.reached then suc b.successes else b.successes;
    failures = if d.reached then b.failures else suc b.failures;
    dialled = b.dialled ++ (a ∷ []);
  }

  -- The loop over the backup peers; the `n`-th address meets `net n`.
  unfoldable pub dial_all : (ℕ → Dial) → ℕ → List m.Addr → Backups → Backups
  dial_all net n [] b = b
  dial_all net n (a ∷ addrs) b = elim b.stopped [
    | true ↦ b
    | false ↦ elim (id_of m a) [
      | none ↦ dial_all net (suc n) addrs b
      | some id ↦ dial_all net (suc n) addrs (dial (net n) a b)
    ]
  ]

  unfoldable pub bootstrap_round : (ℕ → Dial) → Trigger → ℕ → Got → Backups → Backups
  bootstrap_round net trigger connections got b =
      if b.stopped
      then b
      else if leb min_peer_threshold connections
      then b
      else dial_all net 0 (load_backup_peers m got) (count_round trigger b)

  unfoldable pub remote_addrs : List (Option m.Addr) → List m.Addr
  remote_addrs [] = []
  remote_addrs (none ∷ connections) = remote_addrs connections
  remote_addrs (some a ∷ connections) = a ∷ remote_addrs connections

  -- `connections` has each connection's address, `none` for one without or with an exception.
  unfoldable pub save_backup_peers_round :
      (List m.Addr → List m.Addr)
      → List m.Addr
      → Bool
      → ℕ
      → List (Option m.Addr)
      → Backups
      → Backups
  save_backup_peers_round shuffle official puts now connections b =
      let peers =
        select_peers_to_save m shuffle (remote_addrs connections) official b.previously_saved
          max_backup_peers in
      if b.stopped then b else record b {
        stored = save_backup_peers m puts peers b.stored;
        previously_saved = peers;
        last_save_time = now;
      }

  -- The listener of `peer:disconnect`.
  unfoldable pub on_peer_disconnect : (ℕ → Dial) → ℕ → Got → Backups → Backups
  on_peer_disconnect net connections got b =
      if ltb connections min_peer_threshold && not b.stopped
      then bootstrap_round net disconnect connections got b
      else b

  -- The load on startup ends.
  unfoldable pub on_loaded : Got → Backups → Backups
  on_loaded got b = record b { previously_saved = load_backup_peers m got }

  unfoldable pub stop : Backups → Backups
  stop b = if b.stopped then b else record b { stopped = true }

  unfoldable pub started : ℕ → Option Stored → Backups
  started now stored = record {
    stopped = false;
    previously_saved = [];
    last_save_time = now;
    stored = stored;
    rounds_timer = 0;
    rounds_disconnect = 0;
    successes = 0;
    failures = 0;
    dialled = [];
  }
