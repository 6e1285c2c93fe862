-- ===== src/Backup/Tests.antt =====
-- Runs of the backup bootstrap model, and its theorems at concrete inputs. An address is its text,
-- which is also its peer id; the address "relay" has none.
use ipfs_shard.Shared.{
  ℕ, List, [], ◌∷◌, ◌++◌, ◌≡◌, refl, arith, ◌≤◌, ◌⊎◌, none, some, true, false, String, str_eq,
  if◌then◌else◌, length, All,
}
use ipfs_shard.Shared.Assoc.{has, add}
use ipfs_shard.Multiaddrs.{Multiaddrs}
use ipfs_shard.Backup.Selector.{
  truthy, add_id, collect_ids, is_unofficial, without_official, is_new, backfill, has_any,
  select_peers_to_save,
}
use ipfs_shard.Backup.Storage.{
  texts, value, get_stored, parse_all, load_backup_peers, save_backup_peers,
}
use ipfs_shard.Backup.Rounds.{
  Dial, Backups, disconnect, count_round, dial, dial_all, bootstrap_round, remote_addrs,
  save_backup_peers_round, on_peer_disconnect, on_loaded, stop, started,
}
use ipfs_shard.Backup.Backfill.{cons_id, ids_of}
use ipfs_shard.Shared.Assoc.{Distinct}
use ipfs_shard.Backup.Selection.{select_peers_to_save-Distinct}
use ipfs_shard.Shared.Picks.{Picks}
use ipfs_shard.Backup.Official.{IsOfficial}
use ipfs_shard.Backup.Filling.{Known, select_peers_to_save-Fills}
use ipfs_shard.Backup.Running.{with_peer_id, bootstrap_round-save_backup_peers_round}
use ipfs_shard.Backup.Isolation.{
  bootstraps, loses_peer, run_event, run_events, save_backup_peers_round_wipes,
}

abbrev addrs : Multiaddrs
addrs = record {
  Addr = String;
  peer_id = λ s. if str_eq s "relay" then none else some s;
  to_string = λ s. s;
  parse = λ s. if str_eq s "no address" then none else some s;
}

selecting : Unit {0}
unfolding truthy add_id collect_ids is_unofficial without_official is_new backfill has_any
    select_peers_to_save has add cons_id ids_of
selecting = tt

looping : Unit {0}
unfolding parse_all load_backup_peers save_backup_peers count_round dial dial_all bootstrap_round
    remote_addrs save_backup_peers_round on_peer_disconnect on_loaded stop started run_event
    run_events with_peer_id selecting
looping = tt

abbrev same_order : List String → List String
same_order xs = xs

abbrev connected : List String
connected = "a" ∷ "relay" ∷ "boot" ∷ "b" ∷ []

abbrev saved : List String
saved = "b" ∷ "relay" ∷ "c" ∷ "d" ∷ []

selects_and_fills :
    select_peers_to_save addrs same_order connected ("boot" ∷ []) saved 4
    ≡ "a" ∷ "relay" ∷ "b" ∷ "c" ∷ []
unfolding selecting
selects_and_fills = refl

one_bad_text : load_backup_peers addrs (value (texts ("a" ∷ "no address" ∷ []))) ≡ []
unfolding looping
one_bad_text = refl

select_peers_to_save-Distinct_example :
    Distinct (ids_of addrs (select_peers_to_save addrs same_order connected ("boot" ∷ []) saved 4))
    × (length (select_peers_to_save addrs same_order connected ("boot" ∷ []) saved 4) ≤ 4)
unfolding selecting Distinct
select_peers_to_save-Distinct_example =
    select_peers_to_save-Distinct addrs same_order connected ("boot" ∷ []) saved 4
      (refl, (refl, (refl, tt)))

select_peers_to_save-Fills_example :
    let chosen = select_peers_to_save addrs same_order connected ("boot" ∷ []) saved 8 in
    (8 ≤ length chosen)
    ⊎ (((unofficial : List String) × ((extra : List String) × ((chosen ≡ unofficial ++ extra)
              × Picks
                  (λ a. IsOfficial addrs ("boot" ∷ []) a → ⊥)
                  (same_order connected)
                  unofficial)))
        × All (Known addrs chosen) saved)
select_peers_to_save-Fills_example =
    select_peers_to_save-Fills addrs same_order connected ("boot" ∷ []) saved 8 (λ e. cc)

abbrev answers : ℕ → Dial
answers n = record { reached = false; stops = false }

abbrev fresh : Backups addrs
fresh = record {
  stopped = false;
  previously_saved = saved;
  last_save_time = 5;
  stored = some (texts saved);
  rounds_timer = 0;
  rounds_disconnect = 0;
  successes = 0;
  failures = 0;
  dialled = [];
}

bootstrap_round-save_backup_peers_round_example :
    let after =
      save_backup_peers_round addrs same_order ("boot" ∷ []) true 7 (some "a" ∷ none ∷ []) fresh in
    (bootstrap_round addrs answers disconnect 0 (get_stored after.stored) after).dialled
    ≡ "a" ∷ "b" ∷ "c" ∷ "d" ∷ []
unfolding looping
bootstrap_round-save_backup_peers_round_example =
    bootstrap_round-save_backup_peers_round addrs same_order ("boot" ∷ []) 7 (some "a" ∷ none ∷ [])
      fresh answers disconnect 0 refl (omega arith) (λ n. refl) (refl, (refl, (refl, (refl, tt))))

save_backup_peers_round_wipes_example :
    let after =
      run_events addrs
        (bootstraps answers 0 true ∷ loses_peer answers 0 true ∷ [])
        (save_backup_peers_round addrs same_order [] true 9 [] fresh) in
    (after.stored ≡ some (texts [])) × (after.dialled ≡ [])
unfolding looping
save_backup_peers_round_wipes_example =
    save_backup_peers_round_wipes addrs same_order [] 9 [] fresh
      (bootstraps answers 0 true ∷ loses_peer answers 0 true ∷ []) refl refl (tt, (tt, tt))
