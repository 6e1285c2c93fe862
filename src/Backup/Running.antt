-- ===== src/Backup/Running.antt =====
-- Rounds of the backup bootstrap loop in sequence: src/backup-bootstrap/index.ts.
use ipfs_shard.Shared.{
  ℕ, suc, ◌+◌, ◌<◌, List, [], ◌∷◌, ◌++◌, Bool, true, false, Option, none, some, length, All, leb,
  ◌≡◌, refl, ap, sym, ◌∙◌, inl, inr, arith, Option-cases, append_assoc, append-nil,
}
use ipfs_shard.Multiaddrs.{Multiaddrs}
use ipfs_shard.Backup.Selector.{id_of, select_peers_to_save}
use ipfs_shard.Backup.Storage.{Got, get_stored, load_backup_peers, save_backup_peers}
use ipfs_shard.Backup.Rounds.{
  Dial, Backups, Trigger, timer, disconnect, count_round, dial, dial_all, bootstrap_round,
  remote_addrs, save_backup_peers_round,
}
use ipfs_shard.Backup.Saving.{Printable, load_backup_peers-save}

module _ (m : Multiaddrs) where
  -- The addresses that name their peer.
  unfoldable pub with_peer_id : List m.Addr → List m.Addr
  with_peer_id [] = []
  with_peer_id (a ∷ addrs) = elim (id_of m a) [
    | none ↦ with_peer_id addrs
    | some id ↦ a ∷ with_peer_id addrs
  ]

  abbrev pub Undisturbed : (ℕ → Dial) → Type 0
  Undisturbed net = (n : ℕ) → (net n).stops ≡ false

  dial_counts :
      (d : Dial) (a : m.Addr) (b : Backups m)
      → (dial m d a b).successes + (dial m d a b).failures ≡ suc (b.successes + b.failures)
  unfolding dial
  dial_counts d a b = ground arith

  dial_all_lem :
      (net : ℕ → Dial) (n : ℕ) (addrs : List m.Addr) (b : Backups m)
      → Undisturbed net
      → b.stopped ≡ false
      → ((dial_all m net n addrs b).dialled ≡ b.dialled ++ with_peer_id addrs)
        × ((dial_all m net n addrs b).successes + (dial_all m net n addrs b).failures
            ≡ b.successes + b.failures + length (with_peer_id addrs))
  unfolding dial_all with_peer_id dial
  dial_all_lem net n [] b quiet runs = (sym (append-nil b.dialled), omega arith)
  dial_all_lem net n (a ∷ addrs) b quiet runs = elim (Option-cases (id_of m a)) [
    | inl e ↦
        rw (runs, dial_all, with_peer_id) rw (e, dial_all, with_peer_id)
          (dial_all_lem net (suc n) addrs b quiet runs)
    | inr (id, e) ↦
        rw (runs, dial_all, with_peer_id) rw (e, dial_all, with_peer_id)
          (after (dial_all_lem net (suc n) addrs (dial m (net n) a b) quiet (still runs)))
  ]
    where
      still : b.stopped ≡ false → (dial m (net n) a b).stopped ≡ false
      still h = rw (h, quiet n, dial) refl

      after :
          let b' = dial m (net n) a b in
          let b'' = dial_all m net (suc n) addrs b' in
          (b''.dialled ≡ b'.dialled ++ with_peer_id addrs)
            × (b''.successes + b''.failures
                ≡ b'.successes + b'.failures + length (with_peer_id addrs))
          → (b''.dialled ≡ b.dialled ++ (a ∷ with_peer_id addrs))
            × (b''.successes + b''.failures
                ≡ b.successes + b.failures + suc (length (with_peer_id addrs)))
      after (d, c) = (
        d ∙ append_assoc b.dialled (a ∷ []) (with_peer_id addrs),
        omega (arith, c, dial_counts (net n) a b),
      )

  bootstrap_round_lem :
      (net : ℕ → Dial) (t : Trigger m) (connections : ℕ) (got : Got) (b : Backups m)
      → b.stopped ≡ false
      → connections < 25
      → bootstrap_round m net t connections got b
        ≡ dial_all m net 0 (load_backup_peers m got) (count_round m t b)
  unfolding bootstrap_round
  bootstrap_round_lem net t connections got b runs few =
      let below : leb 25 connections ≡ false = ground arith in rw (runs, below) refl

  count_round_lem :
      (t : Trigger m) (b : Backups m)
      → ((count_round m t b).stopped ≡ b.stopped)
        × (((count_round m t b).dialled ≡ b.dialled)
            × ((count_round m t b).successes + (count_round m t b).failures
                ≡ b.successes + b.failures))
  unfolding count_round
  count_round_lem timer b = (refl, (refl, refl))
  count_round_lem disconnect b = (refl, (refl, refl))

  -- A round below the threshold dials every loaded backup peer that has a peer id, once each and in
  -- order, and counts one success or failure for each, if `stop` is not called meanwhile.
  pub bootstrap_round-dials :
      (net : ℕ → Dial) (t : Trigger m) (connections : ℕ) (got : Got) (b : Backups m)
      → b.stopped ≡ false
      → connections < 25
      → Undisturbed net
      → let after = bootstrap_round m net t connections got b in
        let peers = with_peer_id (load_backup_peers m got) in
        (after.dialled ≡ b.dialled ++ peers)
        × (after.successes + after.failures ≡ b.successes + b.failures + length peers)
  bootstrap_round-dials net t connections got b runs few quiet =
      let (still, (same, counts)) = count_round_lem t b in
      let (d, c) =
        dial_all_lem net 0 (load_backup_peers m got) (count_round m t b) quiet (still ∙ runs) in
      rw (bootstrap_round_lem net t connections got b runs few) (
        d ∙ ap (λ (x : List m.Addr). x ++ with_peer_id (load_backup_peers m got)) same,
        omega (arith, c, counts),
      )

  pub save_round_lem :
      (shuffle : List m.Addr → List m.Addr) (official : List m.Addr) (puts : Bool) (now : ℕ)
      (connections : List (Option m.Addr)) (b : Backups m)
      → b.stopped ≡ false
      → let peers =
          select_peers_to_save m shuffle
            (remote_addrs m connections)
            official
            b.previously_saved
            20 in
        save_backup_peers_round m shuffle official puts now connections b ≡ record b {
          stored = save_backup_peers m puts peers b.stored;
          previously_saved = peers;
          last_save_time = now;
        }
  unfolding save_backup_peers_round
  save_round_lem shuffle official puts now connections b runs = rw runs refl

  -- A round below the threshold that reads what a save round wrote dials the selected peers that
  -- have a peer id, in order, if each is read back from its text.
  pub bootstrap_round-save_backup_peers_round :
      (shuffle : List m.Addr → List m.Addr) (official : List m.Addr) (now : ℕ)
      (connections : List (Option m.Addr)) (b : Backups m) (net : ℕ → Dial) (t : Trigger m)
      (connected : ℕ)
      → b.stopped ≡ false
      → connected < 25
      → Undisturbed net
      → let peers =
          select_peers_to_save m shuffle
            (remote_addrs m connections)
            official
            b.previously_saved
            20 in
        let saved = save_backup_peers_round m shuffle official true now connections b in
        All (Printable m) peers
        → (bootstrap_round m net t connected (get_stored saved.stored) saved).dialled
          ≡ b.dialled ++ with_peer_id peers
  bootstrap_round-save_backup_peers_round shuffle official now connections b net t connected runs
        few quiet p =
      let peers =
        select_peers_to_save m shuffle (remote_addrs m connections) official b.previously_saved
          20 in
      let saved : Backups m = record b {
        stored = save_backup_peers m true peers b.stored;
        previously_saved = peers;
        last_save_time = now;
      } in
      rw (save_round_lem shuffle official true now connections b runs) (
        (bootstrap_round-dials net t connected (get_stored saved.stored) saved runs few quiet).0
        ∙ ap (λ (x : List m.Addr). b.dialled ++ with_peer_id x)
            (load_backup_peers-save m peers b.stored p))
