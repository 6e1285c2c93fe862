-- ===== src/Backup/Isolation.antt =====
-- The backup bootstrap loop over sequences of callbacks: src/backup-bootstrap/index.ts.
use ipfs_shard.Shared.{
  ℕ, List, [], ◌∷◌, Bool, true, false, not, ◌&&◌, Option, some, All, leb, ltb, ◌≡◌, refl, sym,
  subst, ◌∙◌, inl, inr, arith, Bool-cases, if◌then◌else◌,
}
use ipfs_shard.Multiaddrs.{Multiaddrs}
use ipfs_shard.Backup.Selector.{select_peers_to_save}
use ipfs_shard.Backup.Storage.{
  Stored, texts, Got, failed, get_stored, parse_all, load_backup_peers, save_backup_peers,
}
use ipfs_shard.Backup.Rounds.{
  Dial, Backups, Trigger, timer, disconnect, count_round, dial_all, bootstrap_round, remote_addrs,
  save_backup_peers_round, on_peer_disconnect, on_loaded, stop,
}
use ipfs_shard.Backup.Running.{save_round_lem}

-- A read of the datastore's entry, which may fail.
abbrev pub read_back : Bool → Option Stored → Got
read_back ok stored = if ok then get_stored stored else failed

module _ (m : Multiaddrs) where
  -- The callbacks: the timers, the listener, the end of the load on startup, and `stop`.
  pub data Event : Type 0 where
    bootstraps : (ℕ → Dial) → ℕ → Bool → Event
    saves : (List m.Addr → List m.Addr) → List m.Addr → Bool → ℕ → List (Option m.Addr) → Event
    loses_peer : (ℕ → Dial) → ℕ → Bool → Event
    loads : Bool → Event
    stops : Event

  unfoldable pub run_event : Event → Backups m → Backups m
  run_event (bootstraps net connections ok) b =
      bootstrap_round m net timer connections (read_back ok b.stored) b
  run_event (saves shuffle official puts now connections) b =
      save_backup_peers_round m shuffle official puts now connections b
  run_event (loses_peer net connections ok) b =
      on_peer_disconnect m net connections (read_back ok b.stored) b
  run_event (loads ok) b = on_loaded m (read_back ok b.stored) b
  run_event stops b = stop m b

  unfoldable pub run_events : List Event → Backups m → Backups m
  unfolding run_event
  run_events [] b = b
  run_events (e ∷ es) b = run_events es (run_event e b)

  -- Two states with the same datastore entry and the same dials.
  abbrev Quiet : Backups m → Backups m → Type 0
  Quiet b b' =
      (b'.stopped ≡ true)
      × ((b'.stored ≡ b.stored)
          × ((b'.dialled ≡ b.dialled)
              × ((b'.successes ≡ b.successes)
                  × ((b'.failures ≡ b.failures)
                      × ((b'.rounds_timer ≡ b.rounds_timer)
                          × (b'.rounds_disconnect ≡ b.rounds_disconnect))))))

  Quiet-refl : (b : Backups m) → b.stopped ≡ true → Quiet b b
  Quiet-refl b h = (h, (refl, (refl, (refl, (refl, (refl, refl))))))

  pub run_event_stopped : (e : Event) (b : Backups m) → b.stopped ≡ true → Quiet b (run_event e b)
  unfolding run_event bootstrap_round save_backup_peers_round on_peer_disconnect on_loaded stop
  run_event_stopped (bootstraps net connections ok) b h =
      subst (Quiet b) (sym (same net connections ok b h)) (Quiet-refl b h)
    where
      same :
          (net : ℕ → Dial) (connections : ℕ) (ok : Bool) (b : Backups m)
          → b.stopped ≡ true
          → bootstrap_round m net timer connections (read_back ok b.stored) b ≡ b
      same net connections ok b h = simp h refl
  run_event_stopped (saves shuffle official puts now connections) b h =
      let same : save_backup_peers_round m shuffle official puts now connections b ≡ b =
        simp h refl in
      subst (Quiet b) (sym same) (Quiet-refl b h)
  run_event_stopped (loses_peer net connections ok) b h =
      let idle : (ltb connections 25 && not b.stopped) ≡ false = ground arith in
      let same : on_peer_disconnect m net connections (read_back ok b.stored) b ≡ b =
        simp idle refl in
      subst (Quiet b) (sym same) (Quiet-refl b h)
  run_event_stopped (loads ok) b h = (h, (refl, (refl, (refl, (refl, (refl, refl))))))
  run_event_stopped stops b h =
      let same : stop m b ≡ b = simp h refl in subst (Quiet b) (sym same) (Quiet-refl b h)

  run_events_stopped :
      (es : List Event) (b : Backups m) → b.stopped ≡ true → Quiet b (run_events es b)
  unfolding run_events
  run_events_stopped [] b h = (h, (refl, (refl, (refl, (refl, (refl, refl))))))
  run_events_stopped (e ∷ es) b h =
      let (h1, (a1, (b1, (c1, (d1, (e1, f1)))))) = run_event_stopped e b h in
      let (h2, (a2, (b2, (c2, (d2, (e2, f2)))))) = run_events_stopped es (run_event e b) h1 in
      (h2, (a2 ∙ a1, (b2 ∙ b1, (c2 ∙ c1, (d2 ∙ d1, (e2 ∙ e1, f2 ∙ f1))))))

  -- After `stop`, whatever callbacks still run, no peer is dialled, nothing is written to the
  -- datastore and no counter moves.
  pub run_events-stop :
      (es : List Event) (b : Backups m)
      → let after = run_events es (stop m b) in
        (after.stored ≡ b.stored)
        × ((after.dialled ≡ b.dialled)
            × ((after.successes ≡ b.successes)
                × ((after.failures ≡ b.failures)
                    × ((after.rounds_timer ≡ b.rounds_timer)
                        × (after.rounds_disconnect ≡ b.rounds_disconnect)))))
  unfolding stop
  run_events-stop es b = elim (Bool-cases b.stopped) [
    | inl h ↦ simp h (run_events_stopped es b h).1
    | inr h ↦ simp h (run_events_stopped es (record b { stopped = true }) refl).1
  ]

  -- The datastore holds an empty list of peers.
  abbrev Wiped : List m.Addr → Backups m → Type 0
  Wiped dials b = (b.stored ≡ some (texts [])) × (b.dialled ≡ dials)

  -- No save round of the sequence sees a connected peer.
  abbrev pub SeesNobody : Event → Type 0
  SeesNobody (saves shuffle official puts now connections) = remote_addrs m connections ≡ []
  SeesNobody _ = Unit

  load_wiped : (ok : Bool) → load_backup_peers m (read_back ok (some (texts []))) ≡ []
  unfolding load_backup_peers parse_all
  load_wiped true = refl
  load_wiped false = refl

  count_round-Wiped :
      (dials : List m.Addr) (t : Trigger m) (b : Backups m)
      → Wiped dials b
      → Wiped dials (count_round m t b)
  unfolding count_round
  count_round-Wiped dials timer b w = w
  count_round-Wiped dials disconnect b w = w

  bootstrap_round-Wiped :
      (dials : List m.Addr) (net : ℕ → Dial) (t : Trigger m) (connections : ℕ) (ok : Bool)
      (b : Backups m)
      → Wiped dials b
      → Wiped dials (bootstrap_round m net t connections (read_back ok b.stored) b)
  unfolding bootstrap_round dial_all
  bootstrap_round-Wiped dials net t connections ok b (s, d) = elim (Bool-cases b.stopped) [
    | inl h ↦ rw h (s, d)
    | inr h ↦ elim (Bool-cases (leb 25 connections)) [
      | inl enough ↦ rw (h, enough) (s, d)
      | inr few ↦ simp (h, few, s, load_wiped) (count_round-Wiped dials t b (s, d))
    ]
  ]

  save_round-Wiped :
      (dials : List m.Addr) (shuffle : List m.Addr → List m.Addr) (official : List m.Addr)
      (puts : Bool) (now : ℕ) (connections : List (Option m.Addr)) (b : Backups m)
      → remote_addrs m connections ≡ []
      → Wiped dials b
      → Wiped dials (save_backup_peers_round m shuffle official puts now connections b)
  unfolding save_backup_peers_round save_backup_peers select_peers_to_save
  save_round-Wiped dials shuffle official puts now connections b nobody (s, d) =
      elim (Bool-cases b.stopped) [ inl h ↦ rw h (s, d) | inr h ↦ rw (h, nobody) (ground arith, d) ]

  run_event-Wiped :
      (dials : List m.Addr) (e : Event) (b : Backups m)
      → SeesNobody e
      → Wiped dials b
      → Wiped dials (run_event e b)
  unfolding run_event on_peer_disconnect on_loaded stop
  run_event-Wiped dials (bootstraps net connections ok) b n w =
      bootstrap_round-Wiped dials net timer connections ok b w
  run_event-Wiped dials (saves shuffle official puts now connections) b n w =
      save_round-Wiped dials shuffle official puts now connections b n w
  run_event-Wiped dials (loses_peer net connections ok) b n w =
      elim (Bool-cases (ltb connections 25 && not b.stopped)) [
        | inl runs ↦ rw runs (bootstrap_round-Wiped dials net disconnect connections ok b w)
        | inr idle ↦ rw idle w
      ]
  run_event-Wiped dials (loads ok) b n w = w
  run_event-Wiped dials stops b n w = elim (Bool-cases b.stopped) [
    | inl h ↦ rw h w
    | inr h ↦ rw h w
  ]

  run_events-Wiped :
      (dials : List m.Addr) (es : List Event) (b : Backups m)
      → All SeesNobody es
      → Wiped dials b
      → Wiped dials (run_events es b)
  unfolding run_events
  run_events-Wiped dials [] b n w = w
  run_events-Wiped dials (e ∷ es) b (n, ns) w =
      run_events-Wiped dials es (run_event e b) ns (run_event-Wiped dials e b n w)

  -- A save round that sees no connected peer overwrites the saved peers by an empty list, if the
  -- datastore takes it: from then on the loop dials nobody, as long as no save round sees a
  -- connected peer, whatever was saved before.
  pub save_backup_peers_round_wipes :
      (shuffle : List m.Addr → List m.Addr) (official : List m.Addr) (now : ℕ)
      (connections : List (Option m.Addr)) (b : Backups m) (es : List Event)
      → b.stopped ≡ false
      → remote_addrs m connections ≡ []
      → All SeesNobody es
      → let after =
          run_events es (save_backup_peers_round m shuffle official true now connections b) in
        (after.stored ≡ some (texts [])) × (after.dialled ≡ b.dialled)
  unfolding save_backup_peers_round save_backup_peers select_peers_to_save
  save_backup_peers_round_wipes shuffle official now connections b es runs nobody quiet =
      rw (save_round_lem m shuffle official true now connections b runs, nobody)
        (run_events-Wiped b.dialled es
          (record b { stored = some (texts []); previously_saved = []; last_save_time = now }) quiet
          (refl, refl))
