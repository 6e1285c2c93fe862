-- ===== src/Startup/Resuming.antt =====
-- A callback of the background loops that was suspended when they were stopped, in src/startup/loops.ts,
-- src/backup-bootstrap/index.ts and src/reprovide.ts, goes on.
use ipfs_shard.Shared.{
  ℕ, List, [], ◌∷◌, ◌++◌, append-nil, Bool, true, String, arith, Option-cases, if◌then◌else◌, none,
  some, ◌≡◌, refl, sym, ap, ◌∙◌, inl, inr,
}
use ipfs_shard.Multiformats.{Multiformats}
use ipfs_shard.Multiaddrs.{Multiaddrs}
use ipfs_shard.Node.Pins.{Datastore}
use ipfs_shard.Announce.Status.{Json}
use ipfs_shard.Announce.Soundness.{reprovide_all_stopped}
use ipfs_shard.Announce.Events.{Provide, reprovide_cid, reprovide_all, Announcing}
use ipfs_shard.Backup.Rounds.{Dial, dial_all, Backups}
use ipfs_shard.Startup.Loops.{
  Resumption, behind_dial, behind_backup, behind_save, behind_provide, resume_bootstrap,
  count_ended, resume_backups, resume_reprovide, resume, resumes, dial_bootstrap, dial_each,
  Bootstrap, Background,
}
use ipfs_shard.Startup.Still.{
  Halted, provided_by, status_by, Step, with_bootstrap, with_backups, with_announcing,
}

module _ (m : Multiformats) (a : Multiaddrs) (d : Datastore) (json : Json) where
  dial_each_stopped :
      (net : a.Addr → Dial) (connected : List String) (addrs : List a.Addr) (b : Bootstrap a)
      → b.stopped ≡ true
      → dial_each a net connected addrs b ≡ b
  unfolding dial_each
  dial_each_stopped net connected [] b h = refl
  dial_each_stopped net connected (addr ∷ addrs) b h = simp (h, dial_each) refl

  dial_all_stopped :
      (net : ℕ → Dial) (n : ℕ) (addrs : List a.Addr) (b : Backups a)
      → b.stopped ≡ true
      → dial_all a net n addrs b ≡ b
  unfolding dial_all
  dial_all_stopped net n [] b h = refl
  dial_all_stopped net n (addr ∷ addrs) b h = simp (h, dial_all) refl

  reprovides_stopped :
      (net : ℕ → Provide) (n : ℕ) (texts : List String) (b : Announcing m d json)
      → b.stopped ≡ true
      → reprovide_all m d json net n texts b ≡ b
  unfolding reprovide_all
  reprovides_stopped net n [] b h = refl
  reprovides_stopped net n (text ∷ texts) b h = reprovide_all_stopped m d json net n text texts b h

  stays : (b flag : Bool) → flag ≡ true → (if b then true else flag) ≡ true
  stays b flag h = ground arith

  -- A provide that was called before ends behind the stop.
  resume_reprovide_lem :
      (p : Provide) (cid : m.Cid) (net : ℕ → Provide) (n : ℕ) (texts : List String) (start end : ℕ)
      (b : Announcing m d json)
      → b.stopped ≡ true
      → let b' = resume_reprovide m a d json p cid net n texts start end b in
        (b'.stopped ≡ true)
        × ((b'.asked ≡ b.asked)
            × ((b'.provided ≡ b.provided ++ provided_by m a d json p.error cid)
                × (b'.store ≡ status_by m a d json p.error cid p.now b.store)))
  unfolding resume_reprovide reprovide_cid
  resume_reprovide_lem p cid net n texts start end b h =
      let ended : Announcing m d json = record (reprovide_cid m d json p cid b) {
        asked = b.asked;
      } in
      elim (Option-cases p.error) [
        | inl e ↦
            let over : ended.stopped ≡ true = rw (e, reprovide_cid) (stays p.stops b.stopped h) in
            rw (reprovides_stopped net n texts ended over)
              (over, (refl, (rw (e, reprovide_cid) refl, rw (e, reprovide_cid) refl)))
        | inr (err, e) ↦
            let over : ended.stopped ≡ true = rw (e, reprovide_cid) (stays p.stops b.stopped h) in
            rw (reprovides_stopped net n texts ended over) (
              over,
              (
                refl,
                (rw (e, reprovide_cid) (sym (append-nil b.provided)), rw (e, reprovide_cid) refl),
              ),
            )
      ]

  pub resume-Still :
      (r : Resumption m a d json) (w : Background m a d json)
      → Halted m a d json w
      → Step m a d json (resumes r) w (resume m a d json r w)
  unfolding resume resume_bootstrap resume_backups dial_bootstrap
  resume-Still (behind_dial p addr net connected addrs) w h =
      let ended : Bootstrap a = record (dial_bootstrap a p addr w.bootstrap) {
        dialled = w.bootstrap.dialled;
      } in
      let over : ended.stopped ≡ true = stays p.stops w.bootstrap.stopped h.0 in
      let same = dial_each_stopped net connected addrs ended over in
      (
        (ap (λ (b : Bootstrap a). b.stopped) same ∙ over, h.1),
        with_bootstrap m a d json w _ (ap (λ (b : Bootstrap a). b.dialled) same),
      )
  resume-Still (behind_backup none net n addrs) w h =
      let same = dial_all_stopped net n addrs w.backups h.1.1.0 in
      (
        (h.0, (h.1.0, (ap (λ (b : Backups a). b.stopped) same ∙ h.1.1.0, h.1.1.1))),
        with_backups m a d json w _ (ap (λ (b : Backups a). b.dialled) same)
            (ap (λ (b : Backups a). b.stored) same),
      )
  resume-Still (behind_backup (some p) net n addrs) w h =
      let ended : Backups a = count_ended m a d json (some p) w.backups in
      let over : ended.stopped ≡ true = stays p.stops w.backups.stopped h.1.1.0 in
      let same = dial_all_stopped net n addrs ended over in
      (
        (h.0, (h.1.0, (ap (λ (b : Backups a). b.stopped) same ∙ over, h.1.1.1))),
        with_backups m a d json w _ (ap (λ (b : Backups a). b.dialled) same)
            (ap (λ (b : Backups a). b.stored) same),
      )
  resume-Still (behind_save peers now) w h = (h, with_backups m a d json w _ refl refl)
  resume-Still (behind_provide p cid net n texts start end) w h =
      let (over, (asked, (provided, store))) =
        resume_reprovide_lem p cid net n texts start end w.announcing h.1.1.1.0 in
      (
        (h.0, (h.1.0, (h.1.1.0, (over, h.1.1.1.1)))),
        with_announcing m a d json w _ _ _ asked provided store,
      )
