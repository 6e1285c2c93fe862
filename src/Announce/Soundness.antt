-- ===== src/Announce/Soundness.antt =====
-- The status `success` over sequences of announcements, re-provide runs, pins and unpins.
use ipfs_shard.Shared.{
  ℕ, suc, List, [], ◌∷◌, ◌++◌, map, true, false, Option, none, some, String, str_eq, eq_iff, ◌≡◌,
  ◌≢◌, refl, sym, ap, subst, ◌∙◌, inl, inr, arith, Bool-cases, Option-cases, ◌||◌,
}
use ipfs_shard.Shared.Assoc.{has}
use ipfs_shard.Multiformats.{Multiformats}
use ipfs_shard.Node.Pins.{Tried, returned, threw, Datastore, pin_add, pin_rm, pin_ls}
use ipfs_shard.Announce.Status.{
  pending, success, AnnounceRecord, Json, get_status, set_status, or_unchanged,
}
use ipfs_shard.Announce.Events.{
  pending_at, success_at, failed_at, Provide, Announcing, announce_content, on_provided,
  on_provide_failed, reprovide_cid, reprovide_parsed, reprovide_all, reprovide_listed,
  run_reprovide_loop, stop,
}
use ipfs_shard.Announce.Keys.{
  ValueLaws, ReadsBack, read_status, get_status-set_status, get_status-pin_add, get_status-pin_rm,
}

pending-≢-success : pending ≢ success
pending-≢-success e = cc

module _ (m : Multiformats) (d : Datastore) (json : Json) where
  -- An announcement, how its provide ends, a run of the loop, and calls that pin and unpin.
  pub data Event : Type 0 where
    announces : m.Cid → ℕ → Event
    succeeds : m.Cid → ℕ → Event
    fails : m.Cid → String → ℕ → Event
    reprovides : (ℕ → Provide) → ℕ → ℕ → Event
    pins : m.Cid → Event
    unpins : m.Cid → Event
    stops : Event

  unfoldable pub run_event : Event → Announcing m d json → Announcing m d json
  run_event (announces cid now) w = announce_content m d json cid now w
  run_event (succeeds cid now) w = on_provided m d json cid now w
  run_event (fails cid err now) w = on_provide_failed m d json cid err now w
  run_event (reprovides net start end) w = run_reprovide_loop m d json net start end w
  run_event (pins cid) w = record w {
    store = or_unchanged m d json w.store (pin_add m d cid w.store);
  }
  run_event (unpins cid) w = record w {
    store = or_unchanged m d json w.store (pin_rm m d cid w.store);
  }
  run_event stops w = stop m d json w

  unfoldable pub run_events : List Event → Announcing m d json → Announcing m d json
  unfolding run_event
  run_events [] w = w
  run_events (e ∷ es) w = run_events es (run_event e w)

  abbrev pub names : List m.Cid → List String
  names cids = map m.to_string cids

  -- A status `success` is there only for a CID that was provided.
  abbrev pub IsSound : d.Store → List m.Cid → Type 0
  IsSound s provided =
      (cid : m.Cid) (r : AnnounceRecord)
      → get_status m d json cid s ≡ some r
      → r.status ≡ success
      → has (m.to_string cid) (names provided) ≡ true

  has-names-snoc :
      (x : String) (cids : List m.Cid) (cid : m.Cid)
      → has x (names (cids ++ (cid ∷ []))) ≡ (has x (names cids) || str_eq (m.to_string cid) x)
  unfolding has
  has-names-snoc x [] cid = ground arith
  has-names-snoc x (c ∷ cids) cid = ground (arith, has-names-snoc x cids cid)

  IsSound-snoc :
      (s : d.Store) (provided : List m.Cid) (cid : m.Cid)
      → IsSound s provided
      → IsSound s (provided ++ (cid ∷ []))
  IsSound-snoc s provided cid sound other r e h =
      ground (arith, has-names-snoc (m.to_string other) provided cid, sound other r e h)

  pub reprovide_all_stopped :
      (net : ℕ → Provide) (n : ℕ) (text : String) (texts : List String) (w : Announcing m d json)
      → w.stopped ≡ true
      → reprovide_all m d json net n (text ∷ texts) w ≡ w
  unfolding reprovide_all
  reprovide_all_stopped net n text texts w h = simp (h, reprovide_all) refl

  pub reprovide_all_next :
      (net : ℕ → Provide) (n : ℕ) (text : String) (texts : List String) (w : Announcing m d json)
      → w.stopped ≡ false
      → reprovide_all m d json net n (text ∷ texts) w
        ≡ reprovide_all m d json net
            (suc n)
            texts
            (reprovide_parsed m d json (net n) (m.parse text) w)
  unfolding reprovide_all
  reprovide_all_next net n text texts w h = simp (h, reprovide_all) refl

  module _ (laws : ValueLaws d) (reads : ReadsBack m d json) where
    set_status-IsSound :
        (cid : m.Cid) (r : AnnounceRecord) (s : d.Store) (provided : List m.Cid)
        → (r.status ≡ success → has (m.to_string cid) (names provided) ≡ true)
        → IsSound s provided
        → IsSound (set_status m d json cid r s) provided
    set_status-IsSound cid r s provided allowed sound other r' e h =
        elim (get_status-set_status m d json laws reads cid other r s) [
          | inl same ↦ sound other r' (sym same ∙ e) h
          | inr (key, written) ↦
              let one : some r'.status ≡ some r.status = ap read_status (sym e) ∙ written in
              subst (λ (x : String). has x (names provided) ≡ true) key (allowed (cc (one, h)))
        ]

    provided-IsSound :
        (cid : m.Cid) (now : ℕ) (s : d.Store) (provided : List m.Cid)
        → IsSound s provided
        → IsSound (set_status m d json cid (success_at now) s) (provided ++ (cid ∷ []))
    provided-IsSound cid now s provided sound =
        set_status-IsSound cid (success_at now) s (provided ++ (cid ∷ []))
          (λ _. ground (
            arith,
            has-names-snoc (m.to_string cid) provided cid,
            eq_iff (m.to_string cid) (m.to_string cid),
          ))
          (IsSound-snoc s provided cid sound)

    abbrev Sound : Announcing m d json → Type 0
    Sound w = IsSound w.store w.provided

    reprovide_cid-Sound :
        (p : Provide) (cid : m.Cid) (w : Announcing m d json)
        → Sound w
        → Sound (reprovide_cid m d json p cid w)
    unfolding reprovide_cid
    reprovide_cid-Sound p cid w sound = elim (Option-cases p.error) [
      | inl e ↦ rw (e, reprovide_cid) (provided-IsSound cid p.now w.store w.provided sound)
      | inr (err, e) ↦ rw (e, reprovide_cid) sound
    ]

    parsed-Sound :
        (p : Provide) (parsed : Option m.Cid) (w : Announcing m d json)
        → Sound w
        → Sound (reprovide_parsed m d json p parsed w)
    parsed-Sound p none w sound = sound
    parsed-Sound p (some cid) w sound = reprovide_cid-Sound p cid w sound

    reprovide_all-Sound :
        (net : ℕ → Provide) (n : ℕ) (texts : List String) (w : Announcing m d json)
        → Sound w
        → Sound (reprovide_all m d json net n texts w)
    unfolding reprovide_all
    reprovide_all-Sound net n [] w sound = sound
    reprovide_all-Sound net n (text ∷ texts) w sound = elim (Bool-cases w.stopped) [
      | inl over ↦ subst Sound (sym (reprovide_all_stopped net n text texts w over)) sound
      | inr goes ↦ subst Sound (sym (reprovide_all_next net n text texts w goes)) (
          reprovide_all-Sound net (suc n) texts (reprovide_parsed m d json (net n) (m.parse text) w)
            (parsed-Sound (net n) (m.parse text) w sound))
    ]

    listed-Sound :
        (net : ℕ → Provide) (start end : ℕ) (listed : Tried (List m.Cid)) (w : Announcing m d json)
        → Sound w
        → Sound (reprovide_listed m d json net start end listed w)
    listed-Sound net start end (threw err) w sound = sound
    listed-Sound net start end (returned cids) w sound =
        reprovide_all-Sound net 0 (names cids) w sound

    pin_call-Sound :
        (call : Tried d.Store) (w : Announcing m d json)
        → ((s' : d.Store)
            → call ≡ returned s'
            → (cid : m.Cid) → get_status m d json cid s' ≡ get_status m d json cid w.store)
        → Sound w
        → Sound (record w { store = or_unchanged m d json w.store call })
    pin_call-Sound (threw err) w same sound cid r e h = sound cid r e h
    pin_call-Sound (returned s') w same sound cid r e h = sound cid r (sym (same s' refl cid) ∙ e) h

    run_event-Sound : (e : Event) (w : Announcing m d json) → Sound w → Sound (run_event e w)
    unfolding run_event announce_content on_provided on_provide_failed run_reprovide_loop stop
    run_event-Sound (announces cid now) w sound =
        set_status-IsSound cid (pending_at now) w.store w.provided (λ e. cc) sound
    run_event-Sound (succeeds cid now) w sound = provided-IsSound cid now w.store w.provided sound
    run_event-Sound (fails cid err now) w sound =
        set_status-IsSound cid (failed_at now err) w.store w.provided (λ e. cc) sound
    run_event-Sound (reprovides net start end) w sound = elim (Bool-cases w.stopped) [
      | inl over ↦ simp over sound
      | inr goes ↦ simp goes (listed-Sound net start end (pin_ls m d w.store) w sound)
    ]
    run_event-Sound (pins cid) w sound =
        pin_call-Sound (pin_add m d cid w.store) w
          (λ s' e other. get_status-pin_add m d json laws reads cid other w.store s' e) sound
    run_event-Sound (unpins cid) w sound =
        pin_call-Sound (pin_rm m d cid w.store) w
          (λ s' e other. get_status-pin_rm m d json laws reads cid other w.store s' e) sound
    run_event-Sound stops w sound = elim (Bool-cases w.stopped) [
      | inl over ↦ simp over sound
      | inr goes ↦ simp goes sound
    ]

    -- After any sequence of announcements, ends of their provides in any order, re-provide runs, pins
    -- and unpins, a CID has the status `success` only if a provide of it has succeeded, if that was
    -- so before.
    pub run_events-IsSound :
        (es : List Event) (w : Announcing m d json)
        → IsSound w.store w.provided
        → IsSound (run_events es w).store (run_events es w).provided
    unfolding run_events
    run_events-IsSound [] w sound = sound
    run_events-IsSound (e ∷ es) w sound =
        run_events-IsSound es (run_event e w) (run_event-Sound e w sound)
