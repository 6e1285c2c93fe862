-- ===== src/Handlers/Claims.antt =====
-- What `GET /dht/status/<cid>` claims after any requests: `handlePins`, `handleDht` and the
-- announcements together.
use ipfs_shard.Shared.{
  ℕ, List, [], ◌∷◌, Bool, true, false, Option, none, some, String, ◌≡◌, refl, sym, ap, subst, ◌∙◌,
}
use ipfs_shard.Shared.Assoc.{has}
use ipfs_shard.Multiformats.{Multiformats}
use ipfs_shard.Node.Pins.{Tried, returned, threw, Datastore, pin_add, pin_rm}
use ipfs_shard.Announce.Status.{
  Status, pending, success, failed, AnnounceRecord, Json, get_status, or_unchanged,
}
use ipfs_shard.Announce.Events.{Announcing}
use ipfs_shard.Announce.Keys.{ValueLaws, ReadsBack}
use ipfs_shard.Announce.Soundness.{
  Event, announces, pins, unpins, run_event, run_events, names, IsSound, run_events-IsSound,
}
use ipfs_shard.Handlers.Answers.{Body, BodyField, throws, no_text, text, text_field, ok, ApiState}
use ipfs_shard.Handlers.Pins.{
  PinsAction, list, add, remove, after_pin, after_unpin, pin_parsed, unpin_parsed, add_field,
  remove_field, handle_pins,
}
use ipfs_shard.Handlers.Dht.{
  Finding, status_of, DhtAction, providers_get, providers_post, announce, status, is_success,
  announce_parsed, announce_field, status_parsed, handle_dht,
}

module _ (m : Multiformats) (d : Datastore) (json : Json) where
  -- A request to one of the two handlers, or an event of the node.
  pub data ApiEvent : Type 0 where
    pins_call : PinsAction → Body → ℕ → ApiEvent
    dht_call : DhtAction → Body → (m.Cid → Finding) → ℕ → ApiEvent
    happens : Event m d json → ApiEvent

  unfoldable pub serve_one : ApiEvent → ApiState m d json → ApiState m d json
  unfolding handle_pins handle_dht
  serve_one (pins_call action body now) w = (handle_pins m d json action body now w).0
  serve_one (dht_call action body net now) w = (handle_dht m d json action body net now w).0
  serve_one (happens e) w = record w { node = run_event m d json e w.node }

  unfoldable pub serve : List ApiEvent → ApiState m d json → ApiState m d json
  unfolding serve_one
  serve [] w = w
  serve (e ∷ es) w = serve es (serve_one e w)

  -- One step of the node: some events, one after another.
  abbrev Steps : Announcing m d json → Announcing m d json → Type 0
  Steps n n' = (es : List (Event m d json)) × (n' ≡ run_events m d json es n)

  stays : (n : Announcing m d json) → Steps n n
  unfolding run_events
  stays n = ([], refl)

  after_pin-Steps :
      (cid : m.Cid) (cid_str : String) (now : ℕ) (t : Tried d.Store) (w : ApiState m d json)
      → pin_add m d cid w.node.store ≡ t
      → Steps w.node (after_pin m d json cid cid_str now t w).0.node
  unfolding after_pin run_events run_event
  after_pin-Steps cid cid_str now (threw err) w e = stays w.node
  after_pin-Steps cid cid_str now (returned s) w e = (
    pins cid ∷ announces cid now ∷ [],
    ap
        (λ (x : Tried d.Store).
          run_event m d json (announces cid now)
            (record w.node { store = or_unchanged m d json w.node.store x }))
        (sym e),
  )

  after_unpin-Steps :
      (cid : m.Cid) (cid_str : String) (t : Tried d.Store) (w : ApiState m d json)
      → pin_rm m d cid w.node.store ≡ t
      → Steps w.node (after_unpin m d json cid_str t w).0.node
  unfolding after_unpin run_events run_event
  after_unpin-Steps cid cid_str (threw err) w e = stays w.node
  after_unpin-Steps cid cid_str (returned s) w e = (
    unpins cid ∷ [],
    ap (λ (x : Tried d.Store). record w.node { store = or_unchanged m d json w.node.store x })
        (sym e),
  )

  pin_parsed-Steps :
      (cid_str : String) (now : ℕ) (o : Option m.Cid) (w : ApiState m d json)
      → Steps w.node (pin_parsed m d json cid_str now o w).0.node
  pin_parsed-Steps cid_str now none w = stays w.node
  pin_parsed-Steps cid_str now (some cid) w =
      after_pin-Steps cid cid_str now (pin_add m d cid w.node.store) w refl

  unpin_parsed-Steps :
      (cid_str : String) (o : Option m.Cid) (w : ApiState m d json)
      → Steps w.node (unpin_parsed m d json cid_str o w).0.node
  unpin_parsed-Steps cid_str none w = stays w.node
  unpin_parsed-Steps cid_str (some cid) w =
      after_unpin-Steps cid cid_str (pin_rm m d cid w.node.store) w refl

  announce_parsed-Steps :
      (now : ℕ) (o : Option m.Cid) (w : ApiState m d json)
      → Steps w.node (announce_parsed m d json now o w).0.node
  unfolding run_events run_event
  announce_parsed-Steps now none w = stays w.node
  announce_parsed-Steps now (some cid) w = (announces cid now ∷ [], refl)

  add_field-Steps :
      (now : ℕ) (f : BodyField) (w : ApiState m d json)
      → Steps w.node (add_field m d json now f w).0.node
  add_field-Steps now throws w = stays w.node
  add_field-Steps now no_text w = stays w.node
  add_field-Steps now (text cid_str) w = pin_parsed-Steps cid_str now (m.parse cid_str) w

  remove_field-Steps :
      (f : BodyField) (w : ApiState m d json) → Steps w.node (remove_field m d json f w).0.node
  remove_field-Steps throws w = stays w.node
  remove_field-Steps no_text w = stays w.node
  remove_field-Steps (text cid_str) w = unpin_parsed-Steps cid_str (m.parse cid_str) w

  announce_field-Steps :
      (now : ℕ) (f : BodyField) (w : ApiState m d json)
      → Steps w.node (announce_field m d json now f w).0.node
  announce_field-Steps now throws w = stays w.node
  announce_field-Steps now no_text w = stays w.node
  announce_field-Steps now (text cid_str) w = announce_parsed-Steps now (m.parse cid_str) w

  serve_one-Steps : (e : ApiEvent) (w : ApiState m d json) → Steps w.node (serve_one e w).node
  unfolding serve_one run_events run_event
  serve_one-Steps (pins_call list body now) w = stays w.node
  serve_one-Steps (pins_call add body now) w = add_field-Steps now (text_field "cid" body) w
  serve_one-Steps (pins_call remove body now) w = remove_field-Steps (text_field "cid" body) w
  serve_one-Steps (dht_call announce body net now) w =
      announce_field-Steps now (text_field "cid" body) w
  serve_one-Steps (dht_call (providers_get s) body net now) w = stays w.node
  serve_one-Steps (dht_call providers_post body net now) w = stays w.node
  serve_one-Steps (dht_call (status s) body net now) w = stays w.node
  serve_one-Steps (happens e) w = (e ∷ [], refl)

  module _ (laws : ValueLaws d) (reads : ReadsBack m d json) where
    abbrev Sound : Announcing m d json → Type 0
    Sound n = IsSound m d json n.store n.provided

    serve-Sound :
        (es : List ApiEvent) (w : ApiState m d json) → Sound w.node → Sound (serve es w).node
    unfolding serve
    serve-Sound [] w sound = sound
    serve-Sound (e ∷ es) w sound =
        let step = serve_one-Steps e w in
        serve-Sound es (serve_one e w)
          (subst Sound (sym step.1) (run_events-IsSound m d json laws reads step.0 w.node sound))

    success_record :
        (o : Option AnnounceRecord)
        → is_success o ≡ true
        → (r : AnnounceRecord) × ((o ≡ some r) × (r.status ≡ success))
    success_record none e = absurd (cc)
    success_record (some r) e = (r, (refl, is_success_status r.status e))
      where
        is_success_status :
            (s : Status)
            → (elim s [ pending ↦ false | success ↦ true | failed ↦ false ]) ≡ true
            → s ≡ success
        is_success_status pending e = absurd (cc)
        is_success_status success e = refl
        is_success_status failed e = absurd (cc)

    -- After any requests to `/pins`, `/pin`, `/announce`, `/providers` and `/dht/status`, and any
    -- events of the node between them, `/dht/status` answers `announced: true` for a CID only if a
    -- provide of that CID has succeeded, if that was so at the beginning.
    pub serve-announced :
        (es : List ApiEvent) (w : ApiState m d json) (cid : m.Cid) (cid_str : String) (body : Body)
        → (net : m.Cid → Finding) (now : ℕ) → (pinned : Bool) (at : Option ℕ) (s : Option Status)
        → IsSound m d json w.node.store w.node.provided
        → m.parse cid_str ≡ some cid
        → (handle_dht m d json (status cid_str) body net now (serve es w)).1
          ≡ ok (status_of cid_str pinned true at s)
        → has (m.to_string cid) (names m d json (serve es w).node.provided) ≡ true
    unfolding handle_dht status_parsed
    serve-announced es w cid cid_str body net now pinned at s sound parses answer =
        let found = success_record (get_status m d json cid (serve es w).node.store) (
          claimed (
            ap (λ (o : Option m.Cid). status_parsed m d json cid_str o (serve es w).node.store)
              (sym parses)
            ∙ answer)) in
        serve-Sound es w sound cid found.0 found.1.0 found.1.1
      where
        claimed :
            status_parsed m d json cid_str (some cid) (serve es w).node.store
              ≡ ok (status_of cid_str pinned true at s)
            → is_success (get_status m d json cid (serve es w).node.store) ≡ true
        claimed e = cc
