-- ===== src/Handlers/Pinned.antt =====
-- What the answers of `handlePins` of src/api/pins.ts say about the pins.
use ipfs_shard.Shared.{
  ℕ, List, [], ◌∷◌, ◌++◌, true, Option, none, some, String, str_eq, ◌≡◌, refl, ap, subst, ◌∙◌, ◌⊎◌,
  inl, inr, if◌then◌else◌,
}
use ipfs_shard.Shared.Int.{pos, ◌+ℤ◌}
use ipfs_shard.Multiformats.{Multiformats}
use ipfs_shard.Node.Pins.{Tried, returned, threw, Datastore, pin_add, pin_rm, pin_ls, is_pinned}
use ipfs_shard.Node.Pinning.{DatastoreLaws, adds, run_pin, done as no_more, call, is_pinned-Runs}
use ipfs_shard.Announce.Status.{Json}
use ipfs_shard.Announce.Events.{Announcing, pending_at, announce_content}
use ipfs_shard.Announce.Keys.{is_pinned-set_status}
use ipfs_shard.Handlers.Answers.{
  Body, BodyField, throws, no_text, text, text_field, Answer, ok, refused, ApiState,
}
use ipfs_shard.Handlers.Pins.{
  PinsAction, list, add, remove, PinsContent, done, listed, after_pin, after_unpin, pin_parsed,
  unpin_parsed, add_field, remove_field, handle_pins,
}

module _ (m : Multiformats) (d : Datastore) (json : Json) where
  abbrev Served : Type 0
  Served = ApiState m d json × Answer PinsContent

  -- An answer that is not a success comes with the state of before and the status 400 or 500.
  abbrev pub Harmless : ApiState m d json → Served → Type 0
  Harmless w r =
      (code : ℕ) (err : String) → r.1 ≡ refused code err → (r.0 ≡ w) × ((code ≡ 400) ⊎ (code ≡ 500))

  failing : (w : ApiState m d json) (err : String) → Harmless w (w, refused 500 err)
  failing w err code err' e = (refl, inr cc)

  rejecting : (w : ApiState m d json) (err : String) → Harmless w (w, refused 400 err)
  rejecting w err code err' e = (refl, inl cc)

  accepting : (w w' : ApiState m d json) (c : PinsContent) → Harmless w (w', ok c)
  accepting w w' c code err e = absurd (cc)

  add_field-Harmless :
      (now : ℕ) (f : BodyField) (w : ApiState m d json) → Harmless w (add_field m d json now f w)
  unfolding after_pin
  add_field-Harmless now throws w = rejecting w _
  add_field-Harmless now no_text w = rejecting w _
  add_field-Harmless now (text cid_str) w = parsed (m.parse cid_str)
    where
      tried :
          (cid : m.Cid) (t : Tried d.Store) → Harmless w (after_pin m d json cid cid_str now t w)
      tried cid (threw err) = failing w _
      tried cid (returned s) = accepting w _ _

      parsed : (o : Option m.Cid) → Harmless w (pin_parsed m d json cid_str now o w)
      parsed none = failing w _
      parsed (some cid) = tried cid (pin_add m d cid w.node.store)

  remove_field-Harmless :
      (f : BodyField) (w : ApiState m d json) → Harmless w (remove_field m d json f w)
  unfolding after_unpin
  remove_field-Harmless throws w = rejecting w _
  remove_field-Harmless no_text w = rejecting w _
  remove_field-Harmless (text cid_str) w = parsed (m.parse cid_str)
    where
      tried : (t : Tried d.Store) → Harmless w (after_unpin m d json cid_str t w)
      tried (threw err) = failing w _
      tried (returned s) = accepting w _ _

      parsed : (o : Option m.Cid) → Harmless w (unpin_parsed m d json cid_str o w)
      parsed none = failing w _
      parsed (some cid) = tried (pin_rm m d cid w.node.store)

  -- A request to list, add or remove a pin that is answered with an error, whatever its body,
  -- changes no pin, no announcement and no gauge, and its status is 400 or 500.
  pub handle_pins-Harmless :
      (action : PinsAction) (body : Body) (now : ℕ) (w : ApiState m d json)
      → Harmless w (handle_pins m d json action body now w)
  unfolding handle_pins
  handle_pins-Harmless list body now w = tried (pin_ls m d w.node.store)
    where
      tried : (t : Tried (List m.Cid)) → Harmless w (w, listed m d json t)
      tried (threw err) = rejecting w _
      tried (returned cids) = accepting w w _
  handle_pins-Harmless add body now w = add_field-Harmless now (text_field "cid" body) w
  handle_pins-Harmless remove body now w = remove_field-Harmless (text_field "cid" body) w

  -- A request that was answered with `{ ok: true, cid }` got through all guards.
  abbrev Added : ℕ → String → ApiState m d json → ApiState m d json → Type 0
  Added now cid_str w w' =
      (cid : m.Cid) × ((s : d.Store) × ((m.parse cid_str ≡ some cid)
          × ((pin_add m d cid w.node.store ≡ returned s)
              × ((w'.node ≡ announce_content m d json cid now (record w.node { store = s }))
                  × (w'.pins_total ≡ w.pins_total +ℤ pos 1)))))

  add_field-Added :
      (now : ℕ) (f : BodyField) (cid_str : String) (w : ApiState m d json)
      → (add_field m d json now f w).1 ≡ ok (done cid_str)
      → Added now cid_str w (add_field m d json now f w).0
  unfolding after_pin
  add_field-Added now throws cid_str w e = absurd (cc)
  add_field-Added now no_text cid_str w e = absurd (cc)
  add_field-Added now (text t) cid_str w e = parsed (m.parse t) refl e
    where
      tried :
          (cid : m.Cid) (r : Tried d.Store)
          → m.parse t ≡ some cid
          → pin_add m d cid w.node.store ≡ r
          → (after_pin m d json cid t now r w).1 ≡ ok (done cid_str)
          → Added now cid_str w (after_pin m d json cid t now r w).0
      tried cid (threw err) p a e = absurd (cc)
      tried cid (returned s) p a e =
          let same : t ≡ cid_str = cc in
          (cid, (s, (subst (λ (x : String). m.parse x ≡ some cid) same p, (a, (refl, refl)))))

      parsed :
          (o : Option m.Cid)
          → m.parse t ≡ o
          → (pin_parsed m d json t now o w).1 ≡ ok (done cid_str)
          → Added now cid_str w (pin_parsed m d json t now o w).0
      parsed none p e = absurd (cc)
      parsed (some cid) p e = tried cid (pin_add m d cid w.node.store) p refl e

  module _ (laws : DatastoreLaws d) where
    pinned_by :
        (now : ℕ) (cid_str : String) (w w' : ApiState m d json) (other : m.Cid)
        → (a : Added now cid_str w w')
        → is_pinned m d other w'.node.store ≡ (
            if str_eq (m.to_string a.0) (m.to_string other)
            then true
            else is_pinned m d other w.node.store)
    unfolding announce_content run_pin
    pinned_by now cid_str w w' other (cid, (s, (parses, (put, (node, gauge))))) =
        ap (λ (n : Announcing m d json). is_pinned m d other n.store) node
        ∙ is_pinned-set_status m d json laws cid other (pending_at now) s
        ∙ is_pinned-Runs m d laws (adds cid ∷ []) other w.node.store s (call put no_more)

    -- If a request to pin a CID is answered with success, then exactly that CID is asked to be provided,
    -- it is pinned, and every CID with another text is pinned if and only if it was before.
    pub handle_pins-is_pinned :
        (body : Body) (now : ℕ) (cid : m.Cid) (cid_str : String) (w : ApiState m d json)
        → m.parse cid_str ≡ some cid
        → (handle_pins m d json add body now w).1 ≡ ok (done cid_str)
        → ((handle_pins m d json add body now w).0.node.asked ≡ w.node.asked ++ (cid ∷ []))
          × ((other : m.Cid)
              → is_pinned m d other (handle_pins m d json add body now w).0.node.store ≡ (
                  if str_eq (m.to_string cid) (m.to_string other)
                  then true
                  else is_pinned m d other w.node.store))
    unfolding handle_pins announce_content
    handle_pins-is_pinned body now cid cid_str w parses answer =
        let a = add_field-Added now (text_field "cid" body) cid_str w answer in
        let same : a.0 ≡ cid = cc (a.1.1.0, parses) in
        (
          ap (λ (n : Announcing m d json). n.asked) a.1.1.1.1.0
              ∙ ap (λ (x : m.Cid). w.node.asked ++ (x ∷ [])) same,
          λ other.
              subst
                (λ (x : m.Cid).
                  is_pinned m d other (handle_pins m d json add body now w).0.node.store ≡ (
                    if str_eq (m.to_string x) (m.to_string other)
                    then true
                    else is_pinned m d other w.node.store))
                same (pinned_by now cid_str w (handle_pins m d json add body now w).0 other a),
        )
