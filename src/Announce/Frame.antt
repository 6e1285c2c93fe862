-- ===== src/Announce/Frame.antt =====
-- A run of the re-provide loop leaves the pins alone: `runReprovideLoop` of src/reprovide.ts.
use ipfs_shard.Shared.{
  ℕ, suc, List, [], ◌∷◌, map, Option, none, some, String, ◌≡◌, refl, ap, ◌∙◌, inl, inr, Bool-cases,
  Option-cases,
}
use ipfs_shard.Multiformats.{Multiformats}
use ipfs_shard.Node.Pins.{Tried, returned, threw, Datastore, is_pinned, pin_ls}
use ipfs_shard.Node.Pinning.{DatastoreLaws}
use ipfs_shard.Announce.Status.{Json}
use ipfs_shard.Announce.Events.{
  Provide, Announcing, success_at, reprovide_cid, reprovide_parsed, reprovide_all, reprovide_listed,
  run_reprovide_loop,
}
use ipfs_shard.Announce.Keys.{is_pinned-set_status}
use ipfs_shard.Announce.Soundness.{reprovide_all_stopped, reprovide_all_next}

module _ (m : Multiformats) (d : Datastore) (json : Json) where
  cid-is_pinned :
      DatastoreLaws d
      → (p : Provide) (parsed : Option m.Cid) (w : Announcing m d json) (other : m.Cid)
      → is_pinned m d other (reprovide_parsed m d json p parsed w).store
        ≡ is_pinned m d other w.store
  unfolding reprovide_cid
  cid-is_pinned laws p none w other = refl
  cid-is_pinned laws p (some cid) w other = elim (Option-cases p.error) [
    | inl e ↦
        rw (e, reprovide_cid)
          (is_pinned-set_status m d json laws cid other (success_at p.now) w.store)
    | inr (err, e) ↦ rw (e, reprovide_cid) refl
  ]

  all-is_pinned :
      DatastoreLaws d
      → (net : ℕ → Provide) (n : ℕ) (texts : List String) (w : Announcing m d json) (other : m.Cid)
      → is_pinned m d other (reprovide_all m d json net n texts w).store
        ≡ is_pinned m d other w.store
  unfolding reprovide_all
  all-is_pinned laws net n [] w other = refl
  all-is_pinned laws net n (text ∷ texts) w other = elim (Bool-cases w.stopped) [
    | inl over ↦
        ap (λ (v : Announcing m d json). is_pinned m d other v.store)
          (reprovide_all_stopped m d json net n text texts w over)
    | inr goes ↦
        ap (λ (v : Announcing m d json). is_pinned m d other v.store)
          (reprovide_all_next m d json net n text texts w goes)
        ∙ all-is_pinned laws net (suc n) texts (reprovide_parsed m d json (net n) (m.parse text) w)
            other
        ∙ cid-is_pinned laws (net n) (m.parse text) w other
  ]

  -- A run of the loop changes no pin.
  pub run_reprovide_loop-is_pinned :
      DatastoreLaws d
      → (net : ℕ → Provide) (start end : ℕ) (w : Announcing m d json) (other : m.Cid)
      → is_pinned m d other (run_reprovide_loop m d json net start end w).store
        ≡ is_pinned m d other w.store
  unfolding run_reprovide_loop
  run_reprovide_loop-is_pinned laws net start end w other = elim (Bool-cases w.stopped) [
    | inl over ↦ simp over refl
    | inr goes ↦ simp goes (listed-is_pinned (pin_ls m d w.store))
  ]
    where
      listed-is_pinned :
          (listed : Tried (List m.Cid))
          → is_pinned m d other (reprovide_listed m d json net start end listed w).store
            ≡ is_pinned m d other w.store
      listed-is_pinned (threw err) = refl
      listed-is_pinned (returned cids) = all-is_pinned laws net 0 (map m.to_string cids) w other
