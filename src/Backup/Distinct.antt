-- ===== src/Backup/Distinct.antt =====
-- The peer ids that `selectPeersToSave` of src/backup-bootstrap/selector.ts takes.
use ipfs_shard.Shared.{
  ℕ, zero, suc, ◌≤◌, ◌<◌, List, [], ◌∷◌, ◌++◌, true, false, some, String, str_eq, length, take,
  length-append, All, ◌≡◌, refl, sym, ap, ◌∙◌, inl, inr, arith, Option-cases, ◌||◌,
}
use ipfs_shard.Shared.Assoc.{Distinct, Distinct-snoc, has, has-append, has-add}
use ipfs_shard.Multiaddrs.{Multiaddrs}
use ipfs_shard.Backup.Selector.{add_id, id_of, is_new, backfill}
use ipfs_shard.Backup.Backfill.{cons_id, ids_of, backfill_induction}

module _ (m : Multiaddrs) where
  pub ids_of-snoc :
      (r : List m.Addr) (a : m.Addr) (id : String)
      → id_of m a ≡ some id
      → ids_of m (r ++ (a ∷ [])) ≡ ids_of m r ++ (id ∷ [])
  unfolding ids_of cons_id
  ids_of-snoc [] a id e = rw e refl
  ids_of-snoc (b ∷ r) a id e = elim (Option-cases (id_of m b)) [
    | inl e' ↦ rw e' (ids_of-snoc r a id e)
    | inr (i, e') ↦ rw e' (ap (◌∷◌ i) (ids_of-snoc r a id e))
  ]

  -- What the backfill keeps: the set holds the ids of the result, which are distinct.
  abbrev pub Sound : ℕ → List m.Addr → List String → Type 0
  Sound max r s =
      (length r ≤ max) × (((x : String) → has x s ≡ has x (ids_of m r)) × Distinct (ids_of m r))

  Sound-step :
      (max : ℕ) (a : m.Addr) (r : List m.Addr) (s : List String)
      → length r < max
      → is_new (id_of m a) s ≡ true
      → Sound max r s
      → Sound max (r ++ (a ∷ [])) (add_id (id_of m a) s)
  unfolding is_new add_id has
  Sound-step max a r s room fresh (short, (same, distinct)) = elim (Option-cases (id_of m a)) [
    | inl e ↦ cc (rw (e, is_new) at fresh)
    | inr (id, e) ↦
        let unseen : has id s ≡ false = ground (arith, rw e at fresh) in
        (
          omega (arith, length-append r (a ∷ [])),
          (
            λ x.
                rw (e, ids_of-snoc r a id e)
                  (ground (arith, has-add id x s, has-append x (ids_of m r) (id ∷ []), same x)),
            rw (ids_of-snoc r a id e)
                (Distinct-snoc (ids_of m r) id distinct (sym (same id) ∙ unseen)),
          ),
        )
  ]

  pub backfill-Sound :
      (max : ℕ) (previous r : List m.Addr) (s : List String)
      → Sound max r s
      → Distinct (ids_of m (backfill m max previous r s))
        × (length (backfill m max previous r s) ≤ max)
  backfill-Sound max previous r s sound =
      let (s', (short, (same, distinct))) =
        backfill_induction m (Sound max) max previous r s (steps previous) sound in
      (distinct, short)
    where
      steps :
          (previous : List m.Addr)
          → All
              (λ a.
                (r : List m.Addr) (s : List String)
                → length r < max
                → is_new (id_of m a) s ≡ true
                → Sound max r s
                → Sound max (r ++ (a ∷ [])) (add_id (id_of m a) s))
              previous
      steps [] = tt
      steps (a ∷ previous) =
          (λ r s room fresh sound. Sound-step max a r s room fresh sound, steps previous)

  has-ids_of-take :
      (n : ℕ) (addrs : List m.Addr) (x : String)
      → has x (ids_of m addrs) ≡ false
      → has x (ids_of m (take n addrs)) ≡ false
  unfolding ids_of cons_id has
  has-ids_of-take zero addrs x h = refl
  has-ids_of-take (suc n) [] x h = refl
  has-ids_of-take (suc n) (a ∷ addrs) x h = elim (Option-cases (id_of m a)) [
    | inl e ↦ rw (e, cons_id) (has-ids_of-take n addrs x (rw (e, cons_id) at h))
    | inr (id, e) ↦
        rw (e, cons_id)
          (let h' : (str_eq id x || has x (ids_of m addrs)) ≡ false = rw (e, cons_id) at h in
            ground (arith, has-ids_of-take n addrs x))
  ]

  pub Distinct-take :
      (n : ℕ) (addrs : List m.Addr) → Distinct (ids_of m addrs) → Distinct (ids_of m (take n addrs))
  unfolding ids_of cons_id Distinct
  Distinct-take zero addrs d = tt
  Distinct-take (suc n) [] d = tt
  Distinct-take (suc n) (a ∷ addrs) d = elim (Option-cases (id_of m a)) [
    | inl e ↦ rw (e, cons_id) (Distinct-take n addrs (rw (e, cons_id) at d))
    | inr (id, e) ↦
        let d' : (has id (ids_of m addrs) ≡ false) × Distinct (ids_of m addrs) =
          rw (e, cons_id, Distinct) at d in
        rw (e, cons_id) (has-ids_of-take n addrs id d'.0, Distinct-take n addrs d'.1)
  ]
