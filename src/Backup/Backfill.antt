-- ===== src/Backup/Backfill.antt =====
-- The backfill loop of `selectPeersToSave` in src/backup-bootstrap/selector.ts.
use ipfs_shard.Shared.{
  ℕ, zero, suc, ◌<◌, List, [], ◌∷◌, ◌++◌, true, false, Option, none, some, String, length, take,
  All, leb, ltb, ◌≡◌, refl, ◌∙◌, inl, inr, arith, Bool-cases, ◌||◌, ◌&&◌,
}
use ipfs_shard.Shared.Assoc.{has, has-add}
use ipfs_shard.Multiaddrs.{Multiaddrs}
use ipfs_shard.Backup.Selector.{
  add_id, id_of, collect_ids, without_official, is_new, backfill, has_any, select_peers_to_save,
}

unfoldable pub cons_id : Option String → List String → List String
cons_id none ids = ids
cons_id (some id) ids = id ∷ ids

has-cons_id-add_id :
    (x : String) (o : Option String) (s t : List String)
    → (has x (add_id o s) || has x t) ≡ (has x s || has x (cons_id o t))
unfolding has cons_id add_id
has-cons_id-add_id x none s t = refl
has-cons_id-add_id x (some id) s t = ground (arith, has-add id x s)

module _ (m : Multiaddrs) where
  -- The peer ids of a list of addresses, in order.
  unfoldable pub ids_of : List m.Addr → List String
  ids_of [] = []
  ids_of (a ∷ addrs) = cons_id (id_of m a) (ids_of addrs)

  pub has-collect_ids :
      (x : String) (addrs : List m.Addr) (s : List String)
      → has x (collect_ids m addrs s) ≡ (has x s || has x (ids_of addrs))
  unfolding collect_ids ids_of has
  has-collect_ids x [] s = ground arith
  has-collect_ids x (a ∷ addrs) s =
      has-collect_ids x addrs (add_id (id_of m a) s)
      ∙ has-cons_id-add_id x (id_of m a) s (ids_of addrs)

  module _ (max : ℕ) (a : m.Addr) (previous result : List m.Addr) (ids : List String) where
    pub backfill_full :
        leb max (length result) ≡ true → backfill m max (a ∷ previous) result ids ≡ result
    unfolding backfill
    backfill_full full = rw (full, backfill) refl

    pub backfill_takes :
        leb max (length result) ≡ false
        → is_new (id_of m a) ids ≡ true
        → backfill m max (a ∷ previous) result ids
          ≡ backfill m max previous (result ++ (a ∷ [])) (add_id (id_of m a) ids)
    unfolding backfill
    backfill_takes room fresh = rw (room, backfill) rw (fresh, backfill) refl

    pub backfill_skips :
        leb max (length result) ≡ false
        → is_new (id_of m a) ids ≡ false
        → backfill m max (a ∷ previous) result ids ≡ backfill m max previous result ids
    unfolding backfill
    backfill_skips room known = rw (room, backfill) rw (known, backfill) refl

  -- Induction over the backfill: an invariant of the result and the set that each step keeps.
  module _ {κ} (Inv : List m.Addr → List String → Type κ) where
    pub backfill_induction :
        (max : ℕ) (previous result : List m.Addr) (ids : List String)
        → All
            (λ a.
              (r : List m.Addr) (s : List String)
              → length r < max
              → is_new (id_of m a) s ≡ true
              → Inv r s
              → Inv (r ++ (a ∷ [])) (add_id (id_of m a) s))
            previous
        → Inv result ids
        → (s : List String) × Inv (backfill m max previous result ids) s
    unfolding backfill
    backfill_induction max [] result ids steps inv = (ids, inv)
    backfill_induction max (a ∷ previous) result ids (step, steps) inv =
        elim (Bool-cases (leb max (length result))) [
          | inl full ↦ rw (backfill_full max a previous result ids full) (ids, inv)
          | inr room ↦ elim (Bool-cases (is_new (id_of m a) ids)) [
            | inl fresh ↦ rw (backfill_takes max a previous result ids room fresh) (
                backfill_induction max previous (result ++ (a ∷ [])) (add_id (id_of m a) ids) steps
                  (step result ids (ground arith) fresh inv))
            | inr known ↦
                rw (backfill_skips max a previous result ids room known)
                  (backfill_induction max previous result ids steps inv)
          ]
        ]

  -- A property of addresses: what the backfill takes, and what it started from.
  module _ {κ} (P : m.Addr → Type κ) where
    All-append : (xs ys : List m.Addr) → All P xs → All P ys → All P (xs ++ ys)
    All-append [] ys p q = q
    All-append (x ∷ xs) ys (h, p) q = (h, All-append xs ys p q)

    All-take : (n : ℕ) (xs : List m.Addr) → All P xs → All P (take n xs)
    All-take zero xs p = tt
    All-take (suc n) [] p = tt
    All-take (suc n) (x ∷ xs) (h, p) = (h, All-take n xs p)

    backfill-All :
        (max : ℕ) (previous result : List m.Addr) (ids : List String)
        → All P previous
        → All P result
        → All P (backfill m max previous result ids)
    unfolding backfill
    backfill-All max [] result ids p q = q
    backfill-All max (a ∷ previous) result ids (h, p) q =
        elim (Bool-cases (leb max (length result))) [
          | inl full ↦ rw (backfill_full max a previous result ids full) q
          | inr room ↦ elim (Bool-cases (is_new (id_of m a) ids)) [
            | inl fresh ↦ rw (backfill_takes max a previous result ids room fresh) (
                backfill-All max previous (result ++ (a ∷ [])) (add_id (id_of m a) ids) p
                  (All-append result (a ∷ []) q (h, tt)))
            | inr known ↦
                rw (backfill_skips max a previous result ids room known)
                  (backfill-All max previous result ids p q)
          ]
        ]

    pub select-All :
        (shuffle : List m.Addr → List m.Addr) (connected official previous : List m.Addr) (max : ℕ)
        → All P (without_official m (collect_ids m official []) (shuffle connected))
        → All P previous
        → All P (select_peers_to_save m shuffle connected official previous max)
    unfolding select_peers_to_save
    select-All shuffle [] official previous max p q = tt
    select-All shuffle (a ∷ addrs) official previous max p q =
        let filtered = without_official m (collect_ids m official []) (shuffle (a ∷ addrs)) in
        elim (Bool-cases (ltb (length (take max filtered)) max && has_any m previous)) [
          | inl room ↦ rw room (
              backfill-All max previous (take max filtered) (collect_ids m (take max filtered) []) q
                (All-take max filtered p))
          | inr full ↦ rw full (All-take max filtered p)
        ]
