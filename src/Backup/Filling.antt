-- ===== src/Backup/Filling.antt =====
-- How far `selectPeersToSave` of src/backup-bootstrap/selector.ts fills the list.
use ipfs_shard.Shared.{
  ℕ, zero, suc, ◌≤◌, List, [], ◌∷◌, ◌++◌, Bool, true, false, not, some, String, eq_iff, length,
  take, length-append, ◌≢◌, All, leb, ◌≡◌, refl, ap, sym, subst, ◌∙◌, ◌⊎◌, inl, inr, arith,
  Bool-cases, Option-cases, append_assoc, append-nil, ◌||◌,
}
use ipfs_shard.Shared.Assoc.{has, has-append, has-add}
use ipfs_shard.Multiaddrs.{Multiaddrs}
use ipfs_shard.Backup.Selector.{add_id, id_of, collect_ids, is_new, backfill, select_peers_to_save}
use ipfs_shard.Backup.Backfill.{
  cons_id, ids_of, has-collect_ids, backfill_full, backfill_takes, backfill_skips,
}
use ipfs_shard.Shared.Picks.{Picks}
use ipfs_shard.Backup.Official.{IsOfficial, without_official-Picks}
use ipfs_shard.Backup.Distinct.{ids_of-snoc}
use ipfs_shard.Backup.Selection.{filter_official, select_lem}

take-cases : {A : Type 0} → (n : ℕ) (xs : List A) → (take n xs ≡ xs) ⊎ (n ≤ length (take n xs))
take-cases zero xs = inr (omega arith)
take-cases (suc n) [] = inl refl
take-cases (suc n) (x ∷ xs) = elim (take-cases n xs) [
  | inl e ↦ inl (ap (◌∷◌ x) e)
  | inr e ↦ inr (omega arith)
]

module _ (m : Multiaddrs) where
  -- The peer of the address is in the list.
  abbrev pub Known : List m.Addr → m.Addr → Type 0
  Known r a = (id : String) → id_of m a ≡ some id → has id (ids_of m r) ≡ true

  has-ids_of-append :
      (xs ys : List m.Addr) (x : String)
      → has x (ids_of m (xs ++ ys)) ≡ (has x (ids_of m xs) || has x (ids_of m ys))
  unfolding ids_of has cons_id
  has-ids_of-append [] ys x = refl
  has-ids_of-append (a ∷ xs) ys x = elim (Option-cases (id_of m a)) [
    | inl e ↦ rw (e, cons_id) (has-ids_of-append xs ys x)
    | inr (id, e) ↦ rw (e, cons_id, has) (ground (arith, has-ids_of-append xs ys x))
  ]

  abbrev Same : List m.Addr → List String → Type 0
  Same r s = (x : String) → has x s ≡ has x (ids_of m r)

  Same-step :
      (a : m.Addr) (r : List m.Addr) (s : List String) (id : String)
      → id_of m a ≡ some id
      → Same r s
      → Same (r ++ (a ∷ [])) (add_id (id_of m a) s)
  unfolding add_id has
  Same-step a r s id e same x =
      rw (e, ids_of-snoc m r a id e)
        (ground (arith, has-add id x s, has-append x (ids_of m r) (id ∷ []), same x))

  Same-new :
      (a : m.Addr) (r : List m.Addr) (s : List String)
      → is_new (id_of m a) s ≡ true
      → Same r s
      → Same (r ++ (a ∷ [])) (add_id (id_of m a) s)
  unfolding is_new
  Same-new a r s fresh same = elim (Option-cases (id_of m a)) [
    | inl e ↦ cc (rw (e, is_new) at fresh)
    | inr (id, e) ↦ Same-step a r s id e same
  ]

  Known-same :
      (a : m.Addr) (r : List m.Addr) (s : List String)
      → is_new (id_of m a) s ≡ false
      → Same r s
      → Known r a
  unfolding is_new
  Known-same a r s known same id e =
      let h : not (has id s) ≡ false = rw (e, is_new) at known in ground (arith, same id)

  abbrev Fills : ℕ → List m.Addr → List m.Addr → List m.Addr → Type 0
  Fills max previous filled r =
      (extra : List m.Addr) × ((filled ≡ r ++ extra)
        × ((max ≤ length filled) ⊎ All (Known filled) previous))

  Known-append : (r extra : List m.Addr) (a : m.Addr) → Known r a → Known (r ++ extra) a
  Known-append r extra a known id e =
      has-ids_of-append r extra id ∙ ap (λ (b : Bool). b || has id (ids_of m extra)) (known id e)

  Fills-skips :
      (max : ℕ) (a : m.Addr) (previous filled r : List m.Addr)
      → Known r a
      → Fills max previous filled r
      → Fills max (a ∷ previous) filled r
  Fills-skips max a previous filled r known (extra, (e, inl full)) = (extra, (e, inl full))
  Fills-skips max a previous filled r known (extra, (e, inr all)) =
      (extra, (e, inr (rw e (Known-append r extra a known), all)))

  Known-snoc : (a : m.Addr) (r : List m.Addr) → Known (r ++ (a ∷ [])) a
  unfolding has
  Known-snoc a r id e =
      rw (ids_of-snoc m r a id e)
        (ground (arith, has-append id (ids_of m r) (id ∷ []), eq_iff id id))

  Fills-takes :
      (max : ℕ) (a : m.Addr) (previous filled r : List m.Addr)
      → Fills max previous filled (r ++ (a ∷ []))
      → Fills max (a ∷ previous) filled r
  Fills-takes max a previous filled r fills =
      let (extra, (e, rest)) =
        Fills-skips max a previous filled (r ++ (a ∷ [])) (Known-snoc a r) fills in
      (a ∷ extra, (e ∙ append_assoc r (a ∷ []) extra, rest))

  -- The backfill goes on behind what is chosen already, and leaves out a peer only where the list is
  -- full.
  backfill-Fills :
      (max : ℕ) (previous r : List m.Addr) (s : List String)
      → Same r s
      → Fills max previous (backfill m max previous r s) r
  unfolding backfill
  backfill-Fills max [] r s same = ([], (sym (append-nil r), inr tt))
  backfill-Fills max (a ∷ previous) r s same = elim (Bool-cases (leb max (length r))) [
    | inl full ↦
        rw (backfill_full m max a previous r s full) ([], (sym (append-nil r), inl (ground arith)))
    | inr room ↦ elim (Bool-cases (is_new (id_of m a) s)) [
      | inl fresh ↦
          subst (λ (b : List m.Addr). Fills max (a ∷ previous) b r)
            (sym (backfill_takes m max a previous r s room fresh))
            (Fills-takes max a previous _ r (
              backfill-Fills max previous (r ++ (a ∷ [])) (add_id (id_of m a) s)
                (Same-new a r s fresh same)))
      | inr known ↦
          subst (λ (b : List m.Addr). Fills max (a ∷ previous) b r)
            (sym (backfill_skips m max a previous r s room known))
            (Fills-skips max a previous _ r (Known-same a r s known same)
              (backfill-Fills max previous r s same))
    ]
  ]

  whole :
      (max : ℕ) (pool previous : List m.Addr)
      → let chosen = backfill m max previous (take max pool) (collect_ids m (take max pool) []) in
        (max ≤ length chosen)
        ⊎ (((extra : List m.Addr) × (chosen ≡ pool ++ extra)) × All (Known chosen) previous)
  unfolding has
  whole max pool previous =
      let (extra, (e, rest)) =
        backfill-Fills max previous (take max pool) (collect_ids m (take max pool) [])
          (λ x. has-collect_ids m x (take max pool) []) in
      elim rest [
        | inl full ↦ inl full
        | inr all ↦ elim (take-cases max pool) [
          | inl same ↦ inr ((extra, e ∙ ap (λ (t : List m.Addr). t ++ extra) same), all)
          | inr full ↦ inl (omega (arith, ap length e, length-append (take max pool) extra))
        ]
      ]

  -- If a peer is connected, then the selection is full, or it begins with exactly those connected
  -- addresses, in the shuffled order, whose peer id no official address has, those without a peer id
  -- included, and it has the peer of every saved address.
  pub select_peers_to_save-Fills :
      (shuffle : List m.Addr → List m.Addr) (connected official previous : List m.Addr) (max : ℕ)
      → connected ≢ []
      → let chosen = select_peers_to_save m shuffle connected official previous max in
        (max ≤ length chosen)
        ⊎ (((unofficial : List m.Addr) × ((extra : List m.Addr) × ((chosen ≡ unofficial ++ extra)
                  × Picks (λ a. IsOfficial m official a → ⊥) (shuffle connected) unofficial)))
            × All (Known chosen) previous)
  select_peers_to_save-Fills shuffle [] official previous max some_peer = absurd (some_peer refl)
  select_peers_to_save-Fills shuffle (a ∷ addrs) official previous max some_peer =
      rw (select_lem m shuffle a addrs official previous max) (elim (whole max pool previous) [
        | inl full ↦ inl full
        | inr ((extra, e), all) ↦
            inr ((pool, (extra, (e, without_official-Picks m official (shuffle (a ∷ addrs))))), all)
      ])
    where
      pool : List m.Addr
      pool = filter_official m official (shuffle (a ∷ addrs))
