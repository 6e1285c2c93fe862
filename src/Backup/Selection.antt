-- ===== src/Backup/Selection.antt =====
-- What `selectPeersToSave` of src/backup-bootstrap/selector.ts chooses.
use ipfs_shard.Shared.{
  ℕ, ◌≤◌, List, [], ◌∷◌, Bool, true, false, not, Option, none, some, String, str_eq, eq_iff, length,
  take, length-take-le, All, leb, ltb, ◌≡◌, refl, ap, ◌∙◌, ◌≢◌, inl, inr, arith, Bool-cases,
  Option-cases, ◌||◌,
}
use ipfs_shard.Shared.Assoc.{has}
use ipfs_shard.Multiaddrs.{Multiaddrs}
use ipfs_shard.Backup.Selector.{
  id_of, collect_ids, is_unofficial, without_official, backfill, has_any, select_peers_to_save,
}
use ipfs_shard.Backup.Backfill.{cons_id, ids_of, has-collect_ids, backfill_full, select-All}
use ipfs_shard.Shared.Assoc.{Distinct}
use ipfs_shard.Backup.Distinct.{Sound, backfill-Sound, Distinct-take}

has-cons_id :
    (x : String) (o : Option String) (ids : List String)
    → has x (cons_id o ids) ≡ false
    → ((id : String) → o ≡ some id → str_eq id x ≡ false) × (has x ids ≡ false)
unfolding cons_id has
has-cons_id x none ids h = (λ id e. cc, h)
has-cons_id x (some i) ids h =
    (λ id e. let same : i ≡ id = cc in rw (← same) (ground arith), ground arith)

cons_id-has :
    (x : String) (o : Option String) (ids : List String)
    → ((id : String) → o ≡ some id → str_eq id x ≡ false)
    → has x ids ≡ false
    → has x (cons_id o ids) ≡ false
unfolding cons_id has
cons_id-has x none ids h k = k
cons_id-has x (some id) ids h k = ground (arith, h id refl)

Distinct-cons_id :
    (o : Option String) (ids : List String)
    → Distinct (cons_id o ids)
    → ((id : String) → o ≡ some id → has id ids ≡ false) × Distinct ids
unfolding cons_id Distinct
Distinct-cons_id none ids d = (λ id e. cc, d)
Distinct-cons_id (some i) ids (h, d) = (λ id e. let same : i ≡ id = cc in rw (← same) h, d)

cons_id-Distinct :
    (o : Option String) (ids : List String)
    → ((id : String) → o ≡ some id → has id ids ≡ false)
    → Distinct ids
    → Distinct (cons_id o ids)
unfolding cons_id Distinct
cons_id-Distinct none ids h d = d
cons_id-Distinct (some id) ids h d = (h id refl, d)

module _ (m : Multiaddrs) where
  -- The text of the id differs from that of each of the addresses.
  abbrev pub DiffersFromAll : List m.Addr → m.Addr → Type 0
  DiffersFromAll addrs a =
      All (λ b. (id : String) → id_of m b ≡ some id → id_of m a ≢ some id) addrs

  abbrev pub filter_official : List m.Addr → List m.Addr → List m.Addr
  filter_official official addrs = without_official m (collect_ids m official []) addrs

  -- An address that passes the filter differs from all official ones.
  is_unofficial-DiffersFromAll :
      (official : List m.Addr) (a : m.Addr) (s : List String)
      → ((x : String) → has x (ids_of m official) ≡ true → has x s ≡ true)
      → is_unofficial s (id_of m a) ≡ true
      → DiffersFromAll official a
  unfolding ids_of cons_id has is_unofficial
  is_unofficial-DiffersFromAll [] a s inside h = tt
  is_unofficial-DiffersFromAll (b ∷ official) a s inside h = (
    λ id e same. clash id e (rw (same, is_unofficial) at h) (inside id),
    is_unofficial-DiffersFromAll official a s (λ x p. inside x (later x p)) h,
  )
    where
      clash :
          (id : String)
          → id_of m b ≡ some id
          → not (has id s) ≡ true
          → (has id (ids_of m (b ∷ official)) ≡ true → has id s ≡ true)
          → ⊥
      clash id e out here =
          let head : has id (ids_of m (b ∷ official)) ≡ true =
            rw (e, cons_id, has) (ground (arith, eq_iff id id)) in
          ground (arith, here head)

      later :
          (x : String) → has x (ids_of m official) ≡ true → has x (ids_of m (b ∷ official)) ≡ true
      later x p = elim (Option-cases (id_of m b)) [
        | inl e ↦ rw (e, cons_id) p
        | inr (id, e) ↦ rw (e, cons_id, has) (ground arith)
      ]

  without_official-All :
      (official : List m.Addr) (s : List String) (addrs : List m.Addr)
      → ((x : String) → has x (ids_of m official) ≡ true → has x s ≡ true)
      → All (DiffersFromAll official) (without_official m s addrs)
  unfolding without_official
  without_official-All official s [] inside = tt
  without_official-All official s (a ∷ addrs) inside =
      elim (Bool-cases (is_unofficial s (id_of m a))) [
        | inl free ↦ rw free (
          is_unofficial-DiffersFromAll official a s inside free,
          without_official-All official s addrs inside,
        )
        | inr taken ↦ rw taken (without_official-All official s addrs inside)
      ]

  -- If no previously saved address has the peer id of an official bootstrap address, then no
  -- selected one has, whichever peers are connected and in whatever order they come out.
  pub select_peers_to_save-DiffersFromAll :
      (shuffle : List m.Addr → List m.Addr) (connected official previous : List m.Addr) (max : ℕ)
      → All (DiffersFromAll official) previous
      → All
          (DiffersFromAll official)
          (select_peers_to_save m shuffle connected official previous max)
  select_peers_to_save-DiffersFromAll shuffle connected official previous max clean =
      select-All m (DiffersFromAll official) shuffle connected official previous max
        (without_official-All official (collect_ids m official []) (shuffle connected) (λ x p.
          has-collect_ids m x official [] ∙ ground (arith, ap (λ (b : Bool). has x [] || b) p)))
        clean

  -- The two tests before the backfill change nothing: it stops at once where they fail.
  pub select_lem :
      (shuffle : List m.Addr → List m.Addr) (a : m.Addr) (addrs official previous : List m.Addr)
      (max : ℕ)
      → let chosen = take max (filter_official official (shuffle (a ∷ addrs))) in
        select_peers_to_save m shuffle (a ∷ addrs) official previous max
        ≡ backfill m max previous chosen (collect_ids m chosen [])
  unfolding select_peers_to_save has_any backfill
  select_lem shuffle a addrs official [] max = ground arith
  select_lem shuffle a addrs official (b ∷ previous) max =
      let chosen = take max (filter_official official (shuffle (a ∷ addrs))) in
      elim (Bool-cases (leb max (length chosen))) [
        | inl full ↦
            let ends : ltb (length chosen) max ≡ false = ground arith in
            rw (ends, backfill_full m max b previous chosen (collect_ids m chosen []) full) refl
        | inr room ↦ let goes : ltb (length chosen) max ≡ true = ground arith in rw goes refl
      ]

  chosen-Sound :
      (max : ℕ) (addrs : List m.Addr)
      → Distinct (ids_of m addrs)
      → Sound m max (take max addrs) (collect_ids m (take max addrs) [])
  unfolding has
  chosen-Sound max addrs d = (
    length-take-le max addrs,
    (λ x. has-collect_ids m x (take max addrs) [], Distinct-take m max addrs d),
  )

  has-ids_of-without :
      (s : List String) (addrs : List m.Addr) (x : String)
      → has x (ids_of m addrs) ≡ false
      → has x (ids_of m (without_official m s addrs)) ≡ false
  unfolding ids_of without_official
  has-ids_of-without s [] x h = h
  has-ids_of-without s (a ∷ addrs) x h =
      let part = has-cons_id x (id_of m a) (ids_of m addrs) h in
      elim (Bool-cases (is_unofficial s (id_of m a))) [
        | inl free ↦ rw free (
            cons_id-has x (id_of m a) (ids_of m (without_official m s addrs)) part.0
              (has-ids_of-without s addrs x part.1))
        | inr taken ↦ rw taken (has-ids_of-without s addrs x part.1)
      ]

  Distinct-without :
      (s : List String) (addrs : List m.Addr)
      → Distinct (ids_of m addrs)
      → Distinct (ids_of m (without_official m s addrs))
  unfolding ids_of without_official
  Distinct-without s [] d = d
  Distinct-without s (a ∷ addrs) d =
      let part = Distinct-cons_id (id_of m a) (ids_of m addrs) d in
      elim (Bool-cases (is_unofficial s (id_of m a))) [
        | inl free ↦ rw free (
            cons_id-Distinct (id_of m a) (ids_of m (without_official m s addrs))
              (λ id e. has-ids_of-without s addrs id (part.0 id e))
              (Distinct-without s addrs part.1))
        | inr taken ↦ rw taken (Distinct-without s addrs part.1)
      ]

  -- Where no two connections are to the same peer, no two selected addresses have the same peer id,
  -- whatever was saved before, and there are at most `max` of them.
  pub select_peers_to_save-Distinct :
      (shuffle : List m.Addr → List m.Addr) (connected official previous : List m.Addr) (max : ℕ)
      → Distinct (ids_of m (shuffle connected))
      → Distinct (ids_of m (select_peers_to_save m shuffle connected official previous max))
        × (length (select_peers_to_save m shuffle connected official previous max) ≤ max)
  unfolding select_peers_to_save ids_of Distinct
  select_peers_to_save-Distinct shuffle [] official previous max d = (tt, omega arith)
  select_peers_to_save-Distinct shuffle (a ∷ addrs) official previous max d =
      let pool = filter_official official (shuffle (a ∷ addrs)) in
      rw (select_lem shuffle a addrs official previous max) (
        backfill-Sound m max previous (take max pool) (collect_ids m (take max pool) []) (
          chosen-Sound max pool
            (Distinct-without (collect_ids m official []) (shuffle (a ∷ addrs)) d)))
