-- ===== src/Backup/Official.antt =====
-- Which connected addresses `selectPeersToSave` of src/backup-bootstrap/selector.ts leaves out.
use ipfs_shard.Shared.{
  List, [], ◌∷◌, true, false, not, none, some, String, str_eq, eq_iff, ◌≡◌, ◌≢◌, refl, ap, ◌∙◌, ◌⊎◌,
  inl, inr, arith, Bool-cases, Option-cases,
}
use ipfs_shard.Shared.Assoc.{has}
use ipfs_shard.Shared.Picks.{Picks, done, kept, passed, Any, HasId}
use ipfs_shard.Multiaddrs.{Multiaddrs}
use ipfs_shard.Backup.Selector.{truthy, id_of, collect_ids, is_unofficial, without_official}
use ipfs_shard.Backup.Backfill.{cons_id, ids_of, has-collect_ids}

module _ (m : Multiaddrs) where
  -- The address has a peer id, and an official address has the same.
  abbrev pub IsOfficial : List m.Addr → m.Addr → Type 0
  IsOfficial official a =
      (id : String) × (HasId (m.peer_id a) id × Any (λ o. m.peer_id o ≡ some id) official)

  id_of-cases :
      (a : m.Addr)
      → ((id_of m a ≡ none) × ((id : String) → HasId (m.peer_id a) id → ⊥))
        ⊎ ((id : String) × ((id_of m a ≡ some id) × HasId (m.peer_id a) id))
  unfolding truthy
  id_of-cases a = elim (Option-cases (m.peer_id a)) [
    | inl e ↦ inl (rw (e, truthy) refl, λ id h. absurd (cc (h.0, e)))
    | inr (id, e) ↦ elim (Bool-cases (str_eq id "")) [
      | inl empty ↦
          inl (rw (e, truthy, empty) refl, λ j h. h.1 (cc (h.0, e, (eq_iff id "").0 empty)))
      | inr there ↦
          inr (id, (rw (e, truthy, there) refl, (e, λ same. ground (arith, there, eq_iff id ""))))
    ]
  ]

  has-ids_of-Any :
      (id : String) (official : List m.Addr)
      → has id (ids_of m official) ≡ true
      → Any (λ o. m.peer_id o ≡ some id) official
  unfolding ids_of cons_id has
  has-ids_of-Any id [] e = absurd (cc)
  has-ids_of-Any id (a ∷ official) e = elim (id_of-cases a) [
    | inl (f, _) ↦ inr (has-ids_of-Any id official (rw (f, cons_id) at e))
    | inr (j, (f, h)) ↦ elim (Bool-cases (str_eq j id)) [
      | inl same ↦ inl (cc (h.0, (eq_iff j id).0 same))
      | inr other ↦ inr (has-ids_of-Any id official (rw (f, cons_id, has, other) at e))
    ]
  ]

  Any-has-ids_of :
      (id : String) (official : List m.Addr)
      → id ≢ ""
      → Any (λ o. m.peer_id o ≡ some id) official
      → has id (ids_of m official) ≡ true
  unfolding ids_of cons_id has
  Any-has-ids_of id [] some_id e = absurd e
  Any-has-ids_of id (a ∷ official) some_id e = elim (id_of-cases a) [
    | inl (f, none_there) ↦ elim e [
      | inl here ↦ absurd (none_there id (here, some_id))
      | inr later ↦ rw (f, cons_id) (Any-has-ids_of id official some_id later)
    ]
    | inr (j, (f, h)) ↦ elim e [
      | inl here ↦
          let same : j ≡ id = cc (h.0, here) in
          rw (f, cons_id, has) (ground (arith, same, eq_iff j id))
      | inr later ↦ rw (f, cons_id, has) (ground (arith, Any-has-ids_of id official some_id later))
    ]
  ]

  module _ (official : List m.Addr) where
    abbrev ids : List String
    ids = collect_ids m official []

    has-ids : (id : String) → has id ids ≡ has id (ids_of m official)
    unfolding has
    has-ids id = has-collect_ids m id official []

    kept_lem : (a : m.Addr) → is_unofficial ids (id_of m a) ≡ true → IsOfficial official a → ⊥
    unfolding is_unofficial
    kept_lem a e (id, (h, there)) = elim (id_of-cases a) [
      | inl (f, none_there) ↦ none_there id h
      | inr (j, (f, g)) ↦
          let same : j ≡ id = cc (g.0, h.0) in
          let free : not (has j ids) ≡ true = rw (f, is_unofficial) at e in
          ground (
            arith,
            free,
            ap (λ x. has x ids) same ∙ has-ids id ∙ Any-has-ids_of id official h.1 there,
          )
    ]

    passed_lem : (a : m.Addr) → is_unofficial ids (id_of m a) ≡ false → IsOfficial official a
    unfolding is_unofficial
    passed_lem a e = elim (id_of-cases a) [
      | inl (f, none_there) ↦ absurd (cc (rw (f, is_unofficial) at e))
      | inr (j, (f, g)) ↦
          let known : not (has j ids) ≡ false = rw (f, is_unofficial) at e in
          (j, (g, has-ids_of-Any j official (ground (arith, known, has-ids j))))
    ]

    -- The filter keeps exactly the addresses that are not official.
    pub without_official-Picks :
        (addrs : List m.Addr)
        → Picks (λ a. IsOfficial official a → ⊥) addrs (without_official m ids addrs)
    unfolding without_official
    without_official-Picks [] = done
    without_official-Picks (a ∷ addrs) = elim (Bool-cases (is_unofficial ids (id_of m a))) [
      | inl e ↦ rw e (kept (kept_lem a e) (without_official-Picks addrs))
      | inr e ↦ rw e (passed (λ free. free (passed_lem a e)) (without_official-Picks addrs))
    ]
