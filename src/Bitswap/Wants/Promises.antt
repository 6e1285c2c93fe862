-- ===== src/Bitswap/Wants/Promises.antt =====
-- Settling a promise: once, and for its own deferred only.
use ipfs_shard.Shared.{
  ℕ, List, [], ◌∷◌, ◌≡◌, ◌≢◌, arith, Option, none, some, String, ◌==◌, ==_iff, Option-cases,
  Bool-cases, str_eq, ap, ◌∙◌, inl, inr, if◌then◌else◌,
}
use ipfs_shard.Shared.Assoc.{lookup}
use ipfs_shard.Multiformats.{Multiformats}
use ipfs_shard.Bitswap.State.{Outcome, rejected, outcome_of, settle, PendingWant}
use ipfs_shard.Bitswap.Wants.{reject_all, drop_storing}

module _ (d : ℕ) where
  pub settle_keeps :
      (e : ℕ) (o x : Outcome) (s : List (ℕ × Outcome))
      → outcome_of d s ≡ some x
      → outcome_of d (settle e o s) ≡ some x
  unfolding settle outcome_of
  settle_keeps e o x s h = elim (Option-cases (outcome_of e s)) [
    | inl fresh ↦ ground (arith, ==_iff e d)
    | inr (y, known) ↦ ground arith
  ]

  pub settle_self :
      (o : Outcome) (s : List (ℕ × Outcome))
      → (x : Outcome) × (outcome_of d (settle d o s) ≡ some x)
  unfolding settle outcome_of
  settle_self o s = elim (Option-cases (outcome_of d s)) [
    | inl fresh ↦ (o, ground (arith, ==_iff d d))
    | inr (y, known) ↦ (y, ground arith)
  ]

  pub settle_ne :
      (e : ℕ) (o : Outcome) (s : List (ℕ × Outcome))
      → e ≢ d
      → outcome_of d (settle e o s) ≡ outcome_of d s
  unfolding settle outcome_of
  settle_ne e o s h = elim (Option-cases (outcome_of e s)) [
    | inl fresh ↦ ground (arith, ==_iff e d)
    | inr (y, known) ↦ ground arith
  ]

  unfoldable pub find_storing : List (ℕ × List ℕ) → Option (List ℕ)
  find_storing [] = none
  find_storing ((e, content) ∷ s) = if e == d then some content else find_storing s

  pub find_storing-drop :
      (e : ℕ) (s : List (ℕ × List ℕ))
      → find_storing (drop_storing e s) ≡ (if e == d then none else find_storing s)
  unfolding find_storing drop_storing
  find_storing-drop e [] = ground arith
  find_storing-drop e ((x, content) ∷ s) =
      ground (arith, ==_iff e d, ==_iff x e, ==_iff x d, find_storing-drop e s)

module _ (m : Multiformats) (d : ℕ) where
  pub reject_all_keeps :
      (wants : List (String × PendingWant m)) (x : Outcome) (s : List (ℕ × Outcome))
      → outcome_of d s ≡ some x
      → outcome_of d (reject_all m wants s) ≡ some x
  reject_all_keeps [] x s h = h
  reject_all_keeps ((key, p) ∷ wants) x s h =
      reject_all_keeps wants x _ (settle_keeps d p.deferred _ x s h)

  -- Every want of the map is settled.
  pub reject_all_settles :
      (wants : List (String × PendingWant m)) (key : String) (p : PendingWant m)
      (s : List (ℕ × Outcome))
      → lookup key wants ≡ some p
      → p.deferred ≡ d
      → (x : Outcome) × (outcome_of d (reject_all m wants s) ≡ some x)
  unfolding lookup
  reject_all_settles [] key p s h e = absurd (cc)
  reject_all_settles ((k, q) ∷ wants) key p s h e = elim (Bool-cases (str_eq k key)) [
    | inl here ↦
        let same : q ≡ p = cc (rw here at h) in
        let own : q.deferred ≡ d = ap (λ (r : PendingWant m). r.deferred) same ∙ e in
        let (x, done) = settle_self d (rejected "Bitswap stopped") s in
        (x, reject_all_keeps wants x _ (rw own done))
    | inr there ↦ reject_all_settles wants key p _ (rw there at h) e
  ]
