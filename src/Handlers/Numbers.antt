-- ===== src/Handlers/Numbers.antt =====
-- What one count of `handleStats` in src/api/stats.ts does to the numbers and to their total.
use ipfs_shard.Shared.{
  ℕ, suc, ◌+◌, List, [], ◌∷◌, Bool, true, false, Option, none, some, String, str_eq, eq_iff, ◌≡◌,
  refl, sym, ap, ◌∙◌, inl, inr, arith, Bool-cases, if◌then◌else◌,
}
use ipfs_shard.Shared.Assoc.{lookup, insert}
use ipfs_shard.Handlers.Counts.{
  Slot, count, some_text, is_inherited, one_more, bump, total_of, add_slot,
}
use ipfs_shard.Handlers.Stats.{StoredPeer}
use ipfs_shard.Handlers.Inherited.{lookup-bump}

abbrev pub Counts : Type 0
Counts = List (String × Slot)

-- The number under a key; none counts as zero.
abbrev pub number : Option Slot → ℕ
number none = 0
number (some (count n)) = n
number (some some_text) = 0

abbrev pub one_if : Bool → ℕ
one_if true = 1
one_if false = 0

abbrev pub tells : String → Option String → ℕ
tells key none = 0
tells key (some agent) = one_if (str_eq agent key)

-- How many peers report the agent version, and how many report one at all.
abbrev pub reported : String → List StoredPeer → ℕ
reported key [] = 0
reported key (p ∷ peers) = tells key p.agent + reported key peers

abbrev pub speaks : Option String → ℕ
speaks none = 0
speaks (some agent) = 1

abbrev pub speaking : List StoredPeer → ℕ
speaking [] = 0
speaking (p ∷ peers) = speaks p.agent + speaking peers

-- The agent version is no property that JavaScript objects inherit.
abbrev pub Ordinary : Option String → Type 0
Ordinary none = Unit
Ordinary (some agent) = (is_inherited agent ≡ false) × (str_eq agent "__proto__" ≡ false)

abbrev pub OrdinaryPeer : StoredPeer → Type 0
OrdinaryPeer p = Ordinary p.agent

pub some_total :
    (o : Option ℕ) (n t : ℕ)
    → add_slot (count n) o ≡ some t
    → (r : ℕ) × ((o ≡ some r) × (t ≡ n + r))
some_total none n t e = absurd (cc)
some_total (some r) n t e = (r, (refl, sym cc))

-- Writing a number under a key replaces the one that was there in the total.
pub total-insert :
    (key : String) (n t : ℕ) (counts : Counts)
    → total_of counts ≡ some t
    → (r : ℕ) × ((t ≡ number (lookup key counts) + r)
        × (total_of (insert key (count n) counts) ≡ some (n + r)))
unfolding total_of lookup insert
total-insert key n t [] e = (t, (omega arith, ap (add_slot (count n)) e))
total-insert key n t ((j, some_text) ∷ counts) e = absurd (cc)
total-insert key n t ((j, count k) ∷ counts) e =
    let (r, (rest, sum)) = some_total (total_of counts) k t e in
    elim (Bool-cases (str_eq j key)) [
      | inl here ↦ (r, rw here (sum, ap (add_slot (count n)) rest))
      | inr away ↦
          let (q, (before, after)) = total-insert key n r counts rest in
          (
            k + q,
            rw away
                (omega (arith, sum, before), ap (add_slot (count k)) after ∙ ap some (omega arith)),
          )
    ]

one_more-count :
    (key : String) (t : ℕ) (counts : Counts)
    → total_of counts ≡ some t
    → one_more (lookup key counts) false ≡ count (suc (number (lookup key counts)))
unfolding total_of lookup
one_more-count key t [] e = refl
one_more-count key t ((j, some_text) ∷ counts) e = absurd (cc)
one_more-count key t ((j, count k) ∷ counts) e = elim (Bool-cases (str_eq j key)) [
  | inl here ↦ rw here refl
  | inr away ↦
      let (r, (rest, sum)) = some_total (total_of counts) k t e in
      rw away (one_more-count key r counts rest)
]

pub bump-total :
    (key : String) (t : ℕ) (counts : Counts)
    → Ordinary (some key)
    → total_of counts ≡ some t
    → total_of (bump key counts) ≡ some (suc t)
unfolding bump
bump-total key t counts (plain, proto) e =
    let (r, (before, after)) = total-insert key (suc (number (lookup key counts))) t counts e in
    rw (proto, plain, one_more-count key t counts e) (after ∙ ap some (omega (arith, before)))

pub bump-number :
    (key other : String) (t : ℕ) (counts : Counts)
    → Ordinary (some other)
    → total_of counts ≡ some t
    → number (lookup key (bump other counts)) ≡ number (lookup key counts) + tells key (some other)
bump-number key other t counts (plain, proto) e = elim (Bool-cases (str_eq other key)) [
  | inl here ↦
      let same : other ≡ key = (eq_iff other key).0 here in
      let looked : lookup key (bump other counts)
          ≡ some (one_more (lookup other counts) (is_inherited other)) =
        lookup-bump key other counts proto
        ∙ ap
            (λ (b : Bool).
              if b
              then some (one_more (lookup other counts) (is_inherited other))
              else lookup key counts)
            here in
      rw (looked, plain, one_more-count other t counts e, here, same) (omega arith)
  | inr away ↦
      let looked : lookup key (bump other counts) ≡ lookup key counts =
        lookup-bump key other counts proto
        ∙ ap
            (λ (b : Bool).
              if b
              then some (one_more (lookup other counts) (is_inherited other))
              else lookup key counts)
            away in
      rw (looked, away) (omega arith)
]
