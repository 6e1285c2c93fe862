-- ===== src/Handlers/Inherited.antt =====
-- A peer with the name of an inherited property as its agent version: src/api/stats.ts.
use ipfs_shard.Shared.{
  ℕ, ◌++◌, eq_refl, List, [], ◌∷◌, length, Bool, true, false, Option, none, some, String, str_eq,
  eq_iff, ◌≡◌, refl, ap, ◌∙◌, ◌⊎◌, inl, inr, Bool-cases, if◌then◌else◌,
}
use ipfs_shard.Shared.Assoc.{lookup, lookup-insert}
use ipfs_shard.Multiformats.{Multiformats}
use ipfs_shard.Node.Pins.{Datastore}
use ipfs_shard.Announce.Status.{Json}
use ipfs_shard.Handlers.Answers.{ok, refused, ApiState}
use ipfs_shard.Handlers.Counts.{
  Slot, count, some_text, is_inherited, one_more, bump, total_of, fill_unknown, add_unknown,
}
use ipfs_shard.Handlers.Stats.{
  StoredPeer, ConnDirection, count_agent, count_agents, set_agents, stats_content, handle_stats,
}

abbrev Counts : Type 0
Counts = List (String × Slot)

-- Under an inherited name there is never a number.
abbrev NoNumber : Option Slot → Type 0
NoNumber o = (o ≡ none) ⊎ (o ≡ some some_text)

pub lookup-bump :
    (key other : String) (counts : Counts)
    → str_eq other "__proto__" ≡ false
    → lookup key (bump other counts) ≡ (
        if str_eq other key
        then some (one_more (lookup other counts) (is_inherited other))
        else lookup key counts)
unfolding bump
lookup-bump key other counts e =
    rw e (lookup-insert other key (one_more (lookup other counts) (is_inherited other)) counts)

bump_proto :
    (other : String) (counts : Counts)
    → str_eq other "__proto__" ≡ true
    → bump other counts ≡ counts
unfolding bump
bump_proto other counts e = rw e refl

one_more-NoNumber : (o : Option Slot) → NoNumber o → some (one_more o true) ≡ some some_text
one_more-NoNumber none h = refl
one_more-NoNumber (some some_text) h = refl
one_more-NoNumber (some (count n)) (inl e) = absurd (cc)
one_more-NoNumber (some (count n)) (inr e) = absurd (cc)

module _ (key : String) (inherited : is_inherited key ≡ true) where
  not_proto : str_eq key "__proto__" ≡ false
  unfolding is_inherited
  not_proto = elim (Bool-cases (str_eq key "__proto__")) [
    | inr e ↦ e
    | inl e ↦ absurd (cc (rw ((eq_iff key "__proto__").0 e) at inherited))
  ]

  bump_self :
      (counts : Counts)
      → NoNumber (lookup key counts)
      → lookup key (bump key counts) ≡ some some_text
  bump_self counts h =
      lookup-bump key key counts not_proto
      ∙ rw (eq_refl key, inherited) (one_more-NoNumber (lookup key counts) h)

  bump-NoNumber :
      (other : String) (counts : Counts)
      → NoNumber (lookup key counts)
      → NoNumber (lookup key (bump other counts))
  bump-NoNumber other counts h = elim (Bool-cases (str_eq other key)) [
    | inl same ↦ let e : other ≡ key = (eq_iff other key).0 same in rw e (inr (bump_self counts h))
    | inr differ ↦ elim (Bool-cases (str_eq other "__proto__")) [
      | inl proto ↦ rw (bump_proto other counts proto) h
      | inr plain ↦ rw (lookup-bump key other counts plain, differ) h
    ]
  ]

  bump_keeps :
      (other : String) (counts : Counts)
      → lookup key counts ≡ some some_text
      → lookup key (bump other counts) ≡ some some_text
  bump_keeps other counts h = elim (Bool-cases (str_eq other key)) [
    | inl same ↦ let e : other ≡ key = (eq_iff other key).0 same in rw e (bump_self counts (inr h))
    | inr differ ↦ elim (Bool-cases (str_eq other "__proto__")) [
      | inl proto ↦ rw (bump_proto other counts proto) h
      | inr plain ↦ rw (lookup-bump key other counts plain, differ) h
    ]
  ]

  total_text : (counts : Counts) → lookup key counts ≡ some some_text → total_of counts ≡ none
  unfolding lookup total_of
  total_text [] e = absurd (cc)
  total_text ((j, some_text) ∷ counts) e = refl
  total_text ((j, count n) ∷ counts) e = elim (Bool-cases (str_eq j key)) [
    | inl here ↦ absurd (cc (rw here at e))
    | inr away ↦ rw (total_text counts (rw away at e)) refl
  ]

  set_agents-text :
      (accepts : Slot → Bool)
      → accepts some_text ≡ false
      → (counts gauge : Counts) → lookup key counts ≡ some some_text
      → (set_agents accepts counts gauge).1 ≡ false
  unfolding lookup set_agents
  set_agents-text accepts rejects [] gauge e = absurd (cc)
  set_agents-text accepts rejects ((j, some_text) ∷ counts) gauge e = rw (rejects, set_agents) refl
  set_agents-text accepts rejects ((j, count n) ∷ counts) gauge e =
      elim (Bool-cases (accepts (count n))) [
        | inr refuses ↦ rw (refuses, set_agents) refl
        | inl sets ↦ elim (Bool-cases (str_eq j key)) [
          | inl here ↦ absurd (cc (rw here at e))
          | inr away ↦
              rw (sets, set_agents)
                (set_agents-text accepts rejects counts ((j, count n) ∷ gauge) (rw away at e))
        ]
      ]

  agents_keep :
      (peers : List StoredPeer) (counts : Counts)
      → lookup key counts ≡ some some_text
      → lookup key (count_agents peers counts) ≡ some some_text
  unfolding count_agents
  agents_keep [] counts h = h
  agents_keep (p ∷ peers) counts h = agents_keep peers (count_agent p.agent counts) (kept p.agent)
    where
      kept : (agent : Option String) → lookup key (count_agent agent counts) ≡ some some_text
      kept none = h
      kept (some other) = bump_keeps other counts h

  -- `peers ++ (p ∷ more)`, where `p` has the name.
  agents_text :
      (peers more : List StoredPeer) (p : StoredPeer) (counts : Counts)
      → p.agent ≡ some key
      → NoNumber (lookup key counts)
      → lookup key (count_agents (peers ++ (p ∷ more)) counts) ≡ some some_text
  unfolding count_agents
  agents_text [] more p counts e h =
      agents_keep more (count_agent p.agent counts) (rw e (bump_self counts h))
  agents_text (q ∷ peers) more p counts e h =
      agents_text peers more p (count_agent q.agent counts) e (kept q.agent)
    where
      kept : (agent : Option String) → NoNumber (lookup key (count_agent agent counts))
      kept none = h
      kept (some other) = bump-NoNumber other counts h

  module _ (m : Multiformats) (d : Datastore) (json : Json) where
    -- One known peer with an agent version like `constructor`, which every JavaScript object inherits,
    -- is enough: if a gauge throws for a text, then, whatever the other peers, `GET /stats` is answered
    -- with status 500.
    pub handle_stats-inherited :
        (accepts : Slot → Bool)
        → accepts some_text ≡ false
        → (peers more : List StoredPeer) (p : StoredPeer) (connections : List ConnDirection)
        → (w : ApiState m d json) → p.agent ≡ some key
        → (handle_stats m d json accepts (peers ++ (p ∷ more)) connections w).1
          ≡ refused 500 "Internal server error"
    unfolding handle_stats stats_content add_unknown
    handle_stats-inherited accepts rejects peers more p connections w e =
        let all = peers ++ (p ∷ more) in
        let counted : lookup key (count_agents all []) ≡ some some_text =
          agents_text peers more p [] e (inl empty) in
        let filled : add_unknown (length all) (count_agents all []) ≡ count_agents all [] =
          ap (λ (t : Option ℕ). fill_unknown (length all) t (count_agents all []))
            (total_text (count_agents all []) counted) in
        ap
          (λ (b : Bool).
            if b
            then ok (stats_content m d json w all connections)
            else refused 500 "Internal server error")
          (set_agents-text accepts rejects (add_unknown (length all) (count_agents all [])) []
            (ap (lookup key) filled ∙ counted))
      where
        empty : lookup {V = Slot} key [] ≡ none
        empty = unfold lookup in refl
