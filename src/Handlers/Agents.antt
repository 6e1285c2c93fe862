-- ===== src/Handlers/Agents.antt =====
-- The numbers of peers per agent version in `GET /stats`: src/api/stats.ts.
use ipfs_shard.Shared.{
  ℕ, ◌+◌, ◌-◌, ◌≤◌, List, [], ◌∷◌, length, Bool, true, ◌&&◌, Option, none, some, String, str_eq,
  ltb, All, ◌≡◌, refl, ap, ◌∙◌, inl, inr, arith, Bool-cases, if◌then◌else◌,
}
use ipfs_shard.Shared.Assoc.{lookup, insert, lookup-insert}
use ipfs_shard.Multiformats.{Multiformats}
use ipfs_shard.Node.Pins.{Datastore}
use ipfs_shard.Announce.Status.{Json}
use ipfs_shard.Handlers.Answers.{ok, refused, ApiState}
use ipfs_shard.Handlers.Counts.{Slot, count, some_text, total_of, fill_unknown, add_unknown}
use ipfs_shard.Handlers.Stats.{
  StoredPeer, ConnDirection, count_agent, count_agents, set_agents, stats_content, handle_stats,
}
use ipfs_shard.Handlers.Numbers.{
  Counts, number, tells, reported, speaks, speaking, Ordinary, OrdinaryPeer, some_total,
  total-insert, bump-total, bump-number,
}

-- Counting peers adds to the total those that report a version, and to each number those that report it.
abbrev Adds : Counts → Counts → ℕ → ℕ → (String → ℕ) → Type 0
Adds before after t n per_key =
    (total_of after ≡ some (t + n))
    × ((key : String) → number (lookup key after) ≡ number (lookup key before) + per_key key)

count_agent-Adds :
    (agent : Option String) (t : ℕ) (counts : Counts)
    → Ordinary agent
    → total_of counts ≡ some t
    → Adds counts (count_agent agent counts) t (speaks agent) (λ key. tells key agent)
count_agent-Adds none t counts plain e = (e ∙ ap some (omega arith), λ key. omega arith)
count_agent-Adds (some agent) t counts plain e = (
  bump-total agent t counts plain e ∙ ap some (omega arith),
  λ key. bump-number key agent t counts plain e,
)

count_agents-Adds :
    (peers : List StoredPeer) (t : ℕ) (counts : Counts)
    → All OrdinaryPeer peers
    → total_of counts ≡ some t
    → Adds counts (count_agents peers counts) t (speaking peers) (λ key. reported key peers)
unfolding count_agents
count_agents-Adds [] t counts all e = (e ∙ ap some (omega arith), λ key. omega arith)
count_agents-Adds (p ∷ peers) t counts (plain, all) e =
    let (one_total, one_number) = count_agent-Adds p.agent t counts plain e in
    let (total, numbers) =
      count_agents-Adds peers (t + speaks p.agent) (count_agent p.agent counts) all one_total in
    (total ∙ ap some (omega arith), λ key. omega (arith, numbers key, one_number key))

speaking-length : (peers : List StoredPeer) → speaking peers ≤ length peers
speaking-length [] = omega arith
speaking-length (p ∷ peers) = omega (arith, speaking-length peers, at_most_one p.agent)
  where
    at_most_one : (agent : Option String) → speaks agent ≤ 1
    at_most_one none = omega arith
    at_most_one (some agent) = omega arith

set_agents-ok :
    (accepts : Slot → Bool)
    → ((n : ℕ) → accepts (count n) ≡ true)
    → (t : ℕ) (counts gauge : Counts) → total_of counts ≡ some t
    → (set_agents accepts counts gauge).1 ≡ true
unfolding total_of set_agents
set_agents-ok accepts takes t [] gauge e = refl
set_agents-ok accepts takes t ((j, some_text) ∷ counts) gauge e = absurd (cc)
set_agents-ok accepts takes t ((j, count k) ∷ counts) gauge e =
    let (r, (rest, sum)) = some_total (total_of counts) k t e in
    rw (takes k, set_agents) (set_agents-ok accepts takes r counts ((j, count k) ∷ gauge) rest)

-- What the answer must count under a version: where some peers report none, their number stands under
-- `unknown`, whatever else is there.
abbrev pub expected_number : String → List StoredPeer → ℕ
expected_number key peers =
    if ltb (speaking peers) (length peers) && str_eq "unknown" key
    then length peers - speaking peers
    else reported key peers

-- The peers that are missing in the total: those that report the version `unknown`, where others report
-- none.
abbrev pub lost : List StoredPeer → ℕ
lost peers = if ltb (speaking peers) (length peers) then reported "unknown" peers else 0

-- What is shown of the counts of some peers.
abbrev pub Counted : List StoredPeer → Counts → Type 0
Counted peers counts =
    ((t : ℕ) × ((total_of counts ≡ some t) × (t + lost peers ≡ length peers)))
    × ((key : String) → number (lookup key counts) ≡ expected_number key peers)

filled-Counted :
    (peers : List StoredPeer) (counts : Counts)
    → total_of counts ≡ some (speaking peers)
    → ((key : String) → number (lookup key counts) ≡ reported key peers)
    → Counted peers (fill_unknown (length peers) (some (speaking peers)) counts)
filled-Counted peers counts total numbers =
    elim (Bool-cases (ltb (speaking peers) (length peers))) [
      | inr full ↦
          rw full ((speaking peers, (total, ground (arith, full, speaking-length peers))), numbers)
      | inl less ↦
          let missing = length peers - speaking peers in
          let (r, (before, after)) = total-insert "unknown" missing (speaking peers) counts total in
          rw less (
            (missing + r, (after, ground (arith, less, before, numbers "unknown"))),
            λ key. replaced key missing,
          )
    ]
  where
    replaced :
        (key : String) (n : ℕ)
        → number (lookup key (insert "unknown" (count n) counts))
          ≡ (if str_eq "unknown" key then n else reported key peers)
    replaced key n = elim (Bool-cases (str_eq "unknown" key)) [
      | inl here ↦ ap number (lookup-insert "unknown" key (count n) counts) ∙ rw here refl
      | inr away ↦ ap number (lookup-insert "unknown" key (count n) counts) ∙ rw away (numbers key)
    ]

add_unknown-Counted :
    (peers : List StoredPeer)
    → All OrdinaryPeer peers
    → Counted peers (add_unknown (length peers) (count_agents peers []))
unfolding add_unknown lookup total_of
add_unknown-Counted peers all =
    let (total, numbers) = count_agents-Adds peers 0 [] all refl in
    let whole : total_of (count_agents peers []) ≡ some (speaking peers) =
      total ∙ ap some (omega arith) in
    rw whole (filled-Counted peers (count_agents peers []) whole (λ key. numbers key ∙ omega arith))

module _ (m : Multiformats) (d : Datastore) (json : Json) where
  -- If the gauge takes every number and no peer's version is the name of an inherited property, then
  -- `GET /stats` is answered with success; under each version it counts the peers that report it, but
  -- under `unknown` those that report none, if there are any; and the numbers add up to the number of
  -- peers, less those that do report `unknown` while others report none.
  pub handle_stats-Counted :
      (accepts : Slot → Bool) (peers : List StoredPeer) (connections : List ConnDirection)
      → (w : ApiState m d json) → ((n : ℕ) → accepts (count n) ≡ true)
      → All OrdinaryPeer peers
      → ((handle_stats m d json accepts peers connections w).1
          ≡ ok (stats_content m d json w peers connections))
        × Counted peers (stats_content m d json w peers connections).agents
  unfolding handle_stats stats_content
  handle_stats-Counted accepts peers connections w takes all =
      let counted = add_unknown-Counted peers all in
      (
        ap
            (λ (b : Bool).
              if b
              then ok (stats_content m d json w peers connections)
              else refused 500 "Internal server error")
            (set_agents-ok accepts takes counted.0.0
              (add_unknown (length peers) (count_agents peers [])) [] counted.0.1.0),
        counted,
      )
