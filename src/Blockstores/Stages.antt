-- ===== src/Blockstores/Stages.antt =====
-- The stages of `NetworkAwareBlockstore.get` of src/blockstore-network.ts.
use ipfs_shard.Shared.{
  ℕ, List, [], ◌∷◌, Option, none, some, String, ◌≡◌, refl, ap, ◌∙◌, ◌⊎◌, inl, inr, Bool-cases,
  if◌then◌else◌,
}
use ipfs_shard.Multiformats.{Multiformats}
use ipfs_shard.InterfaceBlockstore.{Blockstore}
use ipfs_shard.Bitswap.State.{Outcome, resolved, rejected}
use ipfs_shard.Blockstores.Network.{
  Provider, Lookup, failed, not_ok, answered, Answers, try_bitswap, try_dht_retrieval, try_ipni,
  ask_ipni, ask_gateway, NetworkAware, deliver, block_not_found, race, fetch_block, dial_addrs,
}

abbrev pub or_else {ℓ} : {A : Type ℓ} → Option A → Option A → Option A
or_else none b = b
or_else (some a) b = some a

or_else-some {ℓ} :
    {A : Type ℓ}
    → (x y : Option A) (b : A) → or_else x y ≡ some b
    → (x ≡ some b) ⊎ ((x ≡ none) × (y ≡ some b))
or_else-some none y b e = inr (refl, e)
or_else-some (some a) y b e = inl e

or_else-none {ℓ} : {A : Type ℓ} → (x y : Option A) → or_else x y ≡ none → (x ≡ none) × (y ≡ none)
or_else-none none y e = (refl, e)
or_else-none (some a) y e = absurd (cc)

-- The first provider whose want is resolved.
abbrev pub first_wanted : List Provider → Option (List ℕ)
first_wanted [] = none
first_wanted (p ∷ providers) = or_else (try_bitswap p.wanted) (first_wanted providers)

-- The same before the shared signal is aborted.
abbrev pub first_before_abort : List Provider → Option (List ℕ)
first_before_abort [] = none
first_before_abort (p ∷ providers) =
    if p.aborted then none else or_else (try_bitswap p.wanted) (first_before_abort providers)

abbrev pub named_by : Lookup → List Provider
named_by failed = []
named_by not_ok = []
named_by (answered none) = []
named_by (answered (some providers)) = providers

Outcome-cases :
    (o : Outcome)
    → ((content : List ℕ) × (o ≡ resolved content)) ⊎ ((reason : String) × (o ≡ rejected reason))
Outcome-cases (resolved content) = inl (content, refl)
Outcome-cases (rejected reason) = inr (reason, refl)

try_dht_lem :
    (providers : List Provider) (dialled : List String)
    → (try_dht_retrieval providers dialled).1 ≡ first_wanted providers
unfolding try_dht_retrieval
try_dht_lem [] dialled = refl
try_dht_lem (p ∷ providers) dialled = elim (Outcome-cases p.wanted) [
  | inl (content, e) ↦ rw (e, try_dht_retrieval) refl
  | inr (reason, e) ↦ rw (e, try_dht_retrieval) (try_dht_lem providers (dial_addrs p.addrs dialled))
]

try_ipni_lem :
    (providers : List Provider) (dialled : List String)
    → (try_ipni providers dialled).1 ≡ first_before_abort providers
unfolding try_ipni
try_ipni_lem [] dialled = refl
try_ipni_lem (p ∷ providers) dialled = elim (Bool-cases p.aborted) [
  | inl over ↦ rw (over, try_ipni) refl
  | inr goes ↦ elim (Outcome-cases p.wanted) [
    | inl (content, e) ↦ rw (goes, e, try_ipni) refl
    | inr (reason, e) ↦ rw (goes, e, try_ipni) (try_ipni_lem providers (dial_addrs p.addrs dialled))
  ]
]

ask_ipni_lem :
    (l : Lookup) (dialled : List String) → (ask_ipni l dialled).1 ≡ first_before_abort (named_by l)
unfolding ask_ipni
ask_ipni_lem failed dialled = refl
ask_ipni_lem not_ok dialled = refl
ask_ipni_lem (answered none) dialled = refl
ask_ipni_lem (answered (some providers)) dialled = try_ipni_lem providers dialled

-- The stages in order, as the network answers: the raced promise that settles first, then cid.contact,
-- then the gateway.
abbrev pub raced_block : Answers → Option (List ℕ)
raced_block a = if a.bitswap_first then try_bitswap a.bitswap else first_wanted a.providers

abbrev pub found_block : Answers → Option (List ℕ)
found_block a =
    or_else (raced_block a) (or_else (first_before_abort (named_by a.ipni)) (ask_gateway a.gateway))

module _ (m : Multiformats) (s3 : Blockstore m) where
  race_lem : (a : Answers) (dialled : List String) → (race m s3 a dialled).1 ≡ raced_block a
  unfolding race
  race_lem a dialled =
      ap (λ (o : Option (List ℕ)). if a.bitswap_first then try_bitswap a.bitswap else o)
        (try_dht_lem a.providers dialled)

  module _ (cid : m.Cid) (a : Answers) (before : List (List ℕ)) (w : NetworkAware m s3) where
    abbrev pub Delivers : List ℕ → Type 0
    Delivers block =
        (dialled : List String) × (fetch_block m s3 cid a before w
          ≡ deliver m s3 cid before block (record w { dialled = dialled }))

    abbrev pub raced : List String × Option (List ℕ)
    raced = race m s3 a w.dialled

    fetch_raced : (block : List ℕ) → raced.1 ≡ some block → Delivers block
    unfolding fetch_block
    fetch_raced block e = (raced.0, rw (e, fetch_block) refl)

    fetch_ipni :
        (block : List ℕ)
        → raced.1 ≡ none
        → (ask_ipni a.ipni raced.0).1 ≡ some block
        → Delivers block
    unfolding fetch_block
    fetch_ipni block e f =
        ((ask_ipni a.ipni raced.0).0, rw (e, fetch_block) rw (f, fetch_block) refl)

    fetch_gateway :
        (block : List ℕ)
        → raced.1 ≡ none
        → (ask_ipni a.ipni raced.0).1 ≡ none
        → ask_gateway a.gateway ≡ some block
        → Delivers block
    unfolding fetch_block
    fetch_gateway block e f g = (
      (ask_ipni a.ipni raced.0).0,
      rw (e, fetch_block) rw (f, fetch_block) rw (g, fetch_block) refl,
    )

    fetch_lost :
        raced.1 ≡ none
        → (ask_ipni a.ipni raced.0).1 ≡ none
        → ask_gateway a.gateway ≡ none
        → fetch_block m s3 cid a before w ≡ (
          record w { dialled = (ask_ipni a.ipni raced.0).0 },
          record { yielded = before; thrown = some (block_not_found m s3 cid) },
        )
    unfolding fetch_block
    fetch_lost e f g = rw (e, fetch_block) rw (f, fetch_block) rw (g, fetch_block) refl

    pub fetch_block-some : (block : List ℕ) → found_block a ≡ some block → Delivers block
    fetch_block-some block e =
        let at_race = race_lem a w.dialled in
        let at_ipni = ask_ipni_lem a.ipni raced.0 in
        let named = first_before_abort (named_by a.ipni) in
        elim (or_else-some (raced_block a) (or_else named (ask_gateway a.gateway)) block e) [
          | inl r ↦ fetch_raced block (at_race ∙ r)
          | inr (r, e') ↦ elim (or_else-some named (ask_gateway a.gateway) block e') [
            | inl i ↦ fetch_ipni block (at_race ∙ r) (at_ipni ∙ i)
            | inr (i, g) ↦ fetch_gateway block (at_race ∙ r) (at_ipni ∙ i) g
          ]
        ]

    pub fetch_block-none :
        found_block a ≡ none
        → fetch_block m s3 cid a before w ≡ (
          record w { dialled = (ask_ipni a.ipni raced.0).0 },
          record { yielded = before; thrown = some (block_not_found m s3 cid) },
        )
    fetch_block-none e =
        let named = first_before_abort (named_by a.ipni) in
        let (r, e') = or_else-none (raced_block a) (or_else named (ask_gateway a.gateway)) e in
        let (i, g) = or_else-none named (ask_gateway a.gateway) e' in
        fetch_lost (race_lem a w.dialled ∙ r) (ask_ipni_lem a.ipni raced.0 ∙ i) g
