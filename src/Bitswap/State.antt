-- ===== src/Bitswap/State.antt =====
-- The fields of `SimpleBitswap` (src/bitswap.ts), and what its methods act on outside: promises,
-- streams and dials.
use ipfs_shard.Shared.{ℕ, List, [], ◌∷◌, Option, none, some, String, Bool, ◌==◌, if◌then◌else◌}
use ipfs_shard.Multiformats.{Multiformats}

pub data Direction : Type 0 where
  outbound inbound : Direction

-- A stream of libp2p is a number.
pub record StreamInfo : Type 0 where
  pub stream : ℕ
  pub direction : Direction
  pub created_at : ℕ
  pub last_used : ℕ
  pub closed : Bool

-- How a promise is settled.
pub data Outcome : Type 0 where
  resolved : List ℕ → Outcome
  rejected : String → Outcome

-- A `deferred` is a number; its promise is settled once, and later calls have no effect.
unfoldable pub outcome_of : ℕ → List (ℕ × Outcome) → Option Outcome
outcome_of d [] = none
outcome_of d ((e, o) ∷ s) = if e == d then some o else outcome_of d s

unfoldable pub settle : ℕ → Outcome → List (ℕ × Outcome) → List (ℕ × Outcome)
unfolding outcome_of
settle d o s = elim (outcome_of d s) [ none ↦ (d, o) ∷ s | some _ ↦ s ]

module _ (m : Multiformats) where
  pub record PendingWant : Type 0 where
    pub deferred : ℕ
    pub cid : m.Cid
    pub broadcasted_to : List String

  pub record Bitswap : Type 0 where
    pub stream_pool : List (String × StreamInfo)
    pub pending_wants : List (String × PendingWant)
    pub registrar_ids : List String
    pub unsupported_peers : List String

  -- `issued` counts the deferreds made; `storing` holds those whose block has come and is being
  -- put into the blockstore. `dials` counts the calls of `dialProtocol`, `sent` is what was sent on
  -- which stream, the last first, and `hung_up` the streams closed.
  pub record World : Type 0 where
    pub node : Bitswap
    pub issued : ℕ
    pub settled : List (ℕ × Outcome)
    pub storing : List (ℕ × List ℕ)
    pub dials : ℕ
    pub sent : List (ℕ × List ℕ)
    pub hung_up : List ℕ
