-- ===== src/InterfaceBlockstore.antt =====
-- What the program uses of an `interface-blockstore`, which is not part of the repository: a store
-- with a state of its own.
use ipfs_shard.Shared.{ℕ, List, [], ◌∷◌, Bool, Option, none, String}
use ipfs_shard.Multiformats.{Multiformats}

-- An exception, by the properties that the program looks at.
pub record Failure : Type 0 where
  pub name : String
  pub code : String
  pub message : String

-- What a consumer of an async generator sees: the chunks, and the exception that ended it, if any.
pub record Chunks : Type 0 where
  pub yielded : List (List ℕ)
  pub thrown : Option Failure

abbrev pub whole : List ℕ → Chunks
whole content = record { yielded = content ∷ []; thrown = none }

-- `put` and `delete` give no state if they throw.
pub record Blockstore (m : Multiformats) : Type 1 where
  pub Store : Type 0
  pub get : m.Cid → Store → Chunks
  pub has : m.Cid → Store → Option Bool
  pub put : m.Cid → List ℕ → Store → Option Store
  pub delete : m.Cid → Store → Option Store
  pub get_many : List m.Cid → Store → List (m.Cid × List ℕ)
  pub put_many : List (m.Cid × List ℕ) → Store → Store × List m.Cid
