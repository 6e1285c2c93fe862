-- ===== src/Multiformats.antt =====
-- What the program uses of the package `multiformats`, which is not part of the repository: content
-- identifiers, their parsing, and the hash sha2-256. Every definition that uses one of these takes
-- such a record. `none` is an exception.
use ipfs_shard.Shared.{ℕ, List, String, Option}
use ipfs_shard.Shared.Int.{ℤ}

pub record Multiformats : Type 1 where
  pub Cid : Type 0
  pub bytes : Cid → List ℕ
  pub version : Cid → ℕ
  pub code : Cid → ℕ
  pub hash_code : Cid → ℕ
  pub digest : Cid → List ℕ
  pub to_string : Cid → String
  pub decode : List ℕ → Option Cid
  pub parse : String → Option Cid
  pub sha256_code : ℕ
  pub sha256 : List ℕ → Option (List ℕ)
  pub create_v0 : List ℕ → Option Cid
  pub create_v1 : ℤ → List ℕ → Option Cid
