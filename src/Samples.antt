-- ===== src/Samples.antt =====
-- A small content identifier library at which the tests and the examples run: a CID is its version,
-- codec and digest, and the "hash" of a content is its first two bytes.
use ipfs_shard.Shared.{
  ℕ, List, [], ◌∷◌, take, Option, none, some, String, ◌==◌, str_eq, if◌then◌else◌,
}
use ipfs_shard.Shared.Int.{ℤ, pos, negsuc}
use ipfs_shard.Multiformats.{Multiformats}

pub record SampleCid : Type 0 where
  pub version : ℕ
  pub code : ℕ
  pub digest : List ℕ

abbrev pub sample_decode : List ℕ → Option SampleCid
sample_decode [] = none
sample_decode (v ∷ []) = none
sample_decode (v ∷ c ∷ d) = some (record { version = v; code = c; digest = d })

abbrev pub sample_text : List ℕ → String
sample_text [] = "empty"
sample_text (d ∷ ds) = if d == 1 then "one" else if d == 2 then "two" else "many"

abbrev pub cid_one : SampleCid
cid_one = record { version = 1; code = 85; digest = 1 ∷ 7 ∷ [] }

abbrev pub cid_two : SampleCid
cid_two = record { version = 0; code = 112; digest = 2 ∷ 9 ∷ [] }

-- A negative code is refused.
abbrev pub sample_v1 : ℤ → List ℕ → Option SampleCid
sample_v1 (pos c) d = some (record { version = 1; code = c; digest = d })
sample_v1 (negsuc c) d = none

abbrev pub samples : Multiformats
samples = record {
  Cid = SampleCid;
  bytes = λ c. c.version ∷ c.code ∷ c.digest;
  version = λ c. c.version;
  code = λ c. c.code;
  hash_code = λ c. 18;
  digest = λ c. c.digest;
  to_string = λ c. sample_text c.digest;
  decode = sample_decode;
  parse =
      λ s. if str_eq s "one" then some cid_one else if str_eq s "two" then some cid_two else none;
  sha256_code = 18;
  sha256 = λ content. some (take 2 content);
  create_v0 = λ d. some (record { version = 0; code = 112; digest = d });
  create_v1 = λ c d. sample_v1 c d;
}

-- A library whose CIDs are texts; each text is read back as its CID.
abbrev pub texts : Multiformats
texts = record {
  Cid = String;
  bytes = λ c. [];
  version = λ c. 1;
  code = λ c. 85;
  hash_code = λ c. 18;
  digest = λ c. [];
  to_string = λ c. c;
  decode = λ bs. none;
  parse = λ s. some s;
  sha256_code = 18;
  sha256 = λ content. none;
  create_v0 = λ d. none;
  create_v1 = λ c d. none;
}
