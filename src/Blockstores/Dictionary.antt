-- ===== src/Blockstores/Dictionary.antt =====
-- A blockstore that is a dictionary, and a network in which only the broadcast want is answered, for
-- the examples.
use ipfs_shard.Shared.{ℕ, List, [], ◌∷◌, Bool, true, false, Option, none, some, String}
use ipfs_shard.Shared.Assoc.{lookup, insert, remove}
use ipfs_shard.Samples.{samples, SampleCid, sample_text}
use ipfs_shard.InterfaceBlockstore.{Failure, Chunks, whole, Blockstore}
use ipfs_shard.Bitswap.State.{resolved}
use ipfs_shard.Blockstores.Network.{not_ok, unreachable, Answers, NetworkAware}

abbrev pub Dictionary : Type 0
Dictionary = List (String × List ℕ)

abbrev pub missing : Failure
missing = record { name = "GetFailedError"; code = ""; message = "no block" }

abbrev pub read : Option (List ℕ) → Chunks
read none = record { yielded = []; thrown = some missing }
read (some v) = whole v

abbrev pub some_there : Option (List ℕ) → Bool
some_there none = false
some_there (some v) = true

abbrev pub put_all : List (SampleCid × List ℕ) → Dictionary → Dictionary
put_all [] s = s
put_all ((cid, v) ∷ blocks) s = put_all blocks (insert (sample_text cid.digest) v s)

abbrev pub cids_of : List (SampleCid × List ℕ) → List SampleCid
cids_of [] = []
cids_of ((cid, v) ∷ blocks) = cid ∷ cids_of blocks

abbrev pub dictionary : Blockstore samples
dictionary = record {
  Store = Dictionary;
  get = λ cid s. read (lookup (sample_text cid.digest) s);
  has = λ cid s. some (some_there (lookup (sample_text cid.digest) s));
  put = λ cid v s. some (insert (sample_text cid.digest) v s);
  delete = λ cid s. some (remove (sample_text cid.digest) s);
  get_many = λ cids s. [];
  put_many = λ blocks s. (put_all blocks s, cids_of blocks);
}

abbrev pub answers : Answers
answers = record {
  bitswap = resolved (9 ∷ 9 ∷ []);
  providers = [];
  bitswap_first = true;
  ipni = not_ok;
  gateway = unreachable;
}

abbrev pub empty_node : NetworkAware samples dictionary
empty_node = record { store = []; dialled = [] }
