-- ===== src/Handlers/Retrieving.antt =====
-- `GET /cat/<cid>` and `GET /ls/<cid>` over the network-aware blockstore: src/api/blocks.ts with
-- src/blockstore-network.ts and src/api/dag-pb.ts.
use Prim.Native.String.{◌++◌ as text_append}
use text.Mathlib.TextLemmas.{append_assoc as text_append_assoc}
use Prim.Native.Char.{Char}
use ipfs_shard.Shared.{
  ℕ, List, [], Bool, true, ◌||◌, Option, none, some, String, ◌≡◌, refl, ap, ◌∙◌, append-nil,
}
use ipfs_shard.Shared.Infix.{find?-append}
use ipfs_shard.Multiformats.{Multiformats}
use ipfs_shard.InterfaceBlockstore.{Failure, whole, Blockstore}
use ipfs_shard.Blockstores.Cache.{is_some}
use ipfs_shard.Blockstores.Network.{
  includes, is_miss, Answers, NetworkAware, block_not_found, get, has,
}
use ipfs_shard.Blockstores.Stages.{found_block}
use ipfs_shard.Blockstores.Retrieval.{get-expected, given}
use ipfs_shard.DagPb.{decode_dag_pb}
use ipfs_shard.DagPb.Hanging.{endless, decode_dag_pb-endless}
use ipfs_shard.Handlers.Answers.{Answer, ok, refused}
use ipfs_shard.Handlers.Paths.{cid_part}
use ipfs_shard.Handlers.Blocks.{
  BlockSource, cat, ls, BlocksContent, raw, is_not_found, failed_answer, Serving, with_cid,
  after_cat, after_ls, list_decoded, handle_blocks,
}

module _ (m : Multiformats) (s3 : Blockstore m) (a : Answers) where
  -- The blockstore that the program hands to the API, while the network answers `a`.
  abbrev pub network_source : BlockSource m
  network_source = record {
    State = NetworkAware m s3;
    has = λ cid w. some (has m s3 cid w);
    get = λ cid w. get m s3 cid a w;
  }

  -- The message says `not found`.
  says_not_found : (cid : m.Cid) → includes (block_not_found m s3 cid).message "not found" ≡ true
  says_not_found cid =
      let text = m.to_string cid in
      let parts : (block_not_found m s3 cid).message
          ≡ text_append "Block " (text_append "not found" (text_append ": " text)) =
        text_append_assoc "Block " "not found: " text
        ∙ ap (text_append "Block ") (text_append_assoc "not found" ": " text) in
      rw parts
        (ap is_some (find?-append "Block " "ot found" (text_append ": " text) (Char.char 110 tt)))

  lost_block : (cid : m.Cid) → is_not_found (block_not_found m s3 cid) ≡ true
  unfolding is_not_found
  lost_block cid =
      ap (λ (b : Bool). b || includes (block_not_found m s3 cid).message "NoSuchKey")
        (says_not_found cid)

  -- What `cat` must answer when S3 misses: the block that the network has, or 404.
  abbrev pub cat_answer : Option (List ℕ) → Answer BlocksContent
  cat_answer none = refused 404 "Block not found"
  cat_answer (some block) = ok (raw block)

  -- `GET /cat/<cid>` for a block that S3 misses is answered with the bytes of the first stage of the
  -- network that has the block, and, where none has it, with 404 and not with 500.
  pub handle_blocks-cat :
      (fuel : ℕ) (url cid_str : String) (cid : m.Cid) (err : Failure)
      → (w : Serving m network_source) → cid_part url ≡ some cid_str
      → m.parse cid_str ≡ some cid
      → s3.get cid w.state.store ≡ record { yielded = []; thrown = some err }
      → is_miss err ≡ true
      → (handle_blocks m network_source fuel cat url w).1 ≡ some (cat_answer (found_block a))
  unfolding handle_blocks with_cid after_cat failed_answer
  handle_blocks-cat fuel url cid_str cid err w part parses missing miss =
      rw (part, parses)
        (answered (found_block a) (get-expected m s3 cid a w.state ∙ rw (missing, miss) refl))
    where
      answered :
          (found : Option (List ℕ))
          → (get m s3 cid a w.state).1 ≡ given m s3 cid [] found
          → some
              (after_cat m network_source
                (get m s3 cid a w.state).1.yielded
                (get m s3 cid a w.state).1.thrown
                (record w { state = (get m s3 cid a w.state).0 })).1
            ≡ some (cat_answer found)
      answered none e = rw e (rw (lost_block cid) refl)
      answered (some block) e = rw e (ap (λ (x : List ℕ). some (ok (raw x))) (append-nil block))

  -- Listing a local block that begins with six given bytes does not end: `decodeDagPB` runs out of
  -- every amount of fuel, and the request is never answered.
  pub handle_blocks-ls_endless :
      (fuel : ℕ) (url cid_str : String) (cid : m.Cid) (rest : List ℕ)
      → (w : Serving m network_source) → cid_part url ≡ some cid_str
      → m.parse cid_str ≡ some cid
      → s3.get cid w.state.store ≡ whole (endless rest)
      → (handle_blocks m network_source fuel ls url w).1 ≡ none
  unfolding handle_blocks with_cid after_ls
  handle_blocks-ls_endless fuel url cid_str cid rest w part parses local =
      rw (part, parses) (listed (get-expected m s3 cid a w.state ∙ rw local refl))
    where
      listed :
          (get m s3 cid a w.state).1 ≡ whole (endless rest)
          → (after_ls m network_source fuel
              (get m s3 cid a w.state).1.yielded
              (get m s3 cid a w.state).1.thrown
              (record w { state = (get m s3 cid a w.state).0 })).1
            ≡ none
      listed e = rw e (
          ap (list_decoded m)
            (ap (decode_dag_pb fuel) (append-nil (endless rest)) ∙ decode_dag_pb-endless fuel rest))
