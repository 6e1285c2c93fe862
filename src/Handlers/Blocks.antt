-- ===== src/Handlers/Blocks.antt =====
-- `handleBlocks` of src/api/blocks.ts, over any blockstore.
use ipfs_shard.Shared.{
  ℕ, suc, List, [], ◌∷◌, ◌++◌, Bool, ◌||◌, Option, none, some, String, str_eq, if◌then◌else◌, ◌==◌,
}
use ipfs_shard.Shared.Int.{pos, negsuc}
use ipfs_shard.Multiformats.{Multiformats}
use ipfs_shard.InterfaceBlockstore.{Failure, Chunks}
use ipfs_shard.Blockstores.Network.{includes}
use ipfs_shard.DagPb.{PbLink, PbNode, decode_dag_pb, unix_fs_type}
use ipfs_shard.Handlers.Answers.{Answer, ok, refused}
use ipfs_shard.Handlers.Paths.{cid_part}

-- What the handlers use of `ctx.blockstore`. `has` gives `none` if it throws.
pub record BlockSource (m : Multiformats) : Type 1 where
  pub State : Type 0
  pub has : m.Cid → State → Option Bool
  pub get : m.Cid → State → State × Chunks

pub data BlocksAction : Type 0 where
  check cat ls : BlocksAction

-- The name is the UTF-8 of the link.
pub record DirectoryEntry : Type 0 where
  pub name : List ℕ
  pub cid : Option String
  pub size : ℕ

pub data BlocksContent : Type 0 where
  exists_of : String → Bool → BlocksContent
  raw : List ℕ → BlocksContent
  directory : List DirectoryEntry → BlocksContent
  file unknown : BlocksContent

-- Is the exception answered with 404?
unfoldable pub is_not_found : Failure → Bool
is_not_found err =
    str_eq err.code "ERR_NOT_FOUND"
    || str_eq err.name "NotFoundError"
    || str_eq err.name "GetFailedError"
    || includes err.message "not found"
    || includes err.message "NoSuchKey"

-- `Buffer.concat(chunks)`
abbrev pub concat : List (List ℕ) → List ℕ
concat [] = []
concat (chunk ∷ chunks) = chunk ++ concat chunks

unfoldable pub failed_answer : String → Failure → Answer BlocksContent
unfolding is_not_found
failed_answer error err =
    if is_not_found err then refused 404 "Block not found" else refused 500 error

module _ (m : Multiformats) where
  -- The state of the blockstore and the counter `blockRetrieveCounter`.
  pub record Serving (b : BlockSource m) : Type 0 where
    pub state : b.State
    pub retrieved : ℕ

  abbrev pub cons_entry :
      PbLink → Option String → Option (List DirectoryEntry) → Option (List DirectoryEntry)
  cons_entry l cid none = none
  cons_entry l cid (some entries) =
      some (record { name = l.name; cid = cid; size = l.size } ∷ entries)

  abbrev pub add_entry :
      PbLink → Option m.Cid → Option (List DirectoryEntry) → Option (List DirectoryEntry)
  add_entry l none entries = none
  add_entry l (some cid) entries = cons_entry l (some (m.to_string cid)) entries

  -- `CID.decode` throws for a hash that is no CID; a link without a hash has `cid: null`.
  abbrev pub entry_of :
      PbLink → Option (List ℕ) → Option (List DirectoryEntry) → Option (List DirectoryEntry)
  entry_of l none entries = cons_entry l none entries
  entry_of l (some hash) entries = add_entry l (m.decode hash) entries

  abbrev pub entries_of : List PbLink → Option (List DirectoryEntry)
  entries_of [] = some []
  entries_of (l ∷ links) = entry_of l l.hash (entries_of links)

  -- The exception of `CID.decode` is none that counts as not found.
  abbrev pub directory_of : Option (List DirectoryEntry) → Answer BlocksContent
  directory_of none = refused 500 "Failed to decode block"
  directory_of (some entries) = ok (directory entries)

  unfoldable pub list_node : PbNode → Answer BlocksContent
  list_node node = elim (unix_fs_type node.content) [
    | pos t ↦
        if t == 1
        then directory_of (entries_of node.links)
        else if t == 2
        then ok file
        else ok unknown
    | negsuc t ↦ ok unknown
  ]

  -- `none`: `decodeDagPB` has not ended on the fuel.
  abbrev pub list_decoded : Option PbNode → Option (Answer BlocksContent)
  list_decoded none = none
  list_decoded (some node) = some (list_node node)

  module _ (b : BlockSource m) where
    abbrev pub check_answer : String → Option Bool → Answer BlocksContent
    check_answer cid_str none = refused 500 "Internal server error"
    check_answer cid_str (some exists) = ok (exists_of cid_str exists)

    -- Behind the loop over `ctx.blockstore.get(cid)`.
    unfoldable pub after_cat :
        List (List ℕ) → Option Failure → Serving b → Serving b × Answer BlocksContent
    unfolding failed_answer
    after_cat chunks none w = (record w { retrieved = suc w.retrieved }, ok (raw (concat chunks)))
    after_cat chunks (some err) w = (w, failed_answer "Failed to retrieve block" err)

    unfoldable pub after_ls :
        ℕ → List (List ℕ) → Option Failure → Serving b → Serving b × Option (Answer BlocksContent)
    unfolding failed_answer list_node
    after_ls fuel chunks none w = (
      record w { retrieved = suc w.retrieved },
      list_decoded (decode_dag_pb fuel (concat chunks)),
    )
    after_ls fuel chunks (some err) w = (w, some (failed_answer "Failed to decode block" err))

    abbrev pub finished :
        Serving b × Answer BlocksContent → Serving b × Option (Answer BlocksContent)
    finished r = (r.0, some r.1)

    unfoldable pub with_cid :
        ℕ → BlocksAction → String → m.Cid → Serving b → Serving b × Option (Answer BlocksContent)
    unfolding after_cat after_ls
    with_cid fuel check cid_str cid w = (w, some (check_answer cid_str (b.has cid w.state)))
    with_cid fuel cat cid_str cid w =
        let got = b.get cid w.state in
        finished (after_cat got.1.yielded got.1.thrown (record w { state = got.0 }))
    with_cid fuel ls cid_str cid w =
        let got = b.get cid w.state in
        after_ls fuel got.1.yielded got.1.thrown (record w { state = got.0 })

    abbrev pub blocks_parsed :
        ℕ
        → BlocksAction
        → String
        → Option m.Cid
        → Serving b
        → Serving b × Option (Answer BlocksContent)
    blocks_parsed fuel action cid_str none w = (w, some (refused 400 "Invalid CID"))
    blocks_parsed fuel action cid_str (some cid) w = with_cid fuel action cid_str cid w

    abbrev pub blocks_at :
        ℕ → BlocksAction → Option String → Serving b → Serving b × Option (Answer BlocksContent)
    blocks_at fuel action none w = (w, some (refused 500 "Internal server error"))
    blocks_at fuel action (some cid_str) w = blocks_parsed fuel action cid_str (m.parse cid_str) w

    unfoldable pub handle_blocks :
        ℕ → BlocksAction → String → Serving b → Serving b × Option (Answer BlocksContent)
    unfolding cid_part with_cid
    handle_blocks fuel action url w = blocks_at fuel action (cid_part url) w
