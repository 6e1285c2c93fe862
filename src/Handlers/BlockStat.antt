-- ===== src/Handlers/BlockStat.antt =====
-- `handleStats` of src/api/stats.ts, for `POST /dag/stat` and `POST /block/stat`; what
-- `getQueryParam` of src/api/helpers.ts finds under `arg` is an argument.
use ipfs_shard.Shared.{
  ℕ, suc, ◌+◌, List, [], ◌∷◌, length, Bool, true, false, Option, none, some, String,
}
use ipfs_shard.Multiformats.{Multiformats}
use ipfs_shard.InterfaceBlockstore.{Failure}
use ipfs_shard.Handlers.Answers.{BodyField, throws, no_text, text, checked, Answer, ok, refused}
use ipfs_shard.Handlers.Blocks.{BlockSource, Serving}

pub data StatAction : Type 0 where
  dag_stat block_stat : StatAction

-- `{ Size, NumBlocks }` and `{ Key, Size }`.
pub data StatContent : Type 0 where
  dag_size : ℕ → ℕ → StatContent
  block_size : String → ℕ → StatContent

-- The sum of `chunk.length`.
abbrev pub sum_lengths : List (List ℕ) → ℕ
sum_lengths [] = 0
sum_lengths (chunk ∷ chunks) = length chunk + sum_lengths chunks

abbrev pub stat_content : StatAction → String → ℕ → StatContent
stat_content dag_stat arg size = dag_size size 1
stat_content block_stat arg size = block_size arg size

abbrev pub stat_failed : StatAction → Answer StatContent
stat_failed dag_stat = refused 500 "Failed to get DAG stat"
stat_failed block_stat = refused 500 "Failed to get block stat"

module _ (m : Multiformats) (b : BlockSource m) where
  -- Behind the loop over the chunks.
  abbrev pub after_chunks :
      StatAction
      → String
      → List (List ℕ)
      → Option Failure
      → Serving m b
      → Serving m b × Answer StatContent
  after_chunks action arg chunks (some err) w = (w, stat_failed action)
  after_chunks action arg chunks none w =
      (record w { retrieved = suc w.retrieved }, ok (stat_content action arg (sum_lengths chunks)))

  -- Behind `blockstore.has`; an exception is answered as a block that is not there.
  abbrev pub after_has :
      StatAction → String → m.Cid → Option Bool → Serving m b → Serving m b × Answer StatContent
  after_has action arg cid none w = (w, stat_failed action)
  after_has action arg cid (some false) w = (w, stat_failed action)
  after_has action arg cid (some true) w =
      let got = b.get cid w.state in
      after_chunks action arg got.1.yielded got.1.thrown (record w { state = got.0 })

  abbrev pub stat_parsed :
      StatAction → String → Option m.Cid → Serving m b → Serving m b × Answer StatContent
  stat_parsed action arg none w = (w, refused 500 "Invalid CID")
  stat_parsed action arg (some cid) w = after_has action arg cid (b.has cid w.state) w

  abbrev pub stat_arg : StatAction → BodyField → Serving m b → Serving m b × Answer StatContent
  stat_arg action throws w = (w, refused 500 "Internal server error")
  stat_arg action no_text w = (w, refused 400 "Missing or invalid arg query parameter")
  stat_arg action (text arg) w = stat_parsed action arg (m.parse arg) w

  unfoldable pub handle_stat :
      StatAction → Option String → Serving m b → Serving m b × Answer StatContent
  handle_stat action arg w = stat_arg action (checked arg) w
