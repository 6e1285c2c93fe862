-- ===== src/Handlers/Sizes.antt =====
-- The size that `POST /block/stat` and `POST /dag/stat` answer is that of the block that `GET /cat`
-- answers: src/api/stats.ts and src/api/blocks.ts.
use ipfs_shard.Shared.{
  ℕ, List, [], ◌∷◌, length, length-append, Bool, true, false, Option, none, some, String, ◌≡◌, refl,
  sym, ap, arith,
}
use ipfs_shard.Multiformats.{Multiformats}
use ipfs_shard.InterfaceBlockstore.{Failure}
use ipfs_shard.Handlers.Answers.{BodyField, throws, no_text, text, checked, Answer, ok}
use ipfs_shard.Handlers.Blocks.{
  BlockSource, Serving, cat, raw, concat, with_cid, finished, after_cat,
}
use ipfs_shard.Handlers.BlockStat.{
  StatAction, dag_stat, block_stat, StatContent, sum_lengths, stat_content, stat_failed,
  after_chunks, after_has, stat_parsed, stat_arg, handle_stat,
}

length-concat : (chunks : List (List ℕ)) → length (concat chunks) ≡ sum_lengths chunks
length-concat [] = refl
length-concat (chunk ∷ chunks) =
    omega (arith, length-append chunk (concat chunks), length-concat chunks)

module _ (m : Multiformats) (b : BlockSource m) where
  -- What `cat` does behind the guards, in the same state.
  abbrev pub CatGives : m.Cid → Serving m b → Serving m b → ℕ → Type 0
  CatGives cid w w' size =
      (content : List ℕ) × ((with_cid m b 0 cat "" cid w ≡ (w', some (ok (raw content))))
        × (length content ≡ size))

  module _ (action : StatAction) (c : StatContent) where
    stat_failed_ne : {A : Type 0} → stat_failed action ≡ ok c → A
    stat_failed_ne e = go action e
      where
        go : {A : Type 0} → (a : StatAction) → stat_failed a ≡ ok c → A
        go dag_stat e = absurd (cc)
        go block_stat e = absurd (cc)

    -- A success with the argument and the CID, and what `cat` does then.
    abbrev pub Gives : Serving m b → Serving m b × Answer StatContent → Type 0
    Gives w r =
        (text_arg : String) × ((cid : m.Cid) × ((size : ℕ) × ((m.parse text_arg ≡ some cid)
              × ((c ≡ stat_content action text_arg size) × CatGives cid w r.0 size))))

    counted :
        (arg : String) (chunks : List (List ℕ)) (t : Option Failure) (v : Serving m b)
        → (after_chunks m b action arg chunks t v).1 ≡ ok c
        → (c ≡ stat_content action arg (sum_lengths chunks))
          × ((after_cat m b chunks t v)
              ≡ ((after_chunks m b action arg chunks t v).0, ok (raw (concat chunks))))
    unfolding after_cat
    counted arg chunks none v e = (sym cc, refl)
    counted arg chunks (some err) v e = stat_failed_ne e

    has-Gives :
        (arg : String) (cid : m.Cid) (o : Option Bool) (w : Serving m b)
        → m.parse arg ≡ some cid
        → (after_has m b action arg cid o w).1 ≡ ok c
        → Gives w (after_has m b action arg cid o w)
    unfolding with_cid
    has-Gives arg cid none w p e = stat_failed_ne e
    has-Gives arg cid (some false) w p e = stat_failed_ne e
    has-Gives arg cid (some true) w p e =
        let got = b.get cid w.state in
        let (same, ends) = counted arg got.1.yielded got.1.thrown (record w { state = got.0 }) e in
        (
          arg,
          (
            cid,
            (
              sum_lengths got.1.yielded,
              (
                p,
                (
                  same,
                  (concat got.1.yielded, (ap (finished m b) ends, length-concat got.1.yielded)),
                ),
              ),
            ),
          ),
        )

    parsed-Gives :
        (arg : String) (o : Option m.Cid) (w : Serving m b)
        → m.parse arg ≡ o
        → (stat_parsed m b action arg o w).1 ≡ ok c
        → Gives w (stat_parsed m b action arg o w)
    parsed-Gives arg none w p e = absurd (cc)
    parsed-Gives arg (some cid) w p e = has-Gives arg cid (b.has cid w.state) w p e

    arg-Gives :
        (f : BodyField) (w : Serving m b)
        → (stat_arg m b action f w).1 ≡ ok c
        → Gives w (stat_arg m b action f w)
    arg-Gives throws w e = absurd (cc)
    arg-Gives no_text w e = absurd (cc)
    arg-Gives (text arg) w e = parsed-Gives arg (m.parse arg) w refl e

  -- If `/block/stat` or `/dag/stat` is answered with success, then the argument is a CID, the size
  -- answered is the length of the bytes that `/cat` answers for it in the same state, and both leave the
  -- same state behind.
  pub handle_stat-Gives :
      (action : StatAction) (arg : Option String) (c : StatContent) (w : Serving m b)
      → (handle_stat m b action arg w).1 ≡ ok c
      → Gives action c w (handle_stat m b action arg w)
  unfolding handle_stat
  handle_stat-Gives action arg c w answer = arg-Gives action c (checked arg) w answer
