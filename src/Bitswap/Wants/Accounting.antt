-- ===== src/Bitswap/Wants/Accounting.antt =====
-- What becomes of each deferred that `want` of src/bitswap.ts issues, over any sequence of the
-- methods.
use ipfs_shard.Shared.{
  ℕ, ◌+◌, ◌<◌, List, [], ◌∷◌, ◌≡◌, ◌≢◌, sym, ap, ◌∙◌, arith, none, some, String, ◌==◌, ==_iff,
  str_eq, eq_iff, false, Bool-cases, Option-cases, inl, inr, dec_lt,
}
use ipfs_shard.Shared.Assoc.{
  lookup, insert, remove, lookup-insert_self, lookup-insert_ne, lookup-remove_ne,
}
use ipfs_shard.Multiformats.{Multiformats}
use ipfs_shard.Bitswap.State.{Outcome, resolved, rejected, outcome_of, PendingWant, World}
use ipfs_shard.Bitswap.Wants.{want, on_abort, take_block, finish_store, stop}
use ipfs_shard.Bitswap.Wants.Promises.{
  settle_keeps, settle_self, find_storing, find_storing-drop, reject_all_keeps, reject_all_settles,
}

module _ (m : Multiformats) where
  -- Where a deferred stands.
  pub data IsAccounted (d : ℕ) (w : World m) : Type 0 where
    pending :
        (key : String) (p : PendingWant m)
        → lookup key w.node.pending_wants ≡ some p
        → p.deferred ≡ d
        → IsAccounted d w
    storing : (content : List ℕ) → find_storing d w.storing ≡ some content → IsAccounted d w
    settled : (o : Outcome) → outcome_of d w.settled ≡ some o → IsAccounted d w

  abbrev pub AllAccounted : World m → Type 0
  AllAccounted w = (d : ℕ) → d < w.issued → IsAccounted d w

  -- The entry that an abort listener deletes is none, or its own.
  abbrev pub IsOwnAbort : m.Cid → ℕ → World m → Type 0
  IsOwnAbort cid d w =
      (p : PendingWant m) → lookup (m.to_string cid) w.node.pending_wants ≡ some p → p.deferred ≡ d

  -- The methods as events, in any order.
  pub data Step : World m → World m → Type 0 where
    asks : (cid : m.Cid) (w : World m) → Step w (want m cid w).0
    aborts : (cid : m.Cid) (d : ℕ) (w : World m) → IsOwnAbort cid d w → Step w (on_abort m cid d w)
    takes : (cid : m.Cid) (content : List ℕ) (w : World m) → Step w (take_block m cid content w)
    finishes : (d : ℕ) (content : List ℕ) (w : World m) → Step w (finish_store m d content w)
    stops : (w : World m) → Step w (stop m w)

  pub data Reach (start : World m) : World m → Type 0 where
    here : Reach start start
    next : {t u : World m} → Reach start t → Step t u → Reach start u

  ne_of_lookup :
      (w : World m) (k key : String) (p : PendingWant m)
      → lookup k w.node.pending_wants ≡ none
      → lookup key w.node.pending_wants ≡ some p
      → k ≢ key
  ne_of_lookup w k key p h e =
      λ same. cc (h, e, ap (λ (t : String). lookup t w.node.pending_wants) same)

  -- What `want` does with a key that is in the map, and with one that is not.
  pub want_known :
      (cid : m.Cid) (w : World m) (p : PendingWant m)
      → lookup (m.to_string cid) w.node.pending_wants ≡ some p
      → want m cid w ≡ (w, p.deferred)
  unfolding want
  want_known cid w p e = rw (e, want)

  abbrev pub new_want : m.Cid → World m → PendingWant m
  new_want cid w = record { deferred = w.issued; cid = cid; broadcasted_to = [] }

  abbrev pub with_want : m.Cid → World m → World m
  with_want cid w = record w {
    node = record w.node {
      pending_wants = insert (m.to_string cid) (new_want cid w) w.node.pending_wants;
    };
    issued = w.issued + 1;
  }

  pub want_new :
      (cid : m.Cid) (w : World m)
      → lookup (m.to_string cid) w.node.pending_wants ≡ none
      → want m cid w ≡ (with_want cid w, w.issued)
  unfolding want
  want_new cid w e = rw (e, want)

  with_want-IsAccounted :
      (cid : m.Cid) (w : World m)
      → lookup (m.to_string cid) w.node.pending_wants ≡ none
      → AllAccounted w
      → AllAccounted (with_want cid w)
  with_want-IsAccounted cid w free all d h = elim (dec_lt d w.issued) [
    | yes old ↦ elim (all d old) [
      | pending key p found is ↦
          pending key p
            (lookup-insert_ne (m.to_string cid) key (new_want cid w) w.node.pending_wants
                (ne_of_lookup w (m.to_string cid) key p free found)
              ∙ found)
            is
      | storing content found ↦ storing content found
      | settled o done ↦ settled o done
    ]
    | no last ↦
        pending (m.to_string cid) (new_want cid w)
          (lookup-insert_self (m.to_string cid) (new_want cid w) w.node.pending_wants) (omega arith)
  ]

  want-IsAccounted : (cid : m.Cid) (w : World m) → AllAccounted w → AllAccounted (want m cid w).0
  want-IsAccounted cid w all = elim (Option-cases (lookup (m.to_string cid) w.node.pending_wants)) [
    | inl free ↦ rw (want_new cid w free) (with_want-IsAccounted cid w free all)
    | inr (p, found) ↦ rw (want_known cid w p found) all
  ]

  other_key : (k key : String) → str_eq k key ≡ false → k ≢ key
  other_key k key h = λ same. ground (arith, eq_iff k key)

  on_abort-IsAccounted :
      (cid : m.Cid) (d : ℕ) (w : World m)
      → IsOwnAbort cid d w
      → AllAccounted w
      → AllAccounted (on_abort m cid d w)
  unfolding on_abort
  on_abort-IsAccounted cid d w own all e h = elim (all e h) [
    | pending key p found is ↦ elim (Bool-cases (str_eq (m.to_string cid) key)) [
      | inl same ↦
          let here : lookup (m.to_string cid) w.node.pending_wants ≡ some p =
            ap (λ (t : String). lookup t w.node.pending_wants)
              ((eq_iff (m.to_string cid) key).0 same)
            ∙ found in
          let (x, done) = settle_self e (rejected "Aborted") w.settled in
          let mine : d ≡ e = sym (own p here) ∙ is in settled x (rw mine done)
      | inr other ↦
          pending key p
            (lookup-remove_ne (m.to_string cid) key w.node.pending_wants
                (other_key (m.to_string cid) key other)
              ∙ found)
            is
    ]
    | storing content found ↦ storing content found
    | settled o done ↦ settled o (settle_keeps e d _ o w.settled done)
  ]

  pub take_block-none :
      (cid : m.Cid) (content : List ℕ) (w : World m)
      → lookup (m.to_string cid) w.node.pending_wants ≡ none
      → take_block m cid content w ≡ w
  unfolding take_block
  take_block-none cid content w e = rw (e, take_block)

  abbrev pub with_taken : m.Cid → List ℕ → PendingWant m → World m → World m
  with_taken cid content p w = record w {
    node = record w.node { pending_wants = remove (m.to_string cid) w.node.pending_wants };
    storing = (p.deferred, content) ∷ w.storing;
  }

  pub take_block-some :
      (cid : m.Cid) (content : List ℕ) (w : World m) (p : PendingWant m)
      → lookup (m.to_string cid) w.node.pending_wants ≡ some p
      → take_block m cid content w ≡ with_taken cid content p w
  unfolding take_block
  take_block-some cid content w p e = rw (e, take_block)

  with_taken-IsAccounted :
      (cid : m.Cid) (content : List ℕ) (w : World m) (q : PendingWant m)
      → lookup (m.to_string cid) w.node.pending_wants ≡ some q
      → AllAccounted w
      → AllAccounted (with_taken cid content q w)
  unfolding find_storing
  with_taken-IsAccounted cid content w q taken all d h = elim (all d h) [
    | pending key p found is ↦ elim (Bool-cases (str_eq (m.to_string cid) key)) [
      | inl same ↦
          let here : lookup (m.to_string cid) w.node.pending_wants ≡ some p =
            ap (λ (t : String). lookup t w.node.pending_wants)
              ((eq_iff (m.to_string cid) key).0 same)
            ∙ found in
          let one : q ≡ p = cc (here, taken) in
          let this : q.deferred ≡ d = ap (λ (r : PendingWant m). r.deferred) one ∙ is in
          storing content (ground (arith, ==_iff q.deferred d))
      | inr other ↦
          pending key p
            (lookup-remove_ne (m.to_string cid) key w.node.pending_wants
                (other_key (m.to_string cid) key other)
              ∙ found)
            is
    ]
    | storing c found ↦ elim (Bool-cases (q.deferred == d)) [
      | inl same ↦ storing content (rw same)
      | inr other ↦ storing c (rw other found)
    ]
    | settled o done ↦ settled o done
  ]

  take_block-IsAccounted :
      (cid : m.Cid) (content : List ℕ) (w : World m)
      → AllAccounted w
      → AllAccounted (take_block m cid content w)
  take_block-IsAccounted cid content w all =
      elim (Option-cases (lookup (m.to_string cid) w.node.pending_wants)) [
        | inl free ↦ rw (take_block-none cid content w free) all
        | inr (q, taken) ↦
            rw (take_block-some cid content w q taken)
              (with_taken-IsAccounted cid content w q taken all)
      ]

  finish_store-IsAccounted :
      (d : ℕ) (content : List ℕ) (w : World m)
      → AllAccounted w
      → AllAccounted (finish_store m d content w)
  unfolding finish_store
  finish_store-IsAccounted d content w all e h = elim (all e h) [
    | pending key p found is ↦ pending key p found is
    | storing c found ↦ elim (Bool-cases (d == e)) [
      | inl same ↦
          let (x, done) = settle_self e (resolved content) w.settled in
          settled x (rw ((==_iff d e).0 same) done)
      | inr other ↦ storing c (find_storing-drop e d w.storing ∙ rw other found)
    ]
    | settled o done ↦ settled o (settle_keeps e d _ o w.settled done)
  ]

  stop-IsAccounted : (w : World m) → AllAccounted w → AllAccounted (stop m w)
  unfolding stop
  stop-IsAccounted w all d h = elim (all d h) [
    | pending key p found is ↦
        let (x, done) = reject_all_settles m d w.node.pending_wants key p w.settled found is in
        settled x done
    | storing c found ↦ storing c found
    | settled o done ↦ settled o (reject_all_keeps m d w.node.pending_wants o w.settled done)
  ]

  Step-AllAccounted : {t u : World m} → Step t u → AllAccounted t → AllAccounted u
  Step-AllAccounted (asks cid w) all = want-IsAccounted cid w all
  Step-AllAccounted (aborts cid d w own) all = on_abort-IsAccounted cid d w own all
  Step-AllAccounted (takes cid content w) all = take_block-IsAccounted cid content w all
  Step-AllAccounted (finishes d content w) all = finish_store-IsAccounted d content w all
  Step-AllAccounted (stops w) all = stop-IsAccounted w all

  -- In every state that the methods reach, in any order, from one in which every deferred issued is
  -- waited for, being stored or settled, that is so again, if each abort listener that runs finds
  -- no entry under its key, or its own.
  pub Reach-AllAccounted : {s t : World m} → AllAccounted s → Reach s t → AllAccounted t
  Reach-AllAccounted all here = all
  Reach-AllAccounted all (next r step) = Step-AllAccounted step (Reach-AllAccounted all r)
