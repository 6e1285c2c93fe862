-- ===== src/Bitswap/Wants/StaleAbort.antt =====
-- The abort listener of `want` in src/bitswap.ts, when it runs after its want was resolved and the
-- same CID is wanted again.
use ipfs_shard.Shared.{
  ℕ, ◌<◌, List, [], ◌∷◌, ◌≡◌, ◌≢◌, refl, ap, ◌∙◌, arith, none, some, String, ==_iff, Option-cases,
  inl, inr,
}
use ipfs_shard.Shared.Assoc.{
  lookup, AllValues, AllValues-insert, AllValues-remove, AllValues-lookup, AllValues-remove-insert,
}
use ipfs_shard.Multiformats.{Multiformats}
use ipfs_shard.Bitswap.State.{Outcome, outcome_of, PendingWant, World}
use ipfs_shard.Bitswap.Wants.{want, on_abort, take_block, finish_store, stop, reject_all}
use ipfs_shard.Bitswap.Wants.Promises.{settle_ne, find_storing, find_storing-drop}
use ipfs_shard.Bitswap.Wants.Accounting.{
  want_known, want_new, new_want, with_want, take_block-none, take_block-some,
}

module _ (m : Multiformats) (d : ℕ) where
  -- No entry of a map of wants has the deferred `d`.
  abbrev pub IsOther : PendingWant m → Type 0
  IsOther p = p.deferred ≢ d

  abbrev pub IsAbsent : List (String × PendingWant m) → Type 0
  IsAbsent = AllValues IsOther

  -- The deferred `d` was issued, and nothing is left that would settle it but its own listener.
  pub record IsLost (w : World m) : Type 0 where
    pub issued : d < w.issued
    pub absent : IsAbsent w.node.pending_wants
    pub not_storing : find_storing d w.storing ≡ none
    pub unsettled : outcome_of d w.settled ≡ none

  -- Everything that can happen later, but an abort by the listener of `d`.
  pub data Later : World m → World m → Type 0 where
    asks : (cid : m.Cid) (w : World m) → Later w (want m cid w).0
    aborts : (cid : m.Cid) (e : ℕ) (w : World m) → e ≢ d → Later w (on_abort m cid e w)
    takes : (cid : m.Cid) (content : List ℕ) (w : World m) → Later w (take_block m cid content w)
    finishes :
        (e : ℕ) (content : List ℕ) (w : World m)
        → find_storing e w.storing ≡ some content
        → Later w (finish_store m e content w)
    stops : (w : World m) → Later w (stop m w)

  pub data AtLast (start : World m) : World m → Type 0 where
    here : AtLast start start
    next : {t u : World m} → AtLast start t → Later t u → AtLast start u

  want-IsLost : (cid : m.Cid) (w : World m) → IsLost w → IsLost (want m cid w).0
  want-IsLost cid w lost = elim (Option-cases (lookup (m.to_string cid) w.node.pending_wants)) [
    | inr (p, found) ↦ rw (want_known m cid w p found) lost
    | inl free ↦ rw (want_new m cid w free) (record {
      issued = omega (arith, lost.issued);
      absent =
          AllValues-insert IsOther (m.to_string cid) (new_want m cid w) w.node.pending_wants
            (λ is. omega (arith, lost.issued)) lost.absent;
      not_storing = lost.not_storing;
      unsettled = lost.unsettled;
    })
  ]

  on_abort-IsLost :
      (cid : m.Cid) (e : ℕ) (w : World m) → e ≢ d → IsLost w → IsLost (on_abort m cid e w)
  unfolding on_abort
  on_abort-IsLost cid e w ne lost = record {
    issued = lost.issued;
    absent = AllValues-remove IsOther (m.to_string cid) w.node.pending_wants lost.absent;
    not_storing = lost.not_storing;
    unsettled = settle_ne d e _ w.settled ne ∙ lost.unsettled;
  }

  take_block-IsLost :
      (cid : m.Cid) (content : List ℕ) (w : World m)
      → IsLost w
      → IsLost (take_block m cid content w)
  unfolding find_storing
  take_block-IsLost cid content w lost =
      elim (Option-cases (lookup (m.to_string cid) w.node.pending_wants)) [
        | inl free ↦ rw (take_block-none m cid content w free) lost
        | inr (p, found) ↦
            let other : p.deferred ≢ d =
              AllValues-lookup IsOther (m.to_string cid) p w.node.pending_wants lost.absent found in
            rw (take_block-some m cid content w p found) (record {
              issued = lost.issued;
              absent = AllValues-remove IsOther (m.to_string cid) w.node.pending_wants lost.absent;
              not_storing = ground (arith, lost.not_storing);
              unsettled = lost.unsettled;
            })
      ]

  finish_store-IsLost :
      (e : ℕ) (content : List ℕ) (w : World m)
      → find_storing e w.storing ≡ some content
      → IsLost w
      → IsLost (finish_store m e content w)
  unfolding finish_store
  finish_store-IsLost e content w found lost =
      let ne : e ≢ d =
        λ same. cc (ap (λ (t : ℕ). find_storing t w.storing) same, found, lost.not_storing) in
      record {
        issued = lost.issued;
        absent = lost.absent;
        not_storing =
            find_storing-drop d e w.storing ∙ ground (arith, ==_iff e d, lost.not_storing);
        unsettled = settle_ne d e _ w.settled ne ∙ lost.unsettled;
      }

  reject_all-absent :
      (wants : List (String × PendingWant m)) (s : List (ℕ × Outcome))
      → IsAbsent wants
      → outcome_of d (reject_all m wants s) ≡ outcome_of d s
  reject_all-absent [] s absent = refl
  reject_all-absent ((key, p) ∷ wants) s (ne, absent) =
      reject_all-absent wants _ absent ∙ settle_ne d p.deferred _ s ne

  stop-IsLost : (w : World m) → IsLost w → IsLost (stop m w)
  unfolding stop
  stop-IsLost w lost = record {
    issued = lost.issued;
    absent = tt;
    not_storing = lost.not_storing;
    unsettled = reject_all-absent w.node.pending_wants w.settled lost.absent ∙ lost.unsettled;
  }

  Later-IsLost : {t u : World m} → Later t u → IsLost t → IsLost u
  Later-IsLost (asks cid w) lost = want-IsLost cid w lost
  Later-IsLost (aborts cid e w ne) lost = on_abort-IsLost cid e w ne lost
  Later-IsLost (takes cid content w) lost = take_block-IsLost cid content w lost
  Later-IsLost (finishes e content w found) lost = finish_store-IsLost e content w found lost
  Later-IsLost (stops w) lost = stop-IsLost w lost

  AtLast-IsLost : {s t : World m} → IsLost s → AtLast s t → IsLost t
  AtLast-IsLost lost here = lost
  AtLast-IsLost lost (next r step) = Later-IsLost step (AtLast-IsLost lost r)

-- The next deferred has not been used.
pub record IsFresh (m : Multiformats) (w : World m) : Type 0 where
  pub absent : IsAbsent m w.issued w.node.pending_wants
  pub not_storing : find_storing w.issued w.storing ≡ none
  pub unsettled : outcome_of w.issued w.settled ≡ none

aborted :
    (m : Multiformats) (cid : m.Cid) (old : ℕ) (w : World m)
    → IsFresh m w
    → old ≢ w.issued
    → IsLost m w.issued (on_abort m cid old (with_want m cid w))
unfolding on_abort
aborted m cid old w fresh ne = record {
  issued = omega arith;
  absent =
      AllValues-remove-insert (IsOther m w.issued) (m.to_string cid) (new_want m cid w)
        w.node.pending_wants fresh.absent;
  not_storing = fresh.not_storing;
  unsettled = settle_ne w.issued old _ w.settled ne ∙ fresh.unsettled;
}

-- Let a want for `cid` be made while its key is free and the listener of an older deferred `old`
-- for the same CID is still set. When that listener runs, the new want is lost: however the methods
-- follow one another after that, but for the new want's own abort, its promise is not settled.
pub on_abort_loses :
    (m : Multiformats) (cid : m.Cid) (old : ℕ) (w t : World m)
    → IsFresh m w
    → lookup (m.to_string cid) w.node.pending_wants ≡ none
    → old ≢ w.issued
    → AtLast m w.issued (on_abort m cid old (want m cid w).0) t
    → outcome_of w.issued t.settled ≡ none
on_abort_loses m cid old w t fresh free ne later =
    let start : IsLost m w.issued (on_abort m cid old (want m cid w).0) =
      rw (want_new m cid w free) (aborted m cid old w fresh ne) in
    (AtLast-IsLost m w.issued start later).unsettled
