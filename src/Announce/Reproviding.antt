-- ===== src/Announce/Reproviding.antt =====
-- Which provides a run of the re-provide loop makes: `runReprovideLoop` of src/reprovide.ts.
use ipfs_shard.Shared.{
  ℕ, suc, ◌+◌, List, [], ◌∷◌, ◌++◌, map, length, append-nil, append_assoc, Bool, true, false,
  Option, none, some, String, ◌≡◌, refl, sym, ap, subst, ◌∙◌, inl, inr, arith, Bool-cases,
  Option-cases, if◌then◌else◌,
}
use ipfs_shard.Multiformats.{Multiformats}
use ipfs_shard.Node.Pins.{returned, Datastore, pin_ls}
use ipfs_shard.Announce.Status.{Json}
use ipfs_shard.Announce.Events.{
  Provide, Announcing, reprovide_cid, reprovide_parsed, reprovide_all, reprovide_listed,
  run_reprovide_loop,
}
use ipfs_shard.Announce.Soundness.{reprovide_all_stopped, reprovide_all_next}

-- The part of a list up to the element at whose provide `stop` is called, that one included.
abbrev pub up_to_stop {ℓ} : {A : Type ℓ} → (ℕ → Provide) → ℕ → List A → List A
up_to_stop net n [] = []
up_to_stop net n (x ∷ xs) = x ∷ (if (net n).stops then [] else up_to_stop net (suc n) xs)

abbrev pub keep_provided {ℓ} : {A : Type ℓ} → Option String → A → List A → List A
keep_provided none x xs = x ∷ xs
keep_provided (some err) x xs = xs

-- Of these, the elements whose provide succeeds.
abbrev pub successes {ℓ} : {A : Type ℓ} → (ℕ → Provide) → ℕ → List A → List A
successes net n [] = []
successes net n (x ∷ xs) =
    keep_provided (net n).error x (if (net n).stops then [] else successes net (suc n) xs)

module _ (m : Multiformats) (d : Datastore) (json : Json) where
  -- The text of a CID is read back as that CID.
  abbrev pub ParsesBack : Type 0
  ParsesBack = (cid : m.Cid) → m.parse (m.to_string cid) ≡ some cid

  cid_stopped :
      (p : Provide) (cid : m.Cid) (w : Announcing m d json)
      → (reprovide_cid m d json p cid w).stopped ≡ (if p.stops then true else w.stopped)
  unfolding reprovide_cid
  cid_stopped p cid w = elim (Option-cases p.error) [
    | inl e ↦ rw (e, reprovide_cid) refl
    | inr (err, e) ↦ rw (e, reprovide_cid) refl
  ]

  cid_asked :
      (p : Provide) (cid : m.Cid) (w : Announcing m d json)
      → (reprovide_cid m d json p cid w).asked ≡ w.asked ++ (cid ∷ [])
  unfolding reprovide_cid
  cid_asked p cid w = elim (Option-cases p.error) [
    | inl e ↦ rw (e, reprovide_cid) refl
    | inr (err, e) ↦ rw (e, reprovide_cid) refl
  ]

  cid_provided :
      (p : Provide) (cid : m.Cid) (w : Announcing m d json) (rest : List m.Cid)
      → (reprovide_cid m d json p cid w).provided ++ rest
        ≡ w.provided ++ keep_provided p.error cid rest
  unfolding reprovide_cid
  cid_provided p cid w rest = elim (Option-cases p.error) [
    | inl e ↦ rw (e, reprovide_cid) (append_assoc w.provided (cid ∷ []) rest)
    | inr (err, e) ↦ rw (e, reprovide_cid) refl
  ]

  cid_counted :
      (p : Provide) (cid : m.Cid) (w : Announcing m d json)
      → (reprovide_cid m d json p cid w).reprovided
          + (reprovide_cid m d json p cid w).reprovide_errors
        ≡ suc (w.reprovided + w.reprovide_errors)
  unfolding reprovide_cid
  cid_counted p cid w = elim (Option-cases p.error) [
    | inl e ↦ rw (e, reprovide_cid) (omega arith)
    | inr (err, e) ↦ rw (e, reprovide_cid) (omega arith)
  ]

  -- What a run has done: the provides it asked for, those that succeeded, and its counters.
  abbrev pub Did : List m.Cid → List m.Cid → Announcing m d json → Announcing m d json → Type 0
  Did asked provided w w' =
      (w'.asked ≡ w.asked ++ asked)
      × (w'.provided ≡ w.provided ++ provided)
      × (w'.reprovided + w'.reprovide_errors ≡ w.reprovided + w.reprovide_errors + length asked)

  module _ (parses : ParsesBack) where
    all_stopped :
        (net : ℕ → Provide) (n : ℕ) (texts : List String) (w : Announcing m d json)
        → w.stopped ≡ true
        → reprovide_all m d json net n texts w ≡ w
    unfolding reprovide_all
    all_stopped net n [] w h = refl
    all_stopped net n (text ∷ texts) w h = reprovide_all_stopped m d json net n text texts w h

    one-Did :
        (p : Provide) (cid : m.Cid) (w : Announcing m d json)
        → Did (cid ∷ []) (keep_provided p.error cid []) w (reprovide_cid m d json p cid w)
    one-Did p cid w = (
      cid_asked p cid w,
      sym (append-nil (reprovide_cid m d json p cid w).provided) ∙ cid_provided p cid w [],
      omega (arith, cid_counted p cid w),
    )

    next-Did :
        (p : Provide) (cid : m.Cid) (asked provided : List m.Cid) (w w' : Announcing m d json)
        → Did asked provided (reprovide_cid m d json p cid w) w'
        → Did (cid ∷ asked) (keep_provided p.error cid provided) w w'
    next-Did p cid asked provided w w' (a, s, c) = (
      a
          ∙ ap (λ (xs : List m.Cid). xs ++ asked) (cid_asked p cid w)
          ∙ append_assoc w.asked (cid ∷ []) asked,
      s ∙ cid_provided p cid w provided,
      omega (arith, c, cid_counted p cid w),
    )

    -- The lists for the element in front, by whether `stop` is called at it.
    abbrev DidFrom :
        Bool
        → (ℕ → Provide)
        → ℕ
        → m.Cid
        → List m.Cid
        → Announcing m d json
        → Announcing m d json
        → Type 0
    DidFrom b net n cid cids w w' =
        Did (cid ∷ (if b then [] else up_to_stop net (suc n) cids))
          (keep_provided (net n).error cid (if b then [] else successes net (suc n) cids)) w w'

    reprovide_all-Did :
        (net : ℕ → Provide) (n : ℕ) (cids : List m.Cid) (w : Announcing m d json)
        → w.stopped ≡ false
        → Did
            (up_to_stop net n cids)
            (successes net n cids)
            w
            (reprovide_all m d json net n (map m.to_string cids) w)
    unfolding reprovide_all
    reprovide_all-Did net n [] w goes =
        (sym (append-nil w.asked), sym (append-nil w.provided), omega arith)
    reprovide_all-Did net n (cid ∷ cids) w goes =
        let w1 = reprovide_cid m d json (net n) cid w in
        subst (DidFrom (net n).stops net n cid cids w)
          (sym (
            reprovide_all_next m d json net n (m.to_string cid) (map m.to_string cids) w goes
            ∙ ap
                (λ (o : Option m.Cid).
                  reprovide_all m d json net (suc n) (map m.to_string cids)
                    (reprovide_parsed m d json (net n) o w))
                (parses cid)))
          (elim (Bool-cases (net n).stops) [
            | inl over ↦
                let halted : w1.stopped ≡ true =
                  cid_stopped (net n) cid w
                  ∙ ap (λ (b : Bool). if b then true else w.stopped) over in
                subst (DidFrom (net n).stops net n cid cids w)
                  (sym (all_stopped net (suc n) (map m.to_string cids) w1 halted))
                  (subst (λ (b : Bool). DidFrom b net n cid cids w w1) (sym over)
                    (one-Did (net n) cid w))
            | inr on ↦
                let ready : w1.stopped ≡ false =
                  cid_stopped (net n) cid w
                  ∙ ap (λ (b : Bool). if b then true else w.stopped) on
                  ∙ goes in
                let w2 = reprovide_all m d json net (suc n) (map m.to_string cids) w1 in
                subst (λ (b : Bool). DidFrom b net n cid cids w w2) (sym on)
                  (next-Did (net n) cid (up_to_stop net (suc n) cids) (successes net (suc n) cids) w
                    w2 (reprovide_all-Did net (suc n) cids w1 ready))
          ])

    run_listed :
        (net : ℕ → Provide) (start end : ℕ) (cids : List m.Cid) (w : Announcing m d json)
        → w.stopped ≡ false
        → pin_ls m d w.store ≡ returned cids
        → run_reprovide_loop m d json net start end w
          ≡ reprovide_listed m d json net start end (returned cids) w
    unfolding run_reprovide_loop
    run_listed net start end cids w goes listed = simp (goes, listed) refl

    -- A run that is not stopped, over a list of pins that could be read, asks for one provide of each
    -- pin, in the order of the list, up to the one at which `stop` is called; it records those that
    -- succeed, and its two counters grow together by the number of provides.
    pub run_reprovide_loop-Did :
        (net : ℕ → Provide) (start end : ℕ) (cids : List m.Cid) (w : Announcing m d json)
        → w.stopped ≡ false
        → pin_ls m d w.store ≡ returned cids
        → Did
            (up_to_stop net 0 cids)
            (successes net 0 cids)
            w
            (run_reprovide_loop m d json net start end w)
    unfolding run_reprovide_loop
    run_reprovide_loop-Did net start end cids w goes listed =
        subst (Did (up_to_stop net 0 cids) (successes net 0 cids) w)
          (sym (run_listed net start end cids w goes listed)) (reprovide_all-Did net 0 cids w goes)
