-- ===== src/Api/Labels.antt =====
-- `normalisePath` of src/api/helpers.ts: the path label of the metrics.
use ipfs_shard.Shared.{
  ℕ, List, [], ◌∷◌, ◌++◌, true, false, ◌||◌, Option, none, some, All, ◌≡◌, refl, ap, ◌∙◌, ◌⊎◌, inl,
  inr, arith, Bool-cases, ◌==◌,
}
use ipfs_shard.Api.Text.{chars, strip_prefix, segment}
use ipfs_shard.Api.Matching.{Plain}

-- `path.replace(/^<prefix>[^/?]+/, label)`
abbrev pub relabel : List ℕ → List ℕ → List ℕ × List ℕ → List ℕ
relabel label path ([], rest) = path
relabel label path (c ∷ cid, rest) = label ++ rest

abbrev pub relabel_rest : List ℕ → List ℕ → Option (List ℕ) → List ℕ
unfolding segment
relabel_rest label path none = path
relabel_rest label path (some rest) = relabel label path (segment rest)

unfoldable pub replace_segment : List ℕ → List ℕ → List ℕ → List ℕ
unfolding strip_prefix segment
replace_segment prefix label path = relabel_rest label path (strip_prefix prefix path)

unfoldable pub normalise_path : List ℕ → List ℕ
unfolding replace_segment
normalise_path path = replace_segment (chars "/ls/") (chars "/ls/:cid") (
    replace_segment (chars "/cat/") (chars "/cat/:cid") (
      replace_segment (chars "/dht/status/") (chars "/dht/status/:cid") (
        replace_segment (chars "/blocks/") (chars "/blocks/:cid")
          (replace_segment (chars "/providers/") (chars "/providers/:cid") path))))

-- What may follow a segment.
abbrev pub EndsSegment : List ℕ → Type 0
EndsSegment [] = Unit
EndsSegment (c ∷ rest) = (c ≡ b'/') ⊎ (c ≡ b'?')

segment-stops : (rest : List ℕ) → EndsSegment rest → segment rest ≡ ([], rest)
unfolding segment
segment-stops [] e = refl
segment-stops (c ∷ rest) e = elim (Bool-cases ((c == b'/') || (c == b'?'))) [
  | inl ends ↦ rw ends refl
  | inr goes ↦ absurd (ground arith)
]

segment_of-append :
    (cid rest : List ℕ) → All Plain cid → EndsSegment rest → segment (cid ++ rest) ≡ (cid, rest)
unfolding segment
segment_of-append [] rest plain ends = segment-stops rest ends
segment_of-append (c ∷ cid) rest ((a, b), plain) ends =
    let goes : ((c == b'/') || (c == b'?')) ≡ false = ground arith in
    rw (goes, segment_of-append cid rest plain ends) refl

strip_prefix-append : (p s : List ℕ) → strip_prefix p (p ++ s) ≡ some s
unfolding strip_prefix
strip_prefix-append [] s = refl
strip_prefix-append (c ∷ p) s =
    let same : (c == c) ≡ true = ground arith in rw same (strip_prefix-append p s)

replace_segment_hit :
    (prefix label : List ℕ) (c : ℕ) (cid rest : List ℕ)
    → All Plain (c ∷ cid)
    → EndsSegment rest
    → replace_segment prefix label (prefix ++ ((c ∷ cid) ++ rest)) ≡ label ++ rest
unfolding replace_segment
replace_segment_hit prefix label c cid rest plain ends =
    let path = prefix ++ ((c ∷ cid) ++ rest) in
    ap (relabel_rest label path) (strip_prefix-append prefix ((c ∷ cid) ++ rest))
    ∙ ap (relabel label path) (segment_of-append (c ∷ cid) rest plain ends)

-- The label of a path with a CID does not depend on the CID, for each of the five families of paths;
-- what follows the CID is kept.
pub normalise_path_lem :
    (c : ℕ) (cid rest : List ℕ)
    → All Plain (c ∷ cid)
    → EndsSegment rest
    → (normalise_path (chars "/providers/" ++ ((c ∷ cid) ++ rest))
        ≡ chars "/providers/:cid" ++ rest)
      × ((normalise_path (chars "/blocks/" ++ ((c ∷ cid) ++ rest)) ≡ chars "/blocks/:cid" ++ rest)
          × ((normalise_path (chars "/dht/status/" ++ ((c ∷ cid) ++ rest))
                ≡ chars "/dht/status/:cid" ++ rest)
              × ((normalise_path (chars "/cat/" ++ ((c ∷ cid) ++ rest)) ≡ chars "/cat/:cid" ++ rest)
                  × (normalise_path (chars "/ls/" ++ ((c ∷ cid) ++ rest))
                      ≡ chars "/ls/:cid" ++ rest))))
unfolding normalise_path replace_segment strip_prefix
normalise_path_lem c cid rest plain ends =
    let ls = replace_segment (chars "/ls/") (chars "/ls/:cid") in
    let cat = replace_segment (chars "/cat/") (chars "/cat/:cid") in
    let status = replace_segment (chars "/dht/status/") (chars "/dht/status/:cid") in
    let blocks = replace_segment (chars "/blocks/") (chars "/blocks/:cid") in
    let hit = λ (prefix label : List ℕ). replace_segment_hit prefix label c cid rest plain ends in
    (
      ap (λ (p : List ℕ). ls (cat (status (blocks p))))
          (hit (chars "/providers/") (chars "/providers/:cid")),
      (
        ap (λ (p : List ℕ). ls (cat (status p))) (hit (chars "/blocks/") (chars "/blocks/:cid")),
        (
          ap (λ (p : List ℕ). ls (cat p)) (hit (chars "/dht/status/") (chars "/dht/status/:cid")),
          (
            ap (λ (p : List ℕ). ls p) (hit (chars "/cat/") (chars "/cat/:cid")),
            hit (chars "/ls/") (chars "/ls/:cid"),
          ),
        ),
      ),
    )
