-- ===== src/Handlers/Segments.antt =====
-- The CID that `handleBlocks` of src/api/blocks.ts reads from the URL is the segment that the tests of
-- src/api/http-router.ts have matched.
use Prim.Native.Char.{Char, code}
use ipfs_shard.Shared.{
  ℕ, List, [], ◌∷◌, ◌++◌, map, false, some, String, All, ◌≡◌, refl, sym, ap, ◌∙◌, inl, inr, arith,
  Bool-cases, if◌then◌else◌, ◌==◌,
}
use ipfs_shard.Api.Text.{chars, before_query}
use ipfs_shard.Api.Router.{Route, blocks_check, blocks_cat, blocks_ls, route}
use ipfs_shard.Api.Matching.{Plain, Below}
use ipfs_shard.Api.Routing.{Fits, route-method_of}
use ipfs_shard.Handlers.Blocks.{BlocksAction, check, cat, ls}
use ipfs_shard.Handlers.Paths.{push_char, split, head_or_empty, third, map_head, cid_part}

-- The same on lists of character codes.
abbrev push_code : ℕ → List (List ℕ) → List (List ℕ)
push_code c [] = (c ∷ []) ∷ []
push_code c (s ∷ parts) = (c ∷ s) ∷ parts

unfoldable split_codes : ℕ → List ℕ → List (List ℕ)
split_codes sep [] = [] ∷ []
split_codes sep (c ∷ s) =
    let rest = split_codes sep s in if c == sep then [] ∷ rest else push_code c rest

map-push_char :
    (c : Char) (parts : List String)
    → map chars (push_char c parts) ≡ push_code (code c) (map chars parts)
map-push_char c [] = refl
map-push_char c (s ∷ parts) = refl

split-chars : (sep : ℕ) (s : String) → map chars (split sep s) ≡ split_codes sep (chars s)
unfolding split split_codes
split-chars sep String.[] = refl
split-chars sep (String.◌∷◌ c s) = elim (Bool-cases (code c == sep)) [
  | inl here ↦ rw here (ap (◌∷◌ []) (split-chars sep s))
  | inr away ↦ rw away (map-push_char c (split sep s) ∙ ap (push_code (code c)) (split-chars sep s))
]

-- `text.split('?')[0]` is the part before the query.
head-split : (s : String) → chars (head_or_empty (split b'?' s)) ≡ before_query (chars s)
unfolding split before_query
head-split String.[] = refl
head-split (String.◌∷◌ c s) = elim (Bool-cases (code c == b'?')) [
  | inl here ↦ rw here refl
  | inr away ↦ rw away (pushed (split b'?' s) (head-split s))
]
  where
    pushed :
        (parts : List String)
        → chars (head_or_empty parts) ≡ before_query (chars s)
        → chars (head_or_empty (push_char c parts)) ≡ code c ∷ before_query (chars s)
    pushed [] e = ap (◌∷◌ (code c)) e
    pushed (p ∷ parts) e = ap (◌∷◌ (code c)) e

unfoldable until_slash : List ℕ → List ℕ
until_slash [] = []
until_slash (c ∷ s) = let rest = until_slash s in if c == b'/' then [] else c ∷ rest

split-until_slash :
    (s : List ℕ) → (more : List (List ℕ)) × (split_codes b'/' s ≡ until_slash s ∷ more)
unfolding split_codes until_slash
split-until_slash [] = ([], refl)
split-until_slash (c ∷ s) = elim (Bool-cases (c == b'/')) [
  | inl here ↦ (split_codes b'/' s, rw here refl)
  | inr away ↦ let (more, e) = split-until_slash s in (more, rw away (ap (push_code c) e))
]

-- Where the part before the query has no slash, cutting at a slash first makes no difference.
cut_first : (s x : List ℕ) → before_query s ≡ x → All Plain x → before_query (until_slash s) ≡ x
unfolding before_query until_slash
cut_first [] x e plain = e
cut_first (c ∷ s) x e plain = elim (Bool-cases (c == b'?')) [
  | inl query ↦ ground (arith, e)
  | inr text ↦ go (λ y f p. cut_first s y f p) x text (rw text at e) plain
]
  where
    go :
        ((y : List ℕ) → before_query s ≡ y → All Plain y → before_query (until_slash s) ≡ y)
        → (x : List ℕ) → (c == b'?') ≡ false
        → c ∷ before_query s ≡ x
        → All Plain x
        → before_query (until_slash (c ∷ s)) ≡ x
    go later [] text e plain = absurd (cc)
    go later (d ∷ x) text e plain =
        let head : c ≡ d = cc in
        let rest : before_query s ≡ x = cc in
        let slash : (c == b'/') ≡ false = ground (arith, head, plain.0.0) in
        rw (slash, text) (cc (head, later x rest plain.1))

before_query-prefix :
    (s p x : List ℕ)
    → before_query s ≡ p ++ x
    → (v : List ℕ) × ((s ≡ p ++ v) × (before_query v ≡ x))
unfolding before_query
before_query-prefix s [] x e = (s, (refl, e))
before_query-prefix [] (d ∷ p) x e = absurd (cc)
before_query-prefix (c ∷ s) (d ∷ p) x e = elim (Bool-cases (c == b'?')) [
  | inl query ↦ absurd (cc (rw query at e))
  | inr text ↦
      let same : c ∷ before_query s ≡ d ∷ (p ++ x) = rw text at e in
      let rest : before_query s ≡ p ++ x = cc (same) in
      let head : c ≡ d = cc (same) in
      let (v, (whole, cut)) = before_query-prefix s p x rest in (v, (cc (head, whole), cut))
]

-- The route and the beginning of the path for each action.
abbrev pub route_of : BlocksAction → Route
route_of check = blocks_check
route_of cat = blocks_cat
route_of ls = blocks_ls

abbrev pub beginning_of : BlocksAction → List ℕ
beginning_of check = chars "/blocks/"
beginning_of cat = chars "/cat/"
beginning_of ls = chars "/ls/"

third_part :
    (url : String) (w : List ℕ) (p v : List ℕ)
    → chars url ≡ p ++ v
    → split_codes b'/' (p ++ v) ≡ [] ∷ w ∷ split_codes b'/' v
    → (seg : String) × ((cid_part url ≡ some seg) × (chars seg ≡ before_query (until_slash v)))
unfolding cid_part
third_part url w p v whole parts =
    let (more, tail) = split-until_slash v in
    go (split b'/' url) (
      split-chars b'/' url
      ∙ ap (split_codes b'/') whole
      ∙ parts
      ∙ ap (λ (x : List (List ℕ)). [] ∷ w ∷ x) tail)
  where
    go :
        {more : List (List ℕ)}
        → (found : List String) → map chars found ≡ [] ∷ w ∷ until_slash v ∷ more
        → (seg : String) × ((map_head (third found) ≡ some seg)
            × (chars seg ≡ before_query (until_slash v)))
    go [] e = absurd (cc)
    go (a ∷ []) e = absurd (cc)
    go (a ∷ b ∷ []) e = absurd (cc)
    go (a ∷ b ∷ c ∷ rest) e =
        let same : chars c ≡ until_slash v = cc in
        (head_or_empty (split b'?' c), (refl, head-split c ∙ ap before_query same))

segment_of :
    (url : String) (w p : List ℕ)
    → ((v : List ℕ) → split_codes b'/' (p ++ v) ≡ [] ∷ w ∷ split_codes b'/' v)
    → Below p (before_query (chars url))
    → (seg : String) × ((cid_part url ≡ some seg) × (before_query (chars url) ≡ p ++ chars seg))
segment_of url w p parts (c, (rest, (below, plain))) =
    let (v, (whole, cut)) = before_query-prefix (chars url) p (c ∷ rest) below in
    let (seg, (read, same)) = third_part url w p v whole (parts v) in
    (
      seg,
      (read, below ∙ ap (λ (x : List ℕ). p ++ x) (sym (same ∙ cut_first v (c ∷ rest) cut plain))),
    )

below_action :
    (action : BlocksAction) (url : String)
    → Fits (route_of action) (before_query (chars url))
    → (seg : String) × ((cid_part url ≡ some seg)
        × (before_query (chars url) ≡ beginning_of action ++ chars seg))
unfolding split_codes
below_action check url = segment_of url (chars "blocks") (chars "/blocks/") (λ v. refl)
below_action cat url = segment_of url (chars "cat") (chars "/cat/") (λ v. refl)
below_action ls url = segment_of url (chars "ls") (chars "/ls/") (λ v. refl)

-- Whenever the router sends a request to `handleBlocks`, the handler reads a CID from the URL without
-- an exception, and what it reads is all that the path has behind `/blocks/`, `/cat/` or `/ls/`, without
-- the query.
pub route-cid_part :
    (action : BlocksAction) (method url : String)
    → route (chars method) (chars url) ≡ some (route_of action)
    → (seg : String) × ((cid_part url ≡ some seg)
        × (before_query (chars url) ≡ beginning_of action ++ chars seg))
route-cid_part action method url e =
    below_action action url (route-method_of (chars method) (chars url) [] (route_of action) e).0.1
