-- ===== src/Api/Matching.antt =====
-- What the path tests of src/api/http-router.ts accept.
use ipfs_shard.Shared.{
  ℕ, List, [], ◌∷◌, ◌++◌, true, not, ◌&&◌, ◌||◌, some, All, ◌≡◌, ◌≢◌, refl, sym, ap, ◌∙◌, inl, inr,
  arith, Bool-cases, Option-cases, ◌==◌, append-nil,
}
use ipfs_shard.Api.Text.{text_eq, is_empty, strip_prefix, starts_with, segment}
use ipfs_shard.Api.Router

pub text_eq_sound : (s t : List ℕ) → text_eq s t ≡ true → s ≡ t
unfolding text_eq
text_eq_sound [] [] e = refl
text_eq_sound [] (d ∷ t) e = absurd (cc)
text_eq_sound (c ∷ s) [] e = absurd (cc)
text_eq_sound (c ∷ s) (d ∷ t) e =
    let head : c ≡ d = ground arith in let tail : s ≡ t = text_eq_sound s t (ground arith) in cc

pub strip_prefix_sound : (p s r : List ℕ) → strip_prefix p s ≡ some r → s ≡ p ++ r
unfolding strip_prefix
strip_prefix_sound [] s r e = cc
strip_prefix_sound (c ∷ p) [] r e = absurd (cc)
strip_prefix_sound (c ∷ p) (d ∷ s) r e = elim (Bool-cases (c == d)) [
  | inl same ↦
      let head : c ≡ d = ground arith in
      let tail = strip_prefix_sound p s r (rw same at e) in cc (head, tail)
  | inr other ↦ absurd (cc (rw other at e))
]

-- Neither `/` nor `?`.
abbrev pub Plain : ℕ → Type 0
Plain c = (c ≢ b'/') × (c ≢ b'?')

pub segment-Plain : (s : List ℕ) → All Plain (segment s).0
unfolding segment
segment-Plain [] = tt
segment-Plain (c ∷ s) = elim (Bool-cases ((c == b'/') || (c == b'?'))) [
  | inl ends ↦ rw ends tt
  | inr goes ↦ rw goes ((ground arith, ground arith), segment-Plain s)
]

pub segment-append : (s : List ℕ) → (segment s).0 ++ (segment s).1 ≡ s
unfolding segment
segment-append [] = refl
segment-append (c ∷ s) = elim (Bool-cases ((c == b'/') || (c == b'?'))) [
  | inl ends ↦ rw ends refl
  | inr goes ↦ rw goes (ap (◌∷◌ c) (segment-append s))
]

is_empty_sound : (s : List ℕ) → is_empty s ≡ true → s ≡ []
is_empty_sound [] e = refl
is_empty_sound (c ∷ s) e = absurd (cc)

-- The path is the prefix and one non-empty segment behind it.
abbrev pub Below : List ℕ → List ℕ → Type 0
Below p url = (c : ℕ) × ((rest : List ℕ) × ((url ≡ p ++ (c ∷ rest)) × All Plain (c ∷ rest)))

abbrev pub Begins : List ℕ → List ℕ → Type 0
Begins p url = (rest : List ℕ) × (url ≡ p ++ rest)

segment_whole :
    (s : List ℕ)
    → (not (is_empty (segment s).0) && is_empty (segment s).1) ≡ true
    → (c : ℕ) × ((rest : List ℕ) × ((s ≡ c ∷ rest) × All Plain (c ∷ rest)))
segment_whole s e = go (segment s).0 (segment s).1 (segment-append s) (segment-Plain s) e
  where
    go :
        (a b : List ℕ)
        → a ++ b ≡ s
        → All Plain a
        → (not (is_empty a) && is_empty b) ≡ true
        → (c : ℕ) × ((rest : List ℕ) × ((s ≡ c ∷ rest) × All Plain (c ∷ rest)))
    go [] b whole plain e = absurd (cc)
    go (c ∷ a) [] whole plain e = (c, (a, (sym whole ∙ ap (◌∷◌ c) (append-nil a), plain)))
    go (c ∷ a) (d ∷ b) whole plain e = absurd (cc)

pub is_below_sound : (p url : List ℕ) → Router.is_below p url ≡ true → Below p url
unfolding Router.is_below
is_below_sound p url e = elim (Option-cases (strip_prefix p url)) [
  | inl gone ↦ absurd (cc (rw gone at e))
  | inr (rest, found) ↦
      let (c, (more, (same, plain))) = segment_whole rest (rw found at e) in
      (c, (more, (strip_prefix_sound p url rest found ∙ ap (λ (x : List ℕ). p ++ x) same, plain)))
]

pub starts_with_sound : (p url : List ℕ) → starts_with p url ≡ true → Begins p url
unfolding starts_with
starts_with_sound p url e = elim (Option-cases (strip_prefix p url)) [
  | inl gone ↦ absurd (cc (rw gone at e))
  | inr (rest, found) ↦ (rest, strip_prefix_sound p url rest found)
]
