-- ===== src/Shared/Assoc.antt =====
-- A JavaScript `Map` or `Set` with text keys: entries in insertion order, one for each key.
use Prim.Native.String.{String}
use mathlib.Core.Path.{◌≡◌, refl}
use mathlib.Core.Logic.{◌≢◌, inl, inr}
use mathlib.Core.Bool.{Bool, false, ◌||◌}
use mathlib.Core.Option.{Option, none, some}
use mathlib.Core.List.{List, [], ◌∷◌, ◌++◌}
use native.Mathlib.Omega.{arith}
use text.Mathlib.Text.{◌==◌ as str_eq}
use text.Mathlib.TextEquality.{eq_iff}
use ipfs_shard.Shared.Tests.{if◌then◌else◌, Bool-cases}
use ipfs_shard.Shared.Lists.{All}

module _ {ℓ} {V : Type ℓ} where
  -- `map.get(k)`
  unfoldable pub lookup : String → List (String × V) → Option V
  lookup k [] = none
  lookup k ((j, v) ∷ m) = if str_eq j k then some v else lookup k m

  -- `map.set(k, v)`: an old entry keeps its place, a new one goes to the end.
  unfoldable pub insert : String → V → List (String × V) → List (String × V)
  insert k v [] = (k, v) ∷ []
  insert k v ((j, w) ∷ m) = if str_eq j k then (j, v) ∷ m else (j, w) ∷ insert k v m

  -- `map.delete(k)`
  unfoldable pub remove : String → List (String × V) → List (String × V)
  remove k [] = []
  remove k ((j, w) ∷ m) = if str_eq j k then remove k m else (j, w) ∷ remove k m

  pub lookup-insert :
      (k j : String) (v : V) (m : List (String × V))
      → lookup j (insert k v m) ≡ (if str_eq k j then some v else lookup j m)
  unfolding lookup insert
  lookup-insert k j v [] = refl
  lookup-insert k j v (e ∷ rest) =
      ground (arith, lookup-insert k j v rest, eq_iff e.0 j, eq_iff e.0 k, eq_iff k j)

  pub lookup-remove :
      (k j : String) (m : List (String × V))
      → lookup j (remove k m) ≡ (if str_eq k j then none else lookup j m)
  unfolding lookup remove
  lookup-remove k j [] = ground arith
  lookup-remove k j ((i, w) ∷ m) =
      ground (arith, eq_iff k j, eq_iff i k, eq_iff i j, lookup-remove k j m)

  pub lookup-insert_self :
      (k : String) (v : V) (m : List (String × V)) → lookup k (insert k v m) ≡ some v
  lookup-insert_self k v m = ground (arith, lookup-insert k k v m, eq_iff k k)

  pub lookup-insert_ne :
      (k j : String) (v : V) (m : List (String × V)) → k ≢ j → lookup j (insert k v m) ≡ lookup j m
  lookup-insert_ne k j v m h = ground (arith, lookup-insert k j v m, eq_iff k j)

  pub lookup-remove_self : (k : String) (m : List (String × V)) → lookup k (remove k m) ≡ none
  lookup-remove_self k m = ground (arith, lookup-remove k k m, eq_iff k k)

  pub lookup-remove_ne :
      (k j : String) (m : List (String × V)) → k ≢ j → lookup j (remove k m) ≡ lookup j m
  lookup-remove_ne k j m h = ground (arith, lookup-remove k j m, eq_iff k j)

-- `set.has(k)` and `set.add(k)`.
unfoldable pub has : String → List String → Bool
has k [] = false
has k (j ∷ s) = str_eq j k || has k s

unfoldable pub add : String → List String → List String
unfolding has
add k s = if has k s then s else s ++ (k ∷ [])

pub has-append : (k : String) (s t : List String) → has k (s ++ t) ≡ (has k s || has k t)
unfolding has
has-append k [] t = refl
has-append k (j ∷ s) t = ground (arith, has-append k s t)

pub has-add : (k j : String) (s : List String) → has j (add k s) ≡ (str_eq k j || has j s)
unfolding add has
has-add k j s = ground (arith, has-append j s (k ∷ []), eq_iff k j)

-- No text stands twice.
unfoldable pub Distinct : List String → Type 0
Distinct [] = Unit
Distinct (x ∷ xs) = (has x xs ≡ false) × Distinct xs

pub Distinct-snoc :
    (xs : List String) (x : String) → Distinct xs → has x xs ≡ false → Distinct (xs ++ (x ∷ []))
unfolding Distinct has
Distinct-snoc [] x d h = (refl, tt)
Distinct-snoc (y ∷ xs) x (fresh, d) h = (
  ground (arith, has-append y xs (x ∷ []), eq_iff x y, eq_iff y x),
  Distinct-snoc xs x d (ground arith),
)

pub Distinct-add : (k : String) (s : List String) → Distinct s → Distinct (add k s)
unfolding add
Distinct-add k s d = elim (Bool-cases (has k s)) [
  | inl old ↦ rw old d
  | inr new ↦ rw new (Distinct-snoc s k d new)
]

-- A property of all entries.
module _ {ℓ κ} {V : Type ℓ} (P : V → Type κ) where
  abbrev pub AllValues : List (String × V) → Type κ
  AllValues = All (λ e. P e.1)

  pub AllValues-insert :
      (k : String) (v : V) (m : List (String × V)) → P v → AllValues m → AllValues (insert k v m)
  unfolding insert
  AllValues-insert k v [] p all = (p, tt)
  AllValues-insert k v ((j, w) ∷ m) p (q, all) = elim (Bool-cases (str_eq j k)) [
    | inl same ↦ rw same (p, all)
    | inr other ↦ rw other (q, AllValues-insert k v m p all)
  ]

  pub AllValues-remove : (k : String) (m : List (String × V)) → AllValues m → AllValues (remove k m)
  unfolding remove
  AllValues-remove k [] all = all
  AllValues-remove k ((j, w) ∷ m) (q, all) = elim (Bool-cases (str_eq j k)) [
    | inl same ↦ rw same (AllValues-remove k m all)
    | inr other ↦ rw other (q, AllValues-remove k m all)
  ]

  pub AllValues-lookup :
      (k : String) (v : V) (m : List (String × V)) → AllValues m → lookup k m ≡ some v → P v
  unfolding lookup
  AllValues-lookup k v [] all e = absurd (cc)
  AllValues-lookup k v ((j, w) ∷ m) (q, all) e = elim (Bool-cases (str_eq j k)) [
    | inl same ↦ let one : w ≡ v = cc (rw same at e) in rw (← one) q
    | inr other ↦ AllValues-lookup k v m all (rw other at e)
  ]

  -- Whatever was inserted under the key goes with it.
  pub AllValues-remove-insert :
      (k : String) (v : V) (m : List (String × V))
      → AllValues m
      → AllValues (remove k (insert k v m))
  unfolding remove insert
  AllValues-remove-insert k v [] all = rw ((eq_iff k k).1 refl) tt
  AllValues-remove-insert k v ((j, w) ∷ m) (q, all) = elim (Bool-cases (str_eq j k)) [
    | inl same ↦ rw (same, same) (AllValues-remove k m all)
    | inr other ↦ rw (other, other) (q, AllValues-remove-insert k v m all)
  ]
