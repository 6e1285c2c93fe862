-- ===== src/Shared/Picks.antt =====
-- The elements of a list with a property, as a relation, and the tests of the program's loops beside it.
use Prim.Native.String.{String}
use mathlib.Core.Path.{◌≡◌}
use mathlib.Core.Logic.{◌≢◌, ◌⊎◌, inl, inr}
use mathlib.Core.Bool.{true}
use mathlib.Core.Option.{Option, some}
use mathlib.Core.List.{List, [], ◌∷◌}
use native.Mathlib.Omega.{arith}
use text.Mathlib.Text.{◌==◌ as str_eq}
use text.Mathlib.TextEquality.{eq_iff}
use ipfs_shard.Shared.Tests.{Bool-cases}
use ipfs_shard.Shared.Assoc.{has}

-- The second list has exactly the elements of the first with the property, in order.
pub data Picks {A : Type 0} (P : A → Type 0) : List A → List A → Type 0 where
  done : Picks P [] []
  kept : {x : A} {xs ks : List A} → P x → Picks P xs ks → Picks P (x ∷ xs) (x ∷ ks)
  passed : {x : A} {xs ks : List A} → (P x → ⊥) → Picks P xs ks → Picks P (x ∷ xs) ks

abbrev pub Any : {A : Type 0} → (A → Type 0) → List A → Type 0
Any P [] = ⊥
Any P (x ∷ xs) = P x ⊎ Any P xs

pub has-Any : (k : String) (s : List String) → has k s ≡ true → Any (λ j. j ≡ k) s
unfolding has
has-Any k [] e = absurd (cc)
has-Any k (j ∷ s) e = elim (Bool-cases (str_eq j k)) [
  | inl same ↦ inl ((eq_iff j k).0 same)
  | inr other ↦ inr (has-Any k s (rw other at e))
]

pub Any-has : (k : String) (s : List String) → Any (λ j. j ≡ k) s → has k s ≡ true
unfolding has
Any-has k [] e = absurd e
Any-has k (j ∷ s) (inl same) = ground (arith, same, eq_iff j k)
Any-has k (j ∷ s) (inr later) = ground (arith, Any-has k s later)

-- A peer id that is not the empty text, which JavaScript takes for false.
abbrev pub HasId : Option String → String → Type 0
HasId o id = (o ≡ some id) × (id ≢ "")
