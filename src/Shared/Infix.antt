-- ===== src/Shared/Infix.antt =====
-- `text.includes(part)` finds a part that is there.
use Prim.Native.Nat.{ℕ, ◌+◌, ◌≤◌, Ordering, compare as compare_ℕ}
use Prim.Native.Char.{Char, code, len_utf8}
use Prim.Native.String.append
use Prim.Native.String.find
use Prim.Native.String.len
use Prim.Native.String.{String, len, ◌++◌, find, same, begins}
use mathlib.Core.Path.{◌≡◌, refl, sym, ap, subst, ◌∙◌}
use mathlib.Core.Logic.{◌⊎◌, inl, inr}
use mathlib.Core.Option.{some}
use native.Mathlib.Omega.{arith, compare-gt}
use text.Mathlib.Text.{find?}
use text.Mathlib.TextFind.{begins_cases}
use text.Mathlib.TextPositions.{compare_self}

Ordering-cases : (o : Ordering) → (o ≡ Ordering.lt) ⊎ ((o ≡ Ordering.eq) ⊎ (o ≡ Ordering.gt))
Ordering-cases Ordering.lt = inl refl
Ordering-cases Ordering.eq = inr (inl refl)
Ordering-cases Ordering.gt = inr (inr refl)

begins_self : (t v : String) (y n : ℕ) → begins (t ++ v) t y n ≡ y
begins_self String.[] v y n = refl
begins_self (String.◌∷◌ c t) v y n =
    ap (λ (x : String). begins x (String.◌∷◌ c t) y n) (append.cons c t v)
    ∙ ap (λ (o : Ordering). same o (begins (t ++ v) t y n) n) (compare_self (code c))
    ∙ begins_self t v y n

-- Put in front, a character moves a hit but does not remove it.
find-cons :
    (c : Char) (s t : String) → find s t ≤ len s → find (String.◌∷◌ c s) t ≤ len (String.◌∷◌ c s)
find-cons c s t h = elim (begins_cases (String.◌∷◌ c s) t 0 (len_utf8 c + find s t)) [
  | inl hit ↦ omega (arith, hit.0, find.cons c s t)
  | inr later ↦ omega (arith, later, find.cons c s t, len.cons c s, h)
]

find-append :
    (u c_t v : String) (c : Char)
    → find (u ++ (String.◌∷◌ c c_t ++ v)) (String.◌∷◌ c c_t) ≤ len (u ++ (String.◌∷◌ c c_t ++ v))
find-append String.[] t v c =
    let word = String.◌∷◌ c t in
    let at : find (String.[] ++ (word ++ v)) word ≡ 0 =
      ap (λ (x : String). find x word) (append.nil (word ++ v) ∙ append.cons c t v)
      ∙ find.cons c (t ++ v) word
      ∙ ap
          (λ (o : Ordering).
            same o (begins (t ++ v) t 0 (len_utf8 c + find (t ++ v) word))
              (len_utf8 c + find (t ++ v) word))
          (compare_self (code c))
      ∙ begins_self t v 0 (len_utf8 c + find (t ++ v) word) in
    omega (arith, at)
find-append (String.◌∷◌ d u) t v c =
    let whole = u ++ (String.◌∷◌ c t ++ v) in
    subst (λ (x : String). find x (String.◌∷◌ c t) ≤ len x)
      (sym (append.cons d u (String.◌∷◌ c t ++ v)))
      (find-cons d whole (String.◌∷◌ c t) (find-append u t v c))

-- The test of `find?` succeeds at a hit.
pub find-some : (s t : String) → find s t ≤ len s → find? s t ≡ some (find s t)
find-some s t h = elim (Ordering-cases (compare_ℕ (find s t) (len s))) [
  | inl e ↦ rw e refl
  | inr (inl e) ↦ rw e refl
  | inr (inr e) ↦ absurd (omega (arith, h, compare-gt (find s t) (len s) e))
]

-- A text with a part behind a beginning and before an end is found to have it.
pub find?-append :
    (u t v : String) (c : Char)
    → find? (u ++ (String.◌∷◌ c t ++ v)) (String.◌∷◌ c t)
      ≡ some (find (u ++ (String.◌∷◌ c t ++ v)) (String.◌∷◌ c t))
find?-append u t v c = find-some (u ++ (String.◌∷◌ c t ++ v)) (String.◌∷◌ c t) (find-append u t v c)
