-- ===== src/Shared/Loop.antt =====
-- `while` loops on fuel. `none` means that the fuel ran out, which no JavaScript run does: such a
-- run goes on for ever.
use Prim.Native.Nat.{ℕ, zero, suc, ◌<◌}
use mathlib.Core.Path.{◌≡◌, refl}
use mathlib.Core.Logic.{◌⊎◌, ◌≢◌, inl, inr}
use mathlib.Core.Option.{Option, none, some}
use native.Mathlib.Omega.{arith}

-- One round: go on from a state, leave the loop with one, or hang in a loop of the body.
pub data Round {ℓ} (S : Type ℓ) : Type ℓ where
  next : S → Round S
  stop : S → Round S
  hang : Round S

unfoldable pub loop {ℓ} : {S : Type ℓ} → ℕ → (S → Round S) → S → Option S
loop zero body s = none
loop (suc fuel) body s = elim (body s) [
  | next s' ↦ loop fuel body s'
  | stop s' ↦ some s'
  | hang ↦ none
]

module _ {ℓ} {S : Type ℓ} where
  pub Round-cases :
      (r : Round S) → ((s : S) × (r ≡ next s)) ⊎ (((s : S) × (r ≡ stop s)) ⊎ (r ≡ hang))
  Round-cases (next s) = inl (s, refl)
  Round-cases (stop s) = inr (inl (s, refl))
  Round-cases hang = inr (inr refl)

  pub loop-next :
      (fuel : ℕ) (body : S → Round S) (s s' : S)
      → body s ≡ next s'
      → loop (suc fuel) body s ≡ loop fuel body s'
  unfolding loop
  loop-next fuel body s s' e = rw (e, loop)

  pub loop-stop :
      (fuel : ℕ) (body : S → Round S) (s s' : S)
      → body s ≡ stop s'
      → loop (suc fuel) body s ≡ some s'
  unfolding loop
  loop-stop fuel body s s' e = rw (e, loop)

  pub loop-hang : (fuel : ℕ) (body : S → Round S) (s : S) → body s ≡ hang → loop fuel body s ≡ none
  unfolding loop
  loop-hang zero body s e = refl
  loop-hang (suc fuel) body s e = rw (e, loop)

  -- A measure that falls in every round bounds the rounds, if no round hangs.
  pub loop_ends :
      (body : S → Round S) (measure : S → ℕ)
      → ((s s' : S) → body s ≡ next s' → measure s' < measure s)
      → ((s : S) → body s ≢ hang)
      → (fuel : ℕ) (s : S) → measure s < fuel
      → (r : S) × (loop fuel body s ≡ some r)
  loop_ends body measure falls goes zero s h = absurd (omega arith)
  loop_ends body measure falls goes (suc fuel) s h = elim (Round-cases (body s)) [
    | inl (s', e) ↦
        let (r, done) = loop_ends body measure falls goes fuel s' (omega (arith, falls s s' e)) in
        (r, rw (loop-next fuel body s s' e) done)
    | inr (inl (s', e)) ↦ (s', loop-stop fuel body s s' e)
    | inr (inr e) ↦ absurd (goes s e)
  ]

  -- A state that a round returns to keeps the loop running on any fuel.
  pub loop_stuck :
      (body : S → Round S) (s : S) → body s ≡ next s → (fuel : ℕ) → loop fuel body s ≡ none
  loop_stuck body s e zero = unfold loop in refl
  loop_stuck body s e (suc fuel) = rw (loop-next fuel body s s e) (loop_stuck body s e fuel)
