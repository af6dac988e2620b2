-- ===== src/Prelude/Selections.antt =====
-- The rows that a selection leaves of a table.
use Prim.Native.Nat.{ℕ, ◌≤◌}
use mathlib.Core.Path.{◌≡◌, refl}
use mathlib.Core.Bool.{Bool, true}
use mathlib.Core.Logic.{inl, inr}
use mathlib.Core.Option.{none}
use mathlib.Core.List.{List, [], ◌∷◌}
use native.Mathlib.Omega.{arith}
use agent_program.Prelude.Tests.{Bool-cases, ◌==◌}
use agent_program.Prelude.Lists.{length, select, All}
use agent_program.Prelude.Tables.{get_row}
use agent_program.Prelude.Keys.{KeysDistinct}

module _ {A : Type 0} (test : A → Bool) where
  -- What holds of every row holds of every selected one, and each of these passes the test.
  pub All-select {κ} :
      (P : A → Type κ) (xs : List A) → All P xs → All (λ x. P x × (test x ≡ true)) (select test xs)
  All-select P [] h = tt
  All-select P (x ∷ xs) h = elim (Bool-cases (test x)) [
    | inl hit ↦ rw hit ((h.0, hit), All-select P xs h.1)
    | inr miss ↦ rw miss (All-select P xs h.1)
  ]

  pub length-select : (xs : List A) → length (select test xs) ≤ length xs
  length-select [] = omega arith
  length-select (x ∷ xs) = elim (Bool-cases (test x)) [
    | inl hit ↦ rw hit (omega (arith, length-select xs))
    | inr miss ↦ rw miss (omega (arith, length-select xs))
  ]

  module _ (key : A → ℕ) where
    pub get_row-select :
        (k : ℕ) (xs : List A) → get_row key k xs ≡ none → get_row key k (select test xs) ≡ none
    get_row-select k [] h = refl
    get_row-select k (x ∷ xs) h = elim (Bool-cases (key x == k)) [
      | inl same ↦ cc (rw same at h)
      | inr other ↦ elim (Bool-cases (test x)) [
        | inl hit ↦ rw (hit, other) (get_row-select k xs (rw other at h))
        | inr miss ↦ rw miss (get_row-select k xs (rw other at h))
      ]
    ]

    pub select-KeysDistinct :
        (xs : List A) → KeysDistinct key xs → KeysDistinct key (select test xs)
    select-KeysDistinct [] d = tt
    select-KeysDistinct (x ∷ xs) d = elim (Bool-cases (test x)) [
      | inl hit ↦ rw hit (get_row-select (key x) xs d.0, select-KeysDistinct xs d.1)
      | inr miss ↦ rw miss (select-KeysDistinct xs d.1)
    ]
