-- ===== src/Prelude/Orders.antt =====
-- The row that `order_by … limit 1` returns is one of the table's, and none is before it.
use mathlib.Core.Path.{◌≡◌}
use mathlib.Core.Bool.{Bool, true, false}
use mathlib.Core.Logic.{inl, inr}
use mathlib.Core.Option.{Option, none, some}
use mathlib.Core.List.{List, [], ◌∷◌}
use agent_program.Prelude.Tests.{Bool-cases, Option-cases}
use agent_program.Prelude.Lists.{All, All-imp}
use agent_program.Prelude.Tables.{first_by, pick}

module _ {A : Type 0} (before : A → A → Bool) where
  pick_some : (r : A) (o : Option A) → pick before true r o ≡ none → ⊥
  pick_some r none e = cc
  pick_some r (some b) e = elim (Bool-cases (before b r)) [
    | inl later ↦ cc (rw later at e)
    | inr earlier ↦ cc (rw earlier at e)
  ]

  -- Nothing passes the test where nothing is found.
  pub first_by-none :
      (test : A → Bool) (rs : List A)
      → first_by before test rs ≡ none
      → All (λ x. test x ≡ false) rs
  first_by-none test [] e = tt
  first_by-none test (r ∷ rs) e = elim (Bool-cases (test r)) [
    | inl hit ↦ absurd (pick_some r (first_by before test rs) (rw hit at e))
    | inr miss ↦ (miss, first_by-none test rs (rw miss at e))
  ]

  pick-All {κ} :
      (P : A → Type κ) (r b : A) (o : Option A)
      → P r
      → ((x : A) → o ≡ some x → P x)
      → pick before true r o ≡ some b
      → P b
  pick-All P r b none pr po e = let e' : r ≡ b = cc e in rw e' at pr
  pick-All P r b (some x) pr po e = elim (Bool-cases (before x r)) [
    | inl yes' ↦ let e' : some x ≡ some b = rw yes' at e in po b (cc e')
    | inr no' ↦ let e' : some r ≡ some b = rw no' at e in let e'' : r ≡ b = cc e' in rw e'' at pr
  ]

  -- What holds of every row holds of the one that is found, which passes the test.
  pub first_by-All {κ} :
      (P : A → Type κ) (test : A → Bool) (b : A) (rs : List A)
      → All P rs
      → first_by before test rs ≡ some b
      → P b × (test b ≡ true)
  first_by-All P test b [] h e = cc
  first_by-All P test b (r ∷ rs) h e = elim (Bool-cases (test r)) [
    | inl hit ↦
        pick-All (λ x. P x × (test x ≡ true)) r b (first_by before test rs) (h.0, hit)
          (λ x found. first_by-All P test x rs h.1 found) (rw hit at e)
    | inr miss ↦ first_by-All P test b rs h.1 (rw miss at e)
  ]

module _ {A : Type 0} (before : A → A → Bool) where
  always : (rs : List A) → All (λ _. Unit {0}) rs
  always [] = tt
  always (r ∷ rs) = (tt, always rs)

  -- The row that is found passes the test.
  pub test-first_by :
      (test : A → Bool) (b : A) (rs : List A) → first_by before test rs ≡ some b → test b ≡ true
  test-first_by test b rs found =
      (first_by-All before (λ _. Unit {0}) test b rs (always rs) found).1

module _ {A : Type 0} (before : A → A → Bool)
    (asym : (a b : A) → before a b ≡ true → before b a ≡ false)
    (neg_trans : (a b c : A) → before a b ≡ false → before b c ≡ false → before a c ≡ false) where
  irrefl : (a : A) → before a a ≡ false
  irrefl a = elim (Bool-cases (before a a)) [ inl h ↦ asym a a h | inr h ↦ h ]

  pick_least :
      (r y b : A)
      → pick before true r (some y) ≡ some b
      → (before r b ≡ false) × (before y b ≡ false)
  pick_least r y b e = elim (Bool-cases (before y r)) [
    | inl later ↦
        let e' : some y ≡ some b = rw later at e in
        let e'' : y ≡ b = cc e' in rw (← e'') (asym y r later, irrefl y)
    | inr earlier ↦
        let e' : some r ≡ some b = rw earlier at e in
        let e'' : r ≡ b = cc e' in rw (← e'') (irrefl r, earlier)
  ]

  -- No row that passes the test is before the one that is found.
  pub first_by_least :
      (test : A → Bool) (b : A) (rs : List A)
      → first_by before test rs ≡ some b
      → All (λ x. test x ≡ true → before x b ≡ false) rs
  first_by_least test b [] e = tt
  first_by_least test b (r ∷ rs) e = elim (Bool-cases (test r)) [
    | inr miss ↦ ((λ hit. cc (hit, miss)), first_by_least test b rs (rw miss at e))
    | inl hit ↦ elim (Option-cases (first_by before test rs)) [
      | inl nothing ↦
          let e' : some r ≡ some b = rw (hit, nothing) at e in
          let e'' : r ≡ b = cc e' in
          (
            (λ _. rw (← e'') (irrefl r)),
            All-imp (λ x. test x ≡ false) (λ x. test x ≡ true → before x b ≡ false)
                (λ x miss hit'. cc (miss, hit')) rs (first_by-none before test rs nothing),
          )
      | inr (y, found) ↦
          let least = pick_least r y b (rw (hit, found) at e) in
          (
            (λ _. least.0),
            All-imp (λ x. test x ≡ true → before x y ≡ false)
                (λ x. test x ≡ true → before x b ≡ false)
                (λ x h hit'. neg_trans x y b (h hit') least.1) rs (first_by_least test y rs found),
          )
    ]
  ]
