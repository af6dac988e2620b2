-- ===== src/Prelude/Tables.antt =====
-- A database table as the list of its rows, with a numeric primary key.
use Prim.Native.Nat.{ℕ}
use mathlib.Core.Path.{◌≡◌, refl}
use mathlib.Core.Bool.{Bool, true, false}
use mathlib.Core.Logic.{inl, inr}
use mathlib.Core.Option.{Option, none, some}
use mathlib.Core.List.{List, [], ◌∷◌}
use native.Mathlib.Omega.{arith}
use agent_program.Prelude.Tests.{Bool-cases, ==_refl, ◌==◌, if◌then◌else◌}

module _ {ℓ} {A : Type ℓ} (key : A → ℕ) where
  -- `session.get(Row, k)`
  abbrev pub get_row : ℕ → List A → Option A
  get_row k [] = none
  get_row k (r ∷ rs) = if key r == k then some r else get_row k rs

  -- The table after the fields of the row with the key of `r` were assigned: every row keeps its
  -- place.
  abbrev pub put_row : A → List A → List A
  put_row r [] = []
  put_row r (x ∷ xs) = let rest = put_row r xs in if key x == key r then r ∷ rest else x ∷ rest

  pub key-get_row : (k : ℕ) (r : A) (rs : List A) → get_row k rs ≡ some r → key r ≡ k
  key-get_row k r [] e = ground arith
  key-get_row k r (x ∷ rs) e = ground (arith, key-get_row k r rs)

  ne_of_same :
      (k : ℕ) (r x : A) → (key x == key r) ≡ true → (key r == k) ≡ false → (key x == k) ≡ false
  ne_of_same k r x same other = ground arith

  -- A write leaves the rows of other keys.
  pub get_row-put_row_ne :
      (k : ℕ) (r : A) (rs : List A) → (key r == k) ≡ false → get_row k (put_row r rs) ≡ get_row k rs
  get_row-put_row_ne k r [] h = refl
  get_row-put_row_ne k r (x ∷ rs) h = elim (Bool-cases (key x == key r)) [
    | inl same ↦ rw (same, h, ne_of_same k r x same h) (get_row-put_row_ne k r rs h)
    | inr differs ↦ rw (differs, get_row-put_row_ne k r rs h)
  ]

  -- A read after a write of the same row.
  pub get_row-put_row_self :
      (r old : A) (rs : List A)
      → get_row (key r) rs ≡ some old
      → get_row (key r) (put_row r rs) ≡ some r
  get_row-put_row_self r old [] e = cc
  get_row-put_row_self r old (x ∷ rs) e = elim (Bool-cases (key x == key r)) [
    | inl same ↦ rw (same, ==_refl (key r))
    | inr differs ↦ rw (differs, differs) (get_row-put_row_self r old rs (rw differs at e))
  ]

-- The table after `f` was applied to every row that a `select … where test` returned.
abbrev pub update_where {ℓ} : {A : Type ℓ} → (A → Bool) → (A → A) → List A → List A
update_where test f [] = []
update_where test f (x ∷ xs) =
    let rest = update_where test f xs in if test x then f x ∷ rest else x ∷ rest

-- The rows of two tables, row by row.
abbrev pub Pairwise {ℓ} : {A : Type ℓ} → (A → A → Type 0) → List A → List A → Type 0
Pairwise P [] [] = Unit {0}
Pairwise P [] (y ∷ ys) = ⊥
Pairwise P (x ∷ xs) [] = ⊥
Pairwise P (x ∷ xs) (y ∷ ys) = P x y × Pairwise P xs ys

pub update_where-Pairwise {ℓ} :
    {A : Type ℓ} (P : A → A → Type 0) (test : A → Bool) (f : A → A)
    → ((x : A) → test x ≡ true → P x (f x))
    → ((x : A) → test x ≡ false → P x x)
    → (xs : List A) → Pairwise P xs (update_where test f xs)
update_where-Pairwise P test f hit miss [] = tt
update_where-Pairwise P test f hit miss (x ∷ xs) = elim (Bool-cases (test x)) [
  | inl h ↦ rw h (hit x h, update_where-Pairwise P test f hit miss xs)
  | inr h ↦ rw h (miss x h, update_where-Pairwise P test f hit miss xs)
]

abbrev pub pick {ℓ} : {A : Type ℓ} → (A → A → Bool) → Bool → A → Option A → Option A
pick before false r best = best
pick before true r none = some r
pick before true r (some b) = if before b r then some b else some r

module _ {ℓ} {A : Type ℓ} (before : A → A → Bool) where
  -- `select … where test order_by … limit 1`: the row that no other one is before.
  abbrev pub first_by : (A → Bool) → List A → Option A
  first_by test [] = none
  first_by test (r ∷ rs) = pick before (test r) r (first_by test rs)

  abbrev insert_by : A → List A → List A
  insert_by r [] = r ∷ []
  insert_by r (x ∷ xs) = let rest = insert_by r xs in if before x r then x ∷ rest else r ∷ x ∷ xs

  -- `order_by`
  abbrev pub sort_by : List A → List A
  sort_by [] = []
  sort_by (r ∷ rs) = insert_by r (sort_by rs)
