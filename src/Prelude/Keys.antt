-- ===== src/Prelude/Keys.antt =====
-- Tables whose primary keys are distinct.
use Prim.Native.Nat.{ℕ, ◌+◌, ◌≤◌}
use mathlib.Core.Path.{◌≡◌, refl}
use mathlib.Core.Bool.{Bool, true, false}
use mathlib.Core.Logic.{inl, inr}
use mathlib.Core.Option.{none, some}
use mathlib.Core.List.{List, [], ◌∷◌, ◌++◌}
use native.Mathlib.Omega.{arith}
use agent_program.Prelude.Tests.{Bool-cases, ==_refl, ◌==◌, if◌then◌else◌}
use agent_program.Prelude.Lists.{length, sum_of, count, any, All, All-imp}
use agent_program.Prelude.Tables.{get_row, put_row, get_row-put_row_ne, update_where}

abbrev pub bit : Bool → ℕ
bit b = if b then 1 else 0

eqb_sym : (a b : ℕ) → (a == b) ≡ false → (b == a) ≡ false
eqb_sym a b h = ground arith

module _ {A : Type 0} (key : A → ℕ) where
  abbrev pub KeysDistinct : List A → Type 0
  KeysDistinct [] = Unit {0}
  KeysDistinct (r ∷ rs) = (get_row key (key r) rs ≡ none) × KeysDistinct rs

  -- A write of a key that no row has changes nothing.
  pub put_row_absent : (r : A) (rs : List A) → get_row key (key r) rs ≡ none → put_row key r rs ≡ rs
  put_row_absent r [] e = refl
  put_row_absent r (x ∷ rs) e = elim (Bool-cases (key x == key r)) [
    | inl same ↦ cc (rw same at e)
    | inr differs ↦ rw (differs, put_row_absent r rs (rw differs at e))
  ]

  get_none_of_same :
      (k l : ℕ) (rs : List A) → (k == l) ≡ true → get_row key k rs ≡ none → get_row key l rs ≡ none
  get_none_of_same k l rs same e = ground arith

  pub put_row-head :
      (r x : A) (rs : List A)
      → (key x == key r) ≡ true
      → get_row key (key x) rs ≡ none
      → put_row key r (x ∷ rs) ≡ r ∷ rs
  put_row-head r x rs same e =
      rw (same, put_row_absent r rs (get_none_of_same (key x) (key r) rs same e))

  -- A write exchanges the one row that it finds.
  pub count-put_row :
      (test : A → Bool) (r old : A) (rs : List A)
      → KeysDistinct rs
      → get_row key (key r) rs ≡ some old
      → count test (put_row key r rs) + bit (test old) ≡ count test rs + bit (test r)
  count-put_row test r old [] d e = cc
  count-put_row test r old (x ∷ rs) d e = elim (Bool-cases (key x == key r)) [
    | inl same ↦
        let same_row : some x ≡ some old = rw same at e in
        rw (put_row-head r x rs same d.0) (let e' : x ≡ old = cc same_row in rw e' (omega arith))
    | inr differs ↦ rw differs (omega (arith, count-put_row test r old rs d.1 (rw differs at e)))
  ]

  pub sum_of-put_row :
      (weight : A → ℕ) (r old : A) (rs : List A)
      → KeysDistinct rs
      → get_row key (key r) rs ≡ some old
      → sum_of weight (put_row key r rs) + weight old ≡ sum_of weight rs + weight r
  sum_of-put_row weight r old [] d e = cc
  sum_of-put_row weight r old (x ∷ rs) d e = elim (Bool-cases (key x == key r)) [
    | inl same ↦
        let same_row : some x ≡ some old = rw same at e in
        rw (put_row-head r x rs same d.0) (let e' : x ≡ old = cc same_row in rw e' (omega arith))
    | inr differs ↦ rw differs (omega (arith, sum_of-put_row weight r old rs d.1 (rw differs at e)))
  ]

  pub length-put_row : (r : A) (rs : List A) → length (put_row key r rs) ≡ length rs
  length-put_row r [] = refl
  length-put_row r (x ∷ rs) = elim (Bool-cases (key x == key r)) [
    | inl same ↦ rw same (omega (arith, length-put_row r rs))
    | inr differs ↦ rw differs (omega (arith, length-put_row r rs))
  ]

  get_row-put_row_absent :
      (k : ℕ) (r : A) (rs : List A)
      → get_row key k rs ≡ none
      → (k == key r) ≡ false
      → get_row key k (put_row key r rs) ≡ none
  get_row-put_row_absent k r rs e differs =
      rw (get_row-put_row_ne key k r rs (eqb_sym k (key r) differs)) e

  pub put_row-KeysDistinct :
      (r : A) (rs : List A) → KeysDistinct rs → KeysDistinct (put_row key r rs)
  put_row-KeysDistinct r [] d = tt
  put_row-KeysDistinct r (x ∷ rs) d = elim (Bool-cases (key x == key r)) [
    | inl same ↦
        rw (put_row-head r x rs same d.0) (get_none_of_same (key x) (key r) rs same d.0, d.1)
    | inr differs ↦
        rw differs (get_row-put_row_absent (key x) r rs d.0 differs, put_row-KeysDistinct r rs d.1)
  ]

  -- What holds of every row holds of the row that a read returns.
  pub All-get_row {κ} :
      (P : A → Type κ) (k : ℕ) (r : A) (rs : List A) → All P rs → get_row key k rs ≡ some r → P r
  All-get_row P k r [] h e = cc
  All-get_row P k r (x ∷ rs) h e = elim (Bool-cases (key x == k)) [
    | inl same ↦
        let same_row : some x ≡ some r = rw same at e in
        let e' : x ≡ r = cc same_row in rw e' at h.0
    | inr differs ↦ All-get_row P k r rs h.1 (rw differs at e)
  ]

  pub All-put_row {κ} :
      (P : A → Type κ) (r : A) (rs : List A) → All P rs → P r → All P (put_row key r rs)
  All-put_row P r [] h p = tt
  All-put_row P r (x ∷ rs) h p = elim (Bool-cases (key x == key r)) [
    | inl same ↦ rw same (p, All-put_row P r rs h.1 p)
    | inr differs ↦ rw differs (h.0, All-put_row P r rs h.1 p)
  ]

  -- A row whose key is new.
  pub get_row-append_new :
      (k : ℕ) (r : A) (rs : List A)
      → (key r == k) ≡ false
      → get_row key k (rs ++ r ∷ []) ≡ get_row key k rs
  get_row-append_new k r [] h = rw h
  get_row-append_new k r (x ∷ rs) h = elim (Bool-cases (key x == k)) [
    | inl same ↦ rw same
    | inr differs ↦ rw (differs, get_row-append_new k r rs h)
  ]

  pub append-KeysDistinct :
      (r : A) (rs : List A)
      → KeysDistinct rs
      → get_row key (key r) rs ≡ none
      → KeysDistinct (rs ++ r ∷ [])
  append-KeysDistinct r [] d e = (refl, tt)
  append-KeysDistinct r (x ∷ rs) d e = elim (Bool-cases (key x == key r)) [
    | inl same ↦ cc (rw same at e)
    | inr differs ↦ (
      rw (get_row-append_new (key x) r rs (eqb_sym (key x) (key r) differs)) d.0,
      append-KeysDistinct r rs d.1 (rw differs at e),
    )
  ]

module _ {A : Type 0} where
  pub count_none : (test : A → Bool) (rs : List A) → any test rs ≡ false → count test rs ≡ 0
  count_none test [] h = refl
  count_none test (x ∷ rs) h = elim (Bool-cases (test x)) [
    | inl hit ↦ cc (rw hit at h)
    | inr miss ↦ rw miss (omega (arith, count_none test rs (rw miss at h)))
  ]

  -- An update that makes no row pass the test.
  pub count-update_where_le :
      (test hit : A → Bool) (f : A → A) (rs : List A)
      → ((x : A) → test (f x) ≡ false)
      → count test (update_where hit f rs) ≤ count test rs
  count-update_where_le test hit f [] h = omega arith
  count-update_where_le test hit f (x ∷ rs) h = elim (Bool-cases (hit x)) [
    | inl yes' ↦ rw (yes', h x) (omega (arith, count-update_where_le test hit f rs h))
    | inr no' ↦ rw no' (omega (arith, count-update_where_le test hit f rs h))
  ]

module _ {A : Type 0} (key : A → ℕ) where
  get_row-cons :
      (x y : A) (rs : List A)
      → get_row key (key x) rs ≡ none
      → get_row key (key y) rs ≡ some y
      → get_row key (key y) (x ∷ rs) ≡ some y
  get_row-cons x y rs absent found = elim (Bool-cases (key x == key y)) [
    | inl same ↦ cc (get_none_of_same key (key x) (key y) rs same absent, found)
    | inr differs ↦ rw (differs, found)
  ]

  -- With distinct keys every row is the one that its key reads.
  pub All-get_row_self :
      (rs : List A) → KeysDistinct key rs → All (λ x. get_row key (key x) rs ≡ some x) rs
  All-get_row_self [] d = tt
  All-get_row_self (x ∷ rs) d = (
    rw (==_refl (key x)),
    All-imp (λ y. get_row key (key y) rs ≡ some y) (λ y. get_row key (key y) (x ∷ rs) ≡ some y)
        (λ y found. get_row-cons x y rs d.0 found) rs (All-get_row_self rs d.1),
  )
