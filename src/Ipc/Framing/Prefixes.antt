-- ===== src/Ipc/Framing/Prefixes.antt =====
-- Prefixes, as the search for the end of a header compares them.
use agent_program.Prelude.{
  ℕ, ◌+◌, ◌≤◌, ◌≡◌, ◌⊎◌, inl, inr, refl, sym, ap, ◌∙◌, Bool, true, false, ◌&&◌, List, [], ◌∷◌, ◌++◌,
  ◌==◌, arith, length, take, drop, Bool-cases, zero, suc,
}
use agent_program.Shared.Text.{Text}
use agent_program.Contracts.Paths.{starts_with}

both : (a b : Bool) → (a && b) ≡ true → (a ≡ true) × (b ≡ true)
both true true h = (refl, refl)
both true false h = cc
both false b h = cc

same_byte : (c d : ℕ) → (c == d) ≡ true → (d == c) ≡ true
same_byte c d h = ground (arith, h)

pub starts_with-extends : (p x y : Text) → starts_with p x ≡ true → starts_with p (x ++ y) ≡ true
starts_with-extends [] x y h = refl
starts_with-extends (c ∷ p) [] y h = cc
starts_with-extends (c ∷ p) (d ∷ x) y h =
    let (head, tail) = both (c == d) (starts_with p x) h in
    rw (head, starts_with-extends p x y tail)

pub starts_with-shorter : (p x y : Text) → starts_with (x ++ y) p ≡ true → starts_with x p ≡ true
starts_with-shorter p [] y h = refl
starts_with-shorter [] (d ∷ x) y h = cc
starts_with-shorter (c ∷ p) (d ∷ x) y h =
    let (head, tail) = both (d == c) (starts_with (x ++ y) p) h in
    rw (head, starts_with-shorter p x y tail)

pub starts_with-append :
    (p x y : Text)
    → starts_with p (x ++ y) ≡ true
    → (starts_with p x ≡ true) ⊎ (starts_with x p ≡ true)
starts_with-append [] x y h = inl refl
starts_with-append (c ∷ p) [] y h = inr refl
starts_with-append (c ∷ p) (d ∷ x) y h =
    let (head, tail) = both (c == d) (starts_with p (x ++ y)) h in
    elim (starts_with-append p x y tail) [
      | inl a ↦ inl (rw (head, a))
      | inr b ↦ inr (rw (same_byte c d head, b))
    ]

pub starts_with-long :
    (p x : Text) → starts_with x p ≡ true → length p ≤ length x → starts_with p x ≡ true
starts_with-long [] x h long = refl
starts_with-long (c ∷ p) [] h long = let bad : ⊥ = omega (arith, long) in absurd bad
starts_with-long (c ∷ p) (d ∷ x) h long =
    let (head, tail) = both (d == c) (starts_with x p) h in
    rw (same_byte d c head, starts_with-long p x tail (omega (arith, long)))

-- Whether a text begins with `p` is settled by as many bytes as `p` has.
pub starts_with-settled :
    (p x y : Text) → length p ≤ length x → starts_with p (x ++ y) ≡ starts_with p x
starts_with-settled p x y long = elim (Bool-cases (starts_with p x)) [
  | inl yes' ↦ rw yes' (starts_with-extends p x y yes')
  | inr no' ↦ elim (Bool-cases (starts_with p (x ++ y))) [
    | inr neither ↦ neither ∙ sym no'
    | inl later ↦ elim (starts_with-append p x y later) [
      | inl now ↦ cc (now, no')
      | inr shorter ↦ cc (starts_with-long p x shorter long, no')
    ]
  ]
]

pub starts_with-length : (p x : Text) → starts_with p x ≡ true → length p ≤ length x
starts_with-length [] x h = omega arith
starts_with-length (c ∷ p) [] h = cc
starts_with-length (c ∷ p) (d ∷ x) h =
    let (_, tail) = both (c == d) (starts_with p x) h in omega (arith, starts_with-length p x tail)

module _ {ℓ} {A : Type ℓ} where
  pub take-append : (n : ℕ) (xs ys : List A) → n ≤ length xs → take n (xs ++ ys) ≡ take n xs
  take-append zero xs ys h = refl
  take-append (suc n) [] ys h = let bad : ⊥ = omega (arith, h) in absurd bad
  take-append (suc n) (x ∷ xs) ys h = ap (λ zs. x ∷ zs) (take-append n xs ys (omega (arith, h)))

  pub drop-append : (n : ℕ) (xs ys : List A) → n ≤ length xs → drop n (xs ++ ys) ≡ drop n xs ++ ys
  drop-append zero xs ys h = refl
  drop-append (suc n) [] ys h = let bad : ⊥ = omega (arith, h) in absurd bad
  drop-append (suc n) (x ∷ xs) ys h = drop-append n xs ys (omega (arith, h))

  pub length-drop : (n : ℕ) (xs : List A) → n ≤ length xs → n + length (drop n xs) ≡ length xs
  length-drop zero xs h = omega arith
  length-drop (suc n) [] h = let bad : ⊥ = omega (arith, h) in absurd bad
  length-drop (suc n) (x ∷ xs) h = omega (arith, length-drop n xs (omega (arith, h)))

  pub drop-drop : (n m : ℕ) (xs : List A) → drop m (drop n xs) ≡ drop (n + m) xs
  drop-drop zero m xs = let same : zero + m ≡ m = omega arith in rw same
  drop-drop (suc n) m [] = let same : suc n + m ≡ suc (n + m) = omega arith in rw same (drop-none m)
    where
      drop-none : (k : ℕ) → drop {A = A} k [] ≡ []
      drop-none zero = refl
      drop-none (suc k) = refl
  drop-drop (suc n) m (x ∷ xs) =
      let same : suc n + m ≡ suc (n + m) = omega arith in rw same (drop-drop n m xs)
