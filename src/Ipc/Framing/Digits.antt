-- ===== src/Ipc/Framing/Digits.antt =====
-- The decimal digits that `encode_frame` writes, as the header's parser reads them.
use agent_program.Prelude.{
  ℕ, ◌+◌, ◌-◌, ◌*◌, ◌/◌, ◌%◌, ◌≤◌, ◌<◌, ◌≡◌, refl, ap, ◌∙◌, true, false, [], ◌∷◌, ◌++◌, ◌==◌, arith,
  length, Bool-cases, inl, inr, ltb, leb, zero, suc,
}
use agent_program.Errors.{ok}
use agent_program.Shared.Text.{Text, text_eq}
use agent_program.Ipc.Framing.{digits}
use agent_program.Ipc.Header.{
  max_body_bytes, maximum_length, is_digit, normalized, is_after, number_from, is_too_long,
  check_length,
}
use agent_program.Ipc.Framing.Lengths.{IsDigits, IsDigits-parts, number_from-lt}

number_from-append :
    (a : Text) (c n : ℕ) → number_from n (a ++ c ∷ []) ≡ number_from n a * 10 + (c - 48)
number_from-append [] c n = refl
number_from-append (d ∷ a) c n = number_from-append a c (n * 10 + (d - 48))

append-IsDigits : (a : Text) (c : ℕ) → IsDigits a → is_digit c ≡ true → IsDigits (a ++ c ∷ [])
append-IsDigits [] c h digit = rw digit
append-IsDigits (d ∷ a) c h digit = elim (Bool-cases (is_digit d)) [
  | inl yes' ↦ rw yes' (append-IsDigits a c (rw yes' at h) digit)
  | inr no' ↦ cc (rw no' at h)
]

digit : (n : ℕ) → n ≤ 9 → is_digit (48 + n) ≡ true
digit n h = ground arith

-- The first digit is no zero.
abbrev IsCanonical : Text → Type 0
IsCanonical [] = ⊥
IsCanonical (c ∷ cs) = (c == 48) ≡ false

append-IsCanonical : (a : Text) (c : ℕ) → IsCanonical a → IsCanonical (a ++ c ∷ [])
append-IsCanonical [] c h = absurd h
append-IsCanonical (d ∷ a) c h = h

pub digits-IsDigits : (fuel n : ℕ) → n ≤ fuel → IsDigits (digits fuel n)
unfolding digits
digits-IsDigits zero n h = let small : n % 10 ≤ 9 = omega arith in rw (digit (n % 10) small)
digits-IsDigits (suc fuel) n h = elim (Bool-cases (ltb n 10)) [
  | inl small ↦ let le : n ≤ 9 = ground (arith, small) in rw (small, digits, digit n le)
  | inr large ↦
      let more : 10 ≤ n = ground (arith, large) in
      rw (large, digits)
        (append-IsDigits (digits fuel (n / 10)) (48 + n % 10)
          (digits-IsDigits fuel (n / 10) (omega (arith, h, more))) (digit (n % 10) (omega arith)))
]

pub number_from-digits : (fuel n : ℕ) → n ≤ fuel → number_from 0 (digits fuel n) ≡ n
unfolding digits
number_from-digits zero n h = omega (arith, h)
number_from-digits (suc fuel) n h = elim (Bool-cases (ltb n 10)) [
  | inl small ↦ rw (small, digits) (omega arith)
  | inr large ↦
      let more : 10 ≤ n = ground (arith, large) in
      rw (large, digits)
        (number_from-append (digits fuel (n / 10)) (48 + n % 10) 0
          ∙ omega (arith, number_from-digits fuel (n / 10) (omega (arith, h, more))))
]

digits-IsCanonical : (fuel n : ℕ) → n ≤ fuel → 1 ≤ n → IsCanonical (digits fuel n)
unfolding digits
digits-IsCanonical zero n h positive = let bad : ⊥ = omega (arith, h, positive) in absurd bad
digits-IsCanonical (suc fuel) n h positive = elim (Bool-cases (ltb n 10)) [
  | inl small ↦ rw (small, digits) (ground (arith, positive))
  | inr large ↦
      let more : 10 ≤ n = ground (arith, large) in
      rw (large, digits)
        (append-IsCanonical (digits fuel (n / 10)) (48 + n % 10)
          (digits-IsCanonical fuel (n / 10) (omega (arith, h, more)) (omega (arith, more))))
]

number_from_ge : (t : Text) (n : ℕ) → n ≤ number_from n t
number_from_ge [] n = omega arith
number_from_ge (c ∷ t) n = omega (arith, number_from_ge t (n * 10 + (c - 48)))

-- A text behind another one of the same length is the larger number.
is_after-number_from :
    (a b : Text) (n m : ℕ)
    → IsDigits b
    → length a ≡ length b
    → m ≤ n
    → is_after a b ≡ true
    → IsDigits a
    → number_from m b < number_from n a
is_after-number_from [] b n m digits_b same le h digits_a = cc
is_after-number_from (c ∷ a) [] n m digits_b same le h digits_a =
    let bad : ⊥ = omega (arith, same) in absurd bad
is_after-number_from (c ∷ a) (d ∷ b) n m digits_b same le h digits_a =
    let (low, high, others_b) = IsDigits-parts d b digits_b in
    let (low_a, high_a, others_a) = IsDigits-parts c a digits_a in
    elim (Bool-cases (ltb d c)) [
      | inl larger ↦
          number_from-lt b a (m * 10 + (d - 48)) (n * 10 + (c - 48)) others_b (omega (arith, same))
            (ground (arith, larger, low, le))
      | inr no_larger ↦ elim (Bool-cases (c == d)) [
        | inl equal ↦
            is_after-number_from a b (n * 10 + (c - 48)) (m * 10 + (d - 48)) others_b
              (omega (arith, same)) (ground (arith, equal, le)) (rw (no_larger, equal) at h)
              others_a
        | inr differs ↦ cc (rw (no_larger, differs) at h)
      ]
    ]

long_is_large : (t : Text) → IsCanonical t → IsDigits t → 8 ≤ length t → 10000000 ≤ number_from 0 t
long_is_large [] canonical is_digits long = let bad : ⊥ = omega (arith, long) in absurd bad
long_is_large (c ∷ []) canonical is_digits long = let bad : ⊥ = omega (arith, long) in absurd bad
long_is_large (c ∷ a ∷ []) canonical is_digits long =
    let bad : ⊥ = omega (arith, long) in absurd bad
long_is_large (c ∷ a ∷ b ∷ []) canonical is_digits long =
    let bad : ⊥ = omega (arith, long) in absurd bad
long_is_large (c ∷ a ∷ b ∷ d ∷ []) canonical is_digits long =
    let bad : ⊥ = omega (arith, long) in absurd bad
long_is_large (c ∷ a ∷ b ∷ d ∷ e ∷ []) canonical is_digits long =
    let bad : ⊥ = omega (arith, long) in absurd bad
long_is_large (c ∷ a ∷ b ∷ d ∷ e ∷ f ∷ []) canonical is_digits long =
    let bad : ⊥ = omega (arith, long) in absurd bad
long_is_large (c ∷ a ∷ b ∷ d ∷ e ∷ f ∷ g ∷ []) canonical is_digits long =
    let bad : ⊥ = omega (arith, long) in absurd bad
long_is_large (c ∷ a ∷ b ∷ d ∷ e ∷ f ∷ g ∷ h ∷ t) canonical is_digits long =
    let (low, _, _) = IsDigits-parts c (a ∷ b ∷ d ∷ e ∷ f ∷ g ∷ h ∷ t) is_digits in
    let first : 1 ≤ c - 48 = ground (arith, low, canonical) in
    omega (arith, first, number_from_ge t _)

-- Digits of a number up to the maximum pass the check of the length.
short_enough :
    (t : Text)
    → IsCanonical t
    → IsDigits t
    → number_from 0 t ≤ max_body_bytes
    → is_too_long t ≡ false
short_enough t canonical is_digits small = elim (Bool-cases (ltb 7 (length t))) [
  | inl longer ↦
      let many : 8 ≤ length t = ground (arith, longer) in
      let bad : ⊥ = omega (arith, small, long_is_large t canonical is_digits many) in absurd bad
  | inr no_longer ↦ elim (Bool-cases (length t == 7)) [
    | inl same ↦ elim (Bool-cases (is_after t maximum_length)) [
      | inl later ↦
          let seven : length t ≡ length maximum_length = ground (arith, same) in
          let above =
            is_after-number_from t maximum_length 0 0 refl seven (omega arith) later is_digits in
          let bad : ⊥ = omega (arith, above, small) in absurd bad
      | inr no_later ↦ rw (no_longer, same, no_later)
    ]
    | inr differs ↦ rw (no_longer, differs)
  ]
]

canonical_stays : (t : Text) → IsCanonical t → normalized t ≡ t
canonical_stays [] h = absurd h
canonical_stays (c ∷ cs) h = rw h

pub is_nonempty : (t : Text) → IsCanonical t → text_eq t [] ≡ false
is_nonempty [] h = absurd h
is_nonempty (c ∷ cs) h = refl

-- The written length of a body is read as that length.
pub check_length-digits : (n : ℕ) → n ≤ max_body_bytes → check_length (digits n n) ≡ ok n
unfolding digits
check_length-digits zero small = refl
check_length-digits (suc n) small =
    let t = digits (suc n) (suc n) in
    let is_digits = digits-IsDigits (suc n) (suc n) (omega arith) in
    let canonical = digits-IsCanonical (suc n) (suc n) (omega arith) (omega arith) in
    let value = number_from-digits (suc n) (suc n) (omega arith) in
    let fits = short_enough t canonical is_digits (omega (arith, value, small)) in
    checks t (suc n) canonical is_digits value fits
  where
    checks :
        (t : Text) (n : ℕ)
        → IsCanonical t
        → IsDigits t
        → number_from 0 t ≡ n
        → is_too_long t ≡ false
        → check_length t ≡ ok n
    checks t n canonical is_digits value fits =
        rw (is_nonempty t canonical, is_digits, canonical_stays t canonical, fits) (ap ok value)

pub digits-nonempty : (n : ℕ) → text_eq (digits n n) [] ≡ false
unfolding digits
digits-nonempty zero = refl
digits-nonempty (suc n) =
    is_nonempty (digits (suc n) (suc n))
      (digits-IsCanonical (suc n) (suc n) (omega arith) (omega arith))

-- The written length of a body has at most seven digits.
pub length-digits : (n : ℕ) → n ≤ max_body_bytes → length (digits n n) ≤ 7
unfolding digits
length-digits zero small = omega arith
length-digits (suc n) small = elim (Bool-cases (leb 8 (length (digits (suc n) (suc n))))) [
  | inr short ↦ ground (arith, short)
  | inl long ↦
      let many : 8 ≤ length (digits (suc n) (suc n)) = ground (arith, long) in
      let large =
        long_is_large (digits (suc n) (suc n))
          (digits-IsCanonical (suc n) (suc n) (omega arith) (omega arith))
          (digits-IsDigits (suc n) (suc n) (omega arith)) many in
      let bad : ⊥ = omega (arith, large, small, number_from-digits (suc n) (suc n) (omega arith)) in
      absurd bad
]
