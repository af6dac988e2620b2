-- ===== src/Ipc/Framing/Lengths.antt =====
-- The length that a header announces: the comparison of its digits with those of the maximum.
use agent_program.Prelude.{
  ℕ, ◌+◌, ◌-◌, ◌*◌, ◌≤◌, ◌<◌, ◌≡◌, refl, sym, Bool, true, false, not, List, [], ◌∷◌, ◌==◌, arith,
  length, any, Bool-cases, inl, inr, ltb,
}
use agent_program.Errors.{ok, raise_if, or_raise, framing_error, >>=-eq-ok, >>-eq-ok}
use agent_program.Shared.Text.{Text, text_eq}
use agent_program.Contracts.Paths.{codes}
use agent_program.Ipc.Header.{
  max_body_bytes, maximum_length, is_digit, is_decimal, drop_zeros, normalized, is_after,
  number_from, is_too_long, parse_header, check_length, check_headers, is_incomplete, is_malformed,
  get_header, content_length, protocol_version, is_known, split_lines, read_headers,
}

abbrev pub IsDigits : Text → Type 0
IsDigits t = any (λ c. not (is_digit c)) t ≡ false

pub IsDigits-parts : (c : ℕ) (cs : Text) → IsDigits (c ∷ cs) → (48 ≤ c) × (c ≤ 57) × IsDigits cs
IsDigits-parts c cs h = elim (Bool-cases (is_digit c)) [
  | inl yes' ↦ (ground (arith, yes'), ground (arith, yes'), rw yes' at h)
  | inr no' ↦ cc (rw no' at h)
]

-- A smaller number stays smaller when as many digits follow both.
pub number_from-lt :
    (a b : Text) (n m : ℕ)
    → IsDigits a
    → length a ≡ length b
    → n < m
    → number_from n a < number_from m b
number_from-lt [] [] n m digits same less = less
number_from-lt [] (d ∷ b) n m digits same less = let bad : ⊥ = omega (arith, same) in absurd bad
number_from-lt (c ∷ a) [] n m digits same less = let bad : ⊥ = omega (arith, same) in absurd bad
number_from-lt (c ∷ a) (d ∷ b) n m digits same less =
    let (low, high, others) = IsDigits-parts c a digits in
    number_from-lt a b (n * 10 + (c - 48)) (m * 10 + (d - 48)) others (omega (arith, same))
      (omega (arith, low, high, less))

-- Of texts of digits of one length, one that is not behind the other is no larger a number.
number_from-is_after :
    (a b : Text) (n m : ℕ)
    → IsDigits a
    → length a ≡ length b
    → n ≤ m
    → is_after a b ≡ false
    → number_from n a ≤ number_from m b
number_from-is_after [] [] n m digits same less h = less
number_from-is_after [] (d ∷ b) n m digits same less h =
    let bad : ⊥ = omega (arith, same) in absurd bad
number_from-is_after (c ∷ a) [] n m digits same less h =
    let bad : ⊥ = omega (arith, same) in absurd bad
number_from-is_after (c ∷ a) (d ∷ b) n m digits same less h =
    let (low, high, others) = IsDigits-parts c a digits in
    elim (Bool-cases (ltb d c)) [
      | inl larger ↦ cc (rw larger at h)
      | inr no_larger ↦ elim (Bool-cases (c == d)) [
        | inl equal ↦
            number_from-is_after a b (n * 10 + (c - 48)) (m * 10 + (d - 48)) others
              (omega (arith, same)) (ground (arith, equal, less)) (rw (no_larger, equal) at h)
        | inr differs ↦
            let below : n * 10 + (c - 48) < m * 10 + (d - 48) =
              ground (arith, low, no_larger, differs, less) in
            let strict =
              number_from-lt a b (n * 10 + (c - 48)) (m * 10 + (d - 48)) others
                (omega (arith, same)) below in
            omega (arith, strict)
      ]
    ]

-- As many zeros.
abbrev zeros : Text → Text
zeros [] = []
zeros (c ∷ cs) = 48 ∷ zeros cs

length-zeros : (t : Text) → length (zeros t) ≡ length t
length-zeros [] = refl
length-zeros (c ∷ cs) = omega (arith, length-zeros cs)

number_from-zeros : (t : Text) → length t ≤ 6 → number_from 1 (zeros t) ≤ 1000000
number_from-zeros [] short = omega arith
number_from-zeros (a ∷ []) short = omega arith
number_from-zeros (a ∷ b ∷ []) short = omega arith
number_from-zeros (a ∷ b ∷ c ∷ []) short = omega arith
number_from-zeros (a ∷ b ∷ c ∷ d ∷ []) short = omega arith
number_from-zeros (a ∷ b ∷ c ∷ d ∷ e ∷ []) short = omega arith
number_from-zeros (a ∷ b ∷ c ∷ d ∷ e ∷ f ∷ []) short = omega arith
number_from-zeros (a ∷ b ∷ c ∷ d ∷ e ∷ f ∷ g ∷ t) short =
    let bad : ⊥ = omega (arith, short) in absurd bad

drop_zeros-IsDigits : (t : Text) → IsDigits t → IsDigits (drop_zeros t)
drop_zeros-IsDigits [] h = refl
drop_zeros-IsDigits (c ∷ cs) h = elim (Bool-cases (c == 48)) [
  | inl zero' ↦ rw zero' (drop_zeros-IsDigits cs (IsDigits-parts c cs h).2)
  | inr other ↦ rw other h
]

normalized-IsDigits : (t : Text) → IsDigits t → IsDigits (normalized t)
normalized-IsDigits t h = elim (Bool-cases (text_eq (drop_zeros t) [])) [
  | inl empty ↦ rw empty refl
  | inr more ↦ rw more (drop_zeros-IsDigits t h)
]

-- The comparison of the texts is that of the numbers.
pub is_too_long-number_from :
    (t : Text) → IsDigits t → is_too_long t ≡ false → number_from 0 t ≤ max_body_bytes
is_too_long-number_from t digits h = elim (Bool-cases (ltb 7 (length t))) [
  | inl longer ↦ cc (rw longer at h)
  | inr no_longer ↦ elim (Bool-cases (length t == 7)) [
    | inl same ↦
        let seven : length t ≡ length maximum_length = ground (arith, same) in
        let no_later : is_after t maximum_length ≡ false = rw (no_longer, same) at h in
        number_from-is_after t maximum_length 0 0 digits seven (omega arith) no_later
    | inr differs ↦
        let short : length t ≤ 6 = ground (arith, no_longer, differs) in
        let below = number_from-lt t (zeros t) 0 1 digits (sym (length-zeros t)) (omega arith) in
        omega (arith, below, number_from-zeros t short)
  ]
]

passed : (b : Bool) → raise_if b framing_error ≡ ok tt → b ≡ false
passed true e = cc e
passed false e = refl

is_decimal-IsDigits : (t : Text) → raise_if (not (is_decimal t)) framing_error ≡ ok tt → IsDigits t
is_decimal-IsDigits t e = elim (Bool-cases (any (λ c. not (is_digit c)) t)) [
  | inl bad ↦ elim (Bool-cases (text_eq t [])) [
    | inl empty ↦ cc (rw (bad, empty) at e)
    | inr more ↦ cc (rw (bad, more) at e)
  ]
  | inr good ↦ good
]

check_length_bound : (value : Text) (n : ℕ) → check_length value ≡ ok n → n ≤ max_body_bytes
check_length_bound value n h =
    let (decimal, h₁) = >>-eq-ok (raise_if (not (is_decimal value)) framing_error) _ h in
    let (fits, is_n) = >>-eq-ok (raise_if (is_too_long (normalized value)) framing_error) _ h₁ in
    let is_value : number_from 0 (normalized value) ≡ n = cc is_n in
    let bound =
      is_too_long-number_from (normalized value)
        (normalized-IsDigits value (is_decimal-IsDigits value decimal))
        (passed (is_too_long (normalized value)) fits) in
    omega (arith, is_value, bound)

check_headers_bound :
    (headers : List (Text × Text)) (n : ℕ) → check_headers headers ≡ ok n → n ≤ max_body_bytes
check_headers_bound headers n h =
    let (_, h₁) = >>-eq-ok (raise_if (is_incomplete headers) framing_error) _ h in
    let (_, h₂) = >>-eq-ok (raise_if (any (λ x. not (is_known x.0)) headers) framing_error) _ h₁ in
    let (version, _, h₃) =
      >>=-eq-ok (or_raise (get_header protocol_version headers) framing_error) _ h₂ in
    let (_, h₄) = >>-eq-ok (raise_if (not (text_eq version (codes "1"))) framing_error) _ h₃ in
    let (value, _, h₅) =
      >>=-eq-ok (or_raise (get_header content_length headers) framing_error) _ h₄ in
    check_length_bound value n h₅

-- A header that is accepted announces at most the maximum length of a body.
pub parse_header_bound : (header : Text) (n : ℕ) → parse_header header ≡ ok n → n ≤ max_body_bytes
unfolding parse_header
parse_header_bound header n h =
    let lines = split_lines false header in
    let (_, h₁) = >>-eq-ok (raise_if (any (λ c. ltb 127 c) header) framing_error) _ h in
    let (_, h₂) = >>-eq-ok (raise_if (is_malformed lines) framing_error) _ h₁ in
    let (headers, _, h₃) = >>=-eq-ok (read_headers lines []) _ h₂ in
    check_headers_bound headers n h₃
