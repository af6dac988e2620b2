-- ===== src/Ipc/Framing/Search.antt =====
-- The search for the end of a header, on a buffer that grows.
use agent_program.Prelude.{
  ℕ, ◌+◌, ◌-◌, ◌≤◌, ◌≡◌, inl, inr, refl, sym, ap, ◌∙◌, false, Option, none, some, [], ◌∷◌, ◌++◌,
  arith, length, drop, Bool-cases, zero, suc, min, leb, if◌then◌else◌,
}
use agent_program.Shared.Text.{Text}
use agent_program.Contracts.Paths.{starts_with}
use agent_program.Ipc.Framing.{
  terminator, find, find_from, plus, plus_one, longest_partial, partial_delimiter_length,
}
use agent_program.Ipc.Framing.Prefixes.{
  starts_with-extends, starts_with-shorter, starts_with-append, starts_with-long,
  starts_with-settled, starts_with-length, length-drop, drop-drop,
}

plus_one-some : (o : Option ℕ) (n : ℕ) → plus_one o ≡ some n → (m : ℕ) × (o ≡ some m) × (n ≡ suc m)
plus_one-some none n h = cc
plus_one-some (some m) n h = (m, refl, cc h)

plus_one-none : (o : Option ℕ) → plus_one o ≡ none → o ≡ none
plus_one-none none h = refl
plus_one-none (some m) h = cc

-- The least position at which a terminator begins, or may begin once more bytes have come.
unfoldable pub tail_start : Text → ℕ
tail_start [] = 0
tail_start (c ∷ cs) =
    let rest = tail_start cs in if starts_with (c ∷ cs) terminator then 0 else suc rest

find_parts :
    (c : ℕ) (cs : Text)
    → find (c ∷ cs) ≡ none
    → (starts_with terminator (c ∷ cs) ≡ false) × (find cs ≡ none)
unfolding find
find_parts c cs h = elim (Bool-cases (starts_with terminator (c ∷ cs))) [
  | inl here ↦ cc (rw here at h)
  | inr there ↦ (there, plus_one-none (find cs) (rw there at h))
]

-- A terminator that was found lies in the text, and stays the first one when more bytes come.
pub find-some :
    (x y : Text) (i : ℕ) → find x ≡ some i → (i + 4 ≤ length x) × (find (x ++ y) ≡ some i)
unfolding find
find-some [] y i h = cc
find-some (c ∷ cs) y i h = elim (Bool-cases (starts_with terminator (c ∷ cs))) [
  | inl here ↦
      let same : 0 ≡ i = cc (rw here at h) in
      (
        omega (arith, same, starts_with-length terminator (c ∷ cs) here),
        rw (starts_with-extends terminator (c ∷ cs) y here, find) (ap some same),
      )
  | inr there ↦
      let (m, found, next) = plus_one-some (find cs) i (rw there at h) in
      let (inside, again) = find-some cs y m found in
      let settled : starts_with terminator (c ∷ cs ++ y) ≡ false =
        starts_with-settled terminator (c ∷ cs) y (omega (arith, inside)) ∙ there in
      (omega (arith, inside, next), rw (settled, again, next, find))
]

plus-suc : (k : ℕ) (o : Option ℕ) → plus (suc k) o ≡ plus_one (plus k o)
plus-suc k none = refl
plus-suc k (some n) = ap some (omega arith)

pub plus-zero : (o : Option ℕ) → plus 0 o ≡ o
plus-zero none = refl
plus-zero (some n) = ap some (omega arith)

-- Behind a text without a terminator, a search may leave out all but its last three bytes.
pub find_from-find :
    (k : ℕ) (r y : Text) → find r ≡ none → k + 3 ≤ length r → find_from k (r ++ y) ≡ find (r ++ y)
unfolding find
find_from-find zero r y h long = plus-zero (find (r ++ y))
find_from-find (suc k) [] y h long = let bad : ⊥ = omega (arith, long) in absurd bad
find_from-find (suc k) (c ∷ cs) y h long =
    let (there, none_in) = find_parts c cs h in
    let settled : starts_with terminator (c ∷ cs ++ y) ≡ false =
      starts_with-settled terminator (c ∷ cs) y (omega (arith, long)) ∙ there in
    plus-suc k (find (drop k (cs ++ y)))
    ∙ ap plus_one (find_from-find k cs y none_in (omega (arith, long)))
    ∙ sym (rw (settled, find))

-- A terminator that begins in the text and ends behind it begins at the tail at the earliest.
pub tail_start-find :
    (x y : Text) (i : ℕ) → find x ≡ none → find (x ++ y) ≡ some i → tail_start x ≤ i
unfolding find tail_start
tail_start-find [] y i h found = omega arith
tail_start-find (c ∷ cs) y i h found =
    let (there, none_in) = find_parts c cs h in
    elim (Bool-cases (starts_with (c ∷ cs) terminator)) [
      | inl tail ↦ rw (tail, tail_start) (omega arith)
      | inr no_tail ↦ elim (Bool-cases (starts_with terminator (c ∷ cs ++ y))) [
        | inl here ↦ elim (starts_with-append terminator (c ∷ cs) y here) [
          | inl now ↦ cc (now, there)
          | inr part ↦ cc (part, no_tail)
        ]
        | inr later ↦
            let (m, found_m, next) = plus_one-some (find (cs ++ y)) i (rw (later, find) at found) in
            rw (no_tail, tail_start) (omega (arith, next, tail_start-find cs y m none_in found_m))
      ]
    ]

pub tail_start-append : (x y : Text) → tail_start x ≤ tail_start (x ++ y)
unfolding tail_start
tail_start-append [] y = omega arith
tail_start-append (c ∷ cs) y = elim (Bool-cases (starts_with (c ∷ cs) terminator)) [
  | inl tail ↦ rw (tail, tail_start) (omega arith)
  | inr no_tail ↦ elim (Bool-cases (starts_with (c ∷ cs ++ y) terminator)) [
    | inl longer ↦ cc (starts_with-shorter terminator (c ∷ cs) y longer, no_tail)
    | inr neither ↦ rw (no_tail, neither, tail_start) (omega (arith, tail_start-append cs y))
  ]
]

pub tail_start_le : (x : Text) → tail_start x ≤ length x
unfolding tail_start
tail_start_le [] = omega arith
tail_start_le (c ∷ cs) = elim (Bool-cases (starts_with (c ∷ cs) terminator)) [
  | inl tail ↦ rw (tail, tail_start) (omega arith)
  | inr no_tail ↦ rw (no_tail, tail_start) (omega (arith, tail_start_le cs))
]

-- The longest suffix of at most `k` bytes is settled by the last `k` bytes.
pub longest_partial-drop :
    (k c : ℕ) (b : Text)
    → c ≤ length b
    → k ≤ length (drop c b)
    → longest_partial k (drop c b) ≡ longest_partial k b
unfolding longest_partial
longest_partial-drop zero c b inside short = refl
longest_partial-drop (suc k) c b inside short =
    let size = length-drop c b inside in
    let from : c + (length (drop c b) - suc k) ≡ length b - suc k = omega (arith, size, short) in
    let same : drop (length (drop c b) - suc k) (drop c b) ≡ drop (length b - suc k) b =
      drop-drop c (length (drop c b) - suc k) b ∙ ap (λ n. drop n b) from in
    rw (same, longest_partial-drop k c b inside (omega (arith, short)))

pub longest_partial_le : (k : ℕ) (t : Text) → longest_partial k t ≤ k
unfolding longest_partial
longest_partial_le zero t = omega arith
longest_partial_le (suc k) t =
    elim (Bool-cases (starts_with (drop (length t - suc k) t) terminator)) [
      | inl hit ↦ rw (hit, longest_partial) (omega arith)
      | inr miss ↦ rw (miss, longest_partial) (omega (arith, longest_partial_le k t))
    ]

find-drop : (j : ℕ) (r : Text) → find r ≡ none → starts_with terminator (drop j r) ≡ false
unfolding find
find-drop zero [] h = refl
find-drop (suc j) [] h = refl
find-drop zero (c ∷ cs) h = (find_parts c cs h).0
find-drop (suc j) (c ∷ cs) h = find-drop j cs (find_parts c cs h).1

longest_partial-length : (r : Text) → longest_partial (length r) r + tail_start r ≡ length r
unfolding longest_partial tail_start
longest_partial-length [] = omega arith
longest_partial-length (c ∷ cs) =
    let first : suc (length cs) - suc (length cs) ≡ 0 = omega arith in
    elim (Bool-cases (starts_with (c ∷ cs) terminator)) [
      | inl tail ↦ rw (first, tail, longest_partial, tail_start) (omega arith)
      | inr no_tail ↦
          let below : longest_partial (length cs) cs ≡ longest_partial (length cs) (c ∷ cs) =
            longest_partial-drop (length cs) 1 (c ∷ cs) (omega arith) (omega arith) in
          rw (first, no_tail, longest_partial, tail_start)
            (omega (arith, below, longest_partial-length cs))
    ]

-- In a text without a terminator no suffix of more than three bytes is the beginning of one.
longest_partial-min :
    (n : ℕ) (r : Text)
    → find r ≡ none
    → n ≤ length r
    → longest_partial n r ≡ longest_partial (min 3 n) r
unfolding longest_partial
longest_partial-min zero r h inside = refl
longest_partial-min (suc n) r h inside = elim (Bool-cases (leb (suc n) 3)) [
  | inl small ↦
      let same : min 3 (suc n) ≡ suc n = ground (arith, small) in
      sym (ap (λ k. longest_partial k r) same)
  | inr large ↦
      let more : 3 ≤ n = ground (arith, large) in
      let same : min 3 n ≡ min 3 (suc n) = omega (arith, more) in
      let size = length-drop (length r - suc n) r (omega arith) in
      rw (no_partial more size, longest_partial)
        (longest_partial-min n r h (omega (arith, inside)) ∙ ap (λ k. longest_partial k r) same)
]
  where
    no_partial :
        3 ≤ n
        → (length r - suc n) + length (drop (length r - suc n) r) ≡ length r
        → starts_with (drop (length r - suc n) r) terminator ≡ false
    no_partial more size = elim (Bool-cases (starts_with (drop (length r - suc n) r) terminator)) [
      | inr miss ↦ miss
      | inl hit ↦
          let full =
            starts_with-long terminator (drop (length r - suc n) r) hit
              (omega (arith, more, size, inside)) in
          cc (full, find-drop (length r - suc n) r h)
    ]

-- The length that `feed` checks of an unfinished header is that of the bytes before the tail.
pub partial_delimiter_length-tail_start :
    (r : Text) → find r ≡ none → length r - partial_delimiter_length r ≡ tail_start r
partial_delimiter_length-tail_start r h =
    omega (arith, longest_partial-length r, longest_partial-min (length r) r h (omega arith))
