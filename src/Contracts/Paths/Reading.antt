-- ===== src/Contracts/Paths/Reading.antt =====
-- How an operating system reads a relative path below a folder, as far as separators, `.` and `..`,
-- drives, streams and NUL go. What Windows does with devices and with dots or spaces at the end of a
-- name is left out.
use agent_program.Prelude.{
  ℕ, ◌≡◌, refl, Bool, true, false, ◌||◌, Option, none, some, List, [], ◌∷◌, ◌++◌, ◌==◌, arith, any,
  append_assoc, append-nil, Bool-cases, Option-cases, inl, inr, if◌then◌else◌, All, All-append,
}
use agent_program.Shared.Text.{Text, text_eq}
use agent_program.Contracts.Paths.{codes, grow, reserved_parts, one_of}

pub data System : Type 0 where
  windows posix : System

-- Windows takes a slash and a backslash.
abbrev pub is_separator : System → ℕ → Bool
is_separator windows c = c == b'/' || c == 92
is_separator posix c = c == b'/'

-- A colon in a Windows path ends the name of a drive or of a file with streams, and no path holds
-- a NUL.
abbrev pub is_special : System → ℕ → Bool
is_special windows c = c == b':' || c == 0
is_special posix c = c == 0

abbrev pub cut : (ℕ → Bool) → Text → List Text
cut test [] = [] ∷ []
cut test (c ∷ cs) = let rest = cut test cs in if test c then [] ∷ rest else grow c rest

-- A path that begins with a separator is not below the folder.
abbrev pub is_rooted : System → Text → Bool
is_rooted system [] = false
is_rooted system (c ∷ cs) = is_separator system c

abbrev parent_of : List Text → Option (List Text)
parent_of [] = none
parent_of (p ∷ []) = some []
parent_of (p ∷ q ∷ ps) = elim (parent_of (q ∷ ps)) [ none ↦ none | some qs ↦ some (p ∷ qs) ]

abbrev enter : List Text → Text → Option (List Text)
enter at p =
    if text_eq p [] || text_eq p (codes ".")
    then some at
    else if text_eq p (codes "..")
    then parent_of at
    else some (at ++ p ∷ [])

-- The names below the folder, from the place `at`: an empty part and `.` stay, `..` goes up, and
-- there is no answer for a path that leaves the folder.
abbrev pub walk : Option (List Text) → List Text → Option (List Text)
walk at [] = at
walk none (p ∷ ps) = none
walk (some at) (p ∷ ps) = walk (enter at p) ps

-- The names of the file that a path below the folder names.
abbrev pub read_path : System → Text → Option (List Text)
read_path system path =
    if any (is_special system) path || is_rooted system path
    then none
    else walk (some []) (cut (is_separator system) path)

-- A name of a file: neither empty, `.` nor `..`, and without separators.
abbrev pub IsName : (ℕ → Bool) → Text → Type 0
IsName test p = (one_of reserved_parts p ≡ false) × (any test p ≡ false)

enter_plain :
    (at : List Text) (p : Text) → one_of reserved_parts p ≡ false → enter at p ≡ some (at ++ p ∷ [])
enter_plain at p h = elim (Bool-cases (text_eq p [])) [
  | inl empty ↦ cc (rw empty at h)
  | inr filled ↦ elim (Bool-cases (text_eq p (codes "."))) [
    | inl dot ↦ cc (rw (filled, dot) at h)
    | inr other ↦ elim (Bool-cases (text_eq p (codes ".."))) [
      | inl dots ↦ cc (rw (filled, other, dots) at h)
      | inr plain ↦ rw (filled, other, plain)
    ]
  ]
]

or_false : (a b : Bool) → (a || b) ≡ false → (a ≡ false) × (b ≡ false)
or_false true b h = cc
or_false false b h = (refl, h)

pub walk_plain :
    (at parts : List Text)
    → any (one_of reserved_parts) parts ≡ false
    → walk (some at) parts ≡ some (at ++ parts)
walk_plain at [] h = rw append-nil
walk_plain at (p ∷ ps) h =
    let (plain, rest) = or_false (one_of reserved_parts p) (any (one_of reserved_parts) ps) h in
    rw (enter_plain at p plain, walk_plain (at ++ p ∷ []) ps rest, append_assoc)

grow-All :
    (test : ℕ → Bool) (c : ℕ) (parts : List Text)
    → test c ≡ false
    → All (λ p. any test p ≡ false) parts
    → All (λ p. any test p ≡ false) (grow c parts)
grow-All test c [] other h = (rw other refl, tt)
grow-All test c (p ∷ ps) other h = (rw other h.0, h.1)

pub cut-All : (test : ℕ → Bool) (t : Text) → All (λ p. any test p ≡ false) (cut test t)
cut-All test [] = (refl, tt)
cut-All test (c ∷ cs) = elim (Bool-cases (test c)) [
  | inl here ↦ rw here (refl, cut-All test cs)
  | inr other ↦ rw other (grow-All test c (cut test cs) other (cut-All test cs))
]

module _ (test : ℕ → Bool) where
  parent_of-All :
      (at qs : List Text) → All (IsName test) at → parent_of at ≡ some qs → All (IsName test) qs
  parent_of-All [] qs h e = cc
  parent_of-All (p ∷ []) qs h e = let same : [] ≡ qs = cc e in rw⁻¹ same tt
  parent_of-All (p ∷ q ∷ ps) qs h e = elim (Option-cases (parent_of (q ∷ ps))) [
    | inl nothing ↦ cc (rw nothing at e)
    | inr (rs, found) ↦
        let e' : some (p ∷ rs) ≡ some qs = rw found at e in
        let same : p ∷ rs ≡ qs = cc e' in rw⁻¹ same (h.0, parent_of-All (q ∷ ps) rs h.1 found)
  ]

  enter-All :
      (at : List Text) (p : Text) (qs : List Text)
      → All (IsName test) at
      → any test p ≡ false
      → enter at p ≡ some qs
      → All (IsName test) qs
  enter-All at p qs h plain e = elim (Bool-cases (text_eq p [] || text_eq p (codes "."))) [
    | inl stays ↦ let same : at ≡ qs = cc (rw stays at e) in rw⁻¹ same h
    | inr other ↦ elim (Bool-cases (text_eq p (codes ".."))) [
      | inl up ↦ parent_of-All at qs h (rw (other, up) at e)
      | inr down ↦
          let same : at ++ p ∷ [] ≡ qs = cc (rw (other, down) at e) in
          let named : one_of reserved_parts p ≡ false = ground (arith, other, down) in
          rw⁻¹ same (All-append (IsName test) at (p ∷ []) h ((named, plain), tt))
    ]
  ]

  -- What a walk arrives at is made of names.
  pub walk-All :
      (at ps qs : List Text)
      → All (IsName test) at
      → All (λ p. any test p ≡ false) ps
      → walk (some at) ps ≡ some qs
      → All (IsName test) qs
  walk-All at [] qs h plain e = let same : at ≡ qs = cc e in rw⁻¹ same h
  walk-All at (p ∷ ps) qs h plain e = elim (Option-cases (enter at p)) [
    | inl nothing ↦ cc (walk_none ps, rw nothing at e)
    | inr (there, found) ↦
        walk-All there ps qs (enter-All at p there h plain.0 found) plain.1 (rw found at e)
  ]
    where
      walk_none : (ps : List Text) → walk none ps ≡ none
      walk_none [] = refl
      walk_none (p ∷ ps) = refl
