-- ===== src/Shared/Text.antt =====
-- Text as its list of code points, with `str.strip` as the domain models use it
-- (backend/src/agent_platform/domain/workflows/models.py).
use agent_program.Prelude.{
  ℕ, ◌≡◌, refl, Bool, true, false, ◌&&◌, ◌||◌, List, [], ◌∷◌, arith, ◌==◌, leb, if◌then◌else◌,
  Bool-cases, inl, inr,
}

abbrev pub Text : Type 0
Text = List ℕ

-- `str.isspace` of one code point.
abbrev pub is_space : ℕ → Bool
is_space c =
    (leb 9 c && leb c 13)
    || (leb 28 c && leb c 32)
    || c == 133
    || c == 160
    || c == 5760
    || (leb 8192 c && leb c 8202)
    || c == 8232
    || c == 8233
    || c == 8239
    || c == 8287
    || c == 12288

unfoldable pub lstrip : Text → Text
lstrip [] = []
lstrip (c ∷ cs) = let rest = lstrip cs in if is_space c then rest else c ∷ cs

abbrev pub keep_end : ℕ → Text → Text
keep_end c [] = if is_space c then [] else c ∷ []
keep_end c (d ∷ ds) = c ∷ d ∷ ds

unfoldable pub rstrip : Text → Text
rstrip [] = []
rstrip (c ∷ cs) = keep_end c (rstrip cs)

-- `value.strip()`
unfoldable pub strip : Text → Text
unfolding lstrip rstrip
strip t = rstrip (lstrip t)

abbrev pub text_eq : Text → Text → Bool
text_eq [] [] = true
text_eq [] (d ∷ ds) = false
text_eq (c ∷ cs) [] = false
text_eq (c ∷ cs) (d ∷ ds) = c == d && text_eq cs ds

-- `value == value.strip()`
unfoldable pub is_trimmed : Text → Bool
is_trimmed t = text_eq t (strip t)

text_eq_refl : (t : Text) → text_eq t t ≡ true
text_eq_refl [] = refl
text_eq_refl (c ∷ cs) = ground (arith, text_eq_refl cs)

-- The text is empty or begins with no space.
abbrev StartsSolid : Text → Type 0
StartsSolid [] = Unit {0}
StartsSolid (c ∷ cs) = is_space c ≡ false

lstrip-StartsSolid : (t : Text) → StartsSolid (lstrip t)
unfolding lstrip
lstrip-StartsSolid [] = tt
lstrip-StartsSolid (c ∷ cs) = elim (Bool-cases (is_space c)) [
  | inl space ↦ rw space (lstrip-StartsSolid cs)
  | inr solid ↦ rw solid solid
]

lstrip_solid : (t : Text) → StartsSolid t → lstrip t ≡ t
unfolding lstrip
lstrip_solid [] h = refl
lstrip_solid (c ∷ cs) h = rw h

keep_end-StartsSolid : (c : ℕ) (t : Text) → is_space c ≡ false → StartsSolid (keep_end c t)
keep_end-StartsSolid c [] h = rw h h
keep_end-StartsSolid c (d ∷ ds) h = h

rstrip-StartsSolid : (t : Text) → StartsSolid t → StartsSolid (rstrip t)
unfolding rstrip
rstrip-StartsSolid [] h = tt
rstrip-StartsSolid (c ∷ cs) h = keep_end-StartsSolid c (rstrip cs) h

rstrip-keep_end : (c : ℕ) (t : Text) → rstrip t ≡ t → rstrip (keep_end c t) ≡ keep_end c t
unfolding rstrip
rstrip-keep_end c [] h = elim (Bool-cases (is_space c)) [
  | inl space ↦ rw space
  | inr solid ↦ rw solid (rw solid)
]
rstrip-keep_end c (d ∷ ds) h = rw h

rstrip_idem : (t : Text) → rstrip (rstrip t) ≡ rstrip t
unfolding rstrip
rstrip_idem [] = refl
rstrip_idem (c ∷ cs) = rstrip-keep_end c (rstrip cs) (rstrip_idem cs)

pub strip_idem : (t : Text) → strip (strip t) ≡ strip t
unfolding strip
strip_idem t =
    rw (lstrip_solid (rstrip (lstrip t)) (rstrip-StartsSolid (lstrip t) (lstrip-StartsSolid t)))
      (rstrip_idem (lstrip t))

-- What `strip` returns passes the models' check that a text is trimmed.
pub is_trimmed-strip : (t : Text) → is_trimmed (strip t) ≡ true
unfolding is_trimmed
is_trimmed-strip t = rw (strip_idem t) (text_eq_refl (strip t))
