-- ===== src/Contracts/Paths/Resolving.antt =====
-- A path that is accepted names the file that its parts spell, below the project's root.
use agent_program.Prelude.{
  ℕ, ◌≡◌, ◌↔◌, refl, sym, ap, ◌∙◌, Bool, true, false, ◌||◌, not, some, List, [], ◌∷◌, ◌==◌, arith,
  any, All, Bool-cases, inl, inr,
}
use agent_program.Errors.{ok}
use agent_program.Shared.Text.{Text, text_eq, is_trimmed}
use agent_program.Contracts.Paths.{
  codes, starts_with, has_char, split_on, grow, reserved_parts, one_of, is_bad_path,
  require_project_relative_path,
}
use agent_program.Contracts.Paths.Reading.{
  windows, posix, is_separator, is_special, cut, is_rooted, read_path, IsName, walk_plain, cut-All,
  walk-All,
}

-- The conditions that an accepted path meets, each by itself.
abbrev IsGood : Text → Type 0
IsGood path =
    (text_eq path [] ≡ false)
    × (is_trimmed path ≡ true)
    × (starts_with (codes "/") path ≡ false)
    × (has_char 92 path ≡ false)
    × (has_char b':' path ≡ false)
    × (has_char 0 path ≡ false)
    × (any (one_of reserved_parts) (split_on b'/' path) ≡ false)

none_of_seven :
    (a b c d e f g : Bool)
    → (a || not b || c || d || e || f || g) ≡ false
    → (a ≡ false) × (b ≡ true) × (c ≡ false) × (d ≡ false) × (e ≡ false) × (f ≡ false) × (g ≡ false)
none_of_seven a b c d e f g h = ground arith

is_bad_path-IsGood : (path : Text) → is_bad_path path ≡ false → IsGood path
unfolding is_bad_path
is_bad_path-IsGood path h =
    none_of_seven (text_eq path []) (is_trimmed path) (starts_with (codes "/") path)
      (has_char 92 path) (has_char b':' path) (has_char 0 path)
      (any (one_of reserved_parts) (split_on b'/' path)) h

is_bad_path_of_good : (path : Text) → IsGood path → is_bad_path path ≡ false
unfolding is_bad_path
is_bad_path_of_good path (a, b, c, d, e, f, g) = rw (a, b, c, d, e, f, g)

cut_windows : (t : Text) → has_char 92 t ≡ false → cut (is_separator windows) t ≡ split_on b'/' t
unfolding split_on
cut_windows [] h = refl
cut_windows (c ∷ cs) h =
    let other : (c == 92) ≡ false = ground (arith, h) in
    let later : has_char 92 cs ≡ false = ground (arith, h) in
    elim (Bool-cases (c == b'/')) [
      | inl here ↦ rw here (ap (λ ps. [] ∷ ps) (cut_windows cs later))
      | inr plain ↦ rw (plain, other) (ap (grow c) (cut_windows cs later))
    ]

cut_posix : (t : Text) → cut (is_separator posix) t ≡ split_on b'/' t
unfolding split_on
cut_posix [] = refl
cut_posix (c ∷ cs) = elim (Bool-cases (c == b'/')) [
  | inl here ↦ rw here (ap (λ ps. [] ∷ ps) (cut_posix cs))
  | inr plain ↦ rw plain (ap (grow c) (cut_posix cs))
]

special_windows : (t : Text) → any (is_special windows) t ≡ (has_char b':' t || has_char 0 t)
special_windows [] = refl
special_windows (c ∷ cs) = ground (arith, special_windows cs)

rooted_windows :
    (t : Text)
    → starts_with (codes "/") t ≡ false
    → has_char 92 t ≡ false
    → is_rooted windows t ≡ false
rooted_windows [] h back = refl
rooted_windows (c ∷ cs) h back = ground (arith, h, back)

rooted_posix : (t : Text) → starts_with (codes "/") t ≡ false → is_rooted posix t ≡ false
rooted_posix [] h = refl
rooted_posix (c ∷ cs) h = ground (arith, h)

reads_windows : (path : Text) → IsGood path → read_path windows path ≡ some (split_on b'/' path)
reads_windows path (_, _, c, d, e, f, g) =
    rw (special_windows path, e, f, rooted_windows path c d, cut_windows path d)
      (walk_plain [] (split_on b'/' path) g)

reads_posix : (path : Text) → IsGood path → read_path posix path ≡ some (split_on b'/' path)
reads_posix path (_, _, c, d, e, f, g) =
    rw (f, rooted_posix path c, cut_posix path) (walk_plain [] (split_on b'/' path) g)

-- The parts of a text hold its characters.
grow-has_char :
    (k c : ℕ) (parts : List Text)
    → any (has_char k) (grow c parts) ≡ (c == k || any (has_char k) parts)
grow-has_char k c [] = ground arith
grow-has_char k c (p ∷ ps) = ground arith

split_on-has_char :
    (k : ℕ) (t : Text) → (b'/' == k) ≡ false → any (has_char k) (split_on b'/' t) ≡ has_char k t
unfolding split_on
split_on-has_char k [] h = refl
split_on-has_char k (c ∷ cs) h = elim (Bool-cases (c == b'/')) [
  | inl here ↦ rw here (split_on-has_char k cs h ∙ ground (arith, here, h))
  | inr plain ↦
      rw plain
        (grow-has_char k c (split_on b'/' cs) ∙ ap (λ b. c == k || b) (split_on-has_char k cs h))
]

no_reserved :
    (ps : List Text)
    → All (IsName (is_separator windows)) ps
    → any (one_of reserved_parts) ps ≡ false
no_reserved [] h = refl
no_reserved (p ∷ ps) h = rw (h.0.0) (no_reserved ps h.1)

no_backslash : (t : Text) → any (is_separator windows) t ≡ false → has_char 92 t ≡ false
no_backslash [] h = refl
no_backslash (c ∷ cs) h = ground (arith, h, no_backslash cs)

no_backslashes :
    (ps : List Text) → All (IsName (is_separator windows)) ps → any (has_char 92) ps ≡ false
no_backslashes [] h = refl
no_backslashes (p ∷ ps) h = rw (no_backslash p h.0.1) (no_backslashes ps h.1)

filled :
    (path : Text)
    → any (one_of reserved_parts) (split_on b'/' path) ≡ false
    → (text_eq path [] ≡ false) × (starts_with (codes "/") path ≡ false)
unfolding split_on
filled [] h = cc
filled (c ∷ cs) h = elim (Bool-cases (c == b'/')) [
  | inl here ↦ cc (rw here at h)
  | inr plain ↦ (refl, ground (arith, plain))
]

read_path-IsGood :
    (path : Text)
    → is_trimmed path ≡ true
    → read_path windows path ≡ some (split_on b'/' path)
    → IsGood path
read_path-IsGood path trimmed h =
    elim (Bool-cases (any (is_special windows) path || is_rooted windows path)) [
      | inl refused ↦ cc (rw refused at h)
      | inr below ↦
          let special : any (is_special windows) path ≡ false = ground (arith, below) in
          let chars : (has_char b':' path || has_char 0 path) ≡ false =
            sym (special_windows path) ∙ special in
          let names =
            walk-All (is_separator windows) [] (cut (is_separator windows) path)
              (split_on b'/' path) tt (cut-All (is_separator windows) path) (rw below at h) in
          let plain = no_reserved (split_on b'/' path) names in
          let (nonempty, relative) = filled path plain in
          let back =
            sym (split_on-has_char 92 path refl) ∙ no_backslashes (split_on b'/' path) names in
          (nonempty, trimmed, relative, back, ground (arith, chars), ground (arith, chars), plain)
    ]

-- A path is accepted exactly if it has no white space around it and Windows reads it, below the
-- project's root, as the names between its slashes; then it is returned as it is, and POSIX reads it
-- as the same names. The reading of Windows takes backslashes as separators too, follows `.` and
-- `..`, leaves devices and the dots or spaces at the ends of names aside, and has no answer for a
-- path with a colon or a NUL, for one that begins with a separator and for one that leaves the root.
pub accepted_path_resolves :
    (path accepted : Text)
    → (require_project_relative_path path ≡ ok accepted) ↔ (
        (accepted ≡ path)
        × (is_trimmed path ≡ true)
        × (read_path windows path ≡ some (split_on b'/' path))
        × (read_path posix path ≡ some (split_on b'/' path)))
unfolding require_project_relative_path
accepted_path_resolves path accepted = (
  (λ h.
      let good = is_bad_path-IsGood path (ground (arith, h)) in
      (ground (arith, h), good.1, reads_windows path good, reads_posix path good)),
  (λ (same, trimmed, read, _).
      rw (is_bad_path_of_good path (read_path-IsGood path trimmed read)) (ap ok (sym same))),
)
