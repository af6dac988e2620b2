-- ===== src/Contracts/Paths.antt =====
-- Project-relative paths (backend/src/agent_platform/domain/contracts/scalars.py) and the tests on
-- texts that path rules use.
pub mod Reading
pub mod Resolving
use Prim.Native.Char.{code}
use Prim.Native.String.{String}
use agent_program.Prelude.{
  ℕ, ◌+◌, ◌-◌, ◌≡◌, refl, Bool, true, false, ◌&&◌, ◌||◌, not, Option, none, some, List, [], ◌∷◌,
  ◌++◌, ◌==◌, leb, arith, if◌then◌else◌, any, length, drop, Bool-cases, inl, inr,
}
use agent_program.Errors.{Result, ok, err, value_error}
use agent_program.Shared.Text.{Text, text_eq, strip, is_trimmed}

-- The code points of a literal.
abbrev pub codes : String → Text
codes String.[] = []
codes (String.◌∷◌ c s) = code c ∷ codes s

abbrev pub starts_with : Text → Text → Bool
starts_with [] t = true
starts_with (c ∷ cs) [] = false
starts_with (c ∷ cs) (d ∷ ds) = c == d && starts_with cs ds

abbrev pub ends_with : Text → Text → Bool
ends_with suffix t =
    leb (length suffix) (length t) && text_eq suffix (drop (length t - length suffix) t)

abbrev pub grow : ℕ → List Text → List Text
grow c [] = (c ∷ []) ∷ []
grow c (part ∷ parts) = (c ∷ part) ∷ parts

-- `t.split(separator)`: always at least one part
unfoldable pub split_on : ℕ → Text → List Text
split_on separator [] = [] ∷ []
split_on separator (c ∷ cs) =
    let rest = split_on separator cs in if c == separator then [] ∷ rest else grow c rest

-- `t.rsplit(separator, maxsplit=1)[-1]`, the part behind the last separator
abbrev pub last_or : Text → List Text → Text
last_or d [] = d
last_or d (p ∷ ps) = last_or p ps

unfoldable pub last_part : ℕ → Text → Text
unfolding split_on
last_part separator t = last_or t (split_on separator t)

abbrev pub has_char : ℕ → Text → Bool
has_char c t = any (λ d. d == c) t

abbrev pub one_of : List Text → Text → Bool
one_of options t = any (text_eq t) options

abbrev pub reserved_parts : List Text
reserved_parts = [] ∷ codes "." ∷ codes ".." ∷ []

-- the condition of the `raise` in `require_project_relative_path`
unfoldable pub is_bad_path : Text → Bool
unfolding split_on is_trimmed strip
is_bad_path path =
    text_eq path []
    || not (is_trimmed path)
    || starts_with (codes "/") path
    || has_char 92 path
    || has_char b':' path
    || has_char 0 path
    || any (one_of reserved_parts) (split_on b'/' path)

unfoldable pub require_project_relative_path : Text → Result Text
unfolding is_bad_path
require_project_relative_path path = if is_bad_path path then err value_error else ok path

-- `_matches(path, prefix)`
unfoldable pub matches : Text → Text → Bool
matches path prefix = text_eq path prefix || starts_with (prefix ++ codes "/") path

unfoldable pub matches_any : Text → List Text → Bool
unfolding matches
matches_any path prefixes = any (matches path) prefixes
