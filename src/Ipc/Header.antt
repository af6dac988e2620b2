-- ===== src/Ipc/Header.antt =====
-- The header of a frame (`_parse_header` of
-- backend/src/agent_platform/interfaces/ipc/framing.py), on bytes as numbers. Every failure is a
-- FramingError, whose text is left out.
use agent_program.Prelude.{
  ℕ, ◌+◌, ◌-◌, ◌*◌, Bool, true, false, ◌&&◌, ◌||◌, not, Option, none, some, List, [], ◌∷◌, ◌==◌,
  ltb, leb, if◌then◌else◌, length, any, count, is_some,
}
use agent_program.Errors.{Result, ok, ◌>>=◌, ◌>>◌, raise_if, or_raise, framing_error}
use agent_program.Shared.Text.{Text, text_eq, strip, is_trimmed}
use agent_program.Contracts.Paths.{codes, starts_with}

abbrev pub max_body_bytes : ℕ
max_body_bytes = 1048576

abbrev pub next_line : Bool → ℕ → List Text → List Text
next_line true c lines = [] ∷ lines
next_line false c [] = (c ∷ []) ∷ []
next_line false c (line ∷ lines) = (c ∷ line) ∷ lines

-- `header.split("\r\n")`: the flag says that the byte before was the first of a separator.
unfoldable pub split_lines : Bool → Text → List Text
split_lines skip [] = [] ∷ []
split_lines true (c ∷ cs) = split_lines false cs
split_lines false (c ∷ cs) =
    let cut = starts_with (13 ∷ 10 ∷ []) (c ∷ cs) in next_line cut c (split_lines cut cs)

-- `line.split(":", 1)`, for a line with a colon
abbrev pub before_colon : Text → Text
before_colon [] = []
before_colon (c ∷ cs) = let rest = before_colon cs in if c == 58 then [] else c ∷ rest

abbrev pub after_colon : Text → Text
after_colon [] = []
after_colon (c ∷ cs) = let rest = after_colon cs in if c == 58 then cs else rest

-- `lower` of an ASCII text
abbrev pub lower : Text → Text
lower [] = []
lower (c ∷ cs) = (if leb 65 c && leb c 90 then c + 32 else c) ∷ lower cs

abbrev pub get_header : Text → List (Text × Text) → Option Text
get_header name [] = none
get_header name (h ∷ hs) =
    let rest = get_header name hs in if text_eq h.0 name then some h.1 else rest

-- the loop over the lines
unfoldable pub read_headers : List Text → List (Text × Text) → Result (List (Text × Text))
read_headers [] headers = ok headers
read_headers (line ∷ lines) headers = do
  raise_if (not (count (λ c. c == 58) line == 1)) framing_error
  let name = before_colon line
  let value = strip (after_colon line)
  raise_if (text_eq name [] || not (is_trimmed name) || text_eq value []) framing_error
  raise_if (is_some (get_header (lower name) headers)) framing_error
  read_headers lines ((lower name, value) ∷ headers)

abbrev pub content_length : Text
content_length = codes "content-length"

abbrev pub protocol_version : Text
protocol_version = codes "protocol-version"

abbrev pub is_digit : ℕ → Bool
is_digit c = leb 48 c && leb c 57

-- `isdecimal` of an ASCII text
abbrev pub is_decimal : Text → Bool
is_decimal t = not (text_eq t []) && not (any (λ c. not (is_digit c)) t)

-- `lstrip("0") or "0"`
abbrev pub drop_zeros : Text → Text
drop_zeros [] = []
drop_zeros (c ∷ cs) = let rest = drop_zeros cs in if c == 48 then rest else c ∷ cs

abbrev pub normalized : Text → Text
normalized t = let rest = drop_zeros t in if text_eq rest [] then 48 ∷ [] else rest

-- `a > b` of texts
abbrev pub is_after : Text → Text → Bool
is_after [] b = false
is_after (c ∷ cs) [] = true
is_after (c ∷ cs) (d ∷ ds) = let rest = is_after cs ds in ltb d c || (c == d && rest)

abbrev pub number_from : ℕ → Text → ℕ
number_from n [] = n
number_from n (c ∷ cs) = number_from (n * 10 + (c - 48)) cs

-- `str(MAX_BODY_BYTES)`
abbrev pub maximum_length : Text
maximum_length = codes "1048576"

abbrev pub is_too_long : Text → Bool
is_too_long t =
    ltb (length maximum_length) (length t)
    || (length t == length maximum_length && is_after t maximum_length)

abbrev pub is_known : Text → Bool
is_known name = text_eq name content_length || text_eq name protocol_version

abbrev pub is_incomplete : List (Text × Text) → Bool
is_incomplete headers =
    not (is_some (get_header content_length headers))
    || not (is_some (get_header protocol_version headers))

abbrev pub check_length : Text → Result ℕ
check_length value = do
  raise_if (not (is_decimal value)) framing_error
  raise_if (is_too_long (normalized value)) framing_error
  ok (number_from 0 (normalized value))

abbrev pub check_headers : List (Text × Text) → Result ℕ
check_headers headers = do
  raise_if (is_incomplete headers) framing_error
  raise_if (any (λ h. not (is_known h.0)) headers) framing_error
  version ← or_raise (get_header protocol_version headers) framing_error
  raise_if (not (text_eq version (codes "1"))) framing_error
  value ← or_raise (get_header content_length headers) framing_error
  check_length value

abbrev pub is_malformed : List Text → Bool
is_malformed lines = not (length lines == 2) || any (λ line. text_eq line []) lines

-- `_parse_header`
unfoldable pub parse_header : Text → Result ℕ
unfolding split_lines read_headers
parse_header header = do
  raise_if (any (λ c. ltb 127 c) header) framing_error
  let lines = split_lines false header
  raise_if (is_malformed lines) framing_error
  headers ← read_headers lines []
  check_headers headers
