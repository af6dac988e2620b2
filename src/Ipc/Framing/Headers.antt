-- ===== src/Ipc/Framing/Headers.antt =====
-- The header that `encode_frame` writes, as the decoder finds and parses it.
use agent_program.Prelude.{
  ℕ, ◌≤◌, ◌≡◌, refl, ap, ◌∙◌, true, false, Option, none, some, List, [], ◌∷◌, ◌++◌, ◌==◌, arith,
  length, any, count, ltb, suc, append-nil,
}
use agent_program.Errors.{ok}
use agent_program.Shared.Text.{Text, text_eq, strip, lstrip, rstrip, keep_end, is_space, is_trimmed}
use agent_program.Contracts.Paths.{codes}
use agent_program.Ipc.Framing.{find, plus, plus_one}
use agent_program.Ipc.Header.{split_lines, read_headers, parse_header, check_length}
use agent_program.Ipc.Framing.Lengths.{IsDigits, IsDigits-parts}

-- The header of a body whose length has these digits, without the terminator.
abbrev pub header_of : Text → Text
header_of t = codes "Content-Length: " ++ t ++ 13 ∷ 10 ∷ codes "Protocol-Version: 1"

plus-plus_one : (k : ℕ) (o : Option ℕ) → plus_one (plus k o) ≡ plus (suc k) o
plus-plus_one k none = refl
plus-plus_one k (some n) = ap some (omega arith)

plus-zero : (o : Option ℕ) → o ≡ plus 0 o
plus-zero none = refl
plus-zero (some n) = ap some (omega arith)

-- Digits hold no terminator.
pub find-digits : (t z : Text) → IsDigits t → find (t ++ z) ≡ plus (length t) (find z)
unfolding find
find-digits [] z h = plus-zero (find z)
find-digits (c ∷ t) z h =
    let (low, _, others) = IsDigits-parts c t h in
    let no_return : (13 == c) ≡ false = ground (arith, low) in
    rw (no_return, find-digits t z others, find) (plus-plus_one (length t) (find z))

ascii-digits : (t z : Text) → IsDigits t → any (λ c. ltb 127 c) (t ++ z) ≡ any (λ c. ltb 127 c) z
ascii-digits [] z h = refl
ascii-digits (c ∷ t) z h =
    let (_, high, others) = IsDigits-parts c t h in
    let small : ltb 127 c ≡ false = ground (arith, high) in rw (small, ascii-digits t z others)

split_lines-digits :
    (t z line : Text) (lines : List Text)
    → IsDigits t
    → split_lines false z ≡ line ∷ lines
    → split_lines false (t ++ z) ≡ (t ++ line) ∷ lines
unfolding split_lines
split_lines-digits [] z line lines h split = split
split_lines-digits (c ∷ t) z line lines h split =
    let (low, _, others) = IsDigits-parts c t h in
    let no_return : (13 == c) ≡ false = ground (arith, low) in
    rw (no_return, split_lines-digits t z line lines others split, split_lines)

colons-digits : (t : Text) → IsDigits t → count (λ c. c == 58) t ≡ 0
colons-digits [] h = refl
colons-digits (c ∷ t) h =
    let (_, high, others) = IsDigits-parts c t h in
    let no_colon : (c == 58) ≡ false = ground (arith, high) in rw (no_colon, colons-digits t others)

solid : (c : ℕ) → 48 ≤ c → c ≤ 57 → is_space c ≡ false
solid c low high = ground (arith, low, high)

rstrip-digits : (t : Text) → IsDigits t → rstrip t ≡ t
unfolding rstrip
rstrip-digits [] h = refl
rstrip-digits (c ∷ t) h =
    let (low, high, others) = IsDigits-parts c t h in
    rw (rstrip-digits t others) (kept t (solid c low high))
  where
    kept : (t : Text) → is_space c ≡ false → keep_end c t ≡ c ∷ t
    kept [] s = rw s
    kept (d ∷ t) s = refl

strip-digits : (t : Text) → IsDigits t → strip (32 ∷ t) ≡ t
unfolding strip lstrip
strip-digits t h = ap rstrip (front t h) ∙ rstrip-digits t h
  where
    front : (t : Text) → IsDigits t → lstrip t ≡ t
    front [] h = refl
    front (c ∷ t) h = let (low, high, _) = IsDigits-parts c t h in rw (solid c low high)

trimmed_length : is_trimmed (codes "Content-Length") ≡ true
unfolding is_trimmed strip lstrip rstrip
trimmed_length = refl

trimmed_version : is_trimmed (codes "Protocol-Version") ≡ true
unfolding is_trimmed strip lstrip rstrip
trimmed_version = refl

stripped_version : strip (codes " 1") ≡ codes "1"
unfolding strip lstrip rstrip
stripped_version = refl

read_headers-digits :
    (t : Text)
    → IsDigits t
    → text_eq t [] ≡ false
    → read_headers ((codes "Content-Length: " ++ t) ∷ codes "Protocol-Version: 1" ∷ []) []
      ≡ ok ((codes "protocol-version", codes "1") ∷ (codes "content-length", t) ∷ [])
unfolding read_headers
read_headers-digits t h nonempty = rw (
  colons-digits t h,
  strip-digits t h,
  nonempty,
  trimmed_length,
  trimmed_version,
  stripped_version,
)

-- The header is parsed to what its digits come to.
pub parse_header-header_of :
    (t : Text) (n : ℕ)
    → IsDigits t
    → text_eq t [] ≡ false
    → check_length t ≡ ok n
    → parse_header (header_of t) ≡ ok n
unfolding parse_header split_lines
parse_header-header_of t n h nonempty value =
    let z = 13 ∷ 10 ∷ codes "Protocol-Version: 1" in
    let lines = split_lines-digits t z [] (codes "Protocol-Version: 1" ∷ []) h refl in
    rw (ascii-digits t z h, lines, append-nil t, read_headers-digits t h nonempty) value
