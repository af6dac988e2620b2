-- ===== src/Ipc/Framing/Streams.antt =====
-- A stream that is continued.
use agent_program.Prelude.{
  ℕ, ◌+◌, ◌≤◌, ◌≡◌, inl, inr, refl, sym, ap, ◌∙◌, true, false, Option, none, some, List, [], ◌∷◌,
  ◌++◌, arith, length, length-append, take, drop, Bool-cases, Option-cases, ltb, append_assoc,
}
use mathlib.Core.Path.{subst}
use agent_program.Errors.{Result, ok, err, framing_error}
use agent_program.Shared.Text.{Text}
use agent_program.Ipc.Messages.{IpcMessage}
use agent_program.Ipc.Framing.{find, max_header_bytes, validate}
use agent_program.Ipc.Header.{parse_header}
use agent_program.Ipc.Framing.Prefixes.{take-append, drop-append}
use agent_program.Ipc.Framing.Search.{tail_start, find-some, tail_start-find, tail_start-append}
use agent_program.Ipc.Framing.Moves.{
  Move, wait, fail, header, message, after_header, after_body, next_header, next, Outcome, prepend,
  Decodes, waits, fails, headed, bodied,
}

-- A move whose rest is continued; where the stream waits, the continuation decides.
abbrev grow : Move → Text → Move → Move
grow wait y later = later
grow fail y later = fail
grow (header n rest) y later = header n (rest ++ y)
grow (message m rest) y later = message m (rest ++ y)

grow-after_header :
    (r : Result ℕ) (rest y : Text) (later : Move)
    → after_header r (rest ++ y) ≡ grow (after_header r rest) y later
grow-after_header (err e) rest y later = refl
grow-after_header (ok n) rest y later = refl

grow-after_body :
    (o : Option IpcMessage) (rest y : Text) (later : Move)
    → after_body o (rest ++ y) ≡ grow (after_body o rest) y later
grow-after_body none rest y later = refl
grow-after_body (some m) rest y later = refl

-- A header that is too long already stays too long.
header_fails :
    (x y : Text)
    → find x ≡ none
    → ltb max_header_bytes (tail_start x) ≡ true
    → next_header (x ++ y) (find (x ++ y)) ≡ fail
header_fails x y nothing long = elim (Option-cases (find (x ++ y))) [
  | inl still ↦
      let longer : ltb max_header_bytes (tail_start (x ++ y)) ≡ true =
        ground (arith, long, tail_start-append x y) in
      rw (still, longer)
  | inr (i, found) ↦
      let longer : ltb max_header_bytes i ≡ true =
        ground (arith, long, tail_start-find x y i nothing found) in
      rw (found, longer)
]

module _ (load : Text → Option IpcMessage) where
  next-append :
      (e : Option ℕ) (x y : Text)
      → next load e (x ++ y) ≡ grow (next load e x) y (next load e (x ++ y))
  unfolding next
  next-append none x y = elim (Option-cases (find x)) [
    | inl nothing ↦ elim (Bool-cases (ltb max_header_bytes (tail_start x))) [
      | inl long ↦ header_fails x y nothing long ∙ sym (rw (nothing, long))
      | inr short ↦ sym (rw (nothing, short))
    ]
    | inr (i, found) ↦
        let (inside, again) = find-some x y i found in
        elim (Bool-cases (ltb max_header_bytes i)) [
          | inl long ↦ rw (again, found, long)
          | inr short ↦
              rw
                (
                  again,
                  found,
                  short,
                  take-append i x y (omega (arith, inside)),
                  drop-append (i + 4) x y inside,
                )
                (grow-after_header (parse_header (take i x)) (drop (i + 4) x) y _)
        ]
  ]
  next-append (some n) x y = elim (Bool-cases (ltb (length x) n)) [
    | inl short ↦ sym (rw short)
    | inr full ↦
        let inside : n ≤ length x = ground (arith, full) in
        let still : ltb (length (x ++ y)) n ≡ false = ground (arith, inside, length-append x y) in
        rw (full, still, take-append n x y inside, drop-append n x y inside)
          (grow-after_body (validate load (take n x)) (drop n x) y _)
  ]

  prepend-prepend :
      (ms ns : List IpcMessage) (o : Outcome load)
      → prepend load ms (prepend load ns o) ≡ prepend load (ms ++ ns) o
  prepend-prepend ms ns (err e) = refl
  prepend-prepend ms ns (ok r) = ap (λ zs. ok (zs, r.1, r.2)) (sym (append_assoc ms ns r.0))

  prepend-nil : (o : Outcome load) → prepend load [] o ≡ o
  prepend-nil (err e) = refl
  prepend-nil (ok r) = refl

  -- What the outcome of a first piece says of the stream `z` that `y` continues it to.
  abbrev Glued : Option ℕ → Text → Text → Outcome load → Type 0
  Glued e z y (err failure) = Decodes load e z (err failure)
  Glued e z y (ok r) =
      (o : Outcome load) → Decodes load r.1 (r.2 ++ y) o → Decodes load e z (prepend load r.0 o)

  Glued-headed :
      (e : Option ℕ) (z y : Text) (n : ℕ) (rest : Text) (o : Outcome load)
      → next load e z ≡ header n rest
      → Glued (some n) rest y o
      → Glued e z y o
  Glued-headed e z y n rest (err failure) h g = headed n rest h g
  Glued-headed e z y n rest (ok r) h g = λ o d. headed n rest h (g o d)

  Glued-bodied :
      (e : Option ℕ) (z y : Text) (m : IpcMessage) (rest : Text) (o : Outcome load)
      → next load e z ≡ message m rest
      → Glued none rest y o
      → Glued e z y (prepend load (m ∷ []) o)
  Glued-bodied e z y m rest (err failure) h g = bodied {o = err failure} m rest h g
  Glued-bodied e z y m rest (ok r) h g =
      λ o d. subst (Decodes load e z) (prepend-prepend (m ∷ []) r.0 o) (bodied m rest h (g o d))

  glue : (e : Option ℕ) (x y : Text) (o : Outcome load) → Decodes load e x o → Glued e (x ++ y) y o
  glue e x y o (waits h) = λ o' d. subst (Decodes load e (x ++ y)) (sym (prepend-nil o')) d
  glue e x y o (fails h) = fails (next-append e x y ∙ ap (λ v. grow v y (next load e (x ++ y))) h)
  glue e x y o (headed n rest h d) =
      Glued-headed e (x ++ y) y n (rest ++ y) o
        (next-append e x y ∙ ap (λ v. grow v y (next load e (x ++ y))) h) (glue (some n) rest y o d)
  glue e x y o (bodied {o = p} m rest h d) =
      Glued-bodied e (x ++ y) y m (rest ++ y) p
        (next-append e x y ∙ ap (λ v. grow v y (next load e (x ++ y))) h) (glue none rest y p d)

  -- A stream that fails also fails when more bytes come.
  pub Decodes-fails :
      (e : Option ℕ) (x y : Text)
      → Decodes load e x (err framing_error)
      → Decodes load e (x ++ y) (err framing_error)
  Decodes-fails e x y d = glue e x y (err framing_error) d

  -- A stream in two pieces has the messages of the first, and behind them those of what the first
  -- left over with the second.
  pub Decodes-append :
      (e e' : Option ℕ) (x y r : Text) (ms : List IpcMessage) (o : Outcome load)
      → Decodes load e x (ok (ms, e', r))
      → Decodes load e' (r ++ y) o
      → Decodes load e (x ++ y) (prepend load ms o)
  Decodes-append e e' x y r ms o d d' = glue e x y (ok (ms, e', r)) d o d'
