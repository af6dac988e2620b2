-- ===== src/Ipc/Framing/Moves.antt =====
-- What a stream of frames stands for, whatever pieces it comes in.
use agent_program.Prelude.{
  ℕ, ◌+◌, ◌≡◌, refl, sym, Option, none, some, List, [], ◌∷◌, ◌++◌, length, take, drop, ltb,
  if◌then◌else◌,
}
use mathlib.Core.Path.{subst}
use agent_program.Errors.{Result, ok, err, framing_error}
use agent_program.Shared.Text.{Text}
use agent_program.Ipc.Messages.{IpcMessage}
use agent_program.Ipc.Framing.{find, max_header_bytes, validate}
use agent_program.Ipc.Header.{parse_header}
use agent_program.Ipc.Framing.Search.{tail_start}

-- The next thing in a stream: too little to say, an error, a header with its body's length, or a
-- message, with what follows.
pub data Move : Type 0 where
  wait fail : Move
  header : ℕ → Text → Move
  message : IpcMessage → Text → Move

abbrev pub after_header : Result ℕ → Text → Move
after_header (err e) rest = fail
after_header (ok n) rest = header n rest

abbrev pub after_body : Option IpcMessage → Text → Move
after_body none rest = fail
after_body (some m) rest = message m rest

-- A header of at most `max_header_bytes` ends at the first terminator.
abbrev pub next_header : Text → Option ℕ → Move
next_header x none = if ltb max_header_bytes (tail_start x) then fail else wait
next_header x (some i) =
    if ltb max_header_bytes i then fail else after_header (parse_header (take i x)) (drop (i + 4) x)

module _ (load : Text → Option IpcMessage) where
  unfoldable pub next : Option ℕ → Text → Move
  next none x = next_header x (find x)
  next (some n) x =
      if ltb (length x) n then wait else after_body (validate load (take n x)) (drop n x)

  -- the messages of a stream with what is left of it, or an error
  abbrev pub Outcome : Type 0
  Outcome = Result (List IpcMessage × Option ℕ × Text)

  abbrev pub prepend : List IpcMessage → Outcome → Outcome
  prepend ms (err e) = err e
  prepend ms (ok r) = ok (ms ++ r.0, r.1, r.2)

  pub data Decodes : Option ℕ → Text → Outcome → Type 0 where
    waits : {e : Option ℕ} {x : Text} → next e x ≡ wait → Decodes e x (ok ([], e, x))
    fails : {e : Option ℕ} {x : Text} → next e x ≡ fail → Decodes e x (err framing_error)
    headed :
        {e : Option ℕ} {x : Text} {o : Outcome} (n : ℕ) (rest : Text)
        → next e x ≡ header n rest
        → Decodes (some n) rest o
        → Decodes e x o
    bodied :
        {e : Option ℕ} {x : Text} {o : Outcome} (m : IpcMessage) (rest : Text)
        → next e x ≡ message m rest
        → Decodes none rest o
        → Decodes e x (prepend (m ∷ []) o)

  -- A stream has one outcome.
  pub Decodes-unique :
      (e : Option ℕ) (x : Text) (o o' : Outcome) → Decodes e x o → Decodes e x o' → o ≡ o'
  Decodes-unique e x o o' (waits h) (waits h') = refl
  Decodes-unique e x o o' (waits h) (fails h') = cc (h, h')
  Decodes-unique e x o o' (waits h) (headed n r h' d) = cc (h, h')
  Decodes-unique e x o o' (waits h) (bodied m r h' d) = cc (h, h')
  Decodes-unique e x o o' (fails h) (waits h') = cc (h, h')
  Decodes-unique e x o o' (fails h) (fails h') = refl
  Decodes-unique e x o o' (fails h) (headed n r h' d) = cc (h, h')
  Decodes-unique e x o o' (fails h) (bodied m r h' d) = cc (h, h')
  Decodes-unique e x o o' (headed n r h d) (waits h') = cc (h, h')
  Decodes-unique e x o o' (headed n r h d) (fails h') = cc (h, h')
  Decodes-unique e x o o' (headed n r h d) (headed n' r' h' d') =
      let same_n : n ≡ n' = cc (h, h') in
      let same_r : r ≡ r' = cc (h, h') in
      Decodes-unique (some n) r o o' d (
        subst (λ y. Decodes (some n) y o') (sym same_r)
          (subst (λ k. Decodes (some k) r' o') (sym same_n) d'))
  Decodes-unique e x o o' (headed n r h d) (bodied m r' h' d') = cc (h, h')
  Decodes-unique e x o o' (bodied m r h d) (waits h') = cc (h, h')
  Decodes-unique e x o o' (bodied m r h d) (fails h') = cc (h, h')
  Decodes-unique e x o o' (bodied m r h d) (headed n r' h' d') = cc (h, h')
  Decodes-unique e x o o' (bodied {o = p} m r h d) (bodied {o = p'} m' r' h' d') =
      let same_m : m ≡ m' = cc (h, h') in
      let same_r : r ≡ r' = cc (h, h') in
      let same : p ≡ p' =
        Decodes-unique none r p p' d (subst (λ y. Decodes none y p') (sym same_r) d') in
      cc (same_m, same)
