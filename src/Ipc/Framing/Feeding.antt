-- ===== src/Ipc/Framing/Feeding.antt =====
-- What the parts of a round of the decoder's loop come to.
use agent_program.Prelude.{
  ℕ, ◌+◌, ◌-◌, ◌≤◌, ◌<◌, ◌≡◌, ◌⊎◌, inl, inr, sym, ap, ◌∙◌, true, false, Option, none, some, List,
  [], ◌∷◌, ◌++◌, arith, length, take, drop, Bool-cases, Option-cases, ltb, leb, append_assoc,
  append-nil, min,
}
use agent_program.Errors.{ok, err, framing_error}
use agent_program.Shared.Text.{Text}
use agent_program.Ipc.Messages.{IpcMessage}
use agent_program.Ipc.Framing.{
  FrameDecoder, new_decoder, find, find_from, max_header_bytes, validate, partial_delimiter_length,
  longest_partial, compact, Fed, body_step,
}
use agent_program.Ipc.Framing.Prefixes.{length-drop, drop-drop}
use agent_program.Ipc.Framing.Search.{
  tail_start, tail_start_le, longest_partial-drop, partial_delimiter_length-tail_start,
}
use agent_program.Ipc.Framing.Moves.{header, message, next, Decodes, waits, fails, headed, bodied}

small : (a : ℕ) → a ≤ 3 → ltb max_header_bytes a ≡ false
small a h = ground arith

-- The check of an unfinished header's length is that of the bytes before its tail, though it looks
-- for the tail in the whole buffer.
pub candidate :
    (cursor : ℕ) (b : Text)
    → cursor ≤ length b
    → find (drop cursor b) ≡ none
    → ltb max_header_bytes (length b - cursor - partial_delimiter_length b)
      ≡ ltb max_header_bytes (tail_start (drop cursor b))
candidate cursor b inside nothing =
    let size = length-drop cursor b inside in
    let tail = partial_delimiter_length-tail_start (drop cursor b) nothing in
    elim (Bool-cases (leb 3 (length (drop cursor b)))) [
      | inl long ↦
          let many : 3 ≤ length (drop cursor b) = ground (arith, long) in
          let same = longest_partial-drop 3 cursor b inside many in
          let three : min 3 (length b) ≡ 3 = omega (arith, size, many) in
          let three' : min 3 (length (drop cursor b)) ≡ 3 = omega (arith, many) in
          let partial : partial_delimiter_length b ≡ partial_delimiter_length (drop cursor b) =
            ap (λ k. longest_partial k b) three
            ∙ sym same
            ∙ sym (ap (λ k. longest_partial k (drop cursor b)) three') in
          ap (ltb max_header_bytes) (omega (arith, size, tail, partial))
      | inr short ↦
          let few : length (drop cursor b) < 3 = ground (arith, short) in
          let le = tail_start_le (drop cursor b) in
          small (length b - cursor - partial_delimiter_length b) (omega (arith, size, few))
          ∙ sym (small (tail_start (drop cursor b)) (omega (arith, le, few)))
    ]

module _ (load : Text → Option IpcMessage) where
  -- The offset of the search skips no terminator of the buffer, whatever is appended to it, and is 0
  -- while a body is waited for.
  abbrev pub Scans : Option ℕ → ℕ → Text → Type 0
  Scans none offset buffer = (y : Text) → find_from offset (buffer ++ y) ≡ find (buffer ++ y)
  Scans (some n) offset buffer = offset ≡ 0

  abbrev pub IsReady : FrameDecoder → Type 0
  IsReady d = Scans d.expected_body_length d.header_scan_offset d.buffer

  -- What a run of the loop comes to, with the messages from before and the stream that it decodes.
  abbrev pub Runs : Fed → List IpcMessage → Option ℕ → Text → Type 0
  Runs call messages e x =
      ((call ≡ some (err framing_error, new_decoder)) × Decodes load e x (err framing_error))
      ⊎ ((ms : List IpcMessage) × (d : FrameDecoder) × (call ≡ some (ok (messages ++ ms), d))
          × Decodes load e x (ok (ms, d.expected_body_length, d.buffer))
          × IsReady d)

  pub Runs-headed :
      (call : Fed) (messages : List IpcMessage) (e : Option ℕ) (x : Text) (n : ℕ) (rest : Text)
      → next load e x ≡ header n rest
      → Runs call messages (some n) rest
      → Runs call messages e x
  Runs-headed call messages e x n rest h (inl (failed, d)) = inl (failed, headed n rest h d)
  Runs-headed call messages e x n rest h (inr (ms, s, fed, d, ready)) =
      inr (ms, s, fed, headed n rest h d, ready)

  Runs-bodied :
      (call : Fed) (messages : List IpcMessage) (e : Option ℕ) (x : Text) (m : IpcMessage)
      (rest : Text)
      → next load e x ≡ message m rest
      → Runs call (messages ++ m ∷ []) none rest
      → Runs call messages e x
  Runs-bodied call messages e x m rest h (inl (failed, d)) =
      inl (failed, bodied {o = err framing_error} m rest h d)
  Runs-bodied call messages e x m rest h (inr (ms, s, fed, d, ready)) = inr (
    m ∷ ms,
    s,
    fed ∙ ap (λ zs. some (ok zs, s)) (append_assoc messages (m ∷ []) ms),
    bodied m rest h d,
    ready,
  )

  pub body_step-Runs :
      (buffer : Text) (n cursor : ℕ) (messages : List IpcMessage) (go : IpcMessage → Fed)
      → cursor ≤ length buffer
      → (cursor + n ≤ length buffer
          → (m : IpcMessage) → Runs (go m) (messages ++ m ∷ []) none (drop (cursor + n) buffer))
      → Runs (body_step load buffer n 0 cursor messages go) messages (some n) (drop cursor buffer)
  unfolding next
  body_step-Runs buffer n cursor messages go inside later =
      let size = length-drop cursor buffer inside in
      elim (Bool-cases (ltb (length buffer) (cursor + n))) [
        | inl short ↦
            let waiting : ltb (length (drop cursor buffer)) n ≡ true =
              ground (arith, short, size) in
            inr (
              [],
              compact buffer (some n) 0 cursor,
              rw short (
                  ap (λ zs. some (ok zs, compact buffer (some n) 0 cursor))
                    (sym (append-nil messages))),
              waits (rw waiting),
              omega arith,
            )
        | inr full ↦
            let there : ltb (length (drop cursor buffer)) n ≡ false = ground (arith, full, size) in
            let enough : cursor + n ≤ length buffer = ground (arith, full) in
            elim (Option-cases (validate load (take n (drop cursor buffer)))) [
              | inl bad ↦ inl (rw (full, bad), fails (rw (there, bad)))
              | inr (m, good) ↦
                  rw (full, good)
                    (Runs-bodied (go m) messages (some n) (drop cursor buffer) m
                      (drop (cursor + n) buffer)
                      (rw (there, good) (ap (message m) (drop-drop cursor n buffer)))
                      (later enough m))
            ]
      ]
