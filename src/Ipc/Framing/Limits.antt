-- ===== src/Ipc/Framing/Limits.antt =====
-- How much a decoder holds between two chunks.
use agent_program.Prelude.{
  ℕ, ◌+◌, ◌≤◌, ◌<◌, ◌≡◌, inl, inr, Option, none, some, List, [], ◌∷◌, ◌++◌, arith, length, take,
  Bool-cases, Option-cases, ltb, min,
}
use agent_program.Errors.{Result, ok, err, framing_error, Result-cases}
use agent_program.Shared.Text.{Text}
use agent_program.Ipc.Messages.{IpcMessage}
use agent_program.Ipc.Framing.{FrameDecoder, new_decoder, feed, find, max_header_bytes, validate}
use agent_program.Ipc.Header.{max_body_bytes, parse_header}
use agent_program.Ipc.Framing.Search.{
  tail_start, longest_partial_le, partial_delimiter_length-tail_start,
}
use agent_program.Ipc.Framing.Moves.{
  wait, header, next, Outcome, prepend, Decodes, waits, fails, headed, bodied,
}
use agent_program.Ipc.Framing.Feeding.{IsReady}
use agent_program.Ipc.Framing.Loop.{feed-Runs}
use agent_program.Ipc.Framing.Chunks.{new_decoder-IsReady}
use agent_program.Ipc.Framing.Lengths.{parse_header_bound}

-- The length of a body that is waited for.
abbrev pub IsAnnounced : Option ℕ → Type 0
IsAnnounced none = Unit {0}
IsAnnounced (some n) = n ≤ max_body_bytes

-- What is left of a stream: the beginning of a header, or a part of a body.
abbrev pub IsRest : Option ℕ → Text → Type 0
IsRest none rest = length rest ≤ max_header_bytes + 3
IsRest (some n) rest = (length rest < n) × (n ≤ max_body_bytes)

module _ (load : Text → Option IpcMessage) where
  header_bound :
      (e : Option ℕ) (x : Text) (n : ℕ) (rest : Text)
      → next load e x ≡ header n rest
      → n ≤ max_body_bytes
  unfolding next
  header_bound none x n rest h = elim (Option-cases (find x)) [
    | inl nothing ↦ elim (Bool-cases (ltb max_header_bytes (tail_start x))) [
      | inl long ↦ cc (rw (nothing, long) at h)
      | inr short ↦ cc (rw (nothing, short) at h)
    ]
    | inr (i, found) ↦ elim (Bool-cases (ltb max_header_bytes i)) [
      | inl long ↦ cc (rw (found, long) at h)
      | inr short ↦ elim (Result-cases (parse_header (take i x))) [
        | inl (e, bad) ↦ cc (rw (found, short, bad) at h)
        | inr (k, good) ↦
            let same : k ≡ n = cc (rw (found, short, good) at h) in
            omega (arith, same, parse_header_bound (take i x) k good)
      ]
    ]
  ]
  header_bound (some k) x n rest h = elim (Bool-cases (ltb (length x) k)) [
    | inl short ↦ cc (rw short at h)
    | inr full ↦ elim (Option-cases (validate load (take k x))) [
      | inl bad ↦ cc (rw (full, bad) at h)
      | inr (m, good) ↦ cc (rw (full, good) at h)
    ]
  ]

  wait-IsRest : (e : Option ℕ) (x : Text) → IsAnnounced e → next load e x ≡ wait → IsRest e x
  unfolding next
  wait-IsRest none x announced h = elim (Option-cases (find x)) [
    | inl nothing ↦ elim (Bool-cases (ltb max_header_bytes (tail_start x))) [
      | inl long ↦ cc (rw (nothing, long) at h)
      | inr short ↦
          let small : tail_start x ≤ max_header_bytes = ground (arith, short) in
          omega (
            arith,
            small,
            partial_delimiter_length-tail_start x nothing,
            longest_partial_le (min 3 (length x)) x,
          )
    ]
    | inr (i, found) ↦ elim (Bool-cases (ltb max_header_bytes i)) [
      | inl long ↦ cc (rw (found, long) at h)
      | inr short ↦ elim (Result-cases (parse_header (take i x))) [
        | inl (e, bad) ↦ cc (rw (found, short, bad) at h)
        | inr (k, good) ↦ cc (rw (found, short, good) at h)
      ]
    ]
  ]
  wait-IsRest (some k) x announced h = elim (Bool-cases (ltb (length x) k)) [
    | inl short ↦ (ground (arith, short), announced)
    | inr full ↦ elim (Option-cases (validate load (take k x))) [
      | inl bad ↦ cc (rw (full, bad) at h)
      | inr (m, good) ↦ cc (rw (full, good) at h)
    ]
  ]

  abbrev Leaves : Outcome load → Type 0
  Leaves (err e) = Unit {0}
  Leaves (ok r) = IsRest r.1 r.2

  Leaves-prepend : (ms : List IpcMessage) (o : Outcome load) → Leaves o → Leaves (prepend load ms o)
  Leaves-prepend ms (err e) h = tt
  Leaves-prepend ms (ok r) h = h

  Decodes-Leaves :
      (e : Option ℕ) (x : Text) (o : Outcome load) → IsAnnounced e → Decodes load e x o → Leaves o
  Decodes-Leaves e x o announced (waits h) = wait-IsRest e x announced h
  Decodes-Leaves e x o announced (fails h) = tt
  Decodes-Leaves e x o announced (headed n rest h d) =
      Decodes-Leaves (some n) rest o (header_bound e x n rest h) d
  Decodes-Leaves e x o announced (bodied {o = p} m rest h d) =
      Leaves-prepend (m ∷ []) p (Decodes-Leaves none rest p tt d)

  rest-IsAnnounced : (e : Option ℕ) (rest : Text) → IsRest e rest → IsAnnounced e
  rest-IsAnnounced none rest h = tt
  rest-IsAnnounced (some n) rest h = h.1

  -- Whatever a chunk holds, a decoder that is ready and waits for no body longer than the maximum
  -- answers it, with messages or with an error, and in both cases is again such a decoder, which
  -- keeps at most 8195 bytes of an unfinished header, or less than the announced length of a body,
  -- which is at most 1048576.
  pub feed_keeps_little :
      (d : FrameDecoder) (chunk : Text)
      → IsReady load d
      → IsAnnounced d.expected_body_length
      → (answer : Result (List IpcMessage)) × (d' : FrameDecoder) × (feed load d chunk
          ≡ some (answer, d'))
        × IsRest d'.expected_body_length d'.buffer
        × IsReady load d'
        × IsAnnounced d'.expected_body_length
  feed_keeps_little d chunk ready announced = elim (feed-Runs load d chunk ready) [
    | inl (failed, _) ↦
        (err framing_error, new_decoder, failed, omega arith, new_decoder-IsReady load, tt)
    | inr (ms, s, fed, stream, ready') ↦
        let little =
          Decodes-Leaves d.expected_body_length (d.buffer ++ chunk)
            (ok (ms, s.expected_body_length, s.buffer)) announced stream in
        (ok ms, s, fed, little, ready', rest-IsAnnounced s.expected_body_length s.buffer little)
  ]
