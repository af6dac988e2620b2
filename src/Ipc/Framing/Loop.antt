-- ===== src/Ipc/Framing/Loop.antt =====
-- The decoder's loop against the stream that it decodes.
use agent_program.Prelude.{
  ℕ, ◌+◌, ◌-◌, ◌≤◌, ◌≡◌, inl, inr, sym, ap, ◌∙◌, Option, none, some, List, [], ◌∷◌, ◌++◌, arith,
  length, take, drop, Bool-cases, Option-cases, ltb, append-nil, zero, suc, max,
}
use agent_program.Errors.{ok, err, framing_error, Result-cases}
use agent_program.Shared.Text.{Text}
use agent_program.Ipc.Messages.{IpcMessage}
use agent_program.Ipc.Framing.{
  FrameDecoder, new_decoder, find, find_from, plus, max_header_bytes, stop, broken, known,
  header_step, compact, Fed, body_step, feed_loop, feed,
}
use agent_program.Ipc.Header.{parse_header}
use agent_program.Ipc.Framing.Prefixes.{length-drop, drop-drop}
use agent_program.Ipc.Framing.Search.{tail_start, plus-zero, find-some, find_from-find}
use agent_program.Ipc.Framing.Moves.{header, next, waits, fails}
use agent_program.Ipc.Framing.Feeding.{candidate, Scans, IsReady, Runs, Runs-headed, body_step-Runs}

module _ (load : Text → Option IpcMessage) where
  abbrev LoopScans : Option ℕ → ℕ → ℕ → Text → Type 0
  LoopScans none offset cursor buffer =
      find_from (max cursor offset) buffer ≡ find_from cursor buffer
  LoopScans (some n) offset cursor buffer = offset ≡ 0

  -- the rounds that a stream needs at most, besides its length
  abbrev needs : Option ℕ → ℕ
  needs none = 1
  needs (some n) = 2

  resume :
      (k : ℕ) (r y : Text) → find r ≡ none → k ≤ length r - 3 → find_from k (r ++ y) ≡ find (r ++ y)
  resume zero r y nothing short = plus-zero (find (r ++ y))
  resume (suc k) r y nothing short = find_from-find (suc k) r y nothing (omega (arith, short))

  -- the round that begins with a header
  header-Runs :
      (buffer : Text) (offset cursor : ℕ) (messages : List IpcMessage) (go : ℕ → ℕ → ℕ → Fed)
      → cursor ≤ length buffer
      → find_from (max cursor offset) buffer ≡ find_from cursor buffer
      → ((n i : ℕ)
          → cursor + i + 4 ≤ length buffer
          → Runs load (go n 0 (cursor + i + 4)) messages (some n) (drop (cursor + i + 4) buffer))
      → Runs load
          (elim (header_step buffer none offset cursor) [
            | stop offset' ↦ some (ok messages, compact buffer none offset' cursor)
            | broken ↦ some (err framing_error, new_decoder)
            | known n offset' cursor' ↦ go n offset' cursor'
          ])
          messages
          none
          (drop cursor buffer)
  unfolding next
  header-Runs buffer offset cursor messages go inside scans later =
      let size = length-drop cursor buffer inside in
      elim (Option-cases (find (drop cursor buffer))) [
        | inl nothing ↦
            let searched : find_from (max cursor offset) buffer ≡ none =
              scans ∙ ap (plus cursor) nothing in
            let check = candidate cursor buffer inside nothing in
            elim (Bool-cases (ltb max_header_bytes (tail_start (drop cursor buffer)))) [
              | inl long ↦ inl (rw (searched, check, long), fails (rw (nothing, long)))
              | inr short ↦ inr (
                [],
                compact buffer none (max cursor (length buffer - 3)) cursor,
                rw (searched, check, short)
                    (ap
                      (λ zs.
                        some (ok zs, compact buffer none (max cursor (length buffer - 3)) cursor))
                      (sym (append-nil messages))),
                waits (rw (nothing, short)),
                λ y.
                    resume (max cursor (length buffer - 3) - cursor) (drop cursor buffer) y nothing
                      (omega (arith, size)),
              )
            ]
        | inr (i, found) ↦
            let searched : find_from (max cursor offset) buffer ≡ some (cursor + i) =
              scans ∙ ap (plus cursor) found in
            let (complete, _) = find-some (drop cursor buffer) [] i found in
            let size_i : cursor + i - cursor ≡ i = omega arith in
            let ends : cursor + (i + 4) ≡ cursor + i + 4 = omega arith in
            let follows : drop (i + 4) (drop cursor buffer) ≡ drop (cursor + i + 4) buffer =
              drop-drop cursor (i + 4) buffer ∙ ap (λ k. drop k buffer) ends in
            elim (Bool-cases (ltb max_header_bytes i)) [
              | inl long ↦ inl (rw (searched, size_i, long), fails (rw (found, long)))
              | inr short ↦ elim (Result-cases (parse_header (take i (drop cursor buffer)))) [
                | inl (e, bad) ↦
                    inl (rw (searched, size_i, short, bad), fails (rw (found, short, bad)))
                | inr (n, good) ↦
                    rw (searched, size_i, short, good)
                      (Runs-headed load (go n 0 (cursor + i + 4)) messages none (drop cursor buffer)
                        n (drop (cursor + i + 4) buffer)
                        (rw (found, short, good) (ap (header n) follows))
                        (later n i (omega (arith, size, complete))))
              ]
            ]
      ]

  feed_loop-Runs :
      (fuel : ℕ) (buffer : Text) (e : Option ℕ) (offset cursor : ℕ) (messages : List IpcMessage)
      → cursor ≤ length buffer
      → LoopScans e offset cursor buffer
      → length (drop cursor buffer) + needs e ≤ fuel
      → Runs load
          (feed_loop load fuel buffer e offset cursor messages)
          messages
          e
          (drop cursor buffer)
  unfolding feed_loop
  feed_loop-Runs zero buffer none offset cursor messages inside scans enough =
      let bad : ⊥ = omega (arith, enough) in absurd bad
  feed_loop-Runs zero buffer (some n) offset cursor messages inside scans enough =
      let bad : ⊥ = omega (arith, enough) in absurd bad
  feed_loop-Runs (suc fuel) buffer (some n) offset cursor messages inside scans enough =
      let size = length-drop cursor buffer inside in
      rw scans (
        body_step-Runs load buffer n cursor messages
          (λ m. feed_loop load fuel buffer none 0 (cursor + n) (messages ++ m ∷ [])) inside
          (λ fits m.
            feed_loop-Runs fuel buffer none 0 (cursor + n) (messages ++ m ∷ []) fits
              (ap (λ k. find_from k buffer) (omega arith))
              (omega (arith, enough, size, length-drop (cursor + n) buffer fits))))
  feed_loop-Runs (suc fuel) buffer none offset cursor messages inside scans enough =
      let size = length-drop cursor buffer inside in
      header-Runs buffer offset cursor messages
        (λ n offset' cursor'.
          body_step load buffer n offset' cursor' messages
            (λ m. feed_loop load fuel buffer none offset' (cursor' + n) (messages ++ m ∷ [])))
        inside scans
        (λ n i behind.
          body_step-Runs load buffer n (cursor + i + 4) messages
            (λ m. feed_loop load fuel buffer none 0 (cursor + i + 4 + n) (messages ++ m ∷ []))
            behind
            (λ fits m.
              feed_loop-Runs fuel buffer none 0 (cursor + i + 4 + n) (messages ++ m ∷ []) fits
                (ap (λ k. find_from k buffer) (omega arith))
                (omega (arith, enough, size, length-drop (cursor + i + 4 + n) buffer fits))))

  -- A chunk that is fed to a decoder that is ready either is refused, with the decoder reset, exactly
  -- where the buffered stream with the chunk is an error, or gives the messages of that stream, and
  -- leaves what is left of it in a decoder that is ready. The rounds are enough.
  pub feed-Runs :
      (d : FrameDecoder) (chunk : Text)
      → IsReady load d
      → Runs load (feed load d chunk) [] d.expected_body_length (d.buffer ++ chunk)
  unfolding feed
  feed-Runs d chunk ready =
      feed_loop-Runs (length (d.buffer ++ chunk) + 2) (d.buffer ++ chunk) d.expected_body_length
        d.header_scan_offset 0 [] (omega arith) (at_start d.expected_body_length ready)
        (rounds d.expected_body_length)
    where
      at_start :
          (e : Option ℕ)
          → Scans load e d.header_scan_offset d.buffer
          → LoopScans e d.header_scan_offset 0 (d.buffer ++ chunk)
      at_start none scans =
          let begin : max 0 d.header_scan_offset ≡ d.header_scan_offset = omega arith in
          ap (λ k. find_from k (d.buffer ++ chunk)) begin
          ∙ scans chunk
          ∙ sym (plus-zero (find (d.buffer ++ chunk)))
      at_start (some n) scans = scans

      rounds :
          (e : Option ℕ) → length (d.buffer ++ chunk) + needs e ≤ length (d.buffer ++ chunk) + 2
      rounds none = omega arith
      rounds (some n) = omega arith
