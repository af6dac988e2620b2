-- ===== src/Ipc/Framing/Chunks.antt =====
-- A stream that is read in chunks, as the backend and its worker read their pipes
-- (`decoder.feed(chunk)` in backend/src/agent_platform/workers/main.py and
-- backend/src/agent_platform/infrastructure/workers/supervisor.py).
use agent_program.Prelude.{
  ℕ, ◌≡◌, inl, inr, sym, ap, ◌∙◌, Option, none, some, List, [], ◌∷◌, ◌++◌, append_assoc,
}
use mathlib.Core.Path.{subst}
use agent_program.Errors.{ok, err, framing_error}
use agent_program.Shared.Text.{Text}
use agent_program.Ipc.Messages.{IpcMessage}
use agent_program.Ipc.Framing.{FrameDecoder, new_decoder, Fed, feed, find}
use agent_program.Ipc.Framing.Search.{plus-zero}
use agent_program.Ipc.Framing.Moves.{Outcome, prepend, Decodes, Decodes-unique}
use agent_program.Ipc.Framing.Streams.{Decodes-fails, Decodes-append}
use agent_program.Ipc.Framing.Feeding.{IsReady}
use agent_program.Ipc.Framing.Loop.{feed-Runs}

abbrev put_before : List IpcMessage → Fed → Fed
put_before ms none = none
put_before ms (some (err e, d)) = some (err e, d)
put_before ms (some (ok ns, d)) = some (ok (ms ++ ns), d)

-- The next chunks are read by the decoder that a chunk left; an error ends the reading. The answer is
-- then the error alone: the messages of the chunks before it, which the reader has handled by then,
-- are not in it.
abbrev after_chunk : Fed → (FrameDecoder → Fed) → Fed
after_chunk none go = none
after_chunk (some (err e, d)) go = some (err e, d)
after_chunk (some (ok ms, d)) go = put_before ms (go d)

-- the bytes of the chunks
abbrev pub joined : Text → List Text → Text
joined chunk [] = chunk
joined chunk (next ∷ chunks) = chunk ++ joined next chunks

module _ (load : Text → Option IpcMessage) where
  unfoldable pub feed_all : FrameDecoder → Text → List Text → Fed
  feed_all d chunk [] = feed load d chunk
  feed_all d chunk (next ∷ chunks) = after_chunk (feed load d chunk) (λ d'. feed_all d' next chunks)

  -- What a reader sees: the messages or the error, and what the decoder still holds. The offset of
  -- the search is forgotten.
  abbrev pub view : Fed → Option (Outcome load)
  view none = none
  view (some (err e, d)) = some (err e)
  view (some (ok ms, d)) = some (ok (ms, d.expected_body_length, d.buffer))

  abbrev pub Decoded : Fed → Option ℕ → Text → Type 0
  Decoded call e x = (o : Outcome load) × (view call ≡ some o) × Decodes load e x o

  view-put_before :
      (ms : List IpcMessage) (call : Fed) (o : Outcome load)
      → view call ≡ some o
      → view (put_before ms call) ≡ some (prepend load ms o)
  view-put_before ms none o h = cc
  view-put_before ms (some (err e, d)) o h =
      let same : err e ≡ o = cc h in ap (λ v. some (prepend load ms v)) same
  view-put_before ms (some (ok ns, d)) o h =
      let same : ok (ns, d.expected_body_length, d.buffer) ≡ o = cc h in
      ap (λ v. some (prepend load ms v)) same

  feed-Decoded :
      (d : FrameDecoder) (chunk : Text)
      → IsReady load d
      → Decoded (feed load d chunk) d.expected_body_length (d.buffer ++ chunk)
  feed-Decoded d chunk ready = elim (feed-Runs load d chunk ready) [
    | inl (failed, stream) ↦ (err framing_error, ap view failed, stream)
    | inr (ms, d', fed, stream, _) ↦
        (ok (ms, d'.expected_body_length, d'.buffer), ap view fed, stream)
  ]

  pub feed_all-Decoded :
      (d : FrameDecoder) (chunk : Text) (chunks : List Text)
      → IsReady load d
      → Decoded (feed_all d chunk chunks) d.expected_body_length (d.buffer ++ joined chunk chunks)
  unfolding feed_all
  feed_all-Decoded d chunk [] ready = feed-Decoded d chunk ready
  feed_all-Decoded d chunk (next ∷ chunks) ready =
      let whole : (d.buffer ++ chunk) ++ joined next chunks
          ≡ d.buffer ++ (chunk ++ joined next chunks) =
        append_assoc d.buffer chunk (joined next chunks) in
      elim (feed-Runs load d chunk ready) [
        | inl (failed, stream) ↦ (
          err framing_error,
          ap (λ call. view (after_chunk call (λ d'. feed_all d' next chunks))) failed,
          subst (λ x. Decodes load d.expected_body_length x (err framing_error)) whole
              (Decodes-fails load d.expected_body_length (d.buffer ++ chunk) (joined next chunks)
                stream),
        )
        | inr (ms, d', fed, stream, ready') ↦
            let (o, seen, others) = feed_all-Decoded d' next chunks ready' in
            (
              prepend load ms o,
              ap (λ call. view (after_chunk call (λ d'. feed_all d' next chunks))) fed
                  ∙ view-put_before ms (feed_all d' next chunks) o seen,
              subst (λ x. Decodes load d.expected_body_length x (prepend load ms o)) whole
                  (Decodes-append load d.expected_body_length d'.expected_body_length
                    (d.buffer ++ chunk) (joined next chunks) d'.buffer ms o stream others),
            )
      ]

  -- For a decoder that is ready: however a stream is cut into chunks, they give the same messages
  -- as the stream in one piece, or are refused as it is, and leave the same bytes and the same
  -- expected length.
  pub feed_all_chunks :
      (d : FrameDecoder) (chunk : Text) (chunks : List Text)
      → IsReady load d
      → view (feed_all d chunk chunks) ≡ view (feed load d (joined chunk chunks))
  feed_all_chunks d chunk chunks ready =
      let (o, seen, stream) = feed_all-Decoded d chunk chunks ready in
      let (o', seen', stream') = feed-Decoded d (joined chunk chunks) ready in
      let same : o ≡ o' =
        Decodes-unique load d.expected_body_length (d.buffer ++ joined chunk chunks) o o' stream
          stream' in
      seen ∙ ap some same ∙ sym seen'

  pub new_decoder-IsReady : IsReady load new_decoder
  new_decoder-IsReady y = plus-zero (find y)
