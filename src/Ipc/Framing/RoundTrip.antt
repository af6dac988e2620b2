-- ===== src/Ipc/Framing/RoundTrip.antt =====
-- Frames from the encoder to the decoder, in chunks.
use agent_program.Prelude.{
  ℕ, ◌+◌, ◌≤◌, ◌≡◌, refl, sym, ap, ◌∙◌, true, false, Option, none, some, List, [], ◌∷◌, ◌++◌, arith,
  length, length-append, take, drop, All, ltb, append_assoc, append-nil,
}
use mathlib.Core.Path.{subst}
use agent_program.Errors.{Result, ok, ◌>>=◌}
use agent_program.Shared.Text.{Text}
use agent_program.Contracts.Paths.{codes}
use agent_program.Ipc.Messages.{IpcMessage, is_ipc_message}
use agent_program.Ipc.Framing.{
  new_decoder, terminator, max_header_bytes, digits, encode_frame, find,
}
use agent_program.Ipc.Header.{max_body_bytes, parse_header}
use agent_program.Ipc.Framing.Prefixes.{drop-drop}
use agent_program.Ipc.Framing.Lengths.{IsDigits}
use agent_program.Ipc.Framing.Digits.{
  digits-IsDigits, digits-nonempty, length-digits, check_length-digits,
}
use agent_program.Ipc.Framing.Headers.{header_of, find-digits, parse_header-header_of}
use agent_program.Ipc.Framing.Search.{tail_start}
use agent_program.Ipc.Framing.Moves.{
  header, message, next, Decodes, Decodes-unique, waits, headed, bodied,
}
use agent_program.Ipc.Framing.Streams.{Decodes-append}
use agent_program.Ipc.Framing.Chunks.{feed_all, joined, view, feed_all-Decoded, new_decoder-IsReady}

take-all : (p q : Text) → take (length p) (p ++ q) ≡ p
take-all [] q = refl
take-all (c ∷ p) q = ap (λ t. c ∷ t) (take-all p q)

drop-all : (p q : Text) → drop (length p) (p ++ q) ≡ q
drop-all [] q = refl
drop-all (c ∷ p) q = drop-all p q

take-length : (p : Text) → take (length p) p ≡ p
take-length p = ap (take (length p)) (sym (append-nil p)) ∙ take-all p []

drop-length : (p : Text) → drop (length p) p ≡ []
drop-length p = ap (drop (length p)) (sym (append-nil p)) ∙ drop-all p []

-- the frame of a body
abbrev frame_of : Text → Text
frame_of body = header_of (digits (length body) (length body)) ++ (terminator ++ body)

find-header_of :
    (t z : Text)
    → IsDigits t
    → find (header_of t ++ (terminator ++ z)) ≡ some (length (header_of t))
unfolding find
find-header_of t z h =
    let w = 13 ∷ 10 ∷ codes "Protocol-Version: 1" in
    let size : length t + 21 ≡ length (t ++ w) = omega (arith, length-append t w) in
    let inner : find ((t ++ w) ++ (terminator ++ z)) ≡ some (length (t ++ w)) =
      ap find (append_assoc t w (terminator ++ z))
      ∙ find-digits t (w ++ (terminator ++ z)) h
      ∙ ap some size in
    rw inner

module _ (load : Text → Option IpcMessage) (dump : IpcMessage → Option Text) where
  -- A message that is valid, that is written as a body of at most the maximum length, and that is read
  -- back from it.
  abbrev pub Carries : IpcMessage → Type 0
  Carries m =
      (is_ipc_message m ≡ true)
      × ((body : Text) × (dump m ≡ some body)
          × (load body ≡ some m)
          × (length body ≤ max_body_bytes))

  -- the frames of messages that are written one after the other
  unfoldable pub encode_all : List IpcMessage → Result Text
  encode_all [] = ok []
  encode_all (m ∷ ms) = do frame ← encode_frame dump m; frames ← encode_all ms; ok (frame ++ frames)

  encode_frame-frame_of :
      (m : IpcMessage) (body : Text)
      → is_ipc_message m ≡ true
      → dump m ≡ some body
      → length body ≤ max_body_bytes
      → encode_frame dump m ≡ ok (frame_of body)
  unfolding encode_frame
  encode_frame-frame_of m body valid dumped small =
      let fits : ltb max_body_bytes (length body) ≡ false = ground (arith, small) in
      let t = digits (length body) (length body) in
      rw (valid, dumped, fits)
        (ap (λ v. ok (codes "Content-Length: " ++ v))
          (append_assoc t (13 ∷ 10 ∷ (codes "Protocol-Version: 1" ++ terminator)) body
            ∙ sym (append_assoc t (13 ∷ 10 ∷ codes "Protocol-Version: 1") (terminator ++ body))))

  next-terminator :
      (p z : Text) (n : ℕ)
      → find (p ++ (terminator ++ z)) ≡ some (length p)
      → length p ≤ max_header_bytes
      → parse_header p ≡ ok n
      → next load none (p ++ (terminator ++ z)) ≡ header n z
  unfolding next
  next-terminator p z n found small parsed =
      let fits : ltb max_header_bytes (length p) ≡ false = ground (arith, small) in
      let behind : drop (length p + 4) (p ++ (terminator ++ z)) ≡ z =
        sym (drop-drop (length p) 4 (p ++ (terminator ++ z)))
        ∙ ap (drop 4) (drop-all p (terminator ++ z)) in
      rw (found, fits, take-all p (terminator ++ z), parsed, behind)

  next-frame_of :
      (body : Text)
      → length body ≤ max_body_bytes
      → next load none (frame_of body) ≡ header (length body) body
  next-frame_of body small =
      let t = digits (length body) (length body) in
      let w = 13 ∷ 10 ∷ codes "Protocol-Version: 1" in
      let is_digits = digits-IsDigits (length body) (length body) (omega arith) in
      let parsed =
        parse_header-header_of t (length body) is_digits (digits-nonempty (length body))
          (check_length-digits (length body) small) in
      let short : length (header_of t) ≤ max_header_bytes =
        omega (arith, length-digits (length body) small, length-append t w) in
      next-terminator (header_of t) body (length body) (find-header_of t body is_digits) short
        parsed

  next-body :
      (m : IpcMessage) (body : Text)
      → is_ipc_message m ≡ true
      → load body ≡ some m
      → next load (some (length body)) body ≡ message m []
  unfolding next
  next-body m body valid loaded =
      let whole : ltb (length body) (length body) ≡ false = ground arith in
      rw (whole, take-length body, loaded, valid, drop-length body)

  frame_of-Decodes :
      (m : IpcMessage) (body : Text)
      → is_ipc_message m ≡ true
      → load body ≡ some m
      → length body ≤ max_body_bytes
      → Decodes load none (frame_of body) (ok (m ∷ [], none, []))
  unfolding next find tail_start
  frame_of-Decodes m body valid loaded small =
      headed (length body) body (next-frame_of body small)
        (bodied {o = ok ([], none, [])} m [] (next-body m body valid loaded) (waits refl))

  encode_all-Decodes :
      (ms : List IpcMessage)
      → All Carries ms
      → (stream : Text) × (encode_all ms ≡ ok stream) × Decodes load none stream (ok (ms, none, []))
  unfolding encode_all next find tail_start
  encode_all-Decodes [] h = ([], refl, waits refl)
  encode_all-Decodes (m ∷ ms) h =
      let (valid, (body, dumped, loaded, small)) = h.0 in
      let (stream, written, decoded) = encode_all-Decodes ms h.1 in
      (
        frame_of body ++ stream,
        rw (encode_frame-frame_of m body valid dumped small, written),
        Decodes-append load none none (frame_of body) stream [] (m ∷ []) (ok (ms, none, []))
            (frame_of-Decodes m body valid loaded small) decoded,
      )

  -- Messages that are valid, are written as bodies of at most the maximum length and are read back from
  -- these, can be encoded one after the other; and in whatever chunks their frames come, a new decoder
  -- gives exactly these messages, in their order, and holds nothing back.
  pub encode_all-feed_all :
      (ms : List IpcMessage)
      → All Carries ms
      → (stream : Text) × (encode_all ms ≡ ok stream)
        × ((chunk : Text) (chunks : List Text)
            → joined chunk chunks ≡ stream
            → view load (feed_all load new_decoder chunk chunks) ≡ some (ok (ms, none, [])))
  encode_all-feed_all ms h =
      let (stream, written, decoded) = encode_all-Decodes ms h in
      (
        stream,
        written,
        λ chunk chunks cut.
            let (o, seen, read) =
              feed_all-Decoded load new_decoder chunk chunks (new_decoder-IsReady load) in
            let same : o ≡ ok (ms, none, []) =
              Decodes-unique load none stream o (ok (ms, none, []))
                (subst (λ x. Decodes load none x o) cut read) decoded in
            seen ∙ ap some same,
      )
