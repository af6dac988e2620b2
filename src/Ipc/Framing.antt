-- ===== src/Ipc/Framing.antt =====
-- The frames of messages (backend/src/agent_platform/interfaces/ipc/framing.py), on bytes as numbers.
-- `load` and `dump` stand for pydantic's part of `model_validate_json` and `model_dump_json`: `load`
-- reads the fields of a message, and `dump` writes the bytes of its JSON; each returns nothing where
-- pydantic raises. Every failure is a FramingError, whose text is left out.
pub mod Prefixes
pub mod Search
pub mod Moves
pub mod Streams
pub mod Feeding
pub mod Loop
pub mod Chunks
pub mod Lengths
pub mod Limits
pub mod Digits
pub mod Headers
pub mod RoundTrip
mod Tests
use agent_program.Prelude.{
  ℕ, ◌+◌, ◌-◌, ◌*◌, ◌/◌, ◌%◌, Bool, true, false, ◌&&◌, ◌||◌, not, Option, none, some, List, [], ◌∷◌,
  ◌++◌, ◌==◌, ltb, leb, if◌then◌else◌, length, take, drop, any, count, min, max, zero, suc, is_some,
}
use agent_program.Errors.{Result, ok, err, ◌>>=◌, ◌>>◌, raise_if, or_raise, framing_error}
use agent_program.Shared.Text.{Text, text_eq, strip, is_trimmed}
use agent_program.Contracts.Paths.{codes, starts_with}
use agent_program.Ipc.Header.{
  after_colon, before_colon, check_headers, check_length, content_length, drop_zeros, get_header,
  is_after, is_decimal, is_digit, is_incomplete, is_known, is_malformed, is_too_long, lower,
  max_body_bytes, maximum_length, next_line, normalized, number_from, parse_header,
  protocol_version, read_headers, split_lines,
}
use agent_program.Ipc.Messages.{IpcMessage, is_ipc_message}

-- "\r\n\r\n"
abbrev pub terminator : Text
terminator = 13 ∷ 10 ∷ 13 ∷ 10 ∷ []

abbrev pub max_header_bytes : ℕ
max_header_bytes = 8192

-- `find`
abbrev pub plus_one : Option ℕ → Option ℕ
plus_one none = none
plus_one (some n) = some (suc n)

unfoldable pub find : Text → Option ℕ
find [] = none
find (c ∷ cs) =
    let rest = find cs in if starts_with terminator (c ∷ cs) then some 0 else plus_one rest

abbrev pub plus : ℕ → Option ℕ → Option ℕ
plus k none = none
plus k (some n) = some (k + n)

-- `find` with a start
abbrev pub find_from : ℕ → Text → Option ℕ
find_from k t = plus k (find (drop k t))

-- The loop of `_partial_delimiter_length` from a length down to 1.
unfoldable pub longest_partial : ℕ → Text → ℕ
longest_partial zero t = 0
longest_partial (suc k) t =
    let rest = longest_partial k t in
    if starts_with (drop (length t - suc k) t) terminator then suc k else rest

abbrev pub partial_delimiter_length : Text → ℕ
partial_delimiter_length t = longest_partial (min 3 (length t)) t

pub record FrameDecoder : Type 0 where
  pub buffer : Text
  pub expected_body_length : Option ℕ
  pub header_scan_offset : ℕ

abbrev pub new_decoder : FrameDecoder
new_decoder = record { buffer = []; expected_body_length = none; header_scan_offset = 0 }

-- What the first half of a round of the loop comes to: the loop is left with an offset, the header
-- fails, or the body's length is known, with the offset and the cursor.
pub data HeaderStep : Type 0 where
  stop : ℕ → HeaderStep
  broken : HeaderStep
  known : ℕ → ℕ → ℕ → HeaderStep

abbrev pub parsed : Result ℕ → ℕ → HeaderStep
parsed (err e) cursor = broken
parsed (ok n) cursor = known n 0 cursor

abbrev pub found_header : Text → ℕ → Option ℕ → HeaderStep
found_header buffer cursor none =
    if ltb max_header_bytes (length buffer - cursor - partial_delimiter_length buffer)
    then broken
    else stop (max cursor (length buffer - 3))
found_header buffer cursor (some header_end) =
    if ltb max_header_bytes (header_end - cursor)
    then broken
    else parsed (parse_header (take (header_end - cursor) (drop cursor buffer))) (header_end + 4)

abbrev pub header_step : Text → Option ℕ → ℕ → ℕ → HeaderStep
header_step buffer none offset cursor =
    found_header buffer cursor (find_from (max cursor offset) buffer)
header_step buffer (some n) offset cursor = known n offset cursor

-- `_compact_buffer`
abbrev pub compact : Text → Option ℕ → ℕ → ℕ → FrameDecoder
compact buffer expected offset cursor = record {
  buffer = drop cursor buffer;
  expected_body_length = expected;
  header_scan_offset = offset - cursor;
}

-- What `feed` returns or raises, with the decoder that it leaves; nothing where the rounds ran out.
abbrev pub Fed : Type 0
Fed = Option (Result (List IpcMessage) × FrameDecoder)

module _ (load : Text → Option IpcMessage) where
  -- `IpcMessage.model_validate_json`
  abbrev pub checked : Option IpcMessage → Option IpcMessage
  checked none = none
  checked (some m) = if is_ipc_message m then some m else none

  abbrev pub validate : Text → Option IpcMessage
  validate body = checked (load body)

  abbrev pub on_body : Option IpcMessage → (IpcMessage → Fed) → Fed
  on_body none go = some (err framing_error, new_decoder)
  on_body (some m) go = go m

  -- the second half of a round, with the next rounds
  abbrev pub body_step : Text → ℕ → ℕ → ℕ → List IpcMessage → (IpcMessage → Fed) → Fed
  body_step buffer n offset cursor messages go =
      if ltb (length buffer) (cursor + n)
      then some (ok messages, compact buffer (some n) offset cursor)
      else on_body (validate (take n (drop cursor buffer))) go

  -- The loop of `feed`. `_fail` resets the decoder and raises.
  unfoldable pub feed_loop : ℕ → Text → Option ℕ → ℕ → ℕ → List IpcMessage → Fed
  feed_loop zero buffer expected offset cursor messages = none
  feed_loop (suc fuel) buffer expected offset cursor messages =
      elim (header_step buffer expected offset cursor) [
        | stop offset' ↦ some (ok messages, compact buffer none offset' cursor)
        | broken ↦ some (err framing_error, new_decoder)
        | known n offset' cursor' ↦
            body_step buffer n offset' cursor' messages
              (λ m. feed_loop fuel buffer none offset' (cursor' + n) (messages ++ m ∷ []))
      ]

  -- `feed`: a round behind the first one reads a header of 4 bytes at least, so these rounds are
  -- enough.
  unfoldable pub feed : FrameDecoder → Text → Fed
  unfolding feed_loop
  feed d chunk =
      let buffer = d.buffer ++ chunk in
      feed_loop (length buffer + 2) buffer d.expected_body_length d.header_scan_offset 0 []

-- The decimal digits of a number; as many rounds as the number are enough.
unfoldable pub digits : ℕ → ℕ → Text
digits zero n = (48 + n % 10) ∷ []
digits (suc fuel) n =
    let rest = digits fuel (n / 10) in
    if ltb n 10 then (48 + n) ∷ [] else rest ++ (48 + n % 10) ∷ []

-- `encode_frame`
unfoldable pub encode_frame : (IpcMessage → Option Text) → IpcMessage → Result Text
unfolding digits
encode_frame dump message = do
  raise_if (not (is_ipc_message message)) framing_error
  body ← or_raise (dump message) framing_error
  raise_if (ltb max_body_bytes (length body)) framing_error
  let length_text = digits (length body) (length body)
  let header =
      codes "Content-Length: "
      ++ (length_text ++ 13 ∷ 10 ∷ (codes "Protocol-Version: 1" ++ terminator))
  ok (header ++ body)
