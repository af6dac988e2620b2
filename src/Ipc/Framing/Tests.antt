-- ===== src/Ipc/Framing/Tests.antt =====
-- The decoder and the encoder on a message whose JSON is "{}".
use agent_program.Prelude.{◌≡◌, refl, Option, none, some, List, [], ◌∷◌, ◌++◌, arith, if◌then◌else◌}
use agent_program.Errors.{Result, ok, err, framing_error}
use agent_program.Shared.Text.{Text, text_eq, strip, lstrip, rstrip, is_trimmed}
use agent_program.Shared.Json.{dict, end, validate_json_payload, ensure_json_value}
use agent_program.Contracts.Paths.{codes}
use agent_program.Ipc.Messages.{IpcMessage, heartbeat, is_ipc_message}
use agent_program.Ipc.Framing.{
  FrameDecoder, new_decoder, feed, feed_loop, encode_frame, digits, find, longest_partial,
}
use agent_program.Ipc.Header.{parse_header, split_lines, read_headers}
use agent_program.Ipc.Framing.Feeding.{IsReady, Runs}
use agent_program.Ipc.Framing.Loop.{feed-Runs}
use agent_program.Ipc.Framing.Chunks.{joined, feed_all, view, feed_all_chunks, new_decoder-IsReady}
use agent_program.Ipc.Framing.Limits.{IsAnnounced, IsRest, feed_keeps_little}
use agent_program.Ipc.Framing.RoundTrip.{encode_all, encode_all-feed_all}

abbrev beat : IpcMessage
beat = record {
  protocol_version = 1;
  message_id = codes "m1";
  correlation_id = none;
  sequence = 1;
  project_id = codes "p1";
  task_id = none;
  type = heartbeat;
  timestamp = 0;
  payload = dict end;
}

abbrev load : Text → Option IpcMessage
load t = if text_eq t (codes "{}") then some beat else none

abbrev dump : IpcMessage → Option Text
dump m = some (codes "{}")

abbrev return : Text
return = 13 ∷ 10 ∷ []

abbrev first_part : Text
first_part = codes "content-length : 2" ++ (return ++ codes "Protocol-Ver")

abbrev good_part : Text
good_part = codes "Content-Length: 002" ++ (return ++ codes "Protocol-Ver")

abbrev second_part : Text
second_part = codes "sion: 1" ++ (return ++ (return ++ codes "{"))

abbrev frame : Text
frame =
    codes "Content-Length: 2"
    ++ (return ++ (codes "Protocol-Version: 1" ++ (return ++ (return ++ codes "{}"))))

encoded : encode_frame dump beat ≡ ok frame
unfolding encode_frame digits is_ipc_message validate_json_payload ensure_json_value
encoded = refl

-- A header name that ends in a space is refused.
spaced_name :
    view load (feed_all load new_decoder first_part (second_part ∷ [])) ≡ some (err framing_error)
unfolding feed_all feed feed_loop find longest_partial parse_header split_lines read_headers strip
    lstrip rstrip is_trimmed
spaced_name = refl

-- A part of a body is kept.
part_kept :
    feed load new_decoder (good_part ++ second_part)
    ≡ some (
      ok [],
      record { buffer = codes "{"; expected_body_length = some 2; header_scan_offset = 0 },
    )
unfolding feed feed_loop find longest_partial parse_header split_lines read_headers strip lstrip
    rstrip is_trimmed
part_kept = refl

encode_all-feed_all_example :
    (stream : Text) × (encode_all load dump (beat ∷ beat ∷ []) ≡ ok stream)
    × ((chunk : Text) (chunks : List Text)
        → joined chunk chunks ≡ stream
        → view load (feed_all load new_decoder chunk chunks)
          ≡ some (ok (beat ∷ beat ∷ [], none, [])))
unfolding is_ipc_message validate_json_payload ensure_json_value
encode_all-feed_all_example = encode_all-feed_all load dump (beat ∷ beat ∷ []) (
  (refl, (codes "{}", refl, refl, omega arith)),
  ((refl, (codes "{}", refl, refl, omega arith)), tt),
)

feed_all_chunks_example :
    view load (feed_all load new_decoder good_part (second_part ∷ codes "}" ∷ []))
    ≡ view load (feed load new_decoder (joined good_part (second_part ∷ codes "}" ∷ [])))
feed_all_chunks_example =
    feed_all_chunks load new_decoder good_part (second_part ∷ codes "}" ∷ [])
      (new_decoder-IsReady load)

feed-Runs_example : Runs load (feed load new_decoder frame) [] none ([] ++ frame)
feed-Runs_example = feed-Runs load new_decoder frame (new_decoder-IsReady load)

feed_keeps_little_example :
    (answer : Result (List IpcMessage)) × (d' : FrameDecoder) × (feed load new_decoder
        (good_part ++ second_part)
      ≡ some (answer, d'))
    × IsRest d'.expected_body_length d'.buffer
    × IsReady load d'
    × IsAnnounced d'.expected_body_length
feed_keeps_little_example =
    feed_keeps_little load new_decoder (good_part ++ second_part) (new_decoder-IsReady load) tt
