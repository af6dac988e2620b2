-- ===== src/Ipc/Messages.antt =====
-- `IpcMessage` with its validators (backend/src/agent_platform/interfaces/ipc/messages.py). The parser
-- that makes a value of it of a JSON text, the types of the fields checked, is pydantic's.
use agent_program.Prelude.{ℕ, Bool, true, ◌&&◌, Option, none, some, ◌==◌, ltb, length}
use agent_program.Shared.Text.{Text}
use agent_program.Shared.Json.{Json, validate_json_payload}
use agent_program.Ipc.Replay.{is_message_id}

pub data MessageType : Type 0 where
  command response event ack heartbeat cancel shutdown : MessageType

-- `timestamp` is a time with a zone, as a number of ticks in UTC.
pub record IpcMessage : Type 0 where
  pub protocol_version : ℕ
  pub message_id : Text
  pub correlation_id : Option Text
  pub sequence : ℕ
  pub project_id : Text
  pub task_id : Option Text
  pub type : MessageType
  pub timestamp : ℕ
  pub payload : Json

-- `NonEmptyString | None`
abbrev pub is_optional_name : Option Text → Bool
is_optional_name none = true
is_optional_name (some t) = ltb 0 (length t)

-- the constraints of the fields and the two validators
unfoldable pub is_ipc_message : IpcMessage → Bool
unfolding validate_json_payload
is_ipc_message m =
    m.protocol_version == 1
    && is_message_id m.message_id
    && is_optional_name m.correlation_id
    && ltb 0 m.sequence
    && ltb 0 (length m.project_id)
    && is_optional_name m.task_id
    && validate_json_payload m.payload
