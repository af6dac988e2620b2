-- ===== src/Workflow/Models.antt =====
-- The records of a workflow and their validators
-- (backend/src/agent_platform/domain/workflows/models.py). A record stands for the pydantic model
-- and for its database row, which have the same fields. Identifiers are numbers: the code compares
-- and orders them and reads nothing else of them. A time is a number of ticks in UTC.
use agent_program.Prelude.{
  ℕ, Bool, true, false, ◌&&◌, ◌||◌, not, Option, none, some, ◌==◌, leb, is_some, length,
}
use agent_program.Shared.Text.{Text, is_trimmed}
use agent_program.Shared.Json.{Json, validate_json_payload}
use agent_program.Contracts.Stages.{Stage, StageRunState, state_eq}

pub data WorkflowStatus : Type 0 where
  created preflight_failed running waiting_user warning_blocked paused : WorkflowStatus
  external_conflict interrupted failed stopped abandoned completed : WorkflowStatus

abbrev pub status_index : WorkflowStatus → ℕ
status_index created = 0
status_index preflight_failed = 1
status_index running = 2
status_index waiting_user = 3
status_index warning_blocked = 4
status_index paused = 5
status_index external_conflict = 6
status_index interrupted = 7
status_index failed = 8
status_index stopped = 9
status_index abandoned = 10
status_index completed = 11

abbrev pub status_eq : WorkflowStatus → WorkflowStatus → Bool
status_eq a b = status_index a == status_index b

pub data RoomStatus : Type 0 where
  active consultation archived : RoomStatus

pub data MessageAuthor : Type 0 where
  user system agent : MessageAuthor

pub data MessageKind : Type 0 where
  discussion consultation correction : MessageKind

pub data TaskStatus : Type 0 where
  queued running succeeded failed cancelled : TaskStatus

pub data ExecutionMode : Type 0 where
  manual autonomous : ExecutionMode

pub record Workflow : Type 0 where
  pub id : ℕ
  pub project_id : ℕ
  pub title : Text
  pub status : WorkflowStatus
  pub execution_mode : ExecutionMode
  pub current_stage : Stage
  pub version : ℕ
  pub created_at : ℕ
  pub updated_at : ℕ

pub record StageRun : Type 0 where
  pub id : ℕ
  pub workflow_id : ℕ
  pub stage : Stage
  pub attempt : ℕ
  pub state : StageRunState
  pub version : ℕ
  pub created_at : ℕ
  pub started_at : Option ℕ
  pub completed_at : Option ℕ

pub record Room : Type 0 where
  pub id : ℕ
  pub workflow_id : ℕ
  pub stage_run_id : ℕ
  pub stage : Stage
  pub status : RoomStatus
  pub next_sequence : ℕ
  pub version : ℕ
  pub created_at : ℕ
  pub updated_at : ℕ

pub record Message : Type 0 where
  pub id : ℕ
  pub room_id : ℕ
  pub sequence : ℕ
  pub author : MessageAuthor
  pub kind : MessageKind
  pub content : Text
  pub correction_of_id : Option ℕ
  pub created_at : ℕ

pub record WorkflowTask : Type 0 where
  pub id : ℕ
  pub workflow_id : ℕ
  pub stage_run_id : ℕ
  pub room_id : ℕ
  pub title : Text
  pub status : TaskStatus
  pub payload : Json
  pub result : Option Json
  pub version : ℕ
  pub created_at : ℕ
  pub started_at : Option ℕ
  pub completed_at : Option ℕ

-- `WorkflowTitle`, and the validator that it is trimmed
unfoldable pub is_title : Text → Bool
is_title t = leb 1 (length t) && leb (length t) 200 && is_trimmed t

-- `MessageContent`
unfoldable pub is_content : Text → Bool
is_content t = leb 1 (length t) && leb (length t) 100000 && is_trimmed t

unfoldable pub is_workflow : Workflow → Bool
is_workflow w = is_title w.title && leb 1 w.version && leb w.created_at w.updated_at

-- `bound <= t`, where there is a `t`
abbrev pub not_before : ℕ → Option ℕ → Bool
not_before bound none = true
not_before bound (some t) = leb bound t

-- the body of `if self.completed_at is not None`
abbrev pub is_completion : Option ℕ → Option ℕ → Bool → Bool
is_completion started none in_completed = true
is_completion none (some t) in_completed = false
is_completion (some s) (some t) in_completed = leb s t && in_completed

-- `StageRun.require_timestamps_match_state` and the positive versions
unfoldable pub is_stage_run : StageRun → Bool
is_stage_run r =
    leb 1 r.attempt
    && leb 1 r.version
    && not_before r.created_at r.started_at
    && is_completion r.started_at r.completed_at (state_eq r.state StageRunState.completed)
    && (not (state_eq r.state StageRunState.completed) || is_some r.completed_at)

unfoldable pub is_room : Room → Bool
is_room r = leb 1 r.next_sequence && leb 1 r.version && leb r.created_at r.updated_at

abbrev pub kind_is_correction : MessageKind → Bool
kind_is_correction correction = true
kind_is_correction _ = false

-- `self.correction_of_id == self.id`
abbrev pub corrects : Option ℕ → ℕ → Bool
corrects none id = false
corrects (some original) id = original == id

abbrev pub bool_eq : Bool → Bool → Bool
bool_eq true b = b
bool_eq false b = not b

unfoldable pub is_message : Message → Bool
is_message m =
    leb 1 m.sequence
    && is_content m.content
    && bool_eq (kind_is_correction m.kind) (is_some m.correction_of_id)
    && not (corrects m.correction_of_id m.id)

abbrev pub is_terminal : TaskStatus → Bool
is_terminal succeeded = true
is_terminal TaskStatus.failed = true
is_terminal cancelled = true
is_terminal _ = false

-- `status in {RUNNING, SUCCEEDED, FAILED}`
abbrev pub was_started : TaskStatus → Bool
was_started TaskStatus.running = true
was_started succeeded = true
was_started TaskStatus.failed = true
was_started _ = false

abbrev pub is_document : Option Json → Bool
is_document none = true
is_document (some j) = validate_json_payload j

-- `WorkflowTask.require_lifecycle_timestamps`
unfoldable pub has_task_timestamps : WorkflowTask → Bool
has_task_timestamps t =
    not_before t.created_at t.started_at
    && bool_eq (is_terminal t.status) (is_some t.completed_at)
    && not_before t.created_at t.completed_at
    && (not (was_started t.status) || is_some t.started_at)

unfoldable pub is_task : WorkflowTask → Bool
is_task t =
    is_title t.title
    && leb 1 t.version
    && validate_json_payload t.payload
    && is_document t.result
    && has_task_timestamps t
