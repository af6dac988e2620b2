-- ===== src/Workflow/Db.antt =====
-- The database as the workflow code sees it: one list of rows for each table, and the checked
-- reading of a row (the `_…_from_row` functions of
-- backend/src/agent_platform/infrastructure/database/workflow_repository.py, whose model
-- constructors run the validators). Of the rows of other parts only the columns are kept that the
-- workflow code reads or writes.
use agent_program.Prelude.{ℕ, Bool, Option, none, some, List, [], ◌∷◌, if◌then◌else◌}
use agent_program.Errors.{Result, ok, err, value_error, ◌>>=◌}
use agent_program.Contracts.Stages.{Stage}
use agent_program.Events.Log.{EventStore}
use agent_program.Workflow.Models.{
  Workflow, StageRun, Room, Message, WorkflowTask, is_workflow, is_stage_run, is_room, is_message,
  is_task,
}

pub data ProjectStatus : Type 0 where
  preflight_required ready closed : ProjectStatus

pub record Project : Type 0 where
  pub id : ℕ
  pub status : ProjectStatus

pub data AgentRunStatus : Type 0 where
  pending running succeeded partial_failure failed cancelled : AgentRunStatus

pub record AgentRun : Type 0 where
  pub id : ℕ
  pub room_id : ℕ
  pub status : AgentRunStatus
  pub created_at : ℕ

pub data ArtifactStatus : Type 0 where
  draft locked superseded invalidated : ArtifactStatus

-- An artifact version joined with its artifact's workflow and stage.
pub record ArtifactVersion : Type 0 where
  pub id : ℕ
  pub workflow_id : ℕ
  pub stage : Stage
  pub status : ArtifactStatus
  pub invalidated_at : Option ℕ

pub data HandoffStatus : Type 0 where
  active invalidated : HandoffStatus

pub record HandoffPacket : Type 0 where
  pub id : ℕ
  pub workflow_id : ℕ
  pub from_stage : Stage
  pub status : HandoffStatus
  pub invalidated_at : Option ℕ

pub data CapabilityStatus : Type 0 where
  pending approved rejected expired : CapabilityStatus

pub record CapabilityRequest : Type 0 where
  pub id : ℕ
  pub task_id : ℕ
  pub status : CapabilityStatus
  pub version : ℕ
  pub decided_at : Option ℕ

pub record Db : Type 0 where
  pub workflows : List Workflow
  pub stage_runs : List StageRun
  pub rooms : List Room
  pub messages : List Message
  pub tasks : List WorkflowTask
  pub projects : List Project
  pub agent_runs : List AgentRun
  pub artifact_versions : List ArtifactVersion
  pub handoffs : List HandoffPacket
  pub capability_requests : List CapabilityRequest
  pub events : EventStore

abbrev checked {ℓ} : {A : Type ℓ} → Bool → A → Result A
checked valid a = if valid then ok a else err value_error

abbrev pub workflow_from_row : Workflow → Result Workflow
workflow_from_row w = checked (is_workflow w) w

abbrev pub stage_run_from_row : StageRun → Result StageRun
stage_run_from_row r = checked (is_stage_run r) r

abbrev pub room_from_row : Room → Result Room
room_from_row r = checked (is_room r) r

abbrev pub message_from_row : Message → Result Message
message_from_row m = checked (is_message m) m

abbrev pub task_from_row : WorkflowTask → Result WorkflowTask
task_from_row t = checked (is_task t) t

-- The conversion of a row that may be missing, and of each row of an answer.
abbrev pub read_optional {ℓ} : {A : Type ℓ} → (A → Result A) → Option A → Result (Option A)
read_optional read none = ok none
read_optional read (some row) = do a ← read row; ok (some a)

abbrev pub read_each {ℓ} : {A : Type ℓ} → (A → Result A) → List A → Result (List A)
read_each read [] = ok []
read_each read (row ∷ rows) = do a ← read row; as' ← read_each read rows; ok (a ∷ as')
