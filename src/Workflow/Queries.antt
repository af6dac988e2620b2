-- ===== src/Workflow/Queries.antt =====
-- The lookups of `SqlAlchemyWorkflowRepository`
-- (backend/src/agent_platform/infrastructure/database/workflow_repository.py).
pub mod Current
use agent_program.Prelude.{
  ℕ, Bool, true, false, ◌&&◌, ◌||◌, not, Option, none, some, List, [], ◌∷◌, ◌==◌, ltb, get_row,
  first_by, sort_by, select,
}
use agent_program.Errors.{
  Entity, Result, not_found, version_conflict, runtime_error, raise_if, or_raise,
}
use agent_program.Contracts.Stages.{Stage, stage_eq, stage_order}
use agent_program.Workflow.Models.{WorkflowStatus, Workflow, StageRun, Room, Message, WorkflowTask}
use agent_program.Workflow.Db.{
  Db, AgentRun, AgentRunStatus, read_optional, read_each, workflow_from_row, stage_run_from_row,
}

abbrev pub workflow_key : Workflow → ℕ
workflow_key w = w.id

abbrev pub run_key : StageRun → ℕ
run_key r = r.id

abbrev pub room_key : Room → ℕ
room_key r = r.id

abbrev pub message_key : Message → ℕ
message_key m = m.id

abbrev pub task_key : WorkflowTask → ℕ
task_key t = t.id

unfoldable pub require_version : Entity → ℕ → ℕ → Result (Unit {0})
require_version entity current expected =
    raise_if (not (current == expected)) (version_conflict entity)

unfoldable pub require_workflow_row : ℕ → Db → Result Workflow
require_workflow_row wid db =
    or_raise (get_row workflow_key wid db.workflows) (not_found Entity.workflow)

unfoldable pub require_stage_run_row : ℕ → Db → Result StageRun
require_stage_run_row rid db =
    or_raise (get_row run_key rid db.stage_runs) (not_found Entity.stage_run)

unfoldable pub require_room_row : ℕ → Db → Result Room
require_room_row rid db = or_raise (get_row room_key rid db.rooms) (not_found Entity.room)

unfoldable pub require_task_row : ℕ → Db → Result WorkflowTask
require_task_row tid db = or_raise (get_row task_key tid db.tasks) (not_found Entity.task)

abbrev pub room_run_key : Room → ℕ
room_run_key r = r.stage_run_id

-- `stage_run_id` is unique among the rooms.
unfoldable pub room_for_stage_run_row : ℕ → Db → Option Room
room_for_stage_run_row rid db = get_row room_run_key rid db.rooms

unfoldable pub require_room_for_stage_run_row : ℕ → Db → Result Room
unfolding room_for_stage_run_row
require_room_for_stage_run_row rid db = or_raise (room_for_stage_run_row rid db) runtime_error

-- `order_by(attempt.desc(), id.desc())`
abbrev pub newer : StageRun → StageRun → Bool
newer a b = ltb b.attempt a.attempt || (a.attempt == b.attempt && ltb b.id a.id)

abbrev pub of_stage : ℕ → Stage → StageRun → Bool
of_stage wid s r = r.workflow_id == wid && stage_eq r.stage s

unfoldable pub current_stage_run_row : ℕ → Stage → List StageRun → Option StageRun
current_stage_run_row wid s runs = first_by newer (of_stage wid s) runs

abbrev prepend_found {ℓ} : {A : Type ℓ} → Option A → List A → List A
prepend_found none xs = xs
prepend_found (some x) xs = x ∷ xs

abbrev pub current_of : ℕ → List StageRun → List Stage → List StageRun
current_of wid runs [] = []
current_of wid runs (s ∷ ss) =
    prepend_found (first_by newer (of_stage wid s) runs) (current_of wid runs ss)

-- `_current_stage_run_rows`: `setdefault` keeps the first row of each stage in the same order.
unfoldable pub current_stage_run_rows : ℕ → List StageRun → List StageRun
current_stage_run_rows wid runs = current_of wid runs stage_order

-- `status in _ACTIVE_WORKFLOW_STATUSES`
abbrev pub is_active_status : WorkflowStatus → Bool
is_active_status WorkflowStatus.failed = false
is_active_status WorkflowStatus.stopped = false
is_active_status WorkflowStatus.abandoned = false
is_active_status WorkflowStatus.completed = false
is_active_status _ = true

abbrev pub active_in : ℕ → Workflow → Bool
active_in pid w = w.project_id == pid && is_active_status w.status

-- `order_by(created_at.desc(), id)`
abbrev pub latest_created : Workflow → Workflow → Bool
latest_created a b =
    ltb b.created_at a.created_at || (a.created_at == b.created_at && ltb a.id b.id)

unfoldable pub find_active_for_project : ℕ → Db → Result (Option Workflow)
find_active_for_project pid db =
    read_optional workflow_from_row (first_by latest_created (active_in pid) db.workflows)

-- `order_by(updated_at.desc(), id)`
abbrev latest_updated : Workflow → Workflow → Bool
latest_updated a b =
    ltb b.updated_at a.updated_at || (a.updated_at == b.updated_at && ltb a.id b.id)

unfoldable pub list_for_project : ℕ → Db → Result (List Workflow)
list_for_project pid db =
    read_each workflow_from_row
      (sort_by latest_updated (select (λ w. w.project_id == pid) db.workflows))

abbrev oldest_run : StageRun → StageRun → Bool
oldest_run a b = ltb a.created_at b.created_at || (a.created_at == b.created_at && ltb a.id b.id)

unfoldable pub list_stage_run_history : ℕ → Db → Result (List StageRun)
list_stage_run_history wid db =
    read_each stage_run_from_row
      (sort_by oldest_run (select (λ r. r.workflow_id == wid) db.stage_runs))

abbrev is_live : AgentRunStatus → Bool
is_live AgentRunStatus.pending = true
is_live AgentRunStatus.running = true
is_live _ = false

abbrev oldest_agent_run : AgentRun → AgentRun → Bool
oldest_agent_run a b =
    ltb a.created_at b.created_at || (a.created_at == b.created_at && ltb a.id b.id)

-- `model_runtime.find_active_run_for_room`, of which the callers read only whether there is one
unfoldable pub find_active_run_for_room : ℕ → List AgentRun → Option AgentRun
find_active_run_for_room rid runs =
    first_by oldest_agent_run (λ a. a.room_id == rid && is_live a.status) runs
