-- ===== src/Workflow/Rooms.antt =====
-- The handlers of `WorkflowApplicationService` on messages and tasks, and its lists
-- (backend/src/agent_platform/application/workflows/service.py), with the
-- `expire_capabilities_for_task` of infrastructure/database/governance_repository.py that they call.
pub mod Grants
pub mod Guards
mod Tests
use Prim.Native.String.{String}
use agent_program.Events.Log.{AppendReads}
use agent_program.Prelude.{
  ℕ, ◌+◌, Bool, true, false, ◌&&◌, ◌||◌, not, Option, none, some, List, ◌==◌, ltb, if◌then◌else◌,
  get_row, update_where, select, sort_by,
}
use agent_program.Errors.{
  Entity, Result, ok, not_found, room_not_writable, room_not_active, runtime_error, ◌>>=◌, ◌>>◌,
  raise_if, or_raise,
}
use agent_program.Shared.Text.{Text, strip}
use agent_program.Shared.Json.{Json}
use agent_program.Contracts.Stages.{StageRunState, locked, completed, state_eq}
use agent_program.Workflow.Machine.{is_stopped}
use agent_program.Workflow.Models.{
  Workflow, WorkflowStatus, status_eq, StageRun, Room, RoomStatus, Message, MessageAuthor,
  MessageKind, WorkflowTask, TaskStatus, is_terminal,
}
use agent_program.Workflow.Db.{
  Db, CapabilityRequest, CapabilityStatus, room_from_row, stage_run_from_row, message_from_row,
  task_from_row, read_optional, read_each,
}
use agent_program.Workflow.Queries.{room_key, run_key, list_for_project, list_stage_run_history}
use agent_program.Workflow.Snapshots.{Snapshot, get_snapshot}
use agent_program.Workflow.Messages
use agent_program.Workflow.Tasks
use agent_program.Workflow.Tasks.{add_task, queued_before}
use agent_program.Workflow.Uow.{transact, append_event}
use agent_program.Workflow.Service.{get_workflow, get_current_stage_run, project_key}

-- `uow.workflows.get_room`
abbrev pub get_room : ℕ → Db → Result (Option Room)
get_room rid db = read_optional room_from_row (get_row room_key rid db.rooms)

-- `uow.workflows.get_stage_run`
abbrev pub get_stage_run : ℕ → Db → Result (Option StageRun)
get_stage_run rid db = read_optional stage_run_from_row (get_row run_key rid db.stage_runs)

abbrev pub room_is_active : RoomStatus → Bool
room_is_active RoomStatus.active = true
room_is_active _ = false

-- `current is None or current.id != run.id`
abbrev pub is_not_current : Option StageRun → ℕ → Bool
is_not_current none rid = true
is_not_current (some current) rid = not (current.id == rid)

abbrev pub is_shut : StageRunState → Bool
is_shut s = state_eq s locked || state_eq s completed

-- the block under `if room.status is RoomStatus.ACTIVE`
unfoldable pub check_writable : Workflow → Room → StageRun → Db → Result (Unit {0})
check_writable workflow room run db =
    if room_is_active room.status
    then (get_current_stage_run workflow.id room.stage db >>= λ current.
        raise_if
          (not (status_eq workflow.status WorkflowStatus.running)
            || is_not_current current run.id
            || is_shut run.state)
          room_not_writable)
    else ok tt

abbrev pub message_kind : Option ℕ → RoomStatus → MessageKind
message_kind (some original) status = MessageKind.correction
message_kind none RoomStatus.consultation = MessageKind.consultation
message_kind none _ = MessageKind.discussion

abbrev pub new_message : ℕ → ℕ → Room → Text → Option ℕ → ℕ → Message
new_message id rid room content correction_of_id now = record {
  id = id;
  room_id = rid;
  sequence = room.next_sequence;
  author = MessageAuthor.user;
  kind = message_kind correction_of_id room.status;
  content = strip content;
  correction_of_id = correction_of_id;
  created_at = now;
}

unfoldable pub append_message :
    (ℕ → ℕ) → AppendReads → ℕ → ℕ → Text → Option ℕ → ℕ → Db → Result (Message × Room) × Db
unfolding transact
append_message draw reads now rid content correction_of_id expected db = transact db do
  found ← get_room rid db
  room ← or_raise found (not_found Entity.room)
  found_workflow ← get_workflow room.workflow_id db
  found_run ← get_stage_run room.stage_run_id db
  workflow ← or_raise found_workflow runtime_error
  run ← or_raise found_run runtime_error
  check_writable workflow room run db
  message ← message_from_row (new_message (draw 0) rid room content correction_of_id now)
  (updated, db') ← Messages.append_message message expected now db
  ok (
    (message, updated),
    append_event reads now "message.appended" workflow.project_id workflow.id (some rid) none db',
  )

-- the condition of `task.room_not_active`
abbrev pub is_not_working : Workflow → Room → Option StageRun → StageRun → Bool
is_not_working workflow room current run =
    not (status_eq workflow.status WorkflowStatus.running)
    || not (room_is_active room.status)
    || is_not_current current run.id
    || is_shut run.state
    || is_stopped run.state

abbrev pub new_task : ℕ → Workflow → StageRun → Room → Text → Json → ℕ → WorkflowTask
new_task id workflow run room title payload now = record {
  id = id;
  workflow_id = workflow.id;
  stage_run_id = run.id;
  room_id = room.id;
  title = strip title;
  status = TaskStatus.queued;
  payload = payload;
  result = none;
  version = 1;
  created_at = now;
  started_at = none;
  completed_at = none;
}

unfoldable pub enqueue_task :
    (ℕ → ℕ) → AppendReads → ℕ → ℕ → Text → Json → Db → Result WorkflowTask × Db
unfolding transact
enqueue_task draw reads now rid title payload db = transact db do
  found ← get_room rid db
  room ← or_raise found (not_found Entity.room)
  found_workflow ← get_workflow room.workflow_id db
  found_run ← get_stage_run room.stage_run_id db
  current ← get_current_stage_run room.workflow_id room.stage db
  workflow ← or_raise found_workflow runtime_error
  run ← or_raise found_run runtime_error
  raise_if (is_not_working workflow room current run) room_not_active
  task ← task_from_row (new_task (draw 0) workflow run room title payload now)
  ok (
    task,
    append_event reads now "task.queued" workflow.project_id workflow.id (some room.id)
        (some task.id) (add_task task db),
  )

-- `status in (PENDING, APPROVED)`
abbrev pub is_open_request : CapabilityStatus → Bool
is_open_request CapabilityStatus.pending = true
is_open_request CapabilityStatus.approved = true
is_open_request _ = false

abbrev pub open_for : ℕ → CapabilityRequest → Bool
open_for tid r = r.task_id == tid && is_open_request r.status

abbrev pub expired : ℕ → CapabilityRequest → CapabilityRequest
expired now r = record r {
  status = CapabilityStatus.expired;
  version = r.version + 1;
  decided_at = some now;
}

unfoldable pub expire_capabilities_for_task : ℕ → ℕ → Db → Db
expire_capabilities_for_task tid now db = record db {
  capability_requests = update_where (open_for tid) (expired now) db.capability_requests;
}

-- `_mutate_task`
unfoldable pub mutate_task :
    AppendReads → ℕ → String → (ℕ → Db → Result (WorkflowTask × Db)) → Db → Result WorkflowTask × Db
unfolding transact
mutate_task reads now event_type mutate db = transact db do
  (task, db') ← mutate now db
  found ← get_workflow task.workflow_id db'
  workflow ← or_raise found runtime_error
  ok (
    task,
    append_event reads now event_type workflow.project_id workflow.id (some task.room_id)
        (some task.id)
        (if is_terminal task.status then expire_capabilities_for_task task.id now db' else db'),
  )

unfoldable pub start_task : AppendReads → ℕ → ℕ → ℕ → Db → Result WorkflowTask × Db
start_task reads now tid expected db =
    mutate_task reads now "task.started" (λ t. Tasks.start_task tid expected t) db

unfoldable pub complete_task : AppendReads → ℕ → ℕ → Bool → Json → ℕ → Db → Result WorkflowTask × Db
complete_task reads now tid succeeded result expected db =
    mutate_task reads now "task.completed"
      (λ t. Tasks.complete_task tid succeeded result expected t) db

unfoldable pub cancel_task : AppendReads → ℕ → ℕ → ℕ → Db → Result WorkflowTask × Db
cancel_task reads now tid expected db =
    mutate_task reads now "task.cancelled" (λ t. Tasks.cancel_task tid expected t) db

-- The lists, which write nothing.
unfoldable pub list_workflows : ℕ → Db → Result (List Workflow)
list_workflows pid db =
    or_raise (get_row project_key pid db.projects) (not_found Entity.project) >>= λ _.
    list_for_project pid db

unfoldable pub get_workflow_snapshot : ℕ → Db → Result Snapshot
get_workflow_snapshot wid db = do
  found ← get_snapshot wid db
  or_raise found (not_found Entity.workflow)

unfoldable pub list_stage_history : ℕ → Db → Result (List StageRun)
list_stage_history wid db = do
  found ← get_workflow wid db
  workflow ← or_raise found (not_found Entity.workflow)
  list_stage_run_history wid db
