-- ===== src/Workflow/Service.antt =====
-- The handlers of `WorkflowApplicationService` that read and move workflows
-- (backend/src/agent_platform/application/workflows/service.py).
pub mod Pipelines
pub mod ActiveWorkflow
mod Tests
use agent_program.Events.Log.{AppendReads}
use agent_program.Prelude.{
  ℕ, ◌+◌, ◌*◌, Bool, true, false, ◌&&◌, ◌||◌, not, Option, none, some, List, [], ◌∷◌, ◌++◌, ◌==◌,
  leb, if◌then◌else◌, get_row, is_some, any, update_where, drop,
}
use agent_program.Errors.{
  Entity, Error, Result, ok, err, not_found, project_not_ready, active_exists, agent_run_active,
  runtime_error, ◌>>=◌, ◌>>◌, raise_if, or_raise,
}
use agent_program.Shared.Text.{Text, strip}
use agent_program.Contracts.Stages.{
  Stage, stage_index, stage_eq, stage_order, StageRunState, ready, locked,
}
use agent_program.Workflow.Machine.{require_stage_transition}
use agent_program.Workflow.Models.{
  WorkflowStatus, RoomStatus, ExecutionMode, Workflow, StageRun, Room,
}
use agent_program.Workflow.Db.{
  Db, Project, ProjectStatus, ArtifactVersion, ArtifactStatus, HandoffPacket, HandoffStatus,
  workflow_from_row, stage_run_from_row, room_from_row, read_optional,
}
use agent_program.Workflow.Queries.{
  workflow_key, run_key, current_stage_run_row, current_stage_run_rows, room_for_stage_run_row,
  find_active_for_project, find_active_run_for_room,
}
use agent_program.Workflow.Snapshots.{Snapshot, get_snapshot, is_snapshot}
use agent_program.Workflow.Transitions
use agent_program.Workflow.Transitions.{Moved}
use agent_program.Workflow.Reopening
use agent_program.Workflow.Uow.{transact, append_event}

-- `uow.workflows.get`
abbrev pub get_workflow : ℕ → Db → Result (Option Workflow)
get_workflow wid db = read_optional workflow_from_row (get_row workflow_key wid db.workflows)

abbrev pub get_current_stage_run : ℕ → Stage → Db → Result (Option StageRun)
get_current_stage_run wid stage db =
    read_optional stage_run_from_row (current_stage_run_row wid stage db.stage_runs)

abbrev pub get_room_for_stage_run : ℕ → Db → Result (Option Room)
get_room_for_stage_run rid db = read_optional room_from_row (room_for_stage_run_row rid db)

abbrev pub project_key : Project → ℕ
project_key p = p.id

abbrev pub project_is_ready : ProjectStatus → Bool
project_is_ready ProjectStatus.ready = true
project_is_ready _ = false

-- A stage run and its room as a handler makes them.
abbrev pub new_run : ℕ → ℕ → Stage → ℕ → StageRunState → ℕ → StageRun
new_run id wid stage attempt state now = record {
  id = id;
  workflow_id = wid;
  stage = stage;
  attempt = attempt;
  state = state;
  version = 1;
  created_at = now;
  started_at = none;
  completed_at = none;
}

abbrev pub new_room : ℕ → ℕ → ℕ → Stage → ℕ → Room
new_room id wid rid stage now = record {
  id = id;
  workflow_id = wid;
  stage_run_id = rid;
  stage = stage;
  status = RoomStatus.active;
  next_sequence = 1;
  version = 1;
  created_at = now;
  updated_at = now;
}

-- The two loops over stages: the k-th pass draws the identifiers `2 k + 1` and `2 k + 2`.
unfoldable pub make_runs : (ℕ → ℕ) → ℕ → ℕ → Stage → (Stage → ℕ) → ℕ → List Stage → List StageRun
make_runs draw k wid first attempt now [] = []
make_runs draw k wid first attempt now (s ∷ ss) =
    new_run (draw (2 * k + 1)) wid s (attempt s) (if stage_eq s first then ready else locked) now
    ∷ make_runs draw (k + 1) wid first attempt now ss

unfoldable pub make_rooms : (ℕ → ℕ) → ℕ → ℕ → ℕ → List Stage → List Room
make_rooms draw k wid now [] = []
make_rooms draw k wid now (s ∷ ss) =
    new_room (draw (2 * k + 2)) wid (draw (2 * k + 1)) s now ∷ make_rooms draw (k + 1) wid now ss

abbrev pub new_workflow : ℕ → ℕ → Text → ℕ → Workflow
new_workflow wid pid title now = record {
  id = wid;
  project_id = pid;
  title = strip title;
  status = WorkflowStatus.created;
  execution_mode = ExecutionMode.manual;
  current_stage = Stage.planner;
  version = 1;
  created_at = now;
  updated_at = now;
}

-- `add_graph`
unfoldable pub add_graph : Workflow → List StageRun → List Room → Db → Db
add_graph workflow runs rooms db = record db {
  workflows = db.workflows ++ workflow ∷ [];
  stage_runs = db.stage_runs ++ runs;
  rooms = db.rooms ++ rooms;
}

-- `draw 0` is the workflow's identifier; `reads` is what the append of its event reads.
unfoldable pub create_workflow : (ℕ → ℕ) → AppendReads → ℕ → ℕ → Text → Db → Result Snapshot × Db
unfolding transact add_graph append_event find_active_for_project make_runs make_rooms
create_workflow draw reads now pid title db = transact db do
  let wid = draw 0
  workflow ← workflow_from_row (new_workflow wid pid title now)
  let runs = make_runs draw 0 wid Stage.planner (λ _. 1) now stage_order
  let rooms = make_rooms draw 0 wid now stage_order
  project ← or_raise (get_row project_key pid db.projects) (not_found Entity.project)
  raise_if (not (project_is_ready project.status)) project_not_ready
  active ← find_active_for_project pid db
  raise_if (is_some active) active_exists
  ok (
    record { workflow = workflow; stage_runs = runs; rooms = rooms },
    append_event reads now "workflow.created" pid wid none none (add_graph workflow runs rooms db),
  )

-- The snapshot is read after the commit: an error there leaves what was committed.
abbrev read_started : ℕ → Result (Unit {0}) × Db → Result Snapshot × Db
read_started wid (err e, db) = (err e, db)
read_started wid (ok _, db) = ((do found ← get_snapshot wid db; or_raise found runtime_error), db)

unfoldable pub start_workflow : AppendReads → ℕ → ℕ → ℕ → Db → Result Snapshot × Db
unfolding transact append_event Transitions.start_workflow
start_workflow reads now wid expected db = read_started wid (
    transact db do
      (workflow, db') ← Transitions.start_workflow wid expected now db
      let db'' =
          append_event reads now "workflow.started" workflow.project_id workflow.id none none db'
      ok (tt, db''))

unfoldable pub transition_stage :
    AppendReads → ℕ → ℕ → Stage → StageRunState → ℕ → ℕ → Db → Result Moved × Db
unfolding transact append_event
transition_stage reads now wid stage target expected_workflow expected_stage db = transact db do
  found_workflow ← get_workflow wid db
  found_run ← get_current_stage_run wid stage db
  workflow ← or_raise found_workflow (not_found Entity.workflow)
  run ← or_raise found_run (not_found Entity.stage_run)
  found_room ← get_room_for_stage_run run.id db
  room ← or_raise found_room runtime_error
  raise_if (is_some (find_active_run_for_room room.id db.agent_runs)) agent_run_active
  require_stage_transition run.state target
  (moved, db') ←
      Transitions.transition_stage wid run.id target expected_workflow expected_stage now db
  ok (moved, append_event reads now "stage_run.transitioned" (moved.0).project_id wid none none db')

abbrev from_stage : Stage → Stage → Bool
from_stage stage s = leb (stage_index stage) (stage_index s)

abbrev is_current_artifact : ArtifactStatus → Bool
is_current_artifact ArtifactStatus.draft = true
is_current_artifact ArtifactStatus.locked = true
is_current_artifact _ = false

-- `invalidate_artifacts_from_stage`, for the stages from `stage` on
unfoldable pub invalidate_artifacts : ℕ → Stage → ℕ → Db → Db
invalidate_artifacts wid stage now db = record db {
  artifact_versions =
      update_where
        (λ v. v.workflow_id == wid && from_stage stage v.stage && is_current_artifact v.status)
        (λ v. record v { status = ArtifactStatus.invalidated; invalidated_at = some now })
        db.artifact_versions;
}

abbrev is_active_handoff : HandoffStatus → Bool
is_active_handoff HandoffStatus.active = true
is_active_handoff HandoffStatus.invalidated = false

-- `invalidate_handoffs_from_stage`
unfoldable pub invalidate_handoffs : ℕ → Stage → ℕ → Db → Db
invalidate_handoffs wid stage now db = record db {
  handoffs =
      update_where
        (λ h. h.workflow_id == wid && from_stage stage h.from_stage && is_active_handoff h.status)
        (λ h. record h { status = HandoffStatus.invalidated; invalidated_at = some now })
        db.handoffs;
}

-- the loop over the affected runs: each has a room, and no agent works in it
abbrev check_rooms_idle : List StageRun → Db → Result (Unit {0})
check_rooms_idle [] db = ok tt
check_rooms_idle (r ∷ rs) db = do
  found ← get_room_for_stage_run r.id db
  room ← or_raise found runtime_error
  raise_if (is_some (find_active_run_for_room room.id db.agent_runs)) agent_run_active
  check_rooms_idle rs db

-- `by_stage[stage].attempt + 1`
abbrev attempt_of : List StageRun → Stage → ℕ
attempt_of [] s = 0
attempt_of (r ∷ rs) s = if stage_eq r.stage s then r.attempt else attempt_of rs s

abbrev has_stage : List StageRun → Stage → Bool
has_stage runs s = any (λ r. stage_eq r.stage s) runs

-- `by_stage[affected_stage]`, which raises where a stage has no run
abbrev check_stages : List StageRun → List Stage → Result (Unit {0})
check_stages runs [] = ok tt
check_stages runs (s ∷ ss) = raise_if (not (has_stage runs s)) runtime_error >> check_stages runs ss

unfoldable pub reopen_stage : (ℕ → ℕ) → AppendReads → ℕ → ℕ → Stage → ℕ → Db → Result Snapshot × Db
unfolding transact append_event invalidate_artifacts invalidate_handoffs make_runs make_rooms
    Reopening.reopen_stage
reopen_stage draw reads now wid stage expected db = transact db do
  found ← get_snapshot wid db
  snapshot ← or_raise found (not_found Entity.workflow)
  let affected = drop (stage_index stage) stage_order
  check_rooms_idle (drop (stage_index stage) snapshot.stage_runs) db
  check_stages snapshot.stage_runs affected
  (reopened, db') ←
      Reopening.reopen_stage wid stage
        (make_runs draw 0 wid stage (λ s. attempt_of snapshot.stage_runs s + 1) now affected)
        (make_rooms draw 0 wid now affected) expected now db
  ok (
    reopened,
    append_event reads now "stage_run.reopened" (reopened.workflow).project_id wid none none
        (invalidate_handoffs wid stage now (invalidate_artifacts wid stage now db')),
  )
