-- ===== src/Workflow/Transitions.antt =====
-- `start_workflow` and `transition_stage` of `SqlAlchemyWorkflowRepository`
-- (backend/src/agent_platform/infrastructure/database/workflow_repository.py). An operation returns
-- its result beside the written tables, or raises; a raise leaves the tables to the unit of work,
-- which rolls them back.
pub mod Steps
pub mod Pipeline
pub mod Keeps
use agent_program.Prelude.{
  ℕ, ◌+◌, Bool, ◌&&◌, not, Option, none, some, ◌==◌, if◌then◌else◌, put_row,
}
use agent_program.Errors.{
  Entity, Result, ok, err, not_found, already_started, not_running, not_current, Error,
  runtime_error, ◌>>=◌, ◌>>◌, raise_if,
}
use agent_program.Contracts.Stages.{
  Stage, stage_eq, successor, StageRunState, ready, discussing, locked, completed, abandoned,
  state_eq,
}
use agent_program.Workflow.Machine.{is_stopped}
use agent_program.Workflow.Models.{WorkflowStatus, status_eq, RoomStatus, Workflow, StageRun, Room}
use agent_program.Workflow.Db.{Db, workflow_from_row, stage_run_from_row}
use agent_program.Workflow.Queries.{
  workflow_key, run_key, room_key, require_version, require_workflow_row, require_stage_run_row,
  require_room_for_stage_run_row, current_stage_run_row,
}

unfoldable pub start_workflow : ℕ → ℕ → ℕ → Db → Result (Workflow × Db)
unfolding require_workflow_row require_version
start_workflow wid expected now db = do
  row ← require_workflow_row wid db
  require_version Entity.workflow row.version expected
  raise_if (not (status_eq row.status WorkflowStatus.created)) already_started
  let row' = record row {
    status = WorkflowStatus.running;
    version = row.version + 1;
    updated_at = now;
  }
  workflow ← workflow_from_row row'
  ok (workflow, record db { workflows = put_row workflow_key row' db.workflows })

-- What `transition_stage` returns: the workflow, the stage run, and the run that was unlocked.
abbrev pub Moved : Type 0
Moved = Workflow × StageRun × Option StageRun

abbrev pub optional_run : Option StageRun → Result (Option StageRun)
optional_run none = ok none
optional_run (some r) = do r' ← stage_run_from_row r; ok (some r')

abbrev pub put_optional_run : Option StageRun → Db → Db
put_optional_run none db = db
put_optional_run (some r) db = record db { stage_runs = put_row run_key r db.stage_runs }

-- the end of `transition_stage`, after both branches on the target
unfoldable pub finish : ℕ → Workflow → StageRun → Option StageRun → Db → Result (Moved × Db)
finish now workflow run unlocked db = do
  let workflow' = record workflow { version = workflow.version + 1; updated_at = now }
  w ← workflow_from_row workflow'
  r ← stage_run_from_row run
  u ← optional_run unlocked
  ok (
    (w, r, u),
    put_optional_run unlocked
        (record db { workflows = put_row workflow_key workflow' db.workflows }),
  )

abbrev pub close_room : Room → RoomStatus → ℕ → Room
close_room room status now = record room {
  status = status;
  version = room.version + 1;
  updated_at = now;
}

abbrev pub put_room : Room → Db → Db
put_room room db = record db { rooms = put_row room_key room db.rooms }

abbrev pub put_run : StageRun → Db → Db
put_run run db = record db { stage_runs = put_row run_key run db.stage_runs }

-- `if unlocked is None or … is not LOCKED: raise`, then the unlocking
unfoldable pub unlock : ℕ → Workflow → StageRun → Stage → Option StageRun → Db → Result (Moved × Db)
unfolding finish
unlock now workflow run next none db = err runtime_error
unlock now workflow run next (some u) db = do
  raise_if (not (state_eq u.state locked)) runtime_error
  finish now (record workflow { current_stage = next }) run
      (some (record u { state = ready; version = u.version + 1 })) db

-- the branch on `next_stage`
unfoldable pub advance : ℕ → Workflow → StageRun → Option Stage → Db → Result (Moved × Db)
unfolding unlock current_stage_run_row
advance now workflow run none db =
    finish now (record workflow { status = WorkflowStatus.completed }) run none db
advance now workflow run (some next) db =
    unlock now workflow run next (current_stage_run_row workflow.id next db.stage_runs) db

-- `if target is COMPLETED: … elif target in {FAILED, CANCELLED, ABANDONED}: …`
unfoldable pub settle : ℕ → Workflow → StageRun → StageRunState → Room → Db → Result (Moved × Db)
unfolding advance successor
settle now workflow run target room db =
    if state_eq target completed
    then (let run' = record run { completed_at = some now } in
        advance now workflow run' (successor run.stage)
          (put_run run' (put_room (close_room room RoomStatus.consultation now) db)))
    else if is_stopped target
    then finish now
        (record workflow {
          status =
              if state_eq target abandoned then WorkflowStatus.abandoned else WorkflowStatus.failed;
        })
        run none (put_run run (put_room (close_room room RoomStatus.archived now) db))
    else finish now workflow run none (put_run run db)

-- `resumes_warning`
abbrev pub resumes_warning : Workflow → StageRun → StageRunState → Bool
resumes_warning workflow run target =
    status_eq workflow.status WorkflowStatus.warning_blocked
    && state_eq run.state StageRunState.warning_blocked
    && state_eq target discussing

-- the guards of `transition_stage`
unfoldable pub check_transition : Workflow → StageRun → StageRunState → Result (Unit {0})
check_transition workflow run target = do
  raise_if
      (not (status_eq workflow.status WorkflowStatus.running)
        && not (resumes_warning workflow run target))
      not_running
  raise_if (not (stage_eq workflow.current_stage run.stage)) not_current
  raise_if (state_eq run.state locked) Error.locked

-- the run with its new state, and with `started_at` on the first move out of READY
abbrev pub moved_run : StageRun → StageRunState → ℕ → StageRun
moved_run run target now = record run {
  started_at =
      if state_eq run.state ready && state_eq target discussing then some now else run.started_at;
  state = target;
  version = run.version + 1;
}

abbrev pub resumed : Workflow → Bool → Workflow
resumed workflow resumes = record workflow {
  status = if resumes then WorkflowStatus.running else workflow.status;
}

unfoldable pub transition_stage : ℕ → ℕ → StageRunState → ℕ → ℕ → ℕ → Db → Result (Moved × Db)
unfolding require_workflow_row require_stage_run_row require_version require_room_for_stage_run_row
transition_stage wid rid target expected_workflow expected_stage now db = do
  workflow ← require_workflow_row wid db
  run ← require_stage_run_row rid db
  raise_if (not (run.workflow_id == wid)) (not_found Entity.stage_run)
  require_version Entity.workflow workflow.version expected_workflow
  require_version Entity.stage_run run.version expected_stage
  check_transition workflow run target
  room ← require_room_for_stage_run_row rid db
  settle now (resumed workflow (resumes_warning workflow run target)) (moved_run run target now)
      target room db
