-- ===== src/Workflow/Reopening.antt =====
-- `reopen_stage` of `SqlAlchemyWorkflowRepository`
-- (backend/src/agent_platform/infrastructure/database/workflow_repository.py).
pub mod Runs
pub mod Cancels
use agent_program.Prelude.{
  ℕ, ◌+◌, Bool, true, false, ◌&&◌, not, Option, none, some, List, ◌++◌, ◌==◌, leb, put_row,
  update_where, any,
}
use agent_program.Errors.{
  Entity, Result, ok, reopen_requires_completion, ◌>>=◌, ◌>>◌, raise_if, or_raise, runtime_error,
}
use agent_program.Contracts.Stages.{Stage, stage_index, completed, state_eq}
use agent_program.Workflow.Models.{
  WorkflowStatus, RoomStatus, TaskStatus, Workflow, StageRun, Room, WorkflowTask,
}
use agent_program.Workflow.Db.{Db}
use agent_program.Workflow.Snapshots.{Snapshot, get_snapshot}
use agent_program.Workflow.Transitions.{close_room}
use agent_program.Workflow.Queries.{
  workflow_key, require_version, require_workflow_row, current_stage_run_row,
  current_stage_run_rows,
}

-- `target is None or StageRunState(target.state) is not COMPLETED`
abbrev pub not_completed : Option StageRun → Bool
not_completed none = true
not_completed (some r) = not (state_eq r.state completed)

-- `row.id in affected_run_ids`: the runs are the current ones of the stage and those behind it.
abbrev pub is_affected : Stage → List StageRun → ℕ → Bool
is_affected stage rows rid =
    any (λ r. leb (stage_index stage) (stage_index r.stage) && r.id == rid) rows

abbrev pub is_pending : TaskStatus → Bool
is_pending TaskStatus.queued = true
is_pending TaskStatus.running = true
is_pending _ = false

abbrev pub cancelled_task : ℕ → WorkflowTask → WorkflowTask
cancelled_task now t = record t {
  status = TaskStatus.cancelled;
  version = t.version + 1;
  completed_at = some now;
}

-- The tables that `reopen_stage` leaves, and the workflow row in them.
abbrev pub reopened_workflow : Workflow → Stage → ℕ → Workflow
reopened_workflow w stage now = record w {
  status = WorkflowStatus.running;
  current_stage = stage;
  version = w.version + 1;
  updated_at = now;
}

unfoldable pub reopened_db : Workflow → Stage → List StageRun → List Room → ℕ → Db → Db
unfolding current_stage_run_rows
reopened_db w stage new_runs new_rooms now db =
    let affected = is_affected stage (current_stage_run_rows w.id db.stage_runs) in
    record db {
      rooms =
          update_where (λ r. affected r.stage_run_id) (λ r. close_room r RoomStatus.archived now)
            db.rooms
          ++ new_rooms;
      tasks =
          update_where (λ t. affected t.stage_run_id && is_pending t.status) (cancelled_task now)
            db.tasks;
      stage_runs = db.stage_runs ++ new_runs;
      workflows = put_row workflow_key (reopened_workflow w stage now) db.workflows;
    }

-- the guards, the writes and the reading back
unfoldable pub reopen_stage :
    ℕ → Stage → List StageRun → List Room → ℕ → ℕ → Db → Result (Snapshot × Db)
unfolding require_workflow_row require_version current_stage_run_row reopened_db
reopen_stage wid stage new_runs new_rooms expected now db = do
  workflow ← require_workflow_row wid db
  require_version Entity.workflow workflow.version expected
  raise_if (not_completed (current_stage_run_row wid stage db.stage_runs))
      reopen_requires_completion
  let db' = reopened_db workflow stage new_runs new_rooms now db
  found ← get_snapshot wid db'
  snapshot ← or_raise found runtime_error
  ok (snapshot, db')
