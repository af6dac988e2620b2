-- ===== src/Workflow/Tasks.antt =====
-- The task queue of `SqlAlchemyWorkflowRepository`
-- (backend/src/agent_platform/infrastructure/database/workflow_repository.py).
pub mod Steps
pub mod Queue
pub mod Lifecycle
use agent_program.Prelude.{
  ℕ, ◌+◌, Bool, true, false, ◌&&◌, ◌||◌, not, Option, none, some, [], ◌∷◌, ◌++◌, ◌==◌, ltb,
  if◌then◌else◌, put_row, any, first_by,
}
use agent_program.Errors.{
  Entity, Result, ok, task_not_queued, workflow_busy, queue_order_conflict, task_not_running,
  not_cancellable, ◌>>=◌, ◌>>◌, raise_if,
}
use agent_program.Shared.Json.{Json}
use agent_program.Workflow.Models.{TaskStatus, WorkflowTask}
use agent_program.Workflow.Db.{Db, task_from_row}
use agent_program.Workflow.Queries.{task_key, require_version, require_task_row}

abbrev pub is_queued : TaskStatus → Bool
is_queued TaskStatus.queued = true
is_queued _ = false

abbrev pub is_running : TaskStatus → Bool
is_running TaskStatus.running = true
is_running _ = false

unfoldable pub add_task : WorkflowTask → Db → Db
add_task task db = record db { tasks = db.tasks ++ task ∷ [] }

abbrev pub running_in : ℕ → WorkflowTask → Bool
running_in wid t = t.workflow_id == wid && is_running t.status

abbrev pub queued_in : ℕ → WorkflowTask → Bool
queued_in wid t = t.workflow_id == wid && is_queued t.status

-- `order_by(created_at, id)`
abbrev pub queued_before : WorkflowTask → WorkflowTask → Bool
queued_before a b = ltb a.created_at b.created_at || (a.created_at == b.created_at && ltb a.id b.id)

-- `first_queued != task.id`, where the query returned an identifier or None
abbrev pub is_not_first : Option WorkflowTask → ℕ → Bool
is_not_first none tid = true
is_not_first (some t) tid = not (t.id == tid)

abbrev pub put_task : WorkflowTask → Db → Db
put_task t db = record db { tasks = put_row task_key t db.tasks }

-- the flush and the reading back at the end of every operation
unfoldable pub save_task : WorkflowTask → Db → Result (WorkflowTask × Db)
save_task task db = do t ← task_from_row task; ok (t, put_task task db)

unfoldable pub start_task : ℕ → ℕ → ℕ → Db → Result (WorkflowTask × Db)
unfolding require_task_row require_version save_task
start_task tid expected now db = do
  task ← require_task_row tid db
  require_version Entity.task task.version expected
  raise_if (not (is_queued task.status)) task_not_queued
  raise_if (any (running_in task.workflow_id) db.tasks) workflow_busy
  raise_if (is_not_first (first_by queued_before (queued_in task.workflow_id) db.tasks) task.id)
      queue_order_conflict
  save_task
      (record task {
        status = TaskStatus.running;
        started_at = some now;
        version = task.version + 1;
      })
      db

unfoldable pub complete_task : ℕ → Bool → Json → ℕ → ℕ → Db → Result (WorkflowTask × Db)
unfolding require_task_row require_version save_task
complete_task tid succeeded result expected now db = do
  task ← require_task_row tid db
  require_version Entity.task task.version expected
  raise_if (not (is_running task.status)) task_not_running
  save_task
      (record task {
        status = if succeeded then TaskStatus.succeeded else TaskStatus.failed;
        result = some result;
        completed_at = some now;
        version = task.version + 1;
      })
      db

unfoldable pub cancel_task : ℕ → ℕ → ℕ → Db → Result (WorkflowTask × Db)
unfolding require_task_row require_version save_task
cancel_task tid expected now db = do
  task ← require_task_row tid db
  require_version Entity.task task.version expected
  raise_if (not (is_queued task.status || is_running task.status)) not_cancellable
  save_task
      (record task {
        status = TaskStatus.cancelled;
        completed_at = some now;
        version = task.version + 1;
      })
      db
