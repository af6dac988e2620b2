-- ===== src/Workflow/Tasks/Steps.antt =====
-- What a task operation that succeeded found and wrote.
use agent_program.Prelude.{
  ℕ, ◌+◌, ◌≡◌, Bool, true, false, ◌||◌, Option, some, arith, get_row, any, first_by, Option-cases,
  inl, inr, if◌then◌else◌,
}
use agent_program.Errors.{ok}
use agent_program.Shared.Json.{Json}
use agent_program.Workflow.Models.{TaskStatus, WorkflowTask}
use agent_program.Workflow.Db.{Db}
use agent_program.Workflow.Queries.{task_key}
use agent_program.Workflow.Tasks.{
  is_queued, is_running, running_in, queued_in, queued_before, is_not_first, put_task, start_task,
  complete_task, cancel_task,
}

abbrev pub started : WorkflowTask → ℕ → WorkflowTask
started task now = record task {
  status = TaskStatus.running;
  started_at = some now;
  version = task.version + 1;
}

abbrev pub ended : WorkflowTask → TaskStatus → Option Json → ℕ → WorkflowTask
ended task status result now = record task {
  status = status;
  result = result;
  completed_at = some now;
  version = task.version + 1;
}

-- The row was there with the expected version, and `f` of it was written in its place.
pub record Wrote (tid expected : ℕ) (f : WorkflowTask → WorkflowTask) (db : Db) (t : WorkflowTask)
    (db' : Db) : Type 0 where
  pub task : WorkflowTask
  pub found : get_row task_key tid db.tasks ≡ some task
  pub version : task.version ≡ expected
  pub new : t ≡ f task
  pub written : db' ≡ put_task t db

pub start_task-Wrote :
    (tid expected now : ℕ) (db : Db) (t : WorkflowTask) (db' : Db)
    → start_task tid expected now db ≡ ok (t, db')
    → (w : Wrote tid expected (λ x. started x now) db t db') × (is_queued w.task.status ≡ true)
      × (any (running_in w.task.workflow_id) db.tasks ≡ false)
      × (is_not_first (first_by queued_before (queued_in w.task.workflow_id) db.tasks) w.task.id
          ≡ false)
unfolding start_task
start_task-Wrote tid expected now db t db' h = elim (Option-cases (get_row task_key tid db.tasks)) [
  | inl missing ↦ cc (rw missing at h)
  | inr (task, found) ↦ (
    record {
      task = task;
      found = found;
      version = ground (arith, found);
      new = ground (arith, found);
      written = ground (arith, found);
    },
    ground (arith, found),
    ground (arith, found),
    ground (arith, found),
  )
]

abbrev pub outcome : Bool → TaskStatus
outcome succeeded = if succeeded then TaskStatus.succeeded else TaskStatus.failed

pub complete_task-Wrote :
    (tid : ℕ) (succeeded : Bool) (result : Json) (expected now : ℕ) (db : Db) (t : WorkflowTask)
    (db' : Db)
    → complete_task tid succeeded result expected now db ≡ ok (t, db')
    → (w : Wrote tid expected (λ x. ended x (outcome succeeded) (some result) now) db t db')
      × (is_running w.task.status ≡ true)
unfolding complete_task
complete_task-Wrote tid succeeded result expected now db t db' h =
    elim (Option-cases (get_row task_key tid db.tasks)) [
      | inl missing ↦ cc (rw missing at h)
      | inr (task, found) ↦ (
        record {
          task = task;
          found = found;
          version = ground (arith, found);
          new = ground (arith, found);
          written = ground (arith, found);
        },
        ground (arith, found),
      )
    ]

pub cancel_task-Wrote :
    (tid expected now : ℕ) (db : Db) (t : WorkflowTask) (db' : Db)
    → cancel_task tid expected now db ≡ ok (t, db')
    → (w : Wrote tid expected (λ x. ended x TaskStatus.cancelled x.result now) db t db')
      × ((is_queued w.task.status || is_running w.task.status) ≡ true)
unfolding cancel_task
cancel_task-Wrote tid expected now db t db' h =
    elim (Option-cases (get_row task_key tid db.tasks)) [
      | inl missing ↦ cc (rw missing at h)
      | inr (task, found) ↦ (
        record {
          task = task;
          found = found;
          version = ground (arith, found);
          new = ground (arith, found);
          written = ground (arith, found);
        },
        ground (arith, found),
      )
    ]
