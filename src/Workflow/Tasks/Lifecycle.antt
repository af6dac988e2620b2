-- ===== src/Workflow/Tasks/Lifecycle.antt =====
-- Versions, final states and timestamps of tasks.
use agent_program.Prelude.{
  ℕ, ◌+◌, ◌≤◌, ◌≡◌, ◌≢◌, sym, ◌∙◌, ◌⊎◌, Bool, true, some, arith, get_row, inl, inr, key-get_row,
  get_row-put_row_self,
}
use mathlib.Core.Path.{subst}
use agent_program.Errors.{
  Entity, ok, err, version_conflict, value_error, task_not_queued, task_not_running,
  not_cancellable,
}
use agent_program.Shared.Json.{Json, validate_json_payload}
use agent_program.Workflow.Models.{
  WorkflowTask, TaskStatus, is_task, is_terminal, has_task_timestamps,
}
use agent_program.Workflow.Db.{Db}
use agent_program.Workflow.Queries.{task_key}
use agent_program.Workflow.Tasks.{start_task, complete_task, cancel_task}
use agent_program.Workflow.Tasks.Steps.{
  Wrote, started, ended, outcome, start_task-Wrote, complete_task-Wrote, cancel_task-Wrote,
}

-- The three operations answer that the version has changed.
abbrev pub IsStale : ℕ → ℕ → Db → Type 0
IsStale tid expected db =
    ((now : ℕ) → start_task tid expected now db ≡ err (version_conflict Entity.task))
    × ((now : ℕ) (succeeded : Bool) (result : Json)
        → complete_task tid succeeded result expected now db ≡ err (version_conflict Entity.task))
    × ((now : ℕ) → cancel_task tid expected now db ≡ err (version_conflict Entity.task))

is_stale :
    (tid expected : ℕ) (db : Db) (t : WorkflowTask)
    → get_row task_key tid db.tasks ≡ some t
    → t.version ≡ expected + 1
    → IsStale tid expected db
unfolding start_task complete_task cancel_task
is_stale tid expected db t found version = (
  λ now. ground (arith, found),
  λ now succeeded result. ground (arith, found),
  λ now. ground (arith, found),
)

Wrote-IsStale :
    (tid expected : ℕ) (f : WorkflowTask → WorkflowTask) (db : Db) (t : WorkflowTask) (db' : Db)
    → (w : Wrote tid expected f db t db') → t.id ≡ w.task.id
    → t.version ≡ w.task.version + 1
    → IsStale tid expected db'
Wrote-IsStale tid expected f db t db' w same_id next =
    let own : t.id ≡ tid = same_id ∙ key-get_row task_key tid w.task db.tasks w.found in
    let at_t : get_row task_key t.id db.tasks ≡ some w.task =
      subst (λ k. get_row task_key k db.tasks ≡ some w.task) (sym own) w.found in
    let there : get_row task_key t.id db'.tasks ≡ some t =
      subst (λ (d : Db). get_row task_key t.id d.tasks ≡ some t) (sym w.written)
        (get_row-put_row_self task_key t w.task db.tasks at_t) in
    is_stale tid expected db' t (subst (λ k. get_row task_key k db'.tasks ≡ some t) own there)
      (omega (arith, next, w.version))

-- After a start, a completion or a cancellation that succeeded, every task operation that still
-- expects the old version is refused with a version conflict: no update is lost.
pub old_version_refused :
    (tid expected now : ℕ) (succeeded : Bool) (result : Json) (db : Db) (t : WorkflowTask)
    (db' : Db)
    → ((start_task tid expected now db ≡ ok (t, db'))
        ⊎ ((complete_task tid succeeded result expected now db ≡ ok (t, db'))
            ⊎ (cancel_task tid expected now db ≡ ok (t, db'))))
    → IsStale tid expected db'
old_version_refused tid expected now succeeded result db t db' (inl h) =
    let w = (start_task-Wrote tid expected now db t db' h).0 in
    Wrote-IsStale tid expected (λ x. started x now) db t db' w (rw w.new) (rw w.new)
old_version_refused tid expected now succeeded result db t db' (inr (inl h)) =
    let (w, _) = complete_task-Wrote tid succeeded result expected now db t db' h in
    Wrote-IsStale tid expected (λ x. ended x (outcome succeeded) (some result) now) db t db' w
      (rw w.new) (rw w.new)
old_version_refused tid expected now succeeded result db t db' (inr (inr h)) =
    let (w, _) = cancel_task-Wrote tid expected now db t db' h in
    Wrote-IsStale tid expected (λ x. ended x TaskStatus.cancelled x.result now) db t db' w
      (rw w.new) (rw w.new)

-- A task that succeeded, failed or was cancelled stays so: each operation with the right version is
-- refused, each with its own error.
pub terminal_is_final :
    (tid now : ℕ) (succeeded : Bool) (result : Json) (db : Db) (task : WorkflowTask)
    → get_row task_key tid db.tasks ≡ some task
    → is_terminal task.status ≡ true
    → (start_task tid task.version now db ≡ err task_not_queued)
      × (complete_task tid succeeded result task.version now db ≡ err task_not_running)
      × (cancel_task tid task.version now db ≡ err not_cancellable)
unfolding start_task complete_task cancel_task
terminal_is_final tid now succeeded result db task found final =
    (ground (arith, found), ground (arith, found), ground (arith, found))

-- On a valid task, and at a time not before its creation, no operation fails in the validator of
-- the row that it has written; the result of a completion must be a JSON document.
pub task_operations_keep_valid :
    (tid expected now : ℕ) (succeeded : Bool) (result : Json) (db : Db) (task : WorkflowTask)
    → get_row task_key tid db.tasks ≡ some task
    → is_task task ≡ true
    → task.created_at ≤ now
    → validate_json_payload result ≡ true
    → (start_task tid expected now db ≢ err value_error)
      × (complete_task tid succeeded result expected now db ≢ err value_error)
      × (cancel_task tid expected now db ≢ err value_error)
unfolding start_task complete_task cancel_task is_task has_task_timestamps
task_operations_keep_valid tid expected now succeeded result db task found valid later document =
    (ground (arith, found), ground (arith, found), ground (arith, found))
