-- ===== src/Workflow/Rooms/Grants.antt =====
-- A task that has ended keeps no grant of a capability.
use agent_program.Events.Log.{AppendReads}
use agent_program.Prelude.{
  ℕ, some, key-get_row, ◌≡◌, ◌⊎◌, refl, ◌∙◌, Bool, true, false, List, [], ◌∷◌, arith, count,
  update_where, Bool-cases, inl, inr, if◌then◌else◌,
}
use Prim.Native.String.{String}
use agent_program.Errors.{Result, ok, >>=-eq-ok, or_raise, runtime_error}
use agent_program.Shared.Json.{Json}
use agent_program.Workflow.Models.{WorkflowTask, TaskStatus, is_terminal}
use agent_program.Workflow.Db.{Db, CapabilityRequest}
use agent_program.Workflow.Tasks.Steps.{
  Wrote, ended, outcome, complete_task-Wrote, cancel_task-Wrote,
}
use agent_program.Workflow.Tasks.Queue.{
  IsQueue, start_task-IsQueue, complete_task-IsQueue, cancel_task-IsQueue,
}
use agent_program.Workflow.Queries.{task_key}
use agent_program.Workflow.Uow.{append_event, transact-eq-ok}
use agent_program.Workflow.Service.{get_workflow}
use agent_program.Workflow.Rooms.{
  start_task, open_for, expired, expire_capabilities_for_task, mutate_task, complete_task,
  cancel_task,
}

-- The requests of a task that are pending or approved.
abbrev pub open_requests : ℕ → Db → ℕ
open_requests tid db = count (open_for tid) db.capability_requests

count-expired :
    (tid now : ℕ) (rs : List CapabilityRequest)
    → count (open_for tid) (update_where (open_for tid) (expired now) rs) ≡ 0
count-expired tid now [] = refl
count-expired tid now (r ∷ rs) = elim (Bool-cases (open_for tid r)) [
  | inl hit ↦ rw (hit, count-expired tid now rs) (ground arith)
  | inr miss ↦ rw (miss, miss, count-expired tid now rs) (ground arith)
]

-- What an answered `_mutate_task` has called.
pub mutate_task_called :
    (reads : AppendReads) (now : ℕ) (event_type : String)
    (mutate : ℕ → Db → Result (WorkflowTask × Db)) (db : Db) (t : WorkflowTask) (db' : Db)
    → mutate_task reads now event_type mutate db ≡ (ok t, db')
    → (db₁ : Db) × (mutate now db ≡ ok (t, db₁))
      × (db'.tasks ≡ db₁.tasks)
      × (is_terminal t.status ≡ true → open_requests t.id db' ≡ 0)
unfolding mutate_task append_event expire_capabilities_for_task
mutate_task_called reads now event_type mutate db t db' h =
    let body = transact-eq-ok db _ h in
    let ((task, db₁), called, p₁) = >>=-eq-ok (mutate now db) _ body in
    let (found, _, p₂) = >>=-eq-ok (get_workflow task.workflow_id db₁) _ p₁ in
    let (workflow, _, p₃) = >>=-eq-ok (or_raise found runtime_error) _ p₂ in
    let same : task ≡ t = ground (arith, p₃) in
    let requests : db'.capability_requests
        ≡ (if is_terminal task.status
            then expire_capabilities_for_task task.id now db₁
            else db₁).capability_requests =
      ground (arith, p₃) in
    (
      db₁,
      rw (← same) called,
      ground (arith, p₃),
      λ final. rw (requests, same, final) (count-expired t.id now db₁.capability_requests),
    )

outcome-is_terminal : (succeeded : Bool) → is_terminal (outcome succeeded) ≡ true
outcome-is_terminal true = refl
outcome-is_terminal false = refl

Wrote-id :
    (tid expected : ℕ) (f : WorkflowTask → WorkflowTask) (db : Db) (t : WorkflowTask) (db' : Db)
    → (w : Wrote tid expected f db t db') → t.id ≡ w.task.id
    → t.id ≡ tid
Wrote-id tid expected f db t db' w same = same ∙ key-get_row task_key tid w.task db.tasks w.found

-- Once a completion or a cancellation of a task is answered, no capability request of the task is
-- pending or approved.
pub ended_task_has_no_grants :
    (reads : AppendReads) (now tid : ℕ) (succeeded : Bool) (result : Json) (expected : ℕ) (db : Db)
    (t : WorkflowTask) (db' : Db)
    → ((complete_task reads now tid succeeded result expected db ≡ (ok t, db'))
        ⊎ (cancel_task reads now tid expected db ≡ (ok t, db')))
    → open_requests tid db' ≡ 0
unfolding complete_task cancel_task
ended_task_has_no_grants reads now tid succeeded result expected db t db' (inl h) =
    let (db₁, called, _, none_open) = mutate_task_called reads now _ _ db t db' h in
    let w = (complete_task-Wrote tid succeeded result expected now db t db₁ called).0 in
    let own =
      Wrote-id tid expected (λ x. ended x (outcome succeeded) (some result) now) db t db₁ w
        (rw w.new) in
    rw own at (none_open (rw w.new (outcome-is_terminal succeeded)))
ended_task_has_no_grants reads now tid succeeded result expected db t db' (inr h) =
    let (db₁, called, _, none_open) = mutate_task_called reads now _ _ db t db' h in
    let w = (cancel_task-Wrote tid expected now db t db₁ called).0 in
    let own =
      Wrote-id tid expected (λ x. ended x TaskStatus.cancelled x.result now) db t db₁ w
        (rw w.new) in
    rw own at (none_open (rw w.new))

-- The handlers that start, complete and cancel a task keep the identifiers of the tasks distinct and
-- every workflow at no more than one running task.
pub task_handlers-IsQueue :
    (reads : AppendReads) (now tid : ℕ) (succeeded : Bool) (result : Json) (expected : ℕ) (db : Db)
    (t : WorkflowTask) (db' : Db)
    → IsQueue db.tasks
    → ((start_task reads now tid expected db ≡ (ok t, db'))
        ⊎ ((complete_task reads now tid succeeded result expected db ≡ (ok t, db'))
            ⊎ (cancel_task reads now tid expected db ≡ (ok t, db'))))
    → IsQueue db'.tasks
unfolding start_task complete_task cancel_task
task_handlers-IsQueue reads now tid succeeded result expected db t db' q (inl h) =
    let (db₁, called, same, _) = mutate_task_called reads now _ _ db t db' h in
    rw same (start_task-IsQueue tid expected now db t db₁ q called)
task_handlers-IsQueue reads now tid succeeded result expected db t db' q (inr (inl h)) =
    let (db₁, called, same, _) = mutate_task_called reads now _ _ db t db' h in
    rw same (complete_task-IsQueue tid expected now db t db₁ q succeeded result called)
task_handlers-IsQueue reads now tid succeeded result expected db t db' q (inr (inr h)) =
    let (db₁, called, same, _) = mutate_task_called reads now _ _ db t db' h in
    rw same (cancel_task-IsQueue tid expected now db t db₁ q called)
