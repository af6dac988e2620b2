-- ===== src/Workflow/Tasks/Queue.antt =====
-- The queue of a workflow's tasks: one runs at a time, the oldest is started first.
use agent_program.Prelude.{
  ℕ, ◌+◌, ◌≤◌, ◌≡◌, refl, ap, sym, ◌∙◌, Bool, true, false, Option, none, some, List, arith, get_row,
  put_row, any, count, count-append, first_by, Bool-cases, inl, inr, ◌==◌, All, KeysDistinct,
  count-put_row, count_none, put_row-KeysDistinct, append-KeysDistinct, bit, key-get_row,
  first_by_least, first_by-All, All-get_row_self, ==_iff, if◌then◌else◌,
}
use mathlib.Core.Path.{subst}
use agent_program.Errors.{ok}
use agent_program.Shared.Json.{Json}
use agent_program.Workflow.Models.{TaskStatus, WorkflowTask}
use agent_program.Workflow.Db.{Db}
use agent_program.Workflow.Queries.{task_key}
use agent_program.Workflow.Tasks.{
  is_queued, is_running, running_in, queued_in, queued_before, is_not_first, add_task, start_task,
  complete_task, cancel_task,
}
use agent_program.Workflow.Tasks.Steps.{
  Wrote, started, ended, outcome, start_task-Wrote, complete_task-Wrote, cancel_task-Wrote,
}

-- The identifiers of the tasks are distinct, and every workflow has at most one running task.
pub record IsQueue (tasks : List WorkflowTask) : Type 0 where
  pub distinct : KeysDistinct task_key tasks
  pub one_running : (wid : ℕ) → count (running_in wid) tasks ≤ 1

-- A write over a row that a task operation found.
module _ (tid expected : ℕ) (f : WorkflowTask → WorkflowTask) (db : Db) (t : WorkflowTask)
    (db' : Db) (w : Wrote tid expected f db t db') (same_id : t.id ≡ w.task.id) where
  tasks_written : db'.tasks ≡ put_row task_key t db.tasks
  tasks_written = ap (λ (d : Db). d.tasks) w.written

  found_at : get_row task_key (task_key t) db.tasks ≡ some w.task
  found_at =
      subst (λ k. get_row task_key k db.tasks ≡ some w.task)
        (sym (same_id ∙ key-get_row task_key tid w.task db.tasks w.found)) w.found

  pub wrote_count :
      (test : WorkflowTask → Bool)
      → KeysDistinct task_key db.tasks
      → count test db'.tasks + bit (test w.task) ≡ count test db.tasks + bit (test t)
  wrote_count test d = rw tasks_written (count-put_row task_key test t w.task db.tasks d found_at)

  pub Wrote-KeysDistinct : KeysDistinct task_key db.tasks → KeysDistinct task_key db'.tasks
  Wrote-KeysDistinct d = rw tasks_written (put_row-KeysDistinct task_key t db.tasks d)

new_waits :
    (wid : ℕ) (task : WorkflowTask) {n : ℕ}
    → is_running task.status ≡ false
    → n ≤ 1
    → n + ((if running_in wid task then 1 else 0) + 0) ≤ 1
new_waits wid task waiting h = ground arith

outcome_stops : (succeeded : Bool) → is_running (outcome succeeded) ≡ false
outcome_stops true = refl
outcome_stops false = refl

-- Adding a task that is not running and whose identifier no task has keeps the identifiers distinct
-- and every workflow at no more than one running task.
pub add_task-IsQueue :
    (task : WorkflowTask) (db : Db)
    → IsQueue db.tasks
    → is_running task.status ≡ false
    → get_row task_key task.id db.tasks ≡ none
    → IsQueue (add_task task db).tasks
unfolding add_task
add_task-IsQueue task db q waiting fresh = record {
  distinct = append-KeysDistinct task_key task db.tasks q.distinct fresh;
  one_running = λ wid. rw count-append (new_waits wid task waiting (q.one_running wid));
}

module _ (tid expected now : ℕ) (db : Db) (t : WorkflowTask) (db' : Db) (q : IsQueue db.tasks) where
  started_one :
      (wid : ℕ) (task : WorkflowTask)
      → any (running_in task.workflow_id) db.tasks ≡ false
      → count (running_in wid) db.tasks + bit (running_in wid (started task now)) ≤ 1
  started_one wid task free = elim (Bool-cases (task.workflow_id == wid)) [
    | inl same ↦
        let at_zero : count (running_in task.workflow_id) db.tasks ≡ 0 =
          count_none (running_in task.workflow_id) db.tasks free in
        ground (arith, (==_iff task.workflow_id wid).0 same, at_zero)
    | inr other ↦ ground (arith, q.one_running wid)
  ]

  -- A start that succeeded keeps the identifiers distinct and every workflow at no more than one
  -- running task.
  pub start_task-IsQueue : start_task tid expected now db ≡ ok (t, db') → IsQueue db'.tasks
  start_task-IsQueue h =
      let (w, queued, free, first) = start_task-Wrote tid expected now db t db' h in
      record {
        distinct =
            Wrote-KeysDistinct tid expected (λ x. started x now) db t db' w (rw w.new) q.distinct;
        one_running = λ wid. omega (
          arith,
          wrote_count tid expected (λ x. started x now) db t db' w (rw w.new) (running_in wid)
              q.distinct,
          subst (λ x. count (running_in wid) db.tasks + bit (running_in wid x) ≤ 1) (sym w.new)
              (started_one wid w.task free),
        );
      }

  ended-IsQueue :
      (f : WorkflowTask → WorkflowTask) (w : Wrote tid expected f db t db')
      → t.id ≡ w.task.id
      → is_running t.status ≡ false
      → IsQueue db'.tasks
  ended-IsQueue f w same_id stopped = record {
    distinct = Wrote-KeysDistinct tid expected f db t db' w same_id q.distinct;
    one_running = λ wid.
        let counted = wrote_count tid expected f db t db' w same_id (running_in wid) q.distinct in
        ground (arith, counted, q.one_running wid);
  }

  -- A completion that succeeded keeps the identifiers distinct and every workflow at no more than
  -- one running task.
  pub complete_task-IsQueue :
      (succeeded : Bool) (result : Json)
      → complete_task tid succeeded result expected now db ≡ ok (t, db')
      → IsQueue db'.tasks
  complete_task-IsQueue succeeded result h =
      let (w, running) = complete_task-Wrote tid succeeded result expected now db t db' h in
      ended-IsQueue (λ x. ended x (outcome succeeded) (some result) now) w (rw w.new)
        (rw w.new (outcome_stops succeeded))

  -- A cancellation that succeeded keeps the identifiers distinct and every workflow at no more than
  -- one running task.
  pub cancel_task-IsQueue : cancel_task tid expected now db ≡ ok (t, db') → IsQueue db'.tasks
  cancel_task-IsQueue h =
      let (w, live) = cancel_task-Wrote tid expected now db t db' h in
      ended-IsQueue (λ x. ended x TaskStatus.cancelled x.result now) w (rw w.new) (rw w.new)

queued_before_asym : (a b : WorkflowTask) → queued_before a b ≡ true → queued_before b a ≡ false
queued_before_asym a b h = ground arith

queued_before_neg_trans :
    (a b c : WorkflowTask)
    → queued_before a b ≡ false
    → queued_before b c ≡ false
    → queued_before a c ≡ false
queued_before_neg_trans a b c h k = ground arith

-- the first of the queue is the task that `start_task` was asked for
first_is :
    (o : Option WorkflowTask) (tid : ℕ)
    → is_not_first o tid ≡ false
    → (b : WorkflowTask) × (o ≡ some b) × (b.id ≡ tid)
first_is none tid h = cc
first_is (some b) tid h = (b, refl, ground arith)

-- A task that was started was queued, no task of its workflow was running, and no queued task of
-- its workflow was created before it (or at the same time with a smaller identifier).
pub started_is_first :
    (tid expected now : ℕ) (db : Db) (t : WorkflowTask) (db' : Db)
    → IsQueue db.tasks
    → start_task tid expected now db ≡ ok (t, db')
    → (task : WorkflowTask) × (get_row task_key tid db.tasks ≡ some task)
      × (is_queued task.status ≡ true)
      × (count (running_in task.workflow_id) db.tasks ≡ 0)
      × All (λ x. queued_in task.workflow_id x ≡ true → queued_before x task ≡ false) db.tasks
started_is_first tid expected now db t db' q h =
    let (w, queued, free, first) = start_task-Wrote tid expected now db t db' h in
    let task = w.task in
    let (b, found, same) =
      first_is (first_by queued_before (queued_in task.workflow_id) db.tasks) task.id first in
    let own =
      first_by-All queued_before (λ x. get_row task_key (task_key x) db.tasks ≡ some x)
        (queued_in task.workflow_id) b db.tasks (All-get_row_self task_key db.tasks q.distinct)
        found in
    let at_b : get_row task_key b.id db.tasks ≡ some task =
      subst (λ k. get_row task_key k db.tasks ≡ some task)
        (sym (same ∙ key-get_row task_key tid task db.tasks w.found)) w.found in
    let is_task : b ≡ task = cc (at_b, own.0) in
    (
      task,
      w.found,
      queued,
      count_none (running_in task.workflow_id) db.tasks free,
      subst
          (λ x. All (λ y. queued_in task.workflow_id y ≡ true → queued_before y x ≡ false) db.tasks)
          is_task
          (first_by_least queued_before queued_before_asym queued_before_neg_trans
            (queued_in task.workflow_id) b db.tasks found),
    )
