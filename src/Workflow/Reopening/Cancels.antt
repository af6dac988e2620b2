-- ===== src/Workflow/Reopening/Cancels.antt =====
-- What a reopening does to the work on the stages that it opens again.
use agent_program.Prelude.{
  ℕ, ◌+◌, ◌≡◌, ◌≢◌, ◌⊎◌, refl, Bool, true, false, ◌&&◌, List, ◌++◌, arith, some, Pairwise,
  update_where, update_where-Pairwise, Bool-cases, inl, inr, get_row, key-get_row, Option-cases,
}
use mathlib.Core.Path.{subst}
use agent_program.Errors.{
  Entity, ok, >>=-eq-ok, >>-eq-ok, or_raise, raise_if, not_found, runtime_error,
  reopen_requires_completion,
}
use agent_program.Contracts.Stages.{Stage}
use agent_program.Workflow.Models.{TaskStatus, RoomStatus, Workflow, StageRun, Room, WorkflowTask}
use agent_program.Workflow.Db.{Db}
use agent_program.Workflow.Queries.{
  workflow_key, require_version, current_stage_run_row, current_stage_run_rows,
}
use agent_program.Workflow.Snapshots.{Snapshot, get_snapshot}
use agent_program.Workflow.Transitions.{close_room}
use agent_program.Workflow.Reopening.Runs.{IsReplaced, affected-IsReplaced, unaffected_kept}
use agent_program.Workflow.Reopening.{
  reopen_stage, reopened_db, not_completed, is_affected, is_pending, cancelled_task,
}

-- A task before and after: one of a replaced run that was queued or running is cancelled, at that
-- time and with the next version, and any other is as it was.
abbrev pub Cancelled : (ℕ → Type 0) → ℕ → WorkflowTask → WorkflowTask → Type 0
Cancelled replaced now t t' =
    (replaced t.stage_run_id
      × ((t.status ≡ TaskStatus.queued) ⊎ (t.status ≡ TaskStatus.running))
      × (t'.status ≡ TaskStatus.cancelled)
      × (t'.version ≡ t.version + 1)
      × (t'.completed_at ≡ some now)
      × (t'.id ≡ t.id)
      × (t'.stage_run_id ≡ t.stage_run_id))
    ⊎ ((¬ (replaced t.stage_run_id)
          ⊎ ((t.status ≢ TaskStatus.queued) × (t.status ≢ TaskStatus.running)))
        × (t' ≡ t))

-- A room before and after: one of a replaced run is archived, and any other is as it was.
abbrev pub Archived : (ℕ → Type 0) → Room → Room → Type 0
Archived replaced r r' =
    (replaced r.stage_run_id
      × (r'.status ≡ RoomStatus.archived)
      × (r'.version ≡ r.version + 1)
      × (r'.id ≡ r.id))
    ⊎ (¬ (replaced r.stage_run_id) × (r' ≡ r))

pending_status :
    (s : TaskStatus) → is_pending s ≡ true → (s ≡ TaskStatus.queued) ⊎ (s ≡ TaskStatus.running)
pending_status TaskStatus.queued h = inl refl
pending_status TaskStatus.running h = inr refl
pending_status _ h = cc

over_status :
    (s : TaskStatus) → is_pending s ≡ false → (s ≢ TaskStatus.queued) × (s ≢ TaskStatus.running)
over_status TaskStatus.queued h = cc
over_status TaskStatus.running h = cc
over_status _ h = ((λ e. cc), (λ e. cc))

module _ (wid : ℕ) (stage : Stage) (runs : List StageRun) (now : ℕ) where
  abbrev affected : ℕ → Bool
  affected = is_affected stage (current_stage_run_rows wid runs)

  task_hit :
      (t : WorkflowTask)
      → (affected t.stage_run_id && is_pending t.status) ≡ true
      → Cancelled (IsReplaced wid stage runs) now t (cancelled_task now t)
  task_hit t h =
      let own : affected t.stage_run_id ≡ true = ground (arith, h) in
      let pending : is_pending t.status ≡ true = ground (arith, h) in
      inl (
        affected-IsReplaced wid stage runs t.stage_run_id own,
        pending_status t.status pending,
        refl,
        refl,
        refl,
        refl,
        refl,
      )

  task_miss :
      (t : WorkflowTask)
      → (affected t.stage_run_id && is_pending t.status) ≡ false
      → Cancelled (IsReplaced wid stage runs) now t t
  task_miss t h = elim (Bool-cases (affected t.stage_run_id)) [
    | inl own ↦ inr (inr (over_status t.status (rw own at h)), refl)
    | inr other ↦ inr (inl (unaffected_kept wid stage runs t.stage_run_id other), refl)
  ]

  cancels :
      (ts : List WorkflowTask)
      → Pairwise (Cancelled (IsReplaced wid stage runs) now) ts (
          update_where
            (λ t. affected t.stage_run_id && is_pending t.status)
            (cancelled_task now)
            ts)
  cancels ts =
      update_where-Pairwise (Cancelled (IsReplaced wid stage runs) now)
        (λ t. affected t.stage_run_id && is_pending t.status) (cancelled_task now) task_hit
        task_miss ts

  archives :
      (rooms : List Room)
      → Pairwise (Archived (IsReplaced wid stage runs)) rooms (
          update_where
            (λ r. affected r.stage_run_id)
            (λ r. close_room r RoomStatus.archived now)
            rooms)
  archives rooms =
      update_where-Pairwise (Archived (IsReplaced wid stage runs)) (λ r. affected r.stage_run_id)
        (λ r. close_room r RoomStatus.archived now)
        (λ r h. inl (affected-IsReplaced wid stage runs r.stage_run_id h, refl, refl, refl))
        (λ r h. inr (unaffected_kept wid stage runs r.stage_run_id h, refl)) rooms

key_of :
    (wid : ℕ) (db : Db) (w : Workflow)
    → or_raise (get_row workflow_key wid db.workflows) (not_found Entity.workflow) ≡ ok w
    → w.id ≡ wid
key_of wid db w h = elim (Option-cases (get_row workflow_key wid db.workflows)) [
  | inl missing ↦ cc (rw missing at h)
  | inr (r, found) ↦
      let same : r ≡ w = cc (rw found at h) in
      subst (λ (x : Workflow). x.id ≡ wid) same (key-get_row workflow_key wid r db.workflows found)
]

-- What a reopening makes of the tasks and the rooms.
abbrev pub Ends : ℕ → Stage → ℕ → List Room → Db → Db → Type 0
Ends wid stage now new_rooms db db' =
    Pairwise (Cancelled (IsReplaced wid stage db.stage_runs) now) db.tasks db'.tasks
    × (old : List Room) × (db'.rooms ≡ old ++ new_rooms)
    × Pairwise (Archived (IsReplaced wid stage db.stage_runs)) db.rooms old

reopened-Ends :
    (wid : ℕ) (stage : Stage) (runs : List StageRun) (rooms : List Room) (now : ℕ) (db : Db)
    (row : Workflow)
    → row.id ≡ wid
    → Ends wid stage now rooms db (reopened_db row stage runs rooms now db)
unfolding reopened_db
reopened-Ends wid stage runs rooms now db row e =
    subst (λ k. Ends k stage now rooms db (reopened_db row stage runs rooms now db)) e
      (
        cancels row.id stage db.stage_runs now db.tasks,
        update_where
            (λ r. is_affected stage (current_stage_run_rows row.id db.stage_runs) r.stage_run_id)
            (λ r. close_room r RoomStatus.archived now) db.rooms,
        refl,
        archives row.id stage db.stage_runs now db.rooms,
      )

-- A reopening that succeeded cancels exactly the tasks that were queued or running in a run that is
-- the workflow's current one of the stage or of a stage behind it, each at the given time and with the next
-- version, and archives exactly the rooms of these runs; every other task and every other room from
-- before is left as it was, and the new rooms stand behind them.
pub reopen_stage_cancels :
    (wid : ℕ) (stage : Stage) (runs : List StageRun) (rooms : List Room) (expected now : ℕ)
    (db : Db) (s : Snapshot) (db' : Db)
    → reopen_stage wid stage runs rooms expected now db ≡ ok (s, db')
    → Ends wid stage now rooms db db'
unfolding reopen_stage
reopen_stage_cancels wid stage runs rooms expected now db s db' h =
    let (row, is_row, p₁) =
      >>=-eq-ok (or_raise (get_row workflow_key wid db.workflows) (not_found Entity.workflow)) _
        h in
    let (_, p₂) = >>-eq-ok (require_version Entity.workflow row.version expected) _ p₁ in
    let (_, p₃) =
      >>-eq-ok
        (raise_if (not_completed (current_stage_run_row wid stage db.stage_runs))
          reopen_requires_completion)
        _ p₂ in
    let (o, _, p₄) = >>=-eq-ok (get_snapshot wid (reopened_db row stage runs rooms now db)) _ p₃ in
    let (s', _, p₅) = >>=-eq-ok (or_raise o runtime_error) _ p₄ in
    let same_db : reopened_db row stage runs rooms now db ≡ db' = ground (arith, p₅) in
    subst (Ends wid stage now rooms db) same_db
      (reopened-Ends wid stage runs rooms now db row (key_of wid db row is_row))
