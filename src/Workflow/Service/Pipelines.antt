-- ===== src/Workflow/Service/Pipelines.antt =====
-- The handlers keep the pipeline of a workflow's stages
-- (backend/src/agent_platform/application/workflows/service.py).
use agent_program.Events.Log.{AppendReads}
use agent_program.Prelude.{ℕ, ◌≡◌, refl, ap, Option, none, some, arith, is_some}
use mathlib.Core.Path.{subst}
use agent_program.Errors.{
  Error, Result, ok, >>=-eq-ok, >>-eq-ok, or_raise, raise_if, agent_run_active,
}
use agent_program.Contracts.Stages.{Stage, StageRunState}
use agent_program.Workflow.Machine.{require_stage_transition}
use agent_program.Workflow.Models.{Workflow, StageRun}
use agent_program.Workflow.Db.{Db, stage_run_from_row, read_optional}
use agent_program.Workflow.Queries.{current_stage_run_row, find_active_run_for_room}
use agent_program.Workflow.Transitions
use agent_program.Workflow.Transitions.{Moved}
use agent_program.Workflow.Transitions.Keeps.{Holds, transition_stage-Holds}
use agent_program.Workflow.Uow.{transact-eq-ok, append_event}
use agent_program.Workflow.Service.{
  transition_stage, get_workflow, get_current_stage_run, get_room_for_stage_run,
}

-- What a transition that was answered has read, checked and done.
record Transitioned (reads : AppendReads) (now wid : ℕ) (stage : Stage) (target : StageRunState)
    (expected_workflow expected_stage : ℕ) (db : Db) (m : Moved) (db' : Db) : Type 0 where
  run : StageRun
  moved_db : Db
  found : current_stage_run_row wid stage db.stage_runs ≡ some run
  allowed : require_stage_transition run.state target ≡ ok tt
  moved :
      Transitions.transition_stage wid run.id target expected_workflow expected_stage now db
      ≡ ok (m, moved_db)
  same_runs : db'.stage_runs ≡ moved_db.stage_runs
  same_workflows : db'.workflows ≡ moved_db.workflows

raised_if_ok {ℓ} :
    {A : Type ℓ} (o : Option A) (e : Error) {a : A} → or_raise o e ≡ ok a → o ≡ some a
raised_if_ok none e h = cc
raised_if_ok (some b) e h = cc

read_optional-some {ℓ} :
    {A : Type ℓ} (read : A → Result A) (o : Option A) {a : A}
    → ((x y : A) → read x ≡ ok y → x ≡ y)
    → read_optional read o ≡ ok (some a)
    → o ≡ some a
read_optional-some read none exact h = cc
read_optional-some read (some x) exact h =
    let (y, e, p) = >>=-eq-ok (read x) _ h in let same : x ≡ y = exact x y e in cc

stage_run_from_row_exact : (x y : StageRun) → stage_run_from_row x ≡ ok y → x ≡ y
stage_run_from_row_exact x y h = ground arith

transition_stage-Transitioned :
    (reads : AppendReads) (now wid : ℕ) (stage : Stage) (target : StageRunState)
    (expected_workflow expected_stage : ℕ) (db : Db) (m : Moved) (db' : Db)
    → transition_stage reads now wid stage target expected_workflow expected_stage db ≡ (ok m, db')
    → Transitioned reads now wid stage target expected_workflow expected_stage db m db'
unfolding transition_stage
transition_stage-Transitioned reads now wid stage target ew es db m db' h =
    let body = transact-eq-ok db _ h in
    let (found_workflow, _, p₁) = >>=-eq-ok (get_workflow wid db) _ body in
    let (found_run, read, p₂) = >>=-eq-ok (get_current_stage_run wid stage db) _ p₁ in
    let (workflow, _, p₃) = >>=-eq-ok (or_raise found_workflow _) _ p₂ in
    let (run, is_run, p₄) = >>=-eq-ok (or_raise found_run _) _ p₃ in
    let (found_room, _, p₅) = >>=-eq-ok (get_room_for_stage_run run.id db) _ p₄ in
    let (room, _, p₆) = >>=-eq-ok (or_raise found_room _) _ p₅ in
    let idle =
      raise_if (is_some (find_active_run_for_room room.id db.agent_runs)) agent_run_active in
    let (_, p₇) = >>-eq-ok idle _ p₆ in
    let (allowed, p₈) = >>-eq-ok (require_stage_transition run.state target) _ p₇ in
    let ((m', moved_db), moved, p₉) =
      >>=-eq-ok (Transitions.transition_stage wid run.id target ew es now db) _ p₈ in
    let same_moved : m' ≡ m = ground (arith, p₉) in
    let same_db : db'
        ≡ append_event reads now "stage_run.transitioned" (m'.0).project_id wid none none moved_db =
      ground (arith, p₉) in
    record {
      run = run;
      moved_db = moved_db;
      found =
          read_optional-some stage_run_from_row (current_stage_run_row wid stage db.stage_runs)
            stage_run_from_row_exact (rw (← raised_if_ok found_run _ is_run) read);
      allowed = allowed;
      moved =
          subst
            (λ x. Transitions.transition_stage wid run.id target ew es now db ≡ ok (x, moved_db))
            same_moved moved;
      same_runs = ap (λ (d : Db). d.stage_runs) same_db;
      same_workflows = ap (λ (d : Db). d.workflows) same_db;
    }

-- The handler of a transition keeps the pipeline: from a stored workflow, with distinct identifiers
-- of the stage runs, whose stages before the current one are completed, whose later stages are locked
-- and whose current stage is not locked and is completed exactly if the workflow is, a transition
-- that is answered leaves such a workflow, and the one that it answers is the one that is stored.
pub transition_stage-Pipeline :
    (reads : AppendReads) (now wid : ℕ) (stage : Stage) (target : StageRunState)
    (expected_workflow expected_stage : ℕ) (db : Db) (workflow : Workflow) (m : Moved) (db' : Db)
    → Holds wid workflow db
    → transition_stage reads now wid stage target expected_workflow expected_stage db ≡ (ok m, db')
    → Holds wid m.0 db'
transition_stage-Pipeline reads now wid stage target ew es db workflow m db' holds h =
    let t = transition_stage-Transitioned reads now wid stage target ew es db m db' h in
    let after =
      transition_stage-Holds wid t.run.id target ew es now db workflow t.run stage m t.moved_db
        holds t.found refl t.allowed t.moved in
    record {
      distinct = rw t.same_runs after.distinct;
      stored = rw t.same_workflows after.stored;
      pipeline = rw t.same_runs after.pipeline;
    }
