-- ===== src/Workflow/Service/ActiveWorkflow.antt =====
-- How many active workflows a project has: `create_workflow` keeps it at one, `reopen_stage` does not
-- (backend/src/agent_platform/application/workflows/service.py).
use agent_program.Events.Log.{AppendReads}
use agent_program.Prelude.{
  ℕ, ◌+◌, ◌≤◌, ◌≡◌, refl, sym, ap, ◌∙◌, Bool, true, false, not, Option, none, some, List, [], ◌∷◌,
  ◌++◌, ◌==◌, arith, get_row, put_row, KeysDistinct, is_some, count, count-append, count-put_row,
  bit, All, first_by, first_by-none, Bool-cases, inl, inr, drop, key-get_row, ==_iff,
}
use mathlib.Core.Path.{subst}
use agent_program.Errors.{
  Entity, Error, ok, >>=-eq-ok, >>-eq-ok, or_raise, raise_if, active_exists, not_found,
  runtime_error, reopen_requires_completion,
}
use agent_program.Shared.Text.{Text}
use agent_program.Contracts.Stages.{Stage, stage_index, stage_order}
use agent_program.Workflow.Models.{Workflow, StageRun, Room}
use agent_program.Workflow.Db.{Db, workflow_from_row, read_optional}
use agent_program.Workflow.Queries.{
  workflow_key, active_in, is_active_status, latest_created, find_active_for_project,
  require_version, current_stage_run_row,
}
use agent_program.Workflow.Snapshots.{Snapshot, get_snapshot}
use agent_program.Workflow.Reopening
use agent_program.Workflow.Reopening.{reopened_db, reopened_workflow}
use agent_program.Workflow.Uow.{transact-eq-ok}
use agent_program.Workflow.Service.{
  create_workflow, reopen_stage, new_workflow, check_rooms_idle, check_stages, project_is_ready,
  project_key, make_runs, make_rooms, attempt_of,
}

abbrev pub active_workflows : ℕ → Db → ℕ
active_workflows pid db = count (active_in pid) db.workflows

count_nothing :
    (test : Workflow → Bool) (ws : List Workflow) → All (λ w. test w ≡ false) ws → count test ws ≡ 0
count_nothing test [] h = refl
count_nothing test (w ∷ ws) h = rw (h.0, count_nothing test ws h.1) (omega arith)

not_some {ℓ} : {A : Type ℓ} (o : Option A) → is_some o ≡ false → o ≡ none
not_some none h = refl
not_some (some a) h = cc

read_none : (o : Option Workflow) → read_optional workflow_from_row o ≡ ok none → o ≡ none
read_none none h = refl
read_none (some w) h = let (_, _, p) = >>=-eq-ok (workflow_from_row w) _ h in cc p

passed : (b : Bool) (e : Error) → raise_if b e ≡ ok tt → b ≡ false
passed true e h = cc
passed false e h = refl

one_more :
    (pid p : ℕ) (w : Workflow) → w.project_id ≡ pid → count (active_in p) (w ∷ []) ≤ bit (pid == p)
one_more pid p w own = ground (arith, own)

-- An answered creation of a workflow leaves each project that had at most one active workflow with
-- at most one.
pub create_workflow_one_active :
    (draw : ℕ → ℕ) (reads : AppendReads) (now pid : ℕ) (title : Text) (db : Db) (s : Snapshot)
    (db' : Db)
    → create_workflow draw reads now pid title db ≡ (ok s, db')
    → (p : ℕ) → active_workflows p db ≤ 1
    → active_workflows p db' ≤ 1
unfolding create_workflow find_active_for_project
create_workflow_one_active draw reads now pid title db s db' h p before =
    let body = transact-eq-ok db _ h in
    let (w, read, p₁) =
      >>=-eq-ok (workflow_from_row (new_workflow (draw 0) pid title now)) _ body in
    let (project, _, p₂) = >>=-eq-ok (or_raise (get_row project_key pid db.projects) _) _ p₁ in
    let (_, p₃) = >>-eq-ok (raise_if (not (project_is_ready project.status)) _) _ p₂ in
    let (active, looked, p₃') = >>=-eq-ok (find_active_for_project pid db) _ p₃ in
    let (free, p₄) = >>-eq-ok (raise_if (is_some active) active_exists) _ p₃' in
    let nothing : count (active_in pid) db.workflows ≡ 0 =
      count_nothing (active_in pid) db.workflows (
        first_by-none latest_created (active_in pid) db.workflows (
          read_none (first_by latest_created (active_in pid) db.workflows)
            (looked ∙ ap ok (not_some active (passed (is_some active) active_exists free))))) in
    let written : db'.workflows ≡ db.workflows ++ w ∷ [] = ground (arith, p₄) in
    let own : w.project_id ≡ pid = ground (arith, read) in
    let counted : active_workflows p db'
        ≡ count (active_in p) db.workflows + count (active_in p) (w ∷ []) =
      ap (count (active_in p)) written ∙ count-append (active_in p) db.workflows (w ∷ []) in
    elim (Bool-cases (pid == p)) [
      | inl same ↦
          let e : pid ≡ p = (==_iff pid p).0 same in
          let none_yet = subst (λ k. count (active_in k) db.workflows ≡ 0) e nothing in
          let one = one_more pid p w own in omega (arith, counted, none_yet, rw same at one)
      | inr other ↦
          let none_here = one_more pid p w own in omega (arith, counted, rw other at none_here)
    ]

reopen_stage-reopened :
    (wid : ℕ) (stage : Stage) (runs : List StageRun) (rooms : List Room) (expected now : ℕ)
    (db : Db) (s : Snapshot) (db' : Db) (w : Workflow)
    → get_row workflow_key wid db.workflows ≡ some w
    → Reopening.reopen_stage wid stage runs rooms expected now db ≡ ok (s, db')
    → db'.workflows ≡ put_row workflow_key (reopened_workflow w stage now) db.workflows
unfolding Reopening.reopen_stage
reopen_stage-reopened wid stage runs rooms expected now db s db' w found h =
    let (row, is_row, p₁) =
      >>=-eq-ok (or_raise (get_row workflow_key wid db.workflows) (not_found Entity.workflow)) _
        h in
    let (_, p₂) = >>-eq-ok (require_version Entity.workflow row.version expected) _ p₁ in
    let (_, p₃) =
      >>-eq-ok
        (raise_if (Reopening.not_completed (current_stage_run_row wid stage db.stage_runs))
          reopen_requires_completion)
        _ p₂ in
    let (o, _, p₄) = >>=-eq-ok (get_snapshot wid (reopened_db row stage runs rooms now db)) _ p₃ in
    let (s', _, p₅) = >>=-eq-ok (or_raise o runtime_error) _ p₄ in
    let same_db : db' ≡ reopened_db row stage runs rooms now db = ground (arith, p₅) in
    let same_row : row ≡ w = ground (arith, is_row, found) in
    ap (λ (d : Db). d.workflows) same_db
    ∙ ap (λ r. put_row workflow_key (reopened_workflow r stage now) db.workflows) same_row

reopened_count :
    (w : Workflow) (stage : Stage) (now : ℕ) (ws : List Workflow)
    → KeysDistinct workflow_key ws
    → get_row workflow_key w.id ws ≡ some w
    → is_active_status w.status ≡ false
    → count (active_in w.project_id) (put_row workflow_key (reopened_workflow w stage now) ws)
      ≡ count (active_in w.project_id) ws + 1
reopened_count w stage now ws distinct found stopped =
    let counted =
      count-put_row workflow_key (active_in w.project_id) (reopened_workflow w stage now) w ws
        distinct found in
    ground (arith, counted, stopped)

-- Where the identifiers of the workflows are distinct, an answered reopening of a stage of a workflow
-- that had failed, was stopped, was abandoned or is completed leaves its project with one active
-- workflow more than before, however many it had.
pub reopen_stage_adds_active :
    (draw : ℕ → ℕ) (reads : AppendReads) (now wid : ℕ) (stage : Stage) (expected : ℕ) (db : Db)
    (w : Workflow) (s : Snapshot) (db' : Db)
    → KeysDistinct workflow_key db.workflows
    → get_row workflow_key wid db.workflows ≡ some w
    → is_active_status w.status ≡ false
    → reopen_stage draw reads now wid stage expected db ≡ (ok s, db')
    → active_workflows w.project_id db' ≡ active_workflows w.project_id db + 1
unfolding reopen_stage
reopen_stage_adds_active draw reads now wid stage expected db w s db' distinct found stopped h =
    let body = transact-eq-ok db _ h in
    let (o, _, p₁) = >>=-eq-ok (get_snapshot wid db) _ body in
    let (old, _, p₂) = >>=-eq-ok (or_raise o (not_found Entity.workflow)) _ p₁ in
    let affected = drop (stage_index stage) stage_order in
    let (_, p₃) = >>-eq-ok (check_rooms_idle (drop (stage_index stage) old.stage_runs) db) _ p₂ in
    let (_, p₄) = >>-eq-ok (check_stages old.stage_runs affected) _ p₃ in
    let runs = make_runs draw 0 wid stage (λ x. attempt_of old.stage_runs x + 1) now affected in
    let rooms = make_rooms draw 0 wid now affected in
    let ((s', db₁), reopened, p₅) =
      >>=-eq-ok (Reopening.reopen_stage wid stage runs rooms expected now db) _ p₄ in
    let same : db'.workflows ≡ db₁.workflows = ground (arith, p₅) in
    let written =
      reopen_stage-reopened wid stage runs rooms expected now db s' db₁ w found reopened in
    let at_id : get_row workflow_key w.id db.workflows ≡ some w =
      subst (λ k. get_row workflow_key k db.workflows ≡ some w)
        (sym (key-get_row workflow_key wid w db.workflows found)) found in
    ap (count (active_in w.project_id)) (same ∙ written)
    ∙ reopened_count w stage now db.workflows distinct at_id stopped
