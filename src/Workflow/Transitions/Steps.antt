-- ===== src/Workflow/Transitions/Steps.antt =====
-- What a transition that succeeded found, and which of the three endings it took.
use agent_program.Prelude.{ℕ, ◌≡◌, true, false, ◌||◌, some, arith, get_row, Option-cases, inl, inr}
use agent_program.Errors.{ok}
use agent_program.Contracts.Stages.{stage_eq, StageRunState, locked, state_eq}
use agent_program.Workflow.Models.{WorkflowStatus, status_eq, Workflow, StageRun, Room}
use agent_program.Workflow.Db.{Db}
use agent_program.Workflow.Queries.{workflow_key, run_key, room_run_key}
use agent_program.Workflow.Transitions.{
  Moved, transition_stage, settle, check_transition, moved_run, resumed, resumes_warning,
}

-- The rows that the guards of a transition have read and accepted.
pub record Accepted (wid rid : ℕ) (target : StageRunState)
    (expected_workflow expected_stage now : ℕ) (db : Db) (result : Moved × Db) : Type 0 where
  pub workflow : Workflow
  pub run : StageRun
  pub room : Room
  pub workflow_found : get_row workflow_key wid db.workflows ≡ some workflow
  pub run_found : get_row run_key rid db.stage_runs ≡ some run
  pub room_found : get_row room_run_key rid db.rooms ≡ some room
  pub own_run : run.workflow_id ≡ wid
  pub workflow_version : workflow.version ≡ expected_workflow
  pub stage_version : run.version ≡ expected_stage
  pub guards : check_transition workflow run target ≡ ok tt
  pub settled :
      settle now
        (resumed workflow (resumes_warning workflow run target))
        (moved_run run target now)
        target
        room
        db
      ≡ ok result

pub transition_stage-Accepted :
    (wid rid : ℕ) (target : StageRunState) (expected_workflow expected_stage now : ℕ) (db : Db)
    (result : Moved × Db)
    → transition_stage wid rid target expected_workflow expected_stage now db ≡ ok result
    → Accepted wid rid target expected_workflow expected_stage now db result
unfolding transition_stage
transition_stage-Accepted wid rid target ew es now db result h =
    elim (Option-cases (get_row workflow_key wid db.workflows)) [
      | inl missing ↦ cc (rw missing at h)
      | inr (w, wf) ↦ elim (Option-cases (get_row run_key rid db.stage_runs)) [
        | inl missing ↦ cc (rw (wf, missing) at h)
        | inr (r, rf) ↦ elim (Option-cases (get_row room_run_key rid db.rooms)) [
          | inl missing ↦ ground arith
          | inr (m, mf) ↦ record {
            workflow = w;
            run = r;
            room = m;
            workflow_found = wf;
            run_found = rf;
            room_found = mf;
            own_run = ground arith;
            workflow_version = ground arith;
            stage_version = ground arith;
            guards = ground arith;
            settled = ground arith;
          }
        ]
      ]
    ]

-- The guards let a transition of the current stage through, while the workflow runs or as the
-- answer to a warning.
pub check_transition_guards :
    (workflow : Workflow) (run : StageRun) (target : StageRunState)
    → check_transition workflow run target ≡ ok tt
    → ((status_eq workflow.status WorkflowStatus.running || resumes_warning workflow run target)
        ≡ true)
      × (stage_eq workflow.current_stage run.stage ≡ true)
      × (state_eq run.state locked ≡ false)
unfolding check_transition
check_transition_guards workflow run target h = ground arith
