-- ===== src/Workflow/Transitions/Keeps.antt =====
-- A transition of the repository keeps the pipeline.
use agent_program.Prelude.{
  ℕ, ◌+◌, ◌≡◌, refl, sym, ap, ◌||◌, Bool, true, false, Option, none, some, arith, get_row,
  if◌then◌else◌, put_row, KeysDistinct, put_row-KeysDistinct, Bool-cases, inl, inr,
  get_row-put_row_self, key-get_row,
}
use mathlib.Core.Path.{subst, subst₂}
use agent_program.Errors.{ok}
use agent_program.Contracts.Stages.{
  Stage, stage_eq, successor, StageRunState, locked, completed, abandoned, state_eq,
}
use agent_program.Workflow.Machine.{require_stage_transition, is_stopped}
use agent_program.Workflow.Models.{WorkflowStatus, status_eq, RoomStatus, Workflow, StageRun, Room}
use agent_program.Workflow.Db.{Db}
use agent_program.Workflow.Queries.{workflow_key, run_key, of_stage, current_stage_run_row}
use agent_program.Workflow.Queries.Current.{SamePlace, current-get_row}
use agent_program.Workflow.Transitions.Steps.{transition_stage-Accepted, check_transition_guards}
use agent_program.Workflow.Transitions.{
  Moved, finish, unlock, advance, settle, check_transition, moved_run, resumed, resumes_warning,
  transition_stage, put_run, put_room, close_room, put_optional_run,
}
use agent_program.Workflow.Transitions.Pipeline.{IsPipeline, IsPipeline-put_row, IsPipeline-unlock}

-- What `finish` writes and returns.
pub finish_lem :
    (now : ℕ) (w : Workflow) (r : StageRun) (u : Option StageRun) (db : Db) (m : Moved) (db' : Db)
    → finish now w r u db ≡ ok (m, db')
    → (m.0 ≡ record w { version = w.version + 1; updated_at = now })
      × (m.1 ≡ r)
      × (m.2 ≡ u)
      × (db'
          ≡ put_optional_run u (record db {
            workflows =
                put_row workflow_key
                  (record w { version = w.version + 1; updated_at = now })
                  db.workflows;
          }))
unfolding finish
finish_lem now w r none db m db' h = (ground arith, ground arith, ground arith, ground arith)
finish_lem now w r (some u) db m db' h = (ground arith, ground arith, ground arith, ground arith)

-- What stands in the tables after a transition: the workflow that was returned, and its pipeline.
pub record Holds (wid : ℕ) (w : Workflow) (db : Db) : Type 0 where
  pub distinct : KeysDistinct run_key db.stage_runs
  pub stored : get_row workflow_key wid db.workflows ≡ some w
  pub pipeline :
      IsPipeline w.current_stage (status_eq w.status WorkflowStatus.completed) wid db.stage_runs

abbrev finished : Workflow → ℕ → Workflow
finished w now = record w { version = w.version + 1; updated_at = now }

finish-Holds :
    (now : ℕ) (w old : Workflow) (r : StageRun) (u : Option StageRun) (db : Db) (m : Moved)
    (db' : Db)
    → get_row workflow_key w.id db.workflows ≡ some old
    → KeysDistinct run_key (put_optional_run u db).stage_runs
    → IsPipeline w.current_stage
        (status_eq w.status WorkflowStatus.completed)
        w.id
        (put_optional_run u db).stage_runs
    → finish now w r u db ≡ ok (m, db')
    → Holds w.id m.0 db'
finish-Holds now w old r none db m db' stored d p h =
    let (e, _, _, e') = finish_lem now w r none db m db' h in
    subst₂ (λ x t. Holds w.id x t) (sym e) (sym e')
      (record {
        distinct = d;
        stored = get_row-put_row_self workflow_key (finished w now) old db.workflows stored;
        pipeline = p;
      })
finish-Holds now w old r (some u) db m db' stored d p h =
    let (e, _, _, e') = finish_lem now w r (some u) db m db' h in
    subst₂ (λ x t. Holds w.id x t) (sym e) (sym e')
      (record {
        distinct = d;
        stored = get_row-put_row_self workflow_key (finished w now) old db.workflows stored;
        pipeline = p;
      })

unlock_target :
    (now : ℕ) (w : Workflow) (r : StageRun) (next : Stage) (o : Option StageRun) (db : Db)
    (result : Moved × Db)
    → unlock now w r next o db ≡ ok result
    → (u : StageRun) × (o ≡ some u)
      × (finish now
            (record w { current_stage = next })
            r
            (some (record u { state = StageRunState.ready; version = u.version + 1 }))
            db
          ≡ ok result)
unfolding unlock
unlock_target now w r next none db result h = cc
unlock_target now w r next (some u) db result h = (u, refl, ground arith)

-- The rows at the end of `transition_stage`: `workflow` and `run` as they stand before their last
-- changes, in tables where the run's row is still the old one, `y`.
module _ (now : ℕ) (workflow old : Workflow) (y run : StageRun) (target : StageRunState)
    (room : Room) (db : Db) (distinct : KeysDistinct run_key db.stage_runs)
    (stored : get_row workflow_key workflow.id db.workflows ≡ some old)
    (found : current_stage_run_row workflow.id workflow.current_stage db.stage_runs ≡ some y)
    (same : SamePlace run y) (own_stage : run.stage ≡ workflow.current_stage)
    (runs : status_eq workflow.status WorkflowStatus.completed ≡ false) (state : run.state ≡ target)
    (unlocked : state_eq target locked ≡ false)
    (pipeline : IsPipeline workflow.current_stage false workflow.id db.stage_runs) where
  next_db : StageRun → RoomStatus → Db
  next_db r status = put_run r (put_room (close_room room status now) db)

  kept : (r : StageRun) → KeysDistinct run_key (put_row run_key r db.stage_runs)
  kept r = put_row-KeysDistinct run_key r db.stage_runs distinct

  stays-Holds :
      (w : Workflow) (r : StageRun) (db₁ : Db) (m : Moved) (db' : Db)
      → (w.id ≡ workflow.id) × (w.current_stage ≡ workflow.current_stage)
      → db₁.workflows ≡ db.workflows
      → db₁.stage_runs ≡ put_row run_key r db.stage_runs
      → SamePlace r y
      → state_eq r.state locked ≡ false
      → state_eq r.state completed ≡ status_eq w.status WorkflowStatus.completed
      → finish now w r none db₁ ≡ ok (m, db')
      → Holds workflow.id m.0 db'
  stays-Holds w r db₁ m db' (id, stage) ws rs place open_state done h =
      subst (λ k. Holds k m.0 db') id
        (finish-Holds now w old r none db₁ m db' (rw (id, ws) stored) (rw rs (kept r))
          (rw (rs, id, stage)
            (IsPipeline-put_row workflow.id workflow.current_stage db.stage_runs distinct y r found
              place pipeline (status_eq w.status WorkflowStatus.completed) open_state done))
          h)

  advance-Holds :
      (next : Option Stage) (r : StageRun) (db₁ : Db) (m : Moved) (db' : Db)
      → successor workflow.current_stage ≡ next
      → db₁.workflows ≡ db.workflows
      → db₁.stage_runs ≡ put_row run_key r db.stage_runs
      → SamePlace r y
      → state_eq r.state locked ≡ false
      → state_eq r.state completed ≡ true
      → advance now workflow r next db₁ ≡ ok (m, db')
      → Holds workflow.id m.0 db'
  unfolding advance
  advance-Holds none r db₁ m db' step ws rs place open_state done h =
      stays-Holds (record workflow { status = WorkflowStatus.completed }) r db₁ m db' (refl, refl)
        ws rs place open_state done h
  advance-Holds (some next) r db₁ m db' step ws rs place open_state done h =
      let (u, found_u, finishes) =
        unlock_target now workflow r next (current_stage_run_row workflow.id next db₁.stage_runs)
          db₁ (m, db') h in
      let u' : StageRun = record u { state = StageRunState.ready; version = u.version + 1 } in
      finish-Holds now (record workflow { current_stage = next }) old r (some u') db₁ m db'
        (rw ws stored)
        (rw rs (put_row-KeysDistinct run_key u' (put_row run_key r db.stage_runs) (kept r)))
        (rw (rs, runs)
          (IsPipeline-unlock workflow.id workflow.current_stage db.stage_runs distinct y r found
            place pipeline next u u' step done (rw rs at found_u) (refl, refl, refl, refl) refl))
        finishes

  stopped_done :
      (b : Bool)
      → status_eq
          (if b then WorkflowStatus.abandoned else WorkflowStatus.failed)
          WorkflowStatus.completed
        ≡ false
  stopped_done true = refl
  stopped_done false = refl

  open_run : state_eq run.state locked ≡ false
  open_run = rw state unlocked

  -- Each ending of a transition.
  settle-Holds :
      (m : Moved) (db' : Db)
      → settle now workflow run target room db ≡ ok (m, db')
      → Holds workflow.id m.0 db'
  unfolding settle next_db
  settle-Holds m db' h = elim (Bool-cases (state_eq target completed)) [
    | inl completes ↦
        let run' : StageRun = record run { completed_at = some now } in
        advance-Holds (successor run.stage) run' (next_db run' RoomStatus.consultation) m db'
          (ap successor (sym own_stage)) refl refl same open_run (rw state completes)
          (rw completes at h)
    | inr goes_on ↦ elim (Bool-cases (is_stopped target)) [
      | inl stops ↦
          stays-Holds
            (record workflow {
              status =
                  if state_eq target abandoned
                  then WorkflowStatus.abandoned
                  else WorkflowStatus.failed;
            })
            run (next_db run RoomStatus.archived) m db' (refl, refl) refl refl same open_run
            (rw (state, goes_on, stopped_done (state_eq target abandoned)))
            (rw (goes_on, stops) at h)
      | inr works ↦
          stays-Holds workflow run (put_run run db) m db' (refl, refl) refl refl same open_run
            (rw (state, goes_on, runs)) (rw (goes_on, works) at h)
    ]
  ]

transition_open :
    (s t : StageRunState) → require_stage_transition s t ≡ ok tt → state_eq t locked ≡ false
unfolding require_stage_transition
transition_open locked t h = ground arith
transition_open _ t h = ground arith

resumed_runs :
    (workflow : Workflow) (run : StageRun) (target : StageRunState)
    → (status_eq workflow.status WorkflowStatus.running || resumes_warning workflow run target)
      ≡ true
    → (status_eq workflow.status WorkflowStatus.completed ≡ false)
      × (status_eq
            (resumed workflow (resumes_warning workflow run target)).status
            WorkflowStatus.completed
          ≡ false)
resumed_runs workflow run target h = ground arith

run_at_stage :
    (w : Workflow) (run : StageRun) (stage : Stage) (wid : ℕ)
    → stage_eq w.current_stage run.stage ≡ true
    → of_stage wid stage run ≡ true
    → (run.stage ≡ w.current_stage) × (stage ≡ w.current_stage)
run_at_stage w run stage wid at_stage passes = (ground arith, ground arith)

-- The guards have passed; what is left of the transition keeps the pipeline.
settled-Holds :
    (target : StageRunState) (now : ℕ) (db : Db) (workflow : Workflow) (run : StageRun)
    (stage : Stage) (room : Room) (m : Moved) (db' : Db)
    → Holds workflow.id workflow db
    → current_stage_run_row workflow.id stage db.stage_runs ≡ some run
    → of_stage workflow.id stage run ≡ true
    → require_stage_transition run.state target ≡ ok tt
    → check_transition workflow run target ≡ ok tt
    → settle now
        (resumed workflow (resumes_warning workflow run target))
        (moved_run run target now)
        target
        room
        db
      ≡ ok (m, db')
    → Holds workflow.id m.0 db'
settled-Holds target now db workflow run stage room m db' holds found passes allowed guards
      settled =
    let (live, at_stage, _) = check_transition_guards workflow run target guards in
    let (own_stage, is_current) = run_at_stage workflow run stage workflow.id at_stage passes in
    let (not_done, still_not_done) = resumed_runs workflow run target live in
    settle-Holds now (resumed workflow (resumes_warning workflow run target)) workflow run
      (moved_run run target now) target room db holds.distinct holds.stored (rw is_current at found)
      (refl, refl, refl, refl) own_stage still_not_done refl
      (transition_open run.state target allowed)
      (subst (λ b. IsPipeline workflow.current_stage b workflow.id db.stage_runs) not_done
        holds.pipeline)
      m db' settled

-- A transition that the state machine accepts, of the current run of the workflow's current stage,
-- leaves a pipeline.
pub transition_stage-Holds :
    (wid rid : ℕ) (target : StageRunState) (expected_workflow expected_stage now : ℕ) (db : Db)
    (workflow : Workflow) (run : StageRun) (stage : Stage) (m : Moved) (db' : Db)
    → Holds wid workflow db
    → current_stage_run_row wid stage db.stage_runs ≡ some run
    → run.id ≡ rid
    → require_stage_transition run.state target ≡ ok tt
    → transition_stage wid rid target expected_workflow expected_stage now db ≡ ok (m, db')
    → Holds wid m.0 db'
transition_stage-Holds wid rid target ew es now db workflow run stage m db' holds found own allowed
      h =
    let a = transition_stage-Accepted wid rid target ew es now db (m, db') h in
    let same_id : workflow.id ≡ wid =
      key-get_row workflow_key wid workflow db.workflows holds.stored in
    let same_workflow : a.workflow ≡ workflow = cc (a.workflow_found, holds.stored) in
    let (at_run, passes) = current-get_row wid stage run db.stage_runs holds.distinct found in
    let same_run : a.run ≡ run =
      cc (a.run_found, subst (λ k. get_row run_key k db.stage_runs ≡ some run) own at_run) in
    let (guards, settled) =
      subst₂
        (λ w r.
          (check_transition w r target ≡ ok tt)
          × (settle now (resumed w (resumes_warning w r target)) (moved_run r target now) target
                a.room db
              ≡ ok (m, db')))
        same_workflow same_run (a.guards, a.settled) in
    subst (λ k. Holds k m.0 db') same_id
      (settled-Holds target now db workflow run stage a.room m db'
        (subst (λ k. Holds k workflow db) (sym same_id) holds)
        (subst (λ k. current_stage_run_row k stage db.stage_runs ≡ some run) (sym same_id) found)
        (subst (λ k. of_stage k stage run ≡ true) (sym same_id) passes) allowed guards settled)
