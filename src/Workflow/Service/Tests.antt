-- ===== src/Workflow/Service/Tests.antt =====
-- Examples for the theorems on the handlers.
use agent_program.Prelude.{ℕ, ◌+◌, ◌≤◌, ◌≡◌, refl, false, none, some, List, [], ◌∷◌, arith, drop}
use agent_program.Errors.{err, active_exists}
use agent_program.Shared.Text.{Text, is_trimmed, strip}
use agent_program.Contracts.Stages.{Stage, StageRunState, ready, discussing, stage_order}
use agent_program.Contracts.Paths.{codes}
use agent_program.Events.Log.{AppendReads, EventStore}
use agent_program.Workflow.Machine.{require_stage_transition}
use agent_program.Workflow.Models.{
  WorkflowTask, TaskStatus, Workflow, WorkflowStatus, StageRun, Room, is_workflow, is_title,
  is_stage_run, is_room,
}
use agent_program.Workflow.Db.{Db, ProjectStatus}
use agent_program.Workflow.Queries.{
  current_stage_run_row, find_active_for_project, find_active_run_for_room, room_for_stage_run_row,
}
use agent_program.Workflow.Snapshots.{Snapshot, get_snapshot, is_snapshot}
use agent_program.Workflow.Transitions
use agent_program.Workflow.Transitions.{Moved}
use agent_program.Workflow.Transitions.Keeps.{Holds}
use agent_program.Workflow.Transitions.Pipeline.{StageFits}
use agent_program.Workflow.Reopening
use agent_program.Workflow.Reopening.Cancels.{Ends, reopen_stage_cancels}
use agent_program.Shared.Json.{dict, end}
use agent_program.Workflow.Reopening.{is_affected, reopened_db, reopened_workflow}
use agent_program.Workflow.Uow.{transact, append_event}
use agent_program.Workflow.Service.{
  create_workflow, transition_stage, reopen_stage, new_workflow, make_runs, make_rooms, add_graph,
  new_run,
}
use agent_program.Workflow.Service.Pipelines.{transition_stage-Pipeline}
use agent_program.Workflow.Service.ActiveWorkflow.{
  active_workflows, create_workflow_one_active, reopen_stage_adds_active,
}

abbrev draw : ℕ → ℕ
draw k = 100 + k

abbrev reads : AppendReads
reads = record { new_id = draw; clock = 7 }

abbrev no_events : EventStore
no_events = record { last_event_id = 0; log = []; outbox = []; deliveries = []; audits = [] }

-- A project that is ready, without workflows.
abbrev new_db : Db
new_db = record {
  workflows = [];
  stage_runs = [];
  rooms = [];
  messages = [];
  tasks = [];
  projects = record { id = 1; status = ProjectStatus.ready } ∷ [];
  agent_runs = [];
  artifact_versions = [];
  handoffs = [];
  capability_requests = [];
  events = no_events;
}

abbrev title : Text
title = codes " shop "

abbrev created : Workflow
created = new_workflow 100 1 title 5

abbrev runs : List StageRun
runs = make_runs draw 0 100 Stage.planner (λ _. 1) 5 stage_order

abbrev rooms : List Room
rooms = make_rooms draw 0 100 5 stage_order

abbrev created_snapshot : Snapshot
created_snapshot = record { workflow = created; stage_runs = runs; rooms = rooms }

abbrev created_db : Db
created_db =
    append_event reads 5 "workflow.created" 1 100 none none (add_graph created runs rooms new_db)

create_workflow_one_active_example : active_workflows 1 created_db ≤ 1
unfolding create_workflow transact find_active_for_project is_workflow is_title is_trimmed strip
create_workflow_one_active_example =
    create_workflow_one_active draw reads 5 1 title new_db created_snapshot created_db refl 1
      (omega arith)

-- A second workflow is refused, and nothing is written.
second_workflow :
    create_workflow draw reads 5 1 (codes "two") created_db ≡ (err active_exists, created_db)
unfolding create_workflow is_workflow is_title strip is_trimmed
second_workflow = refl

abbrev started : Workflow
started = record created { status = WorkflowStatus.running; version = 2 }

abbrev started_db : Db
started_db = record created_db { workflows = started ∷ [] }

abbrev discussed : Workflow
discussed = record started { version = 3; updated_at = 8 }

abbrev discussed_run : StageRun
discussed_run = record (new_run 101 100 Stage.planner 1 ready 5) {
  state = discussing;
  version = 2;
  started_at = some 8;
}

abbrev discussed_db : Db
discussed_db =
    append_event reads 8 "stage_run.transitioned" 1 100 none none
      (record started_db { workflows = discussed ∷ []; stage_runs = discussed_run ∷ drop 1 runs })

started-Holds : Holds 100 started started_db
unfolding make_runs append_event add_graph current_stage_run_row
started-Holds = record {
  distinct = (refl, (refl, (refl, (refl, (refl, tt)))));
  stored = refl;
  pipeline = λ s. fits s;
}
  where
    fits :
        (s : Stage)
        → StageFits Stage.planner false s (current_stage_run_row 100 s started_db.stage_runs)
    fits Stage.planner = ground arith
    fits Stage.designer = ground arith
    fits Stage.builder = ground arith
    fits Stage.reviewer = ground arith
    fits Stage.deployer = ground arith

transition_stage-Pipeline_example : Holds 100 discussed discussed_db
unfolding transition_stage append_event add_graph make_runs make_rooms is_workflow is_title strip
    is_trimmed current_stage_run_row is_stage_run room_for_stage_run_row is_room
    find_active_run_for_room require_stage_transition Transitions.transition_stage
    Transitions.check_transition Transitions.settle
transition_stage-Pipeline_example =
    transition_stage-Pipeline reads 8 100 Stage.planner discussing 2 1 started_db started
      (discussed, discussed_run, none) discussed_db started-Holds refl

-- The workflow 100 failed after its first stage was completed, and the project has a second workflow,
-- which is active.
abbrev failed_workflow : Workflow
failed_workflow = record created {
  status = WorkflowStatus.failed;
  current_stage = Stage.designer;
  version = 4;
}

abbrev other_workflow : Workflow
other_workflow = record created { id = 200 }

abbrev planned_run : StageRun
planned_run = record (new_run 101 100 Stage.planner 1 StageRunState.completed 5) {
  started_at = some 6;
  completed_at = some 7;
}

abbrev failed_db : Db
failed_db = record created_db {
  workflows = failed_workflow ∷ other_workflow ∷ [];
  stage_runs = planned_run ∷ drop 1 runs;
}

abbrev draw' : ℕ → ℕ
draw' k = 300 + k

abbrev reads' : AppendReads
reads' = record { new_id = draw'; clock = 10 }

abbrev reopened_runs : List StageRun
reopened_runs = make_runs draw' 0 100 Stage.planner (λ _. 2) 9 stage_order

abbrev reopened_rooms : List Room
reopened_rooms = make_rooms draw' 0 100 9 stage_order

abbrev reopened_snapshot : Snapshot
reopened_snapshot = record {
  workflow = reopened_workflow failed_workflow Stage.planner 9;
  stage_runs = reopened_runs;
  rooms = reopened_rooms;
}

abbrev reopened : Db
reopened =
    append_event reads' 9 "stage_run.reopened" 1 100 none none
      (reopened_db failed_workflow Stage.planner reopened_runs reopened_rooms 9 failed_db)

reopen_stage_adds_active_example : active_workflows 1 reopened ≡ active_workflows 1 failed_db + 1
unfolding reopen_stage get_snapshot add_graph is_workflow is_title strip is_trimmed is_stage_run
    is_room is_snapshot find_active_run_for_room
reopen_stage_adds_active_example =
    reopen_stage_adds_active draw' reads' 9 100 Stage.planner 4 failed_db failed_workflow
      reopened_snapshot reopened (refl, (refl, tt)) refl refl refl

-- The project has two active workflows then.
two_active : active_workflows 1 reopened ≡ 2
unfolding append_event reopened_db
two_active = refl

abbrev queued_task : WorkflowTask
queued_task = record {
  id = 7;
  workflow_id = 100;
  stage_run_id = 101;
  room_id = 102;
  title = codes "plan";
  status = TaskStatus.queued;
  payload = dict end;
  result = none;
  version = 1;
  created_at = 6;
  started_at = none;
  completed_at = none;
}

abbrev queued_db : Db
queued_db = record failed_db { tasks = queued_task ∷ [] }

abbrev idle_db : Db
idle_db = reopened_db failed_workflow Stage.planner reopened_runs reopened_rooms 9 queued_db

reopen_stage_cancels_example : Ends 100 Stage.planner 9 reopened_rooms queued_db idle_db
unfolding Reopening.reopen_stage get_snapshot add_graph is_workflow is_title strip is_trimmed
    is_stage_run is_room is_snapshot make_runs append_event make_rooms
reopen_stage_cancels_example =
    reopen_stage_cancels 100 Stage.planner reopened_runs reopened_rooms 4 9 queued_db
      reopened_snapshot idle_db refl
