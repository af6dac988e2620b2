-- ===== src/Workflow/Rooms/Tests.antt =====
-- Examples for the theorems on the handlers of messages and tasks.
use agent_program.Events.Log.{AppendReads}
use agent_program.Prelude.{ℕ, ◌+◌, ◌≡◌, refl, true, none, some, [], ◌∷◌, arith, get_row, inl, inr}
use agent_program.Shared.Text.{is_trimmed, strip}
use agent_program.Shared.Json.{dict, end, validate_json_payload}
use agent_program.Contracts.Stages.{Stage, discussing}
use agent_program.Contracts.Paths.{codes}
use agent_program.Workflow.Models.{
  Workflow, WorkflowStatus, ExecutionMode, StageRun, Room, RoomStatus, WorkflowTask, TaskStatus,
  is_task, has_task_timestamps, is_title, is_room, is_stage_run, is_workflow, is_message,
  is_content,
}
use agent_program.Workflow.Db.{Db, CapabilityStatus}
use agent_program.Workflow.Queries.{room_key, current_stage_run_row}
use agent_program.Workflow.Messages.Sequence.{IsNumbered}
use agent_program.Workflow.Messages
use agent_program.Workflow.Tasks
use agent_program.Workflow.Tasks.{is_queued, add_task}
use agent_program.Workflow.Tasks.Queue.{IsQueue}
use agent_program.Workflow.Uow.{append_event}
use agent_program.Workflow.Rooms.{
  new_message, new_task, append_message, enqueue_task, complete_task, mutate_task,
  expire_capabilities_for_task, check_writable,
}
use agent_program.Workflow.Rooms.Grants.{
  open_requests, ended_task_has_no_grants, task_handlers-IsQueue,
}
use agent_program.Workflow.Rooms.Guards.{enqueue_task-IsQueue, posted_message-IsNumbered}

abbrev draw : ℕ → ℕ
draw k = 50 + k

abbrev reads : AppendReads
reads = record { new_id = draw; clock = 23 }

abbrev workflow : Workflow
workflow = record {
  id = 1;
  project_id = 9;
  title = codes "shop";
  status = WorkflowStatus.running;
  execution_mode = ExecutionMode.manual;
  current_stage = Stage.planner;
  version = 3;
  created_at = 5;
  updated_at = 6;
}

abbrev run : StageRun
run = record {
  id = 2;
  workflow_id = 1;
  stage = Stage.planner;
  attempt = 1;
  state = discussing;
  version = 2;
  created_at = 5;
  started_at = some 6;
  completed_at = none;
}

abbrev room : Room
room = record {
  id = 3;
  workflow_id = 1;
  stage_run_id = 2;
  stage = Stage.planner;
  status = RoomStatus.active;
  next_sequence = 1;
  version = 1;
  created_at = 5;
  updated_at = 5;
}

abbrev running_task : WorkflowTask
running_task = record {
  id = 7;
  workflow_id = 1;
  stage_run_id = 2;
  room_id = 3;
  title = codes "plan";
  status = TaskStatus.running;
  payload = dict end;
  result = none;
  version = 2;
  created_at = 10;
  started_at = some 11;
  completed_at = none;
}

abbrev db : Db
db = record {
  workflows = workflow ∷ [];
  stage_runs = run ∷ [];
  rooms = room ∷ [];
  messages = [];
  tasks = running_task ∷ [];
  projects = [];
  agent_runs = [];
  artifact_versions = [];
  handoffs = [];
  capability_requests =
      record {
        id = 1;
        task_id = 7;
        status = CapabilityStatus.approved;
        version = 2;
        decided_at = some 12;
      }
      ∷ [];
  events = record { last_event_id = 0; log = []; outbox = []; deliveries = []; audits = [] };
}

abbrev done_task : WorkflowTask
done_task = record running_task {
  status = TaskStatus.succeeded;
  result = some (dict end);
  version = 3;
  completed_at = some 20;
}

abbrev done_db : Db
done_db =
    append_event reads 20 "task.completed" 9 1 (some 3) (some 7)
      (expire_capabilities_for_task 7 20 (record db { tasks = done_task ∷ [] }))

ended_task_has_no_grants_example : open_requests 7 done_db ≡ 0
unfolding complete_task mutate_task Tasks.complete_task is_task is_title is_trimmed strip
    validate_json_payload has_task_timestamps is_workflow
ended_task_has_no_grants_example =
    ended_task_has_no_grants reads 20 7 true (dict end) 2 db done_task done_db (inl refl)

-- The task had one.
one_grant : open_requests 7 db ≡ 1
one_grant = refl

db-IsQueue : IsQueue db.tasks
db-IsQueue = record { distinct = (refl, tt); one_running = λ wid. ground arith }

task_handlers-IsQueue_example : IsQueue done_db.tasks
unfolding complete_task mutate_task Tasks.complete_task is_task is_title is_trimmed strip
    validate_json_payload has_task_timestamps is_workflow
task_handlers-IsQueue_example =
    task_handlers-IsQueue reads 20 7 true (dict end) 2 db done_task done_db db-IsQueue
      (inr (inl refl))

abbrev queued : WorkflowTask
queued = new_task 50 workflow run room (codes " test ") (dict end) 21

abbrev queued_db : Db
queued_db = append_event reads 21 "task.queued" 9 1 (some 3) (some 50) (add_task queued db)

enqueue_task-IsQueue_example :
    IsQueue queued_db.tasks
    × (is_queued queued.status ≡ true)
    × (queued.room_id ≡ 3)
    × ((r : Room) × (get_row room_key 3 db.rooms ≡ some r) × (r.status ≡ RoomStatus.active))
unfolding enqueue_task is_room is_workflow is_title is_trimmed strip is_stage_run
    current_stage_run_row is_task validate_json_payload has_task_timestamps
enqueue_task-IsQueue_example =
    enqueue_task-IsQueue draw reads 21 3 (codes " test ") (dict end) db queued queued_db db-IsQueue
      refl refl

abbrev updated : Room
updated = record room { next_sequence = 2; version = 2; updated_at = 22 }

abbrev posted_db : Db
posted_db = append_event reads 22 "message.appended" 9 1 (some 3) none (record db {
  rooms = updated ∷ [];
  messages = new_message 50 3 room (codes "hello ") none 22 ∷ [];
})

posted_message-IsNumbered_example :
    IsNumbered updated posted_db.messages
    × (get_row room_key 3 posted_db.rooms ≡ some updated)
    × ((new_message 50 3 room (codes "hello ") none 22).sequence ≡ 1)
unfolding append_message is_room is_workflow is_title is_trimmed strip is_stage_run check_writable
    current_stage_run_row is_message is_content Messages.append_message
posted_message-IsNumbered_example =
    posted_message-IsNumbered draw reads 22 3 (codes "hello ") none 1 db room
      (new_message 50 3 room (codes "hello ") none 22) updated posted_db refl (0, refl, refl) refl
