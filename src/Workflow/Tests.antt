-- ===== src/Workflow/Tests.antt =====
-- Examples for the theorems on the state machine, the tasks and the messages.
use agent_program.Prelude.{
  ℕ, ◌+◌, ◌≤◌, ◌≡◌, ◌≢◌, refl, false, true, none, some, List, [], ◌∷◌, ◌==◌, arith, length, count,
  All, get_row, inl,
}
use agent_program.Errors.{
  ok, err, value_error, task_not_queued, task_not_running, not_cancellable, workflow_busy,
  queue_order_conflict, sequence_conflict,
}
use agent_program.Shared.Json.{Json, dict, end, validate_json_payload}
use agent_program.Shared.Text.{is_trimmed, strip}
use agent_program.Contracts.Stages.{
  Stage, StageRunState, ready, discussing, producing, p2r_reviewing, quality_checking,
  waiting_approval, handoff_ready, completed, failed, cancelled, abandoned,
}
use agent_program.Contracts.Paths.{codes}
use agent_program.Events.Log.{EventStore}
use agent_program.Workflow.Machine.{require_stage_transition}
use agent_program.Workflow.Machine.Routes.{
  IsRoute, visits, completing, completed_needs_gates, cancellable_can_complete,
}
use agent_program.Workflow.Models.{
  TaskStatus, WorkflowTask, Room, RoomStatus, Message, MessageAuthor, MessageKind, is_task,
  has_task_timestamps, is_title, is_room,
}
use agent_program.Workflow.Db.{Db}
use agent_program.Workflow.Queries.{task_key, room_key, message_key}
use agent_program.Workflow.Tasks.{
  is_queued, running_in, queued_in, queued_before, start_task, complete_task, cancel_task,
}
use agent_program.Workflow.Tasks.Queue.{IsQueue, start_task-IsQueue, started_is_first}
use agent_program.Workflow.Tasks.Lifecycle.{
  IsStale, old_version_refused, terminal_is_final, task_operations_keep_valid,
}
use agent_program.Workflow.Messages.{append_message, room_is_archived}
use agent_program.Workflow.Messages.Sequence.{
  IsNumbered, sequences, append_message-IsNumbered, append_message_accepts,
}

abbrev work : List StageRunState
work =
    producing ∷ p2r_reviewing ∷ quality_checking ∷ waiting_approval ∷ handoff_ready ∷ completed ∷ []

completed_needs_gates_example :
    (visits p2r_reviewing work ≡ true)
    × (visits quality_checking work ≡ true)
    × (visits waiting_approval work ≡ true)
    × (visits handoff_ready work ≡ true)
unfolding require_stage_transition
completed_needs_gates_example =
    completed_needs_gates discussing work (inl (omega arith))
      (refl, (refl, (refl, (refl, (refl, (refl, tt)))))) refl

cancellable_can_complete_example :
    IsRoute ready (completing ready)
    × (visits completed (completing ready) ≡ true)
    × (length (completing ready) ≤ 7)
    × (require_stage_transition ready failed ≡ ok tt)
    × (require_stage_transition ready cancelled ≡ ok tt)
    × (require_stage_transition ready abandoned ≡ ok tt)
cancellable_can_complete_example = cancellable_can_complete ready refl

abbrev no_events : EventStore
no_events = record { last_event_id = 0; log = []; outbox = []; deliveries = []; audits = [] }

abbrev with_tasks : List WorkflowTask → Db
with_tasks tasks = record {
  workflows = [];
  stage_runs = [];
  rooms = [];
  messages = [];
  tasks = tasks;
  projects = [];
  agent_runs = [];
  artifact_versions = [];
  handoffs = [];
  capability_requests = [];
  events = no_events;
}

abbrev empty_document : Json
empty_document = dict end

abbrev queued_task : ℕ → ℕ → WorkflowTask
queued_task id created = record {
  id = id;
  workflow_id = 1;
  stage_run_id = 2;
  room_id = 3;
  title = codes "build";
  status = TaskStatus.queued;
  payload = empty_document;
  result = none;
  version = 1;
  created_at = created;
  started_at = none;
  completed_at = none;
}

abbrev running_task : WorkflowTask
running_task = record (queued_task 7 10) {
  status = TaskStatus.running;
  version = 2;
  started_at = some 20;
}

abbrev done_task : WorkflowTask
done_task = record running_task {
  status = TaskStatus.succeeded;
  result = some empty_document;
  version = 3;
  completed_at = some 30;
}

abbrev waiting : Db
waiting = with_tasks (queued_task 8 12 ∷ queued_task 7 10 ∷ [])

abbrev busy : Db
busy = with_tasks (queued_task 8 12 ∷ running_task ∷ [])

abbrev done : Db
done = with_tasks (queued_task 8 12 ∷ done_task ∷ [])

busy_and_order :
    (start_task 8 1 20 waiting ≡ err queue_order_conflict)
    × (start_task 8 1 20 busy ≡ err workflow_busy)
unfolding start_task
busy_and_order = (refl, refl)

waiting-IsQueue : IsQueue waiting.tasks
waiting-IsQueue = record { distinct = (refl, (refl, tt)); one_running = λ wid. ground arith }

busy-IsQueue : IsQueue busy.tasks
busy-IsQueue = record { distinct = (refl, (refl, tt)); one_running = λ wid. ground arith }

start_task-IsQueue_example : IsQueue busy.tasks
unfolding start_task is_task has_task_timestamps is_title validate_json_payload is_trimmed strip
start_task-IsQueue_example =
    start_task-IsQueue 7 1 20 waiting running_task busy waiting-IsQueue refl

abbrev cancelled_task : WorkflowTask
cancelled_task = record (queued_task 7 10) {
  status = TaskStatus.cancelled;
  version = 2;
  completed_at = some 15;
}

abbrev cancelled_db : Db
cancelled_db = with_tasks (queued_task 8 12 ∷ cancelled_task ∷ [])

started_is_first_example :
    (task : WorkflowTask) × (get_row task_key 7 waiting.tasks ≡ some task)
    × (is_queued task.status ≡ true)
    × (count (running_in task.workflow_id) waiting.tasks ≡ 0)
    × All (λ x. queued_in task.workflow_id x ≡ true → queued_before x task ≡ false) waiting.tasks
unfolding start_task is_task has_task_timestamps is_title validate_json_payload is_trimmed strip
started_is_first_example = started_is_first 7 1 20 waiting running_task busy waiting-IsQueue refl

old_version_refused_example : IsStale 7 1 busy
unfolding start_task is_task has_task_timestamps is_title validate_json_payload is_trimmed strip
old_version_refused_example =
    old_version_refused 7 1 20 true empty_document waiting running_task busy (inl refl)

terminal_is_final_example :
    (start_task 7 3 40 done ≡ err task_not_queued)
    × (complete_task 7 true empty_document 3 40 done ≡ err task_not_running)
    × (cancel_task 7 3 40 done ≡ err not_cancellable)
terminal_is_final_example = terminal_is_final 7 40 true empty_document done done_task refl refl

task_operations_keep_valid_example :
    (start_task 7 1 20 waiting ≢ err value_error)
    × (complete_task 7 true empty_document 1 20 waiting ≢ err value_error)
    × (cancel_task 7 1 20 waiting ≢ err value_error)
unfolding is_task has_task_timestamps is_title validate_json_payload is_trimmed strip
task_operations_keep_valid_example =
    task_operations_keep_valid 7 1 20 true empty_document waiting (queued_task 7 10) refl refl
      (omega arith) refl

abbrev room : Room
room = record {
  id = 3;
  workflow_id = 1;
  stage_run_id = 2;
  stage = Stage.planner;
  status = RoomStatus.active;
  next_sequence = 2;
  version = 4;
  created_at = 5;
  updated_at = 5;
}

abbrev message : ℕ → ℕ → Message
message id sequence = record {
  id = id;
  room_id = 3;
  sequence = sequence;
  author = MessageAuthor.user;
  kind = MessageKind.discussion;
  content = codes "hello";
  correction_of_id = none;
  created_at = 5;
}

abbrev with_messages : Room → List Message → Db
with_messages r messages = record (with_tasks []) { rooms = r ∷ []; messages = messages }

abbrev talked : Db
talked = with_messages room (message 20 1 ∷ [])

abbrev updated_room : Room
updated_room = record room { next_sequence = 3; version = 5; updated_at = 9 }

abbrev talked_on : Db
talked_on = with_messages updated_room (message 20 1 ∷ message 21 2 ∷ [])

late_message : append_message (message 21 1) 4 9 talked ≡ err sequence_conflict
unfolding append_message
late_message = refl

append_message-IsNumbered_example :
    IsNumbered updated_room talked_on.messages
    × (get_row room_key 3 talked_on.rooms ≡ some updated_room)
    × ((other : ℕ)
        → (3 == other) ≡ false
        → sequences other talked_on.messages ≡ sequences other talked.messages)
unfolding append_message is_room
append_message-IsNumbered_example =
    append_message-IsNumbered (message 21 2) 4 9 talked room updated_room talked_on refl
      (1, refl, refl) refl

append_message_accepts_example :
    (room_is_archived room.status ≡ false)
    × (room.version ≡ 4)
    × (updated_room.version ≡ 4 + 1)
    × (room.status ≡ RoomStatus.consultation → (message 21 2).kind ≢ MessageKind.discussion)
    × (room.status ≡ RoomStatus.active → (message 21 2).kind ≢ MessageKind.consultation)
    × ((original : ℕ)
        → (message 21 2).correction_of_id ≡ some original
        → (m : Message) × (get_row message_key original talked.messages ≡ some m) × (m.room_id ≡ 3))
unfolding append_message is_room
append_message_accepts_example =
    append_message_accepts (message 21 2) 4 9 talked room updated_room talked_on refl refl
