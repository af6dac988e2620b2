-- ===== src/Workflow/Rooms/Guards.antt =====
-- What the handlers on messages and tasks have checked and written when they answer.
use agent_program.Events.Log.{AppendReads}
use agent_program.Prelude.{
  ℕ, key-get_row, ◌≡◌, refl, sym, ap, ◌∙◌, Bool, true, false, Option, none, some, [], ◌∷◌, ◌++◌,
  arith, get_row,
}
use mathlib.Core.Path.{subst, subst₂}
use agent_program.Errors.{
  Error, ok, >>=-eq-ok, >>-eq-ok, or_raise, raise_if, runtime_error, not_found, Entity,
  room_not_active,
}
use agent_program.Shared.Text.{Text}
use agent_program.Shared.Json.{Json}
use agent_program.Workflow.Models.{Workflow, StageRun, Room, RoomStatus, Message, WorkflowTask}
use agent_program.Workflow.Db.{Db, task_from_row, message_from_row}
use agent_program.Workflow.Queries.{task_key, room_key}
use agent_program.Workflow.Messages
use agent_program.Workflow.Messages.Sequence.{IsNumbered, append_message-IsNumbered}
use agent_program.Workflow.Tasks.{is_queued, add_task}
use agent_program.Workflow.Tasks.Queue.{IsQueue, add_task-IsQueue}
use agent_program.Workflow.Uow.{transact-eq-ok, append_event}
use agent_program.Workflow.Service.{get_workflow, get_current_stage_run}
use agent_program.Workflow.Rooms.{
  get_room, get_stage_run, append_message, enqueue_task, new_task, new_message, is_not_working,
  check_writable,
}

raised_not : (b : Bool) (e : Error) → raise_if b e ≡ ok tt → b ≡ false
raised_not true e h = cc
raised_not false e h = refl

stored :
    (rid : ℕ) (db : Db) (room : Room)
    → get_room rid db ≡ ok (some room)
    → get_row room_key rid db.rooms ≡ some room
stored rid db room h = ground arith

some_inj {ℓ} : {A : Type ℓ} (o : Option A) (a b : A) → o ≡ some a → o ≡ some b → a ≡ b
some_inj none a b p q = cc
some_inj (some c) a b p q = cc

answered {ℓ} : {A : Type ℓ} (p q : A × Db) → ok p ≡ ok q → (p.0 ≡ q.0) × (p.1 ≡ q.1)
answered p q h = let e : p ≡ q = cc h in (ap (λ x. x.0) e, ap (λ x. x.1) e)

task_from_row_exact : (x y : WorkflowTask) → task_from_row x ≡ ok y → x ≡ y
task_from_row_exact x y h = ground arith

message_from_row_exact : (x y : Message) → message_from_row x ≡ ok y → x ≡ y
message_from_row_exact x y h = ground arith

given : (o : Option Room) (e : Error) {room : Room} → or_raise o e ≡ ok room → o ≡ some room
given none e h = cc
given (some r) e h = cc

-- What an answered `enqueue_task` has read, checked and written.
pub enqueue_task_guards :
    (draw : ℕ → ℕ) (reads : AppendReads) (now rid : ℕ) (title : Text) (payload : Json) (db : Db)
    (t : WorkflowTask) (db' : Db)
    → enqueue_task draw reads now rid title payload db ≡ (ok t, db')
    → (room : Room) × (workflow : Workflow) × (run : StageRun) × (current : Option StageRun)
      × (get_row room_key rid db.rooms ≡ some room)
      × (get_current_stage_run room.workflow_id room.stage db ≡ ok current)
      × (is_not_working workflow room current run ≡ false)
      × (t ≡ new_task (draw 0) workflow run room title payload now)
      × (db'.tasks ≡ db.tasks ++ t ∷ [])
unfolding enqueue_task append_event add_task
enqueue_task_guards draw reads now rid title payload db t db' h =
    let body = transact-eq-ok db _ h in
    let (found, looked, p₁) = >>=-eq-ok (get_room rid db) _ body in
    let (room, is_room, p₂) = >>=-eq-ok (or_raise found (not_found Entity.room)) _ p₁ in
    let (found_workflow, _, p₃) = >>=-eq-ok (get_workflow room.workflow_id db) _ p₂ in
    let (found_run, _, p₄) = >>=-eq-ok (get_stage_run room.stage_run_id db) _ p₃ in
    let (current, is_current, p₅) =
      >>=-eq-ok (get_current_stage_run room.workflow_id room.stage db) _ p₄ in
    let (workflow, _, p₆) = >>=-eq-ok (or_raise found_workflow runtime_error) _ p₅ in
    let (run, _, p₇) = >>=-eq-ok (or_raise found_run runtime_error) _ p₆ in
    let (working, p₈) =
      >>-eq-ok (raise_if (is_not_working workflow room current run) room_not_active) _ p₇ in
    let (task, read, p₉) =
      >>=-eq-ok (task_from_row (new_task (draw 0) workflow run room title payload now)) _ p₈ in
    let new = task_from_row_exact _ task read in
    let (same, same_db) = answered _ _ p₉ in
    (
      room,
      workflow,
      run,
      current,
      stored rid db room (looked ∙ ap ok (given found (not_found Entity.room) is_room)),
      is_current,
      raised_not (is_not_working workflow room current run) room_not_active working,
      sym (new ∙ same),
      sym (ap (λ (d : Db). d.tasks) same_db) ∙ ap (λ x. db.tasks ++ x ∷ []) same,
    )

-- From distinct identifiers of the tasks and at most one running task for each workflow, with a new
-- identifier that no task has, an enqueuing that is answered leaves that so; the task is queued and
-- in the room that was asked for, which is active.
pub enqueue_task-IsQueue :
    (draw : ℕ → ℕ) (reads : AppendReads) (now rid : ℕ) (title : Text) (payload : Json) (db : Db)
    (t : WorkflowTask) (db' : Db)
    → IsQueue db.tasks
    → get_row task_key (draw 0) db.tasks ≡ none
    → enqueue_task draw reads now rid title payload db ≡ (ok t, db')
    → IsQueue db'.tasks
      × (is_queued t.status ≡ true)
      × (t.room_id ≡ rid)
      × ((room : Room) × (get_row room_key rid db.rooms ≡ some room)
          × (room.status ≡ RoomStatus.active))
unfolding add_task
enqueue_task-IsQueue draw reads now rid title payload db t db' q fresh h =
    let (room, workflow, run, current, found, _, working, new, written) =
      enqueue_task_guards draw reads now rid title payload db t db' h in
    (
      rw written (add_task-IsQueue t db q (rw new) (rw new fresh)),
      rw new,
      ap (λ (x : WorkflowTask). x.room_id) new ∙ key-get_row room_key rid room db.rooms found,
      (room, found, active_room workflow room current run working),
    )
  where
    active_room :
        (workflow : Workflow) (room : Room) (current : Option StageRun) (run : StageRun)
        → is_not_working workflow room current run ≡ false
        → room.status ≡ RoomStatus.active
    active_room workflow room current run h = ground arith

-- A message that the handler posts to a room whose messages are numbered 1, 2, … has the number that
-- the room said was next, and the updated room is stored and numbered.
pub posted_message-IsNumbered :
    (draw : ℕ → ℕ) (reads : AppendReads) (now rid : ℕ) (content : Text)
    (correction_of_id : Option ℕ) (expected : ℕ) (db : Db) (room : Room) (m : Message)
    (updated : Room) (db' : Db)
    → get_row room_key rid db.rooms ≡ some room
    → IsNumbered room db.messages
    → append_message draw reads now rid content correction_of_id expected db
      ≡ (ok (m, updated), db')
    → IsNumbered updated db'.messages
      × (get_row room_key rid db'.rooms ≡ some updated)
      × (m.sequence ≡ room.next_sequence)
unfolding append_message append_event
posted_message-IsNumbered draw reads now rid content correction expected db room m updated db' there
      numbered h =
    let body = transact-eq-ok db _ h in
    let (found, looked, p₁) = >>=-eq-ok (get_room rid db) _ body in
    let (room', is_room, p₂) = >>=-eq-ok (or_raise found (not_found Entity.room)) _ p₁ in
    let (found_workflow, _, p₃) = >>=-eq-ok (get_workflow room'.workflow_id db) _ p₂ in
    let (found_run, _, p₄) = >>=-eq-ok (get_stage_run room'.stage_run_id db) _ p₃ in
    let (workflow, _, p₅) = >>=-eq-ok (or_raise found_workflow runtime_error) _ p₄ in
    let (run, _, p₆) = >>=-eq-ok (or_raise found_run runtime_error) _ p₅ in
    let (_, p₇) = >>-eq-ok (check_writable workflow room' run db) _ p₆ in
    let (message, read, p₈) =
      >>=-eq-ok (message_from_row (new_message (draw 0) rid room' content correction now)) _ p₇ in
    let ((updated', db₁), called, p₉) =
      >>=-eq-ok (Messages.append_message message expected now db) _ p₈ in
    let new = message_from_row_exact _ message read in
    let in_room : message.room_id ≡ rid = ap (λ (x : Message). x.room_id) (sym new) in
    let same_room : room' ≡ room =
      some_inj (get_row room_key rid db.rooms) room' room
        (stored rid db room' (looked ∙ ap ok (given found (not_found Entity.room) is_room)))
        there in
    let (is_numbered, kept, _) =
      append_message-IsNumbered message expected now db room updated' db₁ (rw in_room there)
        numbered called in
    let (same, same_db) = answered _ _ p₉ in
    let same_message : message ≡ m = ap (λ (p : Message × Room). p.0) same in
    let same_updated : updated' ≡ updated = ap (λ (p : Message × Room). p.1) same in
    (
      subst₂ (λ (r : Room) (d : Db). IsNumbered r d.messages) same_updated same_db is_numbered,
      subst₂ (λ (r : Room) (d : Db). get_row room_key rid d.rooms ≡ some r) same_updated same_db
          (subst (λ k. get_row room_key k db₁.rooms ≡ some updated') in_room kept),
      sym (ap (λ (x : Message). x.sequence) same_message)
          ∙ (ap (λ (x : Message). x.sequence) (sym new)
              ∙ ap (λ (r : Room). r.next_sequence) same_room),
    )
