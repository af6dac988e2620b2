-- ===== src/Workflow/Messages.antt =====
-- `append_message` and `list_messages` of `SqlAlchemyWorkflowRepository`
-- (backend/src/agent_platform/infrastructure/database/workflow_repository.py).
pub mod Sequence
use agent_program.Prelude.{
  ℕ, ◌+◌, Bool, true, false, ◌&&◌, not, Option, none, some, List, [], ◌∷◌, ◌++◌, ◌==◌, ltb, get_row,
  select, sort_by, take,
}
use agent_program.Errors.{
  Entity, Result, ok, err, not_found, room_archived, sequence_conflict, consultation_only,
  discussion_only, ◌>>=◌, ◌>>◌, raise_if,
}
use agent_program.Workflow.Models.{RoomStatus, MessageKind, Room, Message}
use agent_program.Workflow.Db.{Db, room_from_row, message_from_row}
use agent_program.Workflow.Transitions.{put_room}
use agent_program.Workflow.Queries.{message_key, require_version, require_room_row}

abbrev pub room_is_archived : RoomStatus → Bool
room_is_archived RoomStatus.archived = true
room_is_archived _ = false

-- the consultation and discussion rules
abbrev pub wrong_kind : RoomStatus → MessageKind → Result (Unit {0})
wrong_kind RoomStatus.consultation MessageKind.discussion = err consultation_only
wrong_kind RoomStatus.active MessageKind.consultation = err discussion_only
wrong_kind _ _ = ok tt

abbrev original_in : ℕ → Option Message → Bool
original_in room none = false
original_in room (some m) = m.room_id == room

-- the test of `correction_of_id`
abbrev pub check_original : Option ℕ → ℕ → List Message → Result (Unit {0})
check_original none room messages = ok tt
check_original (some original) room messages =
    raise_if (not (original_in room (get_row message_key original messages)))
      (not_found Entity.message)

unfoldable pub append_message : Message → ℕ → ℕ → Db → Result (Room × Db)
unfolding require_room_row require_version
append_message message expected now db = do
  room ← require_room_row message.room_id db
  require_version Entity.room room.version expected
  raise_if (room_is_archived room.status) room_archived
  raise_if (not (message.sequence == room.next_sequence)) sequence_conflict
  wrong_kind room.status message.kind
  check_original message.correction_of_id message.room_id db.messages
  let room' = record room {
    next_sequence = room.next_sequence + 1;
    version = room.version + 1;
    updated_at = now;
  }
  updated ← room_from_row room'
  ok (updated, put_room room' (record db { messages = db.messages ++ message ∷ [] }))

abbrev by_sequence : Message → Message → Bool
by_sequence a b = ltb a.sequence b.sequence

abbrev pub read_all : List Message → Result (List Message)
read_all [] = ok []
read_all (m ∷ ms) = do m' ← message_from_row m; ms' ← read_all ms; ok (m' ∷ ms')

unfoldable pub list_messages : ℕ → ℕ → ℕ → Db → Result (List Message)
unfolding require_room_row
list_messages room after limit db = do
  found ← require_room_row room db
  read_all (
      take limit
        (sort_by by_sequence (select (λ m. m.room_id == room && ltb after m.sequence) db.messages)))
