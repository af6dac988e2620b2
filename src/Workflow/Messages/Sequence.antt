-- ===== src/Workflow/Messages/Sequence.antt =====
-- The messages of a room are numbered without gaps, in the order in which they were appended.
use agent_program.Prelude.{
  ℕ, zero, suc, ◌+◌, ◌≡◌, ◌≢◌, sym, ap, ◌∙◌, true, false, some, List, [], ◌∷◌, ◌++◌, ◌==◌, arith,
  get_row, put_row, select, map, Bool-cases, Option-cases, inl, inr, key-get_row,
  get_row-put_row_self, ==_iff,
}
use mathlib.Core.Path.{subst}
use agent_program.Errors.{ok}
use agent_program.Workflow.Models.{Room, Message, RoomStatus, MessageKind}
use agent_program.Workflow.Db.{Db}
use agent_program.Workflow.Queries.{room_key, message_key}
use agent_program.Workflow.Messages.{append_message, room_is_archived, wrong_kind, check_original}

-- 1, 2, …, n
abbrev pub numbers_to : ℕ → List ℕ
numbers_to zero = []
numbers_to (suc n) = numbers_to n ++ suc n ∷ []

-- The sequence numbers of a room's messages, in the table's order.
abbrev pub sequences : ℕ → List Message → List ℕ
sequences room ms = map (λ (m : Message). m.sequence) (select (λ m. m.room_id == room) ms)

-- The room's messages are numbered 1, 2, …, and `next_sequence` is the number after the last one.
abbrev pub IsNumbered : Room → List Message → Type 0
IsNumbered room ms = (n : ℕ) × (room.next_sequence ≡ suc n) × (sequences room.id ms ≡ numbers_to n)

-- What an `append_message` that succeeded has read and written.
record Appended (message : Message) (expected now : ℕ) (db : Db) (updated : Room) (db' : Db)
    : Type 0 where
  room : Room
  found : get_row room_key message.room_id db.rooms ≡ some room
  version : room.version ≡ expected
  open_room : room_is_archived room.status ≡ false
  kind : wrong_kind room.status message.kind ≡ ok tt
  original : check_original message.correction_of_id message.room_id db.messages ≡ ok tt
  in_order : message.sequence ≡ room.next_sequence
  new_room : updated ≡ record room {
    next_sequence = room.next_sequence + 1;
    version = room.version + 1;
    updated_at = now;
  }
  rooms : db'.rooms ≡ put_row room_key updated db.rooms
  messages : db'.messages ≡ db.messages ++ message ∷ []

append_message-Appended :
    (message : Message) (expected now : ℕ) (db : Db) (updated : Room) (db' : Db)
    → append_message message expected now db ≡ ok (updated, db')
    → Appended message expected now db updated db'
unfolding append_message
append_message-Appended message expected now db updated db' h =
    elim (Option-cases (get_row room_key message.room_id db.rooms)) [
      | inl missing ↦ cc (rw missing at h)
      | inr (room, found) ↦ record {
        room = room;
        found = found;
        version = ground arith;
        open_room = ground arith;
        kind = ground arith;
        original = ground arith;
        in_order = ground arith;
        new_room = ground arith;
        rooms = ground arith;
        messages = ground arith;
      }
    ]

select_new :
    (room : ℕ) (m : Message) (ms : List Message)
    → (m.room_id == room) ≡ true
    → sequences room (ms ++ m ∷ []) ≡ sequences room ms ++ m.sequence ∷ []
select_new room m [] own = rw own
select_new room m (x ∷ ms) own = elim (Bool-cases (x.room_id == room)) [
  | inl hit ↦ rw (hit, select_new room m ms own)
  | inr miss ↦ rw (miss, select_new room m ms own)
]

select_other :
    (room : ℕ) (m : Message) (ms : List Message)
    → (m.room_id == room) ≡ false
    → sequences room (ms ++ m ∷ []) ≡ sequences room ms
select_other room m [] other = rw other
select_other room m (x ∷ ms) other = elim (Bool-cases (x.room_id == room)) [
  | inl hit ↦ rw (hit, select_other room m ms other)
  | inr miss ↦ rw (miss, select_other room m ms other)
]

-- A message that was appended to a room whose messages are numbered 1, 2, … leaves the updated room
-- stored and so numbered, and the numbers of every other room as they were.
pub append_message-IsNumbered :
    (message : Message) (expected now : ℕ) (db : Db) (room updated : Room) (db' : Db)
    → get_row room_key message.room_id db.rooms ≡ some room
    → IsNumbered room db.messages
    → append_message message expected now db ≡ ok (updated, db')
    → IsNumbered updated db'.messages
      × (get_row room_key message.room_id db'.rooms ≡ some updated)
      × ((other : ℕ)
          → (message.room_id == other) ≡ false
          → sequences other db'.messages ≡ sequences other db.messages)
append_message-IsNumbered message expected now db room updated db' found (n, next, seqs) h =
    let a = append_message-Appended message expected now db updated db' h in
    let same_room : a.room ≡ room = cc (a.found, found) in
    let is_next : message.sequence ≡ room.next_sequence =
      a.in_order ∙ ap (λ (r : Room). r.next_sequence) same_room in
    let room_id : room.id ≡ message.room_id =
      key-get_row room_key message.room_id room db.rooms found in
    let own_id : updated.id ≡ room.id =
      ap (λ (r : Room). r.id) a.new_room ∙ ap (λ (r : Room). r.id) same_room in
    let updated_next : updated.next_sequence ≡ room.next_sequence + 1 =
      ap (λ (r : Room). r.next_sequence) a.new_room
      ∙ ap (λ (r : Room). r.next_sequence + 1) same_room in
    (
      (
        suc n,
        omega (arith, updated_next, next),
        (let appended =
              select_new room.id message db.messages
                ((==_iff message.room_id room.id).1 (sym room_id)) in
            rw (a.messages, own_id, appended, seqs, is_next, next)),
      ),
      stored_room message.room_id updated room db.rooms (own_id ∙ room_id) found a.rooms,
      λ other differs. rw a.messages (select_other other message db.messages differs),
    )
  where
    stored_room :
        (k : ℕ) (r old : Room) (rs : List Room) {rs' : List Room}
        → r.id ≡ k
        → get_row room_key k rs ≡ some old
        → rs' ≡ put_row room_key r rs
        → get_row room_key k rs' ≡ some r
    stored_room k r old rs id there e =
        rw (e, ← id)
          (get_row-put_row_self room_key r old rs
            (subst (λ j. get_row room_key j rs ≡ some old) (sym id) there))

-- A message is accepted only in a room that is not archived and has the expected version, which goes
-- up by one; a room in consultation takes no discussion, an active one no consultation, and a
-- correction refers to a message of the same room.
pub append_message_accepts :
    (message : Message) (expected now : ℕ) (db : Db) (room updated : Room) (db' : Db)
    → get_row room_key message.room_id db.rooms ≡ some room
    → append_message message expected now db ≡ ok (updated, db')
    → (room_is_archived room.status ≡ false)
      × (room.version ≡ expected)
      × (updated.version ≡ expected + 1)
      × (room.status ≡ RoomStatus.consultation → message.kind ≢ MessageKind.discussion)
      × (room.status ≡ RoomStatus.active → message.kind ≢ MessageKind.consultation)
      × ((original : ℕ)
          → message.correction_of_id ≡ some original
          → (m : Message) × (get_row message_key original db.messages ≡ some m)
            × (m.room_id ≡ message.room_id))
append_message_accepts message expected now db room updated db' found h =
    let a = append_message-Appended message expected now db updated db' h in
    let same_room : a.room ≡ room = cc (a.found, found) in
    let kind : wrong_kind room.status message.kind ≡ ok tt =
      subst (λ (r : Room). wrong_kind r.status message.kind ≡ ok tt) same_room a.kind in
    (
      subst (λ (r : Room). room_is_archived r.status ≡ false) same_room a.open_room,
      subst (λ (r : Room). r.version ≡ expected) same_room a.version,
      ap (λ (r : Room). r.version) a.new_room ∙ ap (λ n. n + 1) a.version,
      (λ status discussion. ground (arith, kind, status, discussion)),
      (λ status consulting. ground (arith, kind, status, consulting)),
      λ original refers.
          the_original message.room_id original db.messages
            (subst (λ o. check_original o message.room_id db.messages ≡ ok tt) refers a.original),
    )
  where
    the_original :
        (room original : ℕ) (ms : List Message)
        → check_original (some original) room ms ≡ ok tt
        → (m : Message) × (get_row message_key original ms ≡ some m) × (m.room_id ≡ room)
    the_original room original ms h = elim (Option-cases (get_row message_key original ms)) [
      | inl missing ↦ cc (rw missing at h)
      | inr (m, there) ↦ (m, there, ground (arith, there))
    ]
