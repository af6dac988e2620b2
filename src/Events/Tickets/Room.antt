-- ===== src/Events/Tickets/Room.antt =====
-- The parts of an issue: room is made, and the entry of the ticket is written.
use agent_program.Prelude.{
  ℕ, ◌+◌, ◌≤◌, ◌<◌, ◌≡◌, refl, ◌∙◌, false, none, List, [], ◌∷◌, ◌==◌, leb, arith, length,
  length-append, get_row, is_some, All, All-append, KeysDistinct, put_row-KeysDistinct,
  append-KeysDistinct, All-put_row, length-put_row, get_row-put_row_ne, get_row-append_new,
  Bool-cases, Option-cases, inl, inr,
}
use agent_program.Events.Tickets.{Ticket, TicketStore, ticket_key, make_room, set_ticket}

-- What holds of the tickets holds of those that are left when room was made.
pub make_room-All {κ} :
    (P : Ticket → Type κ) (most : ℕ) (ts : List Ticket) → All P ts → All P (make_room most ts)
unfolding make_room
make_room-All P most [] h = tt
make_room-All P most (t ∷ ts) h = elim (Bool-cases (leb most (length (t ∷ ts)))) [
  | inl full ↦ rw (full, make_room) (make_room-All P most ts h.1)
  | inr room ↦ rw (room, make_room) h
]

pub make_room-length : (most : ℕ) (ts : List Ticket) → 1 ≤ most → length (make_room most ts) < most
unfolding make_room
make_room-length most [] positive = omega (arith, positive)
make_room-length most (t ∷ ts) positive = elim (Bool-cases (leb most (length (t ∷ ts)))) [
  | inl full ↦ rw (full, make_room) (make_room-length most ts positive)
  | inr room ↦ rw (room, make_room) (ground (arith, room))
]

pub make_room-get_row :
    (most k : ℕ) (ts : List Ticket)
    → get_row ticket_key k ts ≡ none
    → get_row ticket_key k (make_room most ts) ≡ none
unfolding make_room
make_room-get_row most k [] h = refl
make_room-get_row most k (t ∷ ts) h = elim (Bool-cases (t.digest == k)) [
  | inl same ↦ cc (rw same at h)
  | inr other ↦ elim (Bool-cases (leb most (length (t ∷ ts)))) [
    | inl full ↦ rw (full, make_room) (make_room-get_row most k ts (rw other at h))
    | inr room ↦ rw (room, other, make_room) (rw other at h)
  ]
]

pub make_room-KeysDistinct :
    (most : ℕ) (ts : List Ticket)
    → KeysDistinct ticket_key ts
    → KeysDistinct ticket_key (make_room most ts)
unfolding make_room
make_room-KeysDistinct most [] d = tt
make_room-KeysDistinct most (t ∷ ts) d = elim (Bool-cases (leb most (length (t ∷ ts)))) [
  | inl full ↦ rw (full, make_room) (make_room-KeysDistinct most ts d.1)
  | inr room ↦ rw (room, make_room) d
]

-- The entry of a ticket is written.
pub set_ticket-All {κ} :
    (P : Ticket → Type κ) (t : Ticket) (ts : List Ticket) → All P ts → P t → All P (set_ticket t ts)
set_ticket-All P t ts h p = elim (Bool-cases (is_some (get_row ticket_key t.digest ts))) [
  | inl there ↦ rw there (All-put_row ticket_key P t ts h p)
  | inr new ↦ rw new (All-append P ts (t ∷ []) h (p, tt))
]

pub set_ticket-length : (t : Ticket) (ts : List Ticket) → length (set_ticket t ts) ≤ length ts + 1
set_ticket-length t ts = elim (Bool-cases (is_some (get_row ticket_key t.digest ts))) [
  | inl there ↦ rw there (omega (arith, length-put_row ticket_key t ts))
  | inr new ↦ rw new (omega (arith, length-append ts (t ∷ [])))
]

pub set_ticket-get_row :
    (k : ℕ) (t : Ticket) (ts : List Ticket)
    → (t.digest == k) ≡ false
    → get_row ticket_key k ts ≡ none
    → get_row ticket_key k (set_ticket t ts) ≡ none
set_ticket-get_row k t ts other h = elim (Bool-cases (is_some (get_row ticket_key t.digest ts))) [
  | inl there ↦ rw there (get_row-put_row_ne ticket_key k t ts other ∙ h)
  | inr new ↦ rw new (get_row-append_new ticket_key k t ts other ∙ h)
]

pub set_ticket-KeysDistinct :
    (t : Ticket) (ts : List Ticket)
    → KeysDistinct ticket_key ts
    → KeysDistinct ticket_key (set_ticket t ts)
set_ticket-KeysDistinct t ts d = elim (Option-cases (get_row ticket_key t.digest ts)) [
  | inl new ↦ rw new (append-KeysDistinct ticket_key t ts d new)
  | inr (old, there) ↦ rw there (put_row-KeysDistinct ticket_key t ts d)
]

-- Each digest has one entry, and there are at most as many as may be pending.
pub record IsTickets (store : TicketStore) : Type 0 where
  pub positive : 1 ≤ store.max_pending
  pub distinct : KeysDistinct ticket_key store.tickets
  pub bounded : length store.tickets ≤ store.max_pending
