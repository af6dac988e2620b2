-- ===== src/Events/Tickets.antt =====
-- The tickets that open an event stream (`EventTicketStore` of
-- backend/src/agent_platform/application/events/streaming.py). The digest of a token, SHA-256 in the
-- code, is a parameter, and so is the token that an issue draws. An operation runs under the store's
-- lock, so it is one step.
pub mod Room
pub mod Lifetime
pub mod Origin
mod Tests
use agent_program.Prelude.{
  ℕ, ◌+◌, Bool, true, false, ◌||◌, not, Option, none, some, List, [], ◌∷◌, ◌++◌, ◌==◌, ltb, leb,
  if◌then◌else◌, length, select, get_row, put_row, is_some,
}
use agent_program.Errors.{Result, ok, ◌>>◌, raise_if, value_error}
use agent_program.Shared.Text.{Text}

-- an entry of `_tickets`, in the order of the dictionary
pub record Ticket : Type 0 where
  pub digest : ℕ
  pub workflow_id : ℕ
  pub expires_at : ℕ

pub record TicketStore : Type 0 where
  pub ttl : ℕ
  pub max_pending : ℕ
  pub tickets : List Ticket

abbrev pub ticket_key : Ticket → ℕ
ticket_key t = t.digest

unfoldable pub new_ticket_store : ℕ → ℕ → Result TicketStore
new_ticket_store ttl max_pending = do
  raise_if (ttl == 0 || ltb max_pending 1) value_error
  ok (record { ttl = ttl; max_pending = max_pending; tickets = [] })

-- `_prune`
abbrev pub is_alive : ℕ → Ticket → Bool
is_alive now t = not (leb t.expires_at now)

abbrev pub prune : ℕ → List Ticket → List Ticket
prune now tickets = select (is_alive now) tickets

-- `while len(self._tickets) >= self._max_pending: self._tickets.popitem(last=False)`
unfoldable pub make_room : ℕ → List Ticket → List Ticket
make_room max_pending [] = []
make_room max_pending (t ∷ ts) =
    let rest = make_room max_pending ts in
    if leb max_pending (length (t ∷ ts)) then rest else t ∷ ts

-- `self._tickets[digest] = …`: a key that is there keeps its place.
abbrev pub set_ticket : Ticket → List Ticket → List Ticket
set_ticket t ts =
    if is_some (get_row ticket_key t.digest ts) then put_row ticket_key t ts else ts ++ t ∷ []

abbrev pub with_tickets : TicketStore → List Ticket → TicketStore
with_tickets store tickets = record store { tickets = tickets }

abbrev pub valid_until : ℕ → Option Ticket → Option ℕ
valid_until now none = none
valid_until now (some t) = if leb t.expires_at now then none else some t.workflow_id

module _ (digest_of : Text → ℕ) where
  abbrev pub new_ticket : TicketStore → Text → ℕ → ℕ → Ticket
  new_ticket store token workflow_id now = record {
    digest = digest_of token;
    workflow_id = workflow_id;
    expires_at = now + store.ttl;
  }

  -- `issue`, where `token` was drawn
  unfoldable pub issue : Text → ℕ → ℕ → TicketStore → TicketStore
  unfolding make_room
  issue token workflow_id now store = with_tickets store (
      set_ticket (new_ticket store token workflow_id now)
        (make_room store.max_pending (prune now store.tickets)))

  -- `consume`: the workflow of the ticket, if there is one
  unfoldable pub consume : Text → ℕ → TicketStore → Option ℕ × TicketStore
  consume token now store =
      let live = prune now store.tickets in
      if length token == 0 || ltb 256 (length token) then (none, store) else (
        valid_until now (get_row ticket_key (digest_of token) live),
        with_tickets store (select (λ t. not (t.digest == digest_of token)) live),
      )

  pub data Use : Type 0 where
    issues : Text → ℕ → ℕ → Use
    consumes : Text → ℕ → Use

  -- what a use leaves of the store
  abbrev pub apply : Use → TicketStore → TicketStore
  apply (issues token workflow_id now) store = issue token workflow_id now store
  apply (consumes token now) store = (consume token now store).1

  -- the uses one after the other
  unfoldable pub run : List Use → TicketStore → TicketStore
  run [] store = store
  run (u ∷ us) store = run us (apply u store)
