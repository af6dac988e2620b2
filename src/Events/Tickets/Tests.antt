-- ===== src/Events/Tickets/Tests.antt =====
-- Uses of a store with room for two tickets, where the digest of a token is the sum of its code points.
use agent_program.Prelude.{ℕ, ◌<◌, ◌≡◌, refl, none, some, List, [], ◌∷◌, arith, sum_of}
use agent_program.Shared.Text.{Text}
use agent_program.Contracts.Paths.{codes}
use agent_program.Events.Tickets.{Ticket, TicketStore, Use, issues, issue, make_room, consume, run}
use agent_program.Events.Tickets.Room.{IsTickets}
use agent_program.Events.Tickets.Lifetime.{run-IsTickets, ticket_used_once}
use agent_program.Events.Tickets.Origin.{IssuedIn, ticket_was_issued}

abbrev digest_of : Text → ℕ
digest_of t = sum_of (λ c. c) t

abbrev empty : TicketStore
empty = record { ttl = 30; max_pending = 2; tickets = [] }

abbrev three_issued : List (Use digest_of)
three_issued = issues (codes "a") 1 0 ∷ issues (codes "b") 2 5 ∷ issues (codes "c") 3 6 ∷ []

abbrev b_and_c : TicketStore
b_and_c = record empty {
  tickets =
      record { digest = 98; workflow_id = 2; expires_at = 35 }
      ∷ record { digest = 99; workflow_id = 3; expires_at = 36 }
      ∷ [];
}

abbrev only_b : TicketStore
only_b = record empty { tickets = record { digest = 98; workflow_id = 2; expires_at = 35 } ∷ [] }

-- The oldest of three tickets is dropped.
first_dropped : run digest_of three_issued empty ≡ b_and_c
unfolding run issue make_room
first_dropped = refl

empty-IsTickets : IsTickets empty
empty-IsTickets = record { positive = omega arith; distinct = tt; bounded = omega arith }

run-IsTickets_example : IsTickets (run digest_of three_issued empty)
run-IsTickets_example = run-IsTickets digest_of three_issued empty empty-IsTickets

c_consumed : consume digest_of (codes "c") 20 b_and_c ≡ (some 3, only_b)
unfolding consume
c_consumed = refl

ticket_used_once_example :
    (consume digest_of (codes "c") 21 (run digest_of (issues (codes "d") 4 20 ∷ []) only_b)).0
    ≡ none
ticket_used_once_example =
    ticket_used_once digest_of (codes "c") 20 21 3 (issues (codes "d") 4 20 ∷ []) b_and_c only_b
      c_consumed (refl, tt)

c_consumed_after_run :
    consume digest_of (codes "c") 20 (run digest_of three_issued empty) ≡ (some 3, only_b)
unfolding run issue make_room consume
c_consumed_after_run = refl

ticket_was_issued_example :
    (t : Ticket) × IssuedIn digest_of 30 three_issued t
    × (t.digest ≡ 99)
    × (t.workflow_id ≡ 3)
    × (20 < t.expires_at)
ticket_was_issued_example =
    ticket_was_issued digest_of (codes "c") 20 3 three_issued empty only_b refl c_consumed_after_run
