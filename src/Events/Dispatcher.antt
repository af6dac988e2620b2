-- ===== src/Events/Dispatcher.antt =====
-- The loop of the outbox dispatcher
-- (backend/src/agent_platform/application/events/outbox_dispatcher.py) with the publishers that it is
-- given (infrastructure/database/local_audit.py and infrastructure/events/websocket_publisher.py).
-- The waiting between two rounds and the stop are not modelled: a step may come at any time.
pub mod Steps
pub mod Rounds
pub mod Traces
pub mod Leases
mod Tests
use agent_program.Prelude.{ℕ, Bool, true, false, ◌||◌, if◌then◌else◌, List, [], ◌∷◌}
use agent_program.Errors.{Result, ok, err, ◌>>=◌}
use agent_program.Events.Log.{
  EventStore, Consumer, DeliveryErrorCategory, publisher_unavailable, publisher_timeout,
  publisher_failure,
}
use agent_program.Events.Outbox.{OutboxSettings, Claim, record_failure}
use agent_program.Events.LocalAudit.{publish_audit}

-- How the `publish` of a claim ends: it returns, it runs into the timeout before its transaction was
-- committed or after it, or it raises. The loop reads the clock for the publisher and again for a
-- failure that it records: where both readings matter, the outcome carries the second.
pub data Outcome : Type 0 where
  published timed_out failed : Outcome
  late : ℕ → Outcome

-- `WebSocketEventPublisher.publish` hands the event to the broker, which is in memory, and leaves the
-- store alone.
abbrev pub publish_to : Consumer → Claim → ℕ → EventStore → EventStore
publish_to Consumer.local_audit claim now store = publish_audit claim now store
publish_to Consumer.websocket claim now store = store

abbrev pub same_consumer : Consumer → Consumer → Bool
same_consumer Consumer.local_audit Consumer.local_audit = true
same_consumer Consumer.websocket Consumer.websocket = true
same_consumer _ _ = false

abbrev pub is_registered : List Consumer → Consumer → Bool
is_registered [] c = false
is_registered (p ∷ ps) c = same_consumer p c || is_registered ps c

abbrev pub fail_with :
    OutboxSettings → Claim → DeliveryErrorCategory → ℕ → EventStore → Result EventStore
fail_with settings claim category now store = do
  r ← record_failure settings claim category now store
  ok r.1

abbrev pub finish : OutboxSettings → Claim → Outcome → ℕ → EventStore → Result EventStore
finish settings claim published now store = ok (publish_to claim.consumer_name claim now store)
finish settings claim timed_out now store = fail_with settings claim publisher_timeout now store
finish settings claim (late failed_at) now store =
    fail_with settings claim publisher_timeout failed_at
      (publish_to claim.consumer_name claim now store)
finish settings claim failed now store = fail_with settings claim publisher_failure now store

-- the body of the loop behind `claim_next`
unfoldable pub dispatch_claim :
    OutboxSettings → List Consumer → Claim → Outcome → ℕ → EventStore → Result EventStore
dispatch_claim settings publishers claim outcome now store =
    if is_registered publishers claim.consumer_name
    then finish settings claim outcome now store
    else fail_with settings claim publisher_unavailable now store
