-- ===== src/Events/Dispatcher/Tests.antt =====
-- Runs of the dispatcher on a store with one event for both consumers.
use agent_program.Prelude.{
  ℕ, ◌+◌, ◌*◌, ◌≤◌, ◌≡◌, ◌≢◌, refl, false, none, some, List, [], ◌∷◌, arith, All, inl,
}
use agent_program.Errors.{ok}
use agent_program.Events.Log.{
  Event, EventStore, Delivery, DeliveryState, AggregateState, Consumer, append, new_deliveries,
  publisher_failure,
}
use agent_program.Events.Outbox.{
  OutboxSettings, Claim, claim_next, claim_row, record_failure, aggregate_of, aggregate_state,
}
use agent_program.Events.LocalAudit.{publish_audit}
use agent_program.Events.Dispatcher.{published, dispatch_claim}
use agent_program.Events.Dispatcher.Traces.{
  System, Reaches, IsSystem, claims, dispatches, start, step, Reaches-IsSystem,
  websocket_never_delivered,
}
use agent_program.Events.Dispatcher.Leases.{claims_are_bounded, stale_claim_has_no_effect}

abbrev settings : OutboxSettings
settings = record {
  lease_ticks = 30;
  max_attempts = 2;
  backoff_base = 4;
  backoff_max = 60;
  recovery_batch_size = 10;
}

abbrev consumers : List Consumer
consumers = Consumer.local_audit ∷ Consumer.websocket ∷ []

abbrev created : Event
created = record {
  event_type = "workflow.created";
  project_id = some 1;
  workflow_id = some 1;
  room_id = none;
  task_id = none;
  occurred_at = 0;
}

abbrev no_events : EventStore
no_events = record { last_event_id = 0; log = []; outbox = []; deliveries = []; audits = [] }

-- the deliveries 100 for the local audit and 101 for the websocket
abbrev first_store : EventStore
first_store = (append (λ k. 100 + k) 0 consumers created 1 no_events).1

abbrev initial : System
initial = record { store = first_store; issued = [] }

initial-IsSystem : IsSystem settings.max_attempts initial
unfolding append new_deliveries aggregate_of aggregate_state
initial-IsSystem = record {
  outbox = record {
    distinct = (refl, (refl, tt));
    rows = ((omega arith, refl, λ _. refl), ((omega arith, refl, λ h. cc h), tt));
    aggregated = (refl, tt);
  };
  fitting = tt;
}

abbrev audit_claim : Claim
audit_claim = record {
  delivery_id = 100;
  event_id = 1;
  consumer_name = Consumer.local_audit;
  lease_token = 7;
  attempt_count = 1;
  envelope = created;
}

abbrev websocket_claim : Claim
websocket_claim = record audit_claim {
  delivery_id = 101;
  consumer_name = Consumer.websocket;
  lease_token = 8;
}

abbrev leased : Consumer → ℕ → ℕ → ℕ → Delivery
leased consumer id token until = record {
  id = id;
  event_log_id = 1;
  consumer_name = consumer;
  delivery_state = DeliveryState.leased;
  next_attempt_at = 0;
  attempt_count = 1;
  lease_token = some token;
  lease_expires_at = some until;
  last_error_category = none;
  delivered_at = none;
  dead_lettered_at = none;
  created_at = 0;
}

abbrev waiting : Consumer → ℕ → Delivery
waiting consumer id = record (leased consumer id 0 0) {
  delivery_state = DeliveryState.pending;
  attempt_count = 0;
  lease_token = none;
  lease_expires_at = none;
}

abbrev with_deliveries : Delivery → Delivery → EventStore
with_deliveries a b = record first_store { deliveries = a ∷ b ∷ [] }

abbrev audit_leased : EventStore
audit_leased =
    with_deliveries (leased Consumer.local_audit 100 7 31) (waiting Consumer.websocket 101)

abbrev both_leased : EventStore
both_leased =
    with_deliveries (leased Consumer.local_audit 100 7 31) (leased Consumer.websocket 101 8 32)

first_claim : claim_next settings 7 1 first_store ≡ ok (some audit_claim, audit_leased)
unfolding claim_next claim_row append new_deliveries
first_claim = refl

second_claim : claim_next settings 8 2 audit_leased ≡ ok (some websocket_claim, both_leased)
unfolding claim_next claim_row append new_deliveries
second_claim = refl

handed_over :
    dispatch_claim settings consumers websocket_claim published 3 both_leased ≡ ok both_leased
unfolding dispatch_claim
handed_over = refl

-- Both deliveries are claimed, and the websocket's is handed to the broker.
abbrev run :
    Reaches settings consumers initial
      (record { store = both_leased; issued = websocket_claim ∷ audit_claim ∷ [] })
run =
    step (step (step start (claims 7 1 first_claim)) (claims 8 2 second_claim))
      (dispatches websocket_claim published 3 (inl refl) handed_over)

Reaches-IsSystem_example :
    IsSystem 2 (record { store = both_leased; issued = websocket_claim ∷ audit_claim ∷ [] })
Reaches-IsSystem_example =
    Reaches-IsSystem settings consumers initial
      (record { store = both_leased; issued = websocket_claim ∷ audit_claim ∷ [] }) initial-IsSystem
      run

websocket_never_delivered_example :
    (false ≡ false)
    × All (λ o. o.event_log_id ≡ 1 → o.delivery_state ≢ AggregateState.delivered) both_leased.outbox
websocket_never_delivered_example =
    websocket_never_delivered settings consumers initial
      (record { store = both_leased; issued = websocket_claim ∷ audit_claim ∷ [] }) 101
      (leased Consumer.websocket 101 8 32) initial-IsSystem run refl refl

claims_are_bounded_example : 2 + 0 ≤ 2 * 2
unfolding append
claims_are_bounded_example =
    claims_are_bounded settings consumers initial
      (record { store = both_leased; issued = websocket_claim ∷ audit_claim ∷ [] }) run
      initial-IsSystem

-- The claim with the token 6 has lost its delivery to the claim with the token 7.
abbrev stale_claim : Claim
stale_claim = record audit_claim { lease_token = 6 }

stale_claim_has_no_effect_example :
    (publish_audit stale_claim 9 both_leased ≡ both_leased)
    × (record_failure settings stale_claim publisher_failure 9 both_leased
        ≡ ok (false, both_leased))
stale_claim_has_no_effect_example =
    stale_claim_has_no_effect settings stale_claim publisher_failure 9 both_leased
      (leased Consumer.local_audit 100 7 31) 7 refl refl (ground arith) (omega arith)
