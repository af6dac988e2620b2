-- ===== src/Events/Log.antt =====
-- The append-only event log and its outbox rows
-- (backend/src/agent_platform/infrastructure/database/repositories.py and
-- backend/src/agent_platform/domain/events/outbox.py). The checks of `append` on names and on the
-- aggregate's identifier are about texts that the callers write as constants or draw from `new_id`,
-- and are left out, as are the columns that the outbox never reads.
use agent_program.Prelude.{ℕ, ◌+◌, Option, none, List, [], ◌∷◌, ◌++◌}
use Prim.Native.String.{String}

pub data AggregateState : Type 0 where
  pending delivered dead_letter : AggregateState

pub data DeliveryState : Type 0 where
  pending leased retry_wait delivered dead_letter : DeliveryState

pub data Consumer : Type 0 where
  local_audit websocket : Consumer

-- `EventEnvelope`, with the references that the replay filters by
pub record Event : Type 0 where
  pub event_type : String
  pub project_id : Option ℕ
  pub workflow_id : Option ℕ
  pub room_id : Option ℕ
  pub task_id : Option ℕ
  pub occurred_at : ℕ

pub record EventLogRow : Type 0 where
  pub event_id : ℕ
  pub event : Event
  pub aggregate_id : ℕ

pub record OutboxEvent : Type 0 where
  pub event_log_id : ℕ
  pub delivery_state : AggregateState
  pub created_at : ℕ
  pub delivered_at : Option ℕ
  pub dead_lettered_at : Option ℕ

pub data DeliveryErrorCategory : Type 0 where
  lease_expired publisher_unavailable publisher_timeout publisher_failure : DeliveryErrorCategory

pub record Delivery : Type 0 where
  pub id : ℕ
  pub event_log_id : ℕ
  pub consumer_name : Consumer
  pub delivery_state : DeliveryState
  pub next_attempt_at : ℕ
  pub attempt_count : ℕ
  pub lease_token : Option ℕ
  pub lease_expires_at : Option ℕ
  pub last_error_category : Option DeliveryErrorCategory
  pub delivered_at : Option ℕ
  pub dead_lettered_at : Option ℕ
  pub created_at : ℕ

-- `LocalAuditEventRow`: the event's key and the time; the other columns are copies of the event's.
pub record LocalAudit : Type 0 where
  pub event_log_id : ℕ
  pub delivered_at : ℕ

-- `last_event_id` is the database's counter behind the primary key of the log.
pub record EventStore : Type 0 where
  pub last_event_id : ℕ
  pub log : List EventLogRow
  pub outbox : List OutboxEvent
  pub deliveries : List Delivery
  pub audits : List LocalAudit

-- What a call of `append` reads from outside: the k-th identifier that it draws for a delivery, and
-- its own clock.
pub record AppendReads : Type 0 where
  pub new_id : ℕ → ℕ
  pub clock : ℕ

-- The loop over `self._delivery_targets`: `draw k` is what the k-th call of `new_id` returns.
unfoldable pub new_deliveries : (ℕ → ℕ) → ℕ → ℕ → ℕ → List Consumer → List Delivery
new_deliveries draw k event_id now [] = []
new_deliveries draw k event_id now (consumer ∷ rest) =
    record {
      id = draw k;
      event_log_id = event_id;
      consumer_name = consumer;
      delivery_state = DeliveryState.pending;
      next_attempt_at = now;
      attempt_count = 0;
      lease_token = none;
      lease_expires_at = none;
      last_error_category = none;
      delivered_at = none;
      dead_lettered_at = none;
      created_at = now;
    }
    ∷ new_deliveries draw (k + 1) event_id now rest

-- `EventLogRepository.append`: the log row, the outbox row and one delivery for each target.
unfoldable pub append : (ℕ → ℕ) → ℕ → List Consumer → Event → ℕ → EventStore → ℕ × EventStore
unfolding new_deliveries
append draw now targets event aggregate_id store =
    let event_id = store.last_event_id + 1 in
    (
      event_id,
      record {
        last_event_id = event_id;
        log =
            store.log
            ++ record { event_id = event_id; event = event; aggregate_id = aggregate_id } ∷ [];
        outbox =
            store.outbox
            ++ record {
              event_log_id = event_id;
              delivery_state = AggregateState.pending;
              created_at = now;
              delivered_at = none;
              dead_lettered_at = none;
            }
              ∷ [];
        deliveries = store.deliveries ++ new_deliveries draw 0 event_id now targets;
        audits = store.audits;
      },
    )
