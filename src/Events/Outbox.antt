-- ===== src/Events/Outbox.antt =====
-- The outbox store (backend/src/agent_platform/infrastructure/database/outbox_store.py) and
-- `retry_delay` (backend/src/agent_platform/domain/events/outbox.py). A time and a span are numbers of
-- ticks. The column `lease_owner` is written and never read, and is left out. A method runs in a
-- transaction under the writers' lock, so it is one step, and what raises in it leaves the store as it
-- was.
pub mod Invariant
use agent_program.Prelude.{
  ℕ, ◌+◌, ◌-◌, ◌*◌, ◌^◌, min, Bool, true, false, ◌&&◌, ◌||◌, not, Option, none, some, List, [], ◌∷◌,
  ◌++◌, ◌==◌, ltb, leb, if◌then◌else◌, get_row, put_row, first_by, select, take, count, any,
  update_where, is_some,
}
use agent_program.Errors.{
  Error, Result, ok, err, value_error, runtime_error, ◌>>=◌, ◌>>◌, raise_if, or_raise,
}
use agent_program.Events.Log.{
  Event, EventLogRow, EventStore, Delivery, DeliveryState, OutboxEvent, AggregateState, LocalAudit,
  Consumer, DeliveryErrorCategory, lease_expired,
}

-- what the constructor of the store is given
pub record OutboxSettings : Type 0 where
  pub lease_ticks : ℕ
  pub max_attempts : ℕ
  pub backoff_base : ℕ
  pub backoff_max : ℕ
  pub recovery_batch_size : ℕ

-- `ClaimedDelivery`
pub record Claim : Type 0 where
  pub delivery_id : ℕ
  pub event_id : ℕ
  pub consumer_name : Consumer
  pub lease_token : ℕ
  pub attempt_count : ℕ
  pub envelope : Event

unfoldable pub retry_delay : ℕ → ℕ → ℕ → Result ℕ
retry_delay attempt_count base maximum = do
  raise_if (ltb attempt_count 1) value_error
  ok (min maximum (base * 2 ^ (attempt_count - 1)))

abbrev pub delivery_key : Delivery → ℕ
delivery_key d = d.id

abbrev pub log_key : EventLogRow → ℕ
log_key r = r.event_id

abbrev pub is_waiting : DeliveryState → Bool
is_waiting DeliveryState.pending = true
is_waiting DeliveryState.retry_wait = true
is_waiting _ = false

abbrev pub is_leased : DeliveryState → Bool
is_leased DeliveryState.leased = true
is_leased _ = false

abbrev pub is_delivered : DeliveryState → Bool
is_delivered DeliveryState.delivered = true
is_delivered _ = false

abbrev pub is_dead : DeliveryState → Bool
is_dead DeliveryState.dead_letter = true
is_dead _ = false

-- the `where` of the candidate
abbrev pub is_eligible : OutboxSettings → ℕ → Delivery → Bool
is_eligible settings now d =
    is_waiting d.delivery_state
    && leb d.next_attempt_at now
    && ltb d.attempt_count settings.max_attempts

-- `order_by(next_attempt_at, created_at, id)`
abbrev pub sooner : Delivery → Delivery → Bool
sooner a b =
    ltb a.next_attempt_at b.next_attempt_at
    || (a.next_attempt_at == b.next_attempt_at
        && (ltb a.created_at b.created_at || (a.created_at == b.created_at && ltb a.id b.id)))

-- the row that the update of `claim_next` writes
abbrev pub leased_row : OutboxSettings → ℕ → ℕ → Delivery → Delivery
leased_row settings token now d = record d {
  delivery_state = DeliveryState.leased;
  lease_token = some token;
  lease_expires_at = some (now + settings.lease_ticks);
  attempt_count = d.attempt_count + 1;
  last_error_category = none;
}

abbrev pub put_delivery : Delivery → EventStore → EventStore
put_delivery d store = record store { deliveries = put_row delivery_key d store.deliveries }

-- `EventLogRepository.get`
abbrev pub get_event : ℕ → EventStore → Option EventLogRow
get_event event_id store = get_row log_key event_id store.log

-- `claim_next` behind the update: `token` is what `new_id` returned.
unfoldable pub claim_row :
    OutboxSettings → ℕ → ℕ → EventStore → Option Delivery → Result (Option Claim × EventStore)
claim_row settings token now store none = ok (none, store)
claim_row settings token now store (some d) = do
  row ← or_raise (get_event d.event_log_id store) runtime_error
  ok (
    some (record {
      delivery_id = d.id;
      event_id = d.event_log_id;
      consumer_name = d.consumer_name;
      lease_token = token;
      attempt_count = d.attempt_count + 1;
      envelope = row.event;
    }),
    put_delivery (leased_row settings token now d) store,
  )

unfoldable pub claim_next : OutboxSettings → ℕ → ℕ → EventStore → Result (Option Claim × EventStore)
unfolding claim_row
claim_next settings token now store =
    claim_row settings token now store (first_by sooner (is_eligible settings now) store.deliveries)

-- `func.count` and the two `func.sum` of `_refresh_aggregate`
abbrev pub of_event : ℕ → Delivery → Bool
of_event event_id d = d.event_log_id == event_id

abbrev pub delivered_of : ℕ → Delivery → Bool
delivered_of event_id d = of_event event_id d && is_delivered d.delivery_state

abbrev pub dead_of : ℕ → Delivery → Bool
dead_of event_id d = of_event event_id d && is_dead d.delivery_state

-- the three branches on the numbers of all, delivered and dead deliveries
unfoldable pub aggregate_state : ℕ → ℕ → ℕ → AggregateState
aggregate_state total delivered dead =
    if ltb 0 dead
    then AggregateState.dead_letter
    else if ltb 0 total && delivered == total
    then AggregateState.delivered
    else AggregateState.pending

unfoldable pub aggregate_of : ℕ → List Delivery → AggregateState
unfolding aggregate_state
aggregate_of event_id ds =
    aggregate_state (count (of_event event_id) ds) (count (delivered_of event_id) ds)
      (count (dead_of event_id) ds)

abbrev pub at_delivered : AggregateState → ℕ → Option ℕ
at_delivered AggregateState.delivered now = some now
at_delivered _ now = none

abbrev pub at_dead : AggregateState → ℕ → Option ℕ
at_dead AggregateState.dead_letter now = some now
at_dead _ now = none

abbrev pub refreshed : AggregateState → ℕ → OutboxEvent → OutboxEvent
refreshed state now o = record o {
  delivery_state = state;
  delivered_at = at_delivered state now;
  dead_lettered_at = at_dead state now;
}

-- `_refresh_aggregate`
unfoldable pub refresh_aggregate : ℕ → ℕ → EventStore → EventStore
refresh_aggregate event_id now store = record store {
  outbox =
      update_where (λ o. o.event_log_id == event_id)
        (refreshed (aggregate_of event_id store.deliveries) now) store.outbox;
}

-- `delivery_state == LEASED and lease_token == token`
abbrev pub has_token : Option ℕ → ℕ → Bool
has_token none token = false
has_token (some t) token = t == token

abbrev pub owns : ℕ → Delivery → Bool
owns token d = is_leased d.delivery_state && has_token d.lease_token token

abbrev pub keep_owned : Bool → Delivery → Option Delivery
keep_owned true d = some d
keep_owned false d = none

abbrev pub owned_row : ℕ → Option Delivery → Option Delivery
owned_row token none = none
owned_row token (some d) = keep_owned (owns token d) d

-- the row that the `where` of an update names: the claim's, if it is leased under the claim's token
abbrev pub find_owned : Claim → EventStore → Option Delivery
find_owned claim store =
    owned_row claim.lease_token (get_row delivery_key claim.delivery_id store.deliveries)

-- the end of an update of the owned row, with the refresh
unfoldable pub settle :
    Claim → (Delivery → Delivery) → ℕ → EventStore → Option Delivery → Bool × EventStore
unfolding refresh_aggregate
settle claim f now store none = (false, store)
settle claim f now store (some d) =
    (true, refresh_aggregate claim.event_id now (put_delivery (f d) store))

-- the columns that a failure writes
abbrev pub failed_row : Bool → DeliveryErrorCategory → ℕ → ℕ → Delivery → Delivery
failed_row terminal category now next d = record d {
  delivery_state = if terminal then DeliveryState.dead_letter else DeliveryState.retry_wait;
  lease_token = none;
  lease_expires_at = none;
  last_error_category = some category;
  dead_lettered_at = if terminal then some now else none;
  next_attempt_at = if terminal then d.next_attempt_at else next;
}

-- `failed_at + retry_delay(…)`, which is computed only where the failure is not the last one
abbrev pub next_attempt : OutboxSettings → Bool → ℕ → ℕ → Result ℕ
next_attempt settings true attempts now = ok now
next_attempt settings false attempts now = do
  delay ← retry_delay attempts settings.backoff_base settings.backoff_max
  ok (now + delay)

unfoldable pub record_failure :
    OutboxSettings → Claim → DeliveryErrorCategory → ℕ → EventStore → Result (Bool × EventStore)
unfolding settle
record_failure settings claim category now store = do
  let terminal = leb settings.max_attempts claim.attempt_count
  next ← next_attempt settings terminal claim.attempt_count now
  ok (settle claim (failed_row terminal category now next) now store (find_owned claim store))
