-- ===== src/Events/Recovery.antt =====
-- The recovery of leases that have run out and the cleanup of delivered events
-- (`recover_expired_leases` and `cleanup_delivered` of
-- backend/src/agent_platform/infrastructure/database/outbox_store.py).
use agent_program.Prelude.{
  ℕ, ◌+◌, Bool, true, false, ◌&&◌, not, Option, none, some, List, [], ◌∷◌, ◌==◌, leb, select, take,
  count, any,
}
use agent_program.Errors.{Result, ok, err}
use agent_program.Events.Log.{
  EventLogRow, EventStore, Delivery, OutboxEvent, AggregateState, lease_expired,
}
use agent_program.Events.Outbox.{record_failure, Claim, OutboxSettings, get_event, is_leased}

-- The lease has run out: `lease_expires_at <= now`, which NULL does not satisfy.
abbrev pub ran_out : Option ℕ → ℕ → Bool
ran_out none now = false
ran_out (some t) now = leb t now

abbrev pub is_expired : ℕ → Delivery → Bool
is_expired now d = is_leased d.delivery_state && ran_out d.lease_expires_at now

abbrev pub claim_with : Delivery → Option EventLogRow → Option ℕ → Option Claim
claim_with d (some row) (some token) = some (record {
  delivery_id = d.id;
  event_id = d.event_log_id;
  consumer_name = d.consumer_name;
  lease_token = token;
  attempt_count = d.attempt_count;
  envelope = row.event;
})
claim_with d _ _ = none

abbrev pub prepend_claim : Option Claim → List Claim → List Claim
prepend_claim none cs = cs
prepend_claim (some c) cs = c ∷ cs

-- the loop that builds the claims, `continue` where an event or a token is missing
abbrev pub claims_of : EventStore → List Delivery → List Claim
claims_of store [] = []
claims_of store (d ∷ ds) =
    prepend_claim (claim_with d (get_event d.event_log_id store) d.lease_token) (claims_of store ds)

abbrev pub counted : Bool → ℕ → ℕ
counted true n = n + 1
counted false n = n

-- The loop of `recover_expired_leases`: each failure is its own transaction, so what was recorded
-- before one that raises stays.
unfoldable pub fail_all : OutboxSettings → ℕ → List Claim → EventStore → ℕ → Result ℕ × EventStore
fail_all settings now [] store n = (ok n, store)
fail_all settings now (c ∷ cs) store n = elim (record_failure settings c lease_expired now store) [
  | err e ↦ (err e, store)
  | ok r ↦ fail_all settings now cs r.1 (counted r.0 n)
]

unfoldable pub recover_expired_leases : OutboxSettings → ℕ → EventStore → Result ℕ × EventStore
unfolding fail_all
recover_expired_leases settings now store =
    fail_all settings now
      (claims_of store
        (take settings.recovery_batch_size (select (is_expired now) store.deliveries)))
      store 0

abbrev pub is_delivered_event : AggregateState → Bool
is_delivered_event AggregateState.delivered = true
is_delivered_event _ = false

abbrev pub is_old : ℕ → OutboxEvent → Bool
is_old cutoff o = is_delivered_event o.delivery_state && ran_out o.delivered_at cutoff

abbrev pub is_among : List OutboxEvent → ℕ → Bool
is_among gone event_id = any (λ o. o.event_log_id == event_id) gone

-- The foreign key of a delivery deletes it with its outbox row.
unfoldable pub cleanup_delivered : ℕ → ℕ → EventStore → ℕ × EventStore
cleanup_delivered cutoff limit store =
    let gone = take limit (select (is_old cutoff) store.outbox) in
    (
      count (λ _. true) gone,
      record store {
        outbox = select (λ o. not (is_among gone o.event_log_id)) store.outbox;
        deliveries = select (λ d. not (is_among gone d.event_log_id)) store.deliveries;
      },
    )
