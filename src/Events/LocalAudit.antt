-- ===== src/Events/LocalAudit.antt =====
-- The local audit publisher
-- (backend/src/agent_platform/infrastructure/database/local_audit.py).
use agent_program.Prelude.{
  ℕ, Bool, true, false, ◌&&◌, Option, none, some, [], ◌∷◌, ◌++◌, ◌==◌, if◌then◌else◌, get_row,
  is_some,
}
use agent_program.Events.Log.{EventStore, Delivery, DeliveryState, LocalAudit, Consumer}
use agent_program.Events.Outbox.{Claim, find_owned, keep_owned, settle}

abbrev pub audit_key : LocalAudit → ℕ
audit_key a = a.event_log_id

abbrev pub is_audit : Consumer → Bool
is_audit Consumer.local_audit = true
is_audit Consumer.websocket = false

abbrev pub owned_audit : ℕ → Option Delivery → Option Delivery
owned_audit event_id none = none
owned_audit event_id (some d) =
    keep_owned (d.event_log_id == event_id && is_audit d.consumer_name) d

-- `insert … on_conflict_do_nothing`
abbrev pub add_audit : LocalAudit → EventStore → EventStore
add_audit a store =
    if is_some (get_row audit_key a.event_log_id store.audits)
    then store
    else record store { audits = store.audits ++ a ∷ [] }

abbrev pub delivered_row : ℕ → Delivery → Delivery
delivered_row now d = record d {
  delivery_state = DeliveryState.delivered;
  delivered_at = some now;
  lease_token = none;
  lease_expires_at = none;
  last_error_category = none;
}

-- `LocalAuditPublisher.publish`
unfoldable pub publish_with : Claim → ℕ → EventStore → Option Delivery → EventStore
unfolding settle
publish_with claim now store none = store
publish_with claim now store (some d) =
    (settle claim (delivered_row now) now
      (add_audit (record { event_log_id = claim.event_id; delivered_at = now }) store) (some d)).1

unfoldable pub publish_audit : Claim → ℕ → EventStore → EventStore
unfolding publish_with
publish_audit claim now store =
    publish_with claim now store (owned_audit claim.event_id (find_owned claim store))
