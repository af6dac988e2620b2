-- ===== src/Events/Dispatcher/Rounds.antt =====
-- The invariant of the outbox under the recovery of leases and the dispatch of a claim.
use agent_program.Prelude.{
  ℕ, All-select, ◌≡◌, refl, sym, ap, true, ◌&&◌, Option, none, some, List, [], ◌∷◌, ◌==◌, arith,
  get_row, All, All-imp, All-get_row, All-get_row_self, take, zero, suc, Bool-cases, Option-cases,
  inl, inr, is_some,
}
use mathlib.Core.Path.{subst}
use agent_program.Errors.{Result-cases, ok, >>=-eq-ok}
use agent_program.Events.Log.{
  EventStore, Delivery, DeliveryErrorCategory, Consumer, lease_expired, LocalAudit,
}
use agent_program.Events.Outbox.{
  OutboxSettings, Claim, delivery_key, get_event, find_owned, record_failure,
}
use agent_program.Events.Recovery.{is_expired, claims_of, fail_all, counted, recover_expired_leases}
use agent_program.Events.LocalAudit.{
  delivered_row, owned_audit, is_audit, publish_audit, add_audit, audit_key,
}
use agent_program.Events.Outbox.Invariant.{RowFits, IsOutbox, ClaimFits}
use agent_program.Events.Dispatcher.{
  Outcome, published, timed_out, late, failed, publish_to, is_registered, fail_with, finish,
  dispatch_claim,
}
use agent_program.Events.Dispatcher.Steps.{
  Keeps, same-Keeps, Keeps-trans, record_failure-Keeps, settle-Keeps, owned_at,
}

module _ {ℓ} {A : Type 0} (P : A → Type ℓ) where
  All-take : (n : ℕ) (xs : List A) → All P xs → All P (take n xs)
  All-take zero xs h = tt
  All-take (suc n) [] h = tt
  All-take (suc n) (x ∷ xs) h = (h.0, All-take n xs h.1)

-- Claims that are built from rows of the table fit it.
claims_fit :
    (store : EventStore) (ds : List Delivery)
    → All (λ d. get_row delivery_key d.id store.deliveries ≡ some d) ds
    → All (ClaimFits store.deliveries) (claims_of store ds)
claims_fit store [] h = tt
claims_fit store (d ∷ ds) h = elim (Option-cases (get_event d.event_log_id store)) [
  | inl missing ↦ rw missing (claims_fit store ds h.1)
  | inr (row, there) ↦ elim (Option-cases d.lease_token) [
    | inl free ↦ rw (there, free) (claims_fit store ds h.1)
    | inr (token, held) ↦ rw (there, held) ((λ x read. cc (h.0, read)), claims_fit store ds h.1)
  ]
]

fail_all-Keeps :
    (settings : OutboxSettings) (now : ℕ) (cs : List Claim) (store : EventStore) (n : ℕ)
    → IsOutbox settings.max_attempts store
    → All (ClaimFits store.deliveries) cs
    → Keeps settings.max_attempts store (fail_all settings now cs store n).1
unfolding fail_all
fail_all-Keeps settings now [] store n i h = same-Keeps settings.max_attempts store i
fail_all-Keeps settings now (c ∷ cs) store n i h =
    elim (Result-cases (record_failure settings c lease_expired now store)) [
      | inl (e, p) ↦ rw (p, fail_all) (same-Keeps settings.max_attempts store i)
      | inr (r, p) ↦
          let k = record_failure-Keeps settings c lease_expired now store r.0 r.1 i h.0 p in
          rw (p, fail_all)
            (Keeps-trans settings.max_attempts store r.1 _ k (
              fail_all-Keeps settings now cs r.1 (counted r.0 n) k.outbox
                (All-imp (ClaimFits store.deliveries) (ClaimFits r.1.deliveries) k.claims cs h.1)))
    ]

pub recover_expired_leases-Keeps :
    (settings : OutboxSettings) (now : ℕ) (store : EventStore)
    → IsOutbox settings.max_attempts store
    → Keeps settings.max_attempts store (recover_expired_leases settings now store).1
unfolding recover_expired_leases
recover_expired_leases-Keeps settings now store i =
    let own : (d : Delivery) → Type 0 = λ d. get_row delivery_key d.id store.deliveries ≡ some d in
    fail_all-Keeps settings now _ store 0 i (
      claims_fit store _ (
        All-take own settings.recovery_batch_size _ (
          All-imp (λ d. own d × (is_expired now d ≡ true)) own (λ d h. h.0) _
            (All-select (is_expired now) own store.deliveries
              (All-get_row_self delivery_key store.deliveries i.distinct)))))

-- The audit table is no part of the invariant.
add_audit-Keeps :
    (most : ℕ) (a : LocalAudit) (store : EventStore)
    → IsOutbox most store
    → (Keeps most store (add_audit a store)) × ((add_audit a store).deliveries ≡ store.deliveries)
add_audit-Keeps most a store i =
    elim (Bool-cases (is_some (get_row audit_key a.event_log_id store.audits))) [
      | inl there ↦ rw there (same-Keeps most store i, refl)
      | inr new ↦ rw new (
        record {
          outbox = record { distinct = i.distinct; rows = i.rows; aggregated = i.aggregated };
          claims = λ c fits. fits;
          same_length = refl;
          tried = omega arith;
        },
        refl,
      )
    ]

delivered_fits :
    (most now : ℕ) (d : Delivery)
    → is_audit d.consumer_name ≡ true
    → RowFits most d
    → RowFits most (delivered_row now d)
delivered_fits most now d audit r = (r.0, refl, λ _. audit)

audit_at :
    (e : ℕ) (o : Option Delivery) (d : Delivery)
    → owned_audit e o ≡ some d
    → (o ≡ some d) × (is_audit d.consumer_name ≡ true)
audit_at e none d h = cc h
audit_at e (some x) d h = elim (Bool-cases (x.event_log_id == e && is_audit x.consumer_name)) [
  | inl mine ↦
      let same : x ≡ d = cc (rw mine at h) in
      (
        ap some same,
        subst (λ (y : Delivery). is_audit y.consumer_name ≡ true) same (ground (arith, mine)),
      )
  | inr other ↦ cc (rw other at h)
]

pub publish_audit-Keeps :
    (most : ℕ) (claim : Claim) (now : ℕ) (store : EventStore)
    → IsOutbox most store
    → ClaimFits store.deliveries claim
    → Keeps most store (publish_audit claim now store)
unfolding publish_audit
publish_audit-Keeps most claim now store i fits =
    elim (Option-cases (owned_audit claim.event_id (find_owned claim store))) [
      | inl nothing ↦ rw nothing (same-Keeps most store i)
      | inr (d, found) ↦
          let (owned, audit) = audit_at claim.event_id (find_owned claim store) d found in
          let (at_claim, _) = owned_at claim store d owned in
          let a : LocalAudit = record { event_log_id = claim.event_id; delivered_at = now } in
          let (k, same) = add_audit-Keeps most a store i in
          rw found (
            Keeps-trans most store (add_audit a store) _ k (
              settle-Keeps most claim (delivered_row now) now (add_audit a store) d k.outbox
                (k.claims claim fits)
                (subst (λ ds. get_row delivery_key claim.delivery_id ds ≡ some d) (sym same)
                  at_claim)
                refl refl refl
                (delivered_fits most now d audit (
                  All-get_row delivery_key (RowFits most) claim.delivery_id d store.deliveries
                    i.rows at_claim))))
    ]

fail_with-Keeps :
    (settings : OutboxSettings) (claim : Claim) (category : DeliveryErrorCategory) (now : ℕ)
    (store store' : EventStore)
    → IsOutbox settings.max_attempts store
    → ClaimFits store.deliveries claim
    → fail_with settings claim category now store ≡ ok store'
    → Keeps settings.max_attempts store store'
fail_with-Keeps settings claim category now store store' i fits h =
    let ((b, store₁), called, p) =
      >>=-eq-ok (record_failure settings claim category now store) _ h in
    let same : store₁ ≡ store' = cc p in
    subst (Keeps settings.max_attempts store) same
      (record_failure-Keeps settings claim category now store b store₁ i fits called)

publish_to-Keeps :
    (most : ℕ) (consumer : Consumer) (claim : Claim) (now : ℕ) (store : EventStore)
    → IsOutbox most store
    → ClaimFits store.deliveries claim
    → Keeps most store (publish_to consumer claim now store)
publish_to-Keeps most Consumer.local_audit claim now store i fits =
    publish_audit-Keeps most claim now store i fits
publish_to-Keeps most Consumer.websocket claim now store i fits = same-Keeps most store i

finish-Keeps :
    (settings : OutboxSettings) (claim : Claim) (outcome : Outcome) (now : ℕ)
    (store store' : EventStore)
    → IsOutbox settings.max_attempts store
    → ClaimFits store.deliveries claim
    → finish settings claim outcome now store ≡ ok store'
    → Keeps settings.max_attempts store store'
finish-Keeps settings claim published now store store' i fits h =
    let same : publish_to claim.consumer_name claim now store ≡ store' = cc h in
    subst (Keeps settings.max_attempts store) same
      (publish_to-Keeps settings.max_attempts claim.consumer_name claim now store i fits)
finish-Keeps settings claim timed_out now store store' i fits h =
    fail_with-Keeps settings claim _ now store store' i fits h
finish-Keeps settings claim (late failed_at) now store store' i fits h =
    let k = publish_to-Keeps settings.max_attempts claim.consumer_name claim now store i fits in
    Keeps-trans settings.max_attempts store _ store' k
      (fail_with-Keeps settings claim _ failed_at _ store' k.outbox (k.claims claim fits) h)
finish-Keeps settings claim failed now store store' i fits h =
    fail_with-Keeps settings claim _ now store store' i fits h

pub dispatch_claim-Keeps :
    (settings : OutboxSettings) (publishers : List Consumer) (claim : Claim) (outcome : Outcome)
    (now : ℕ) (store store' : EventStore)
    → IsOutbox settings.max_attempts store
    → ClaimFits store.deliveries claim
    → dispatch_claim settings publishers claim outcome now store ≡ ok store'
    → Keeps settings.max_attempts store store'
unfolding dispatch_claim
dispatch_claim-Keeps settings publishers claim outcome now store store' i fits h =
    elim (Bool-cases (is_registered publishers claim.consumer_name)) [
      | inl there ↦ finish-Keeps settings claim outcome now store store' i fits (rw there at h)
      | inr missing ↦ fail_with-Keeps settings claim _ now store store' i fits (rw missing at h)
    ]
