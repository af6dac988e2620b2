-- ===== src/Events/Outbox/Invariant.antt =====
-- The state of the outbox that its operations keep, and how a write of one delivery keeps it.
use agent_program.Prelude.{
  ℕ, ◌≤◌, ◌≡◌, sym, ap, ◌∙◌, Bool, true, false, some, List, [], ◌∷◌, ◌==◌, arith, get_row, put_row,
  count, count-put_row, KeysDistinct, put_row-KeysDistinct, bit, All, All-imp, All-put_row,
  update_where, Bool-cases, inl, inr, is_some, sum_of, ==_iff, get_row-put_row_self,
  get_row-put_row_ne,
}
use mathlib.Core.Path.{subst}
use agent_program.Events.Log.{EventStore, Delivery, OutboxEvent}
use agent_program.Events.Outbox.{
  Claim, delivery_key, is_leased, is_delivered, is_dead, of_event, delivered_of, dead_of,
  aggregate_of, refreshed, refresh_aggregate, put_delivery,
}
use agent_program.Events.LocalAudit.{is_audit}

-- A delivery has been tried no more often than allowed, has a lease token exactly while leased, and is
-- delivered only if it is one for the local audit.
abbrev pub RowFits : ℕ → Delivery → Type 0
RowFits most d =
    (d.attempt_count ≤ most)
    × (is_leased d.delivery_state ≡ is_some d.lease_token)
    × (is_delivered d.delivery_state ≡ true → is_audit d.consumer_name ≡ true)

-- An outbox row has the state that the deliveries of its event give.
abbrev pub Aggregates : List Delivery → OutboxEvent → Type 0
Aggregates ds o = o.delivery_state ≡ aggregate_of o.event_log_id ds

pub record IsOutbox (most : ℕ) (store : EventStore) : Type 0 where
  pub distinct : KeysDistinct delivery_key store.deliveries
  pub rows : All (RowFits most) store.deliveries
  pub aggregated : All (Aggregates store.deliveries) store.outbox

-- how often the deliveries were tried in all
abbrev pub attempts : List Delivery → ℕ
attempts ds = sum_of (λ d. d.attempt_count) ds

-- A claim names the event of its delivery.
abbrev pub ClaimFits : List Delivery → Claim → Type 0
ClaimFits ds c =
    (d : Delivery) → get_row delivery_key c.delivery_id ds ≡ some d → d.event_log_id ≡ c.event_id

-- The row `d` of the table is replaced by `d'`, which has the same keys.
module _ (d d' : Delivery) (ds : List Delivery) (distinct : KeysDistinct delivery_key ds)
    (found : get_row delivery_key d'.id ds ≡ some d)
    (same_event : d'.event_log_id ≡ d.event_log_id) where
  counted_same :
      (test : Delivery → Bool)
      → test d' ≡ test d
      → count test (put_row delivery_key d' ds) ≡ count test ds
  counted_same test same =
      omega (arith, count-put_row delivery_key test d' d ds distinct found, ap bit same)

  total_same : (e : ℕ) → count (of_event e) (put_row delivery_key d' ds) ≡ count (of_event e) ds
  total_same e = counted_same (of_event e) (ap (λ k. k == e) same_event)

  -- The aggregate of an event changes only if the row is its own and is delivered or dead in one of
  -- the two.
  pub aggregate-put_row :
      (e : ℕ)
      → delivered_of e d' ≡ delivered_of e d
      → dead_of e d' ≡ dead_of e d
      → aggregate_of e (put_row delivery_key d' ds) ≡ aggregate_of e ds
  unfolding aggregate_of
  aggregate-put_row e delivered dead =
      rw (total_same e, counted_same (delivered_of e) delivered, counted_same (dead_of e) dead)

  pub aggregate-put_other :
      (e : ℕ)
      → (d.event_log_id == e) ≡ false
      → aggregate_of e (put_row delivery_key d' ds) ≡ aggregate_of e ds
  aggregate-put_other e other =
      aggregate-put_row e (rw (same_event, other)) (rw (same_event, other))

  pub ClaimFits-put_row : (c : Claim) → ClaimFits ds c → ClaimFits (put_row delivery_key d' ds) c
  ClaimFits-put_row c fits x read = elim (Bool-cases (d'.id == c.delivery_id)) [
    | inl here ↦
        let at_key : d'.id ≡ c.delivery_id = (==_iff d'.id c.delivery_id).0 here in
        let stored : get_row delivery_key d'.id (put_row delivery_key d' ds) ≡ some d' =
          get_row-put_row_self delivery_key d' d ds found in
        let read' : get_row delivery_key d'.id (put_row delivery_key d' ds) ≡ some x =
          subst (λ k. get_row delivery_key k (put_row delivery_key d' ds) ≡ some x) (sym at_key)
            read in
        let is_new : d' ≡ x = cc (stored, read') in
        ap (λ (r : Delivery). r.event_log_id) (sym is_new)
        ∙ same_event
        ∙ fits d (subst (λ k. get_row delivery_key k ds ≡ some d) at_key found)
    | inr other ↦ fits x (sym (get_row-put_row_ne delivery_key c.delivery_id d' ds other) ∙ read)
  ]

-- A write after which no row counts as delivered or dead that did not before.
pub put_delivery-IsOutbox :
    (most : ℕ) (d d' : Delivery) (store : EventStore)
    → IsOutbox most store
    → get_row delivery_key d'.id store.deliveries ≡ some d
    → d'.event_log_id ≡ d.event_log_id
    → RowFits most d'
    → is_delivered d'.delivery_state ≡ is_delivered d.delivery_state
    → is_dead d'.delivery_state ≡ is_dead d.delivery_state
    → IsOutbox most (put_delivery d' store)
put_delivery-IsOutbox most d d' store i found same fits delivered dead = record {
  distinct = put_row-KeysDistinct delivery_key d' store.deliveries i.distinct;
  rows = All-put_row delivery_key (RowFits most) d' store.deliveries i.rows fits;
  aggregated =
      All-imp (Aggregates store.deliveries) (Aggregates (put_row delivery_key d' store.deliveries))
        (λ o h.
          h
          ∙ sym (
              aggregate-put_row d d' store.deliveries i.distinct found same o.event_log_id
                (rw (same, delivered)) (rw (same, dead))))
        store.outbox i.aggregated;
}

refreshed_rows :
    (e now : ℕ) (old new : List Delivery) (os : List OutboxEvent)
    → ((k : ℕ) → (e == k) ≡ false → aggregate_of k new ≡ aggregate_of k old)
    → All (Aggregates old) os
    → All
        (Aggregates new)
        (update_where (λ o. o.event_log_id == e) (refreshed (aggregate_of e new) now) os)
refreshed_rows e now old new [] keeps h = tt
refreshed_rows e now old new (o ∷ os) keeps h = elim (Bool-cases (o.event_log_id == e)) [
  | inl own ↦ rw own (
    ap (λ k. aggregate_of k new) (sym ((==_iff o.event_log_id e).0 own)),
    refreshed_rows e now old new os keeps h.1,
  )
  | inr other ↦ rw other (
    h.0 ∙ sym (keeps o.event_log_id (ground (arith, other))),
    refreshed_rows e now old new os keeps h.1,
  )
]

-- A write with the refresh of its event.
pub refresh-IsOutbox :
    (most e now : ℕ) (d d' : Delivery) (store : EventStore)
    → IsOutbox most store
    → get_row delivery_key d'.id store.deliveries ≡ some d
    → d'.event_log_id ≡ d.event_log_id
    → d.event_log_id ≡ e
    → RowFits most d'
    → IsOutbox most (refresh_aggregate e now (put_delivery d' store))
unfolding refresh_aggregate
refresh-IsOutbox most e now d d' store i found same own fits = record {
  distinct = put_row-KeysDistinct delivery_key d' store.deliveries i.distinct;
  rows = All-put_row delivery_key (RowFits most) d' store.deliveries i.rows fits;
  aggregated =
      refreshed_rows e now store.deliveries (put_row delivery_key d' store.deliveries) store.outbox
        (λ k other.
          aggregate-put_other d d' store.deliveries i.distinct found same k
            (subst (λ x. (x == k) ≡ false) (sym own) other))
        i.aggregated;
}
