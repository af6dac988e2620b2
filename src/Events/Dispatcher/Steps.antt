-- ===== src/Events/Dispatcher/Steps.antt =====
-- The invariant of the outbox and the claims that were issued, under the store's own operations.
use agent_program.Prelude.{
  ℕ, ◌≤◌, ◌<◌, length, length-put_row, sum_of-put_row, ◌≡◌, refl, sym, ap, ◌∙◌, Bool, true, false,
  Option, none, some, arith, get_row, put_row, All-get_row, All-get_row_self, first_by,
  first_by-All, key-get_row, Bool-cases, Option-cases, inl, inr, leb,
}
use mathlib.Core.Path.{subst}
use agent_program.Errors.{ok, >>=-eq-ok, or_raise, runtime_error}
use agent_program.Events.Log.{EventStore, Delivery, DeliveryErrorCategory}
use agent_program.Events.Outbox.{
  OutboxSettings, Claim, is_delivered, is_dead, delivery_key, is_eligible, sooner, leased_row,
  claim_row, claim_next, get_event, find_owned, owns, settle, failed_row, next_attempt,
  record_failure, put_delivery,
}
use agent_program.Events.Outbox.Invariant.{
  RowFits, IsOutbox, ClaimFits, attempts, ClaimFits-put_row, put_delivery-IsOutbox,
  refresh-IsOutbox,
}

-- The store keeps its invariant and the number of its deliveries, a claim that fitted fits, and no
-- attempt is forgotten.
pub record Keeps (most : ℕ) (store store' : EventStore) : Type 0 where
  pub outbox : IsOutbox most store'
  pub claims : (c : Claim) → ClaimFits store.deliveries c → ClaimFits store'.deliveries c
  pub same_length : length store'.deliveries ≡ length store.deliveries
  pub tried : attempts store.deliveries ≤ attempts store'.deliveries

pub same-Keeps : (most : ℕ) (store : EventStore) → IsOutbox most store → Keeps most store store
same-Keeps most store i = record {
  outbox = i;
  claims = λ c fits. fits;
  same_length = refl;
  tried = omega arith;
}

pub Keeps-trans : (most : ℕ) (a b c : EventStore) → Keeps most a b → Keeps most b c → Keeps most a c
Keeps-trans most a b c k l = record {
  outbox = l.outbox;
  claims = λ x fits. l.claims x (k.claims x fits);
  same_length = l.same_length ∙ k.same_length;
  tried = omega (arith, k.tried, l.tried);
}

-- Claiming.
own_row :
    (most : ℕ) (settings : OutboxSettings) (now : ℕ) (d : Delivery) (store : EventStore)
    → IsOutbox most store
    → first_by sooner (is_eligible settings now) store.deliveries ≡ some d
    → (get_row delivery_key d.id store.deliveries ≡ some d) × (is_eligible settings now d ≡ true)
own_row most settings now d store i found =
    first_by-All sooner (λ x. get_row delivery_key (delivery_key x) store.deliveries ≡ some x)
      (is_eligible settings now) d store.deliveries
      (All-get_row_self delivery_key store.deliveries i.distinct) found

leased_fits :
    (settings : OutboxSettings) (token now : ℕ) (d : Delivery)
    → is_eligible settings now d ≡ true
    → RowFits settings.max_attempts (leased_row settings token now d)
leased_fits settings token now d h = (ground arith, refl, λ h. cc)

waiting_row :
    (settings : OutboxSettings) (now : ℕ) (d : Delivery)
    → is_eligible settings now d ≡ true
    → (false ≡ is_delivered d.delivery_state) × (false ≡ is_dead d.delivery_state)
waiting_row settings now d h = (ground arith, ground arith)

pub claim_next-Keeps :
    (settings : OutboxSettings) (token now : ℕ) (store : EventStore) (o : Option Claim)
    (store' : EventStore)
    → IsOutbox settings.max_attempts store
    → claim_next settings token now store ≡ ok (o, store')
    → Keeps settings.max_attempts store store'
      × ((c : Claim)
          → o ≡ some c
          → ClaimFits store'.deliveries c
            × (attempts store.deliveries < attempts store'.deliveries))
unfolding claim_next
claim_next-Keeps settings token now store o store' i h =
    elim (Option-cases (first_by sooner (is_eligible settings now) store.deliveries)) [
      | inl nothing ↦
          let e = rw nothing at h in
          let same : store ≡ store' = cc e in
          (
            subst (Keeps settings.max_attempts store) same
                (same-Keeps settings.max_attempts store i),
            λ c is_claim. absurd (cc (e, is_claim)),
          )
      | inr (d, found) ↦ claimed d found (rw found at h)
    ]
  where
    claimed :
        (d : Delivery)
        → first_by sooner (is_eligible settings now) store.deliveries ≡ some d
        → claim_row settings token now store (some d) ≡ ok (o, store')
        → Keeps settings.max_attempts store store'
          × ((c : Claim)
              → o ≡ some c
              → ClaimFits store'.deliveries c
                × (attempts store.deliveries < attempts store'.deliveries))
    claimed d found e =
        let (at_id, eligible) = own_row settings.max_attempts settings now d store i found in
        let (row, _, p) = >>=-eq-ok (or_raise (get_event d.event_log_id store) runtime_error) _ e in
        let d' = leased_row settings token now d in
        let same : put_delivery d' store ≡ store' = cc p in
        let waits = waiting_row settings now d eligible in
        let more : attempts store.deliveries < attempts (put_delivery d' store).deliveries = omega (
          arith,
          sum_of-put_row delivery_key (λ x. x.attempt_count) d' d store.deliveries i.distinct at_id,
        ) in
        let keeps : (c : Claim)
            → ClaimFits store.deliveries c
            → ClaimFits (put_row delivery_key d' store.deliveries) c =
          ClaimFits-put_row d d' store.deliveries i.distinct at_id refl in
        (
          subst (Keeps settings.max_attempts store) same (record {
            outbox =
                put_delivery-IsOutbox settings.max_attempts d d' store i at_id refl
                  (leased_fits settings token now d eligible) waits.0 waits.1;
            claims = keeps;
            same_length = length-put_row delivery_key d' store.deliveries;
            tried = omega (arith, more);
          }),
          λ c is_claim. (
            subst (λ (s : EventStore). ClaimFits s.deliveries c) same
                (keeps c (λ x read. cc (at_id, read, p, is_claim))),
            subst (λ (s : EventStore). attempts store.deliveries < attempts s.deliveries) same more,
          ),
        )

-- Settling an owned delivery.
pub owned_at :
    (claim : Claim) (store : EventStore) (d : Delivery)
    → find_owned claim store ≡ some d
    → (get_row delivery_key claim.delivery_id store.deliveries ≡ some d)
      × (owns claim.lease_token d ≡ true)
owned_at claim store d h =
    elim (Option-cases (get_row delivery_key claim.delivery_id store.deliveries)) [
      | inl nothing ↦ cc (rw nothing at h)
      | inr (x, found) ↦ elim (Bool-cases (owns claim.lease_token x)) [
        | inl mine ↦
            let same : x ≡ d = cc (rw (found, mine) at h) in
            (found ∙ ap some same, subst (λ y. owns claim.lease_token y ≡ true) same mine)
        | inr other ↦ cc (rw (found, other) at h)
      ]
    ]

pub settle-Keeps :
    (most : ℕ) (claim : Claim) (f : Delivery → Delivery) (now : ℕ) (store : EventStore)
    (d : Delivery)
    → IsOutbox most store
    → ClaimFits store.deliveries claim
    → get_row delivery_key claim.delivery_id store.deliveries ≡ some d
    → (f d).id ≡ d.id
    → (f d).event_log_id ≡ d.event_log_id
    → (f d).attempt_count ≡ d.attempt_count
    → RowFits most (f d)
    → Keeps most store (settle claim f now store (some d)).1
unfolding settle
settle-Keeps most claim f now store d i fits found same_id same_event same_count row =
    let at_id : get_row delivery_key (f d).id store.deliveries ≡ some d =
      subst (λ k. get_row delivery_key k store.deliveries ≡ some d)
        (sym (key-get_row delivery_key claim.delivery_id d store.deliveries found) ∙ sym same_id)
        found in
    record {
      outbox =
          refresh-IsOutbox most claim.event_id now d (f d) store i at_id same_event (fits d found)
            row;
      claims = ClaimFits-put_row d (f d) store.deliveries i.distinct at_id same_event;
      same_length = length-put_row delivery_key (f d) store.deliveries;
      tried = omega (
        arith,
        same_count,
        sum_of-put_row delivery_key (λ x. x.attempt_count) (f d) d store.deliveries i.distinct
            at_id,
      );
    }

failed_fits :
    (most : ℕ) (terminal : Bool) (category : DeliveryErrorCategory) (now next : ℕ) (d : Delivery)
    → RowFits most d
    → RowFits most (failed_row terminal category now next d)
failed_fits most true category now next d r = (r.0, refl, λ h. cc h)
failed_fits most false category now next d r = (r.0, refl, λ h. cc h)

pub record_failure-Keeps :
    (settings : OutboxSettings) (claim : Claim) (category : DeliveryErrorCategory) (now : ℕ)
    (store : EventStore) (b : Bool) (store' : EventStore)
    → IsOutbox settings.max_attempts store
    → ClaimFits store.deliveries claim
    → record_failure settings claim category now store ≡ ok (b, store')
    → Keeps settings.max_attempts store store'
unfolding record_failure
record_failure-Keeps settings claim category now store b store' i fits h =
    let terminal = leb settings.max_attempts claim.attempt_count in
    let (next, _, p) = >>=-eq-ok (next_attempt settings terminal claim.attempt_count now) _ h in
    let f = failed_row terminal category now next in
    elim (Option-cases (find_owned claim store)) [
      | inl nothing ↦ unchanged f p nothing
      | inr (d, found) ↦
          let (at_claim, _) = owned_at claim store d found in
          let same : (settle claim f now store (some d)).1 ≡ store' = cc (p, found) in
          subst (Keeps settings.max_attempts store) same (
            settle-Keeps settings.max_attempts claim f now store d i fits at_claim refl refl refl (
              failed_fits settings.max_attempts terminal category now next d (
                All-get_row delivery_key (RowFits settings.max_attempts) claim.delivery_id d
                  store.deliveries i.rows at_claim)))
    ]
  where
    unchanged :
        (f : Delivery → Delivery)
        → ok (settle claim f now store (find_owned claim store)) ≡ ok (b, store')
        → find_owned claim store ≡ none
        → Keeps settings.max_attempts store store'
    unchanged f p nothing =
        let same : store ≡ store' = cc (rw nothing at p) in
        subst (Keeps settings.max_attempts store) same (same-Keeps settings.max_attempts store i)
