-- ===== src/Events/Dispatcher/Traces.antt =====
-- The outbox over any sequence of rounds of the dispatcher.
use agent_program.Prelude.{
  ℕ, ◌≤◌, ◌<◌, ◌≡◌, ◌≢◌, ◌⊎◌, refl, sym, ap, ◌∙◌, true, false, ◌&&◌, some, List, [], ◌∷◌, ◌==◌,
  arith, get_row, All, All-imp, All-get_row, Bool-cases, inl, inr, count, ltb, ==_iff,
}
use mathlib.Core.Path.{subst}
use agent_program.Errors.{ok}
use agent_program.Events.Log.{EventStore, Delivery, Consumer, AggregateState}
use agent_program.Events.Outbox.{
  OutboxSettings, Claim, delivery_key, claim_next, is_delivered, of_event, delivered_of, dead_of,
  aggregate_state, aggregate_of,
}
use agent_program.Events.Recovery.{recover_expired_leases}
use agent_program.Events.LocalAudit.{is_audit}
use agent_program.Events.Outbox.Invariant.{RowFits, IsOutbox, ClaimFits, Aggregates}
use agent_program.Events.Dispatcher.{Outcome, dispatch_claim}
use agent_program.Events.Dispatcher.Steps.{Keeps, claim_next-Keeps}
use agent_program.Events.Dispatcher.Rounds.{recover_expired_leases-Keeps, dispatch_claim-Keeps}

-- The store, with every claim that was ever handed out: a dispatcher may still hold any of them.
pub record System : Type 0 where
  pub store : EventStore
  pub issued : List Claim

abbrev pub IsIssued : Claim → List Claim → Type 0
IsIssued c [] = ⊥
IsIssued c (x ∷ xs) = (x ≡ c) ⊎ IsIssued c xs

-- One operation, at any time and with any outcome.
pub data Step (settings : OutboxSettings) (publishers : List Consumer)
    : System → System → Type 0 where
  recovers :
      {store : EventStore} {issued : List Claim} (now : ℕ)
      → Step settings publishers
          (record { store = store; issued = issued })
          (record { store = (recover_expired_leases settings now store).1; issued = issued })
  claims :
      {store store' : EventStore} {issued : List Claim} {c : Claim} (token now : ℕ)
      → claim_next settings token now store ≡ ok (some c, store')
      → Step settings publishers
          (record { store = store; issued = issued })
          (record { store = store'; issued = c ∷ issued })
  dispatches :
      {store store' : EventStore} {issued : List Claim} (c : Claim) (outcome : Outcome) (now : ℕ)
      → IsIssued c issued
      → dispatch_claim settings publishers c outcome now store ≡ ok store'
      → Step settings publishers
          (record { store = store; issued = issued })
          (record { store = store'; issued = issued })

pub data Reaches (settings : OutboxSettings) (publishers : List Consumer) (s : System)
    : System → Type 0 where
  start : Reaches settings publishers s s
  step :
      {t u : System}
      → Reaches settings publishers s t
      → Step settings publishers t u
      → Reaches settings publishers s u

-- The invariant of a system.
pub record IsSystem (most : ℕ) (s : System) : Type 0 where
  pub outbox : IsOutbox most s.store
  pub fitting : All (ClaimFits s.store.deliveries) s.issued

pub issued-fits :
    (ds : List Delivery) (c : Claim) (cs : List Claim)
    → All (ClaimFits ds) cs
    → IsIssued c cs
    → ClaimFits ds c
issued-fits ds c [] h m = absurd m
issued-fits ds c (x ∷ xs) h (inl same) = subst (ClaimFits ds) same h.0
issued-fits ds c (x ∷ xs) h (inr later) = issued-fits ds c xs h.1 later

kept :
    (most : ℕ) (store store' : EventStore) (issued : List Claim)
    → Keeps most store store'
    → All (ClaimFits store.deliveries) issued
    → IsSystem most (record { store = store'; issued = issued })
kept most store store' issued k fits = record {
  outbox = k.outbox;
  fitting = All-imp (ClaimFits store.deliveries) (ClaimFits store'.deliveries) k.claims issued fits;
}

Step-IsSystem :
    (settings : OutboxSettings) (publishers : List Consumer) {s t : System}
    → Step settings publishers s t
    → IsSystem settings.max_attempts s
    → IsSystem settings.max_attempts t
Step-IsSystem settings publishers (recovers {store} {issued} now) i =
    kept settings.max_attempts store _ issued
      (recover_expired_leases-Keeps settings now store i.outbox) i.fitting
Step-IsSystem settings publishers (claims {store} {store'} {issued} {c} token now h) i =
    let (k, fits) = claim_next-Keeps settings token now store (some c) store' i.outbox h in
    let rest = kept settings.max_attempts store store' issued k i.fitting in
    record { outbox = rest.outbox; fitting = ((fits c refl).0, rest.fitting) }
Step-IsSystem settings publishers (dispatches {store} {store'} {issued} c outcome now m h) i =
    kept settings.max_attempts store store' issued
      (dispatch_claim-Keeps settings publishers c outcome now store store' i.outbox
        (issued-fits store.deliveries c issued i.fitting m) h)
      i.fitting

-- From a system with the invariant, and whatever the order of recoveries, claims and dispatches,
-- with claims that are held for any time: a delivery is tried at most as often as allowed, has a
-- lease token exactly while it is leased and is delivered only for the local audit, the identifiers
-- are distinct, every outbox row has the state that the deliveries of its event give, and every
-- claim names the event of its delivery.
pub Reaches-IsSystem :
    (settings : OutboxSettings) (publishers : List Consumer) (s t : System)
    → IsSystem settings.max_attempts s
    → Reaches settings publishers s t
    → IsSystem settings.max_attempts t
Reaches-IsSystem settings publishers s t i start = i
Reaches-IsSystem settings publishers s t i (step {t = u} r h) =
    Step-IsSystem settings publishers h (Reaches-IsSystem settings publishers s u i r)

-- A delivery that is not delivered keeps the count below the total.
fewer_delivered : (e : ℕ) (ds : List Delivery) → count (delivered_of e) ds ≤ count (of_event e) ds
fewer_delivered e [] = omega arith
fewer_delivered e (d ∷ ds) = ground (arith, fewer_delivered e ds)

one_open :
    (k e : ℕ) (d : Delivery) (ds : List Delivery)
    → get_row delivery_key k ds ≡ some d
    → d.event_log_id ≡ e
    → is_delivered d.delivery_state ≡ false
    → count (delivered_of e) ds < count (of_event e) ds
one_open k e d [] read own open_one = cc read
one_open k e d (x ∷ xs) read own open_one = elim (Bool-cases (x.id == k)) [
  | inl here ↦
      let same : x ≡ d = cc (rw here at read) in
      let at_e : (x.event_log_id == e) ≡ true =
        (==_iff x.event_log_id e).1 (ap (λ (y : Delivery). y.event_log_id) same ∙ own) in
      let waits : is_delivered x.delivery_state ≡ false =
        ap (λ (y : Delivery). is_delivered y.delivery_state) same ∙ open_one in
      rw (at_e, waits) (omega (arith, fewer_delivered e xs))
  | inr there ↦ ground (arith, one_open k e d xs (rw there at read) own open_one)
]

never :
    (total delivered dead : ℕ)
    → delivered < total
    → aggregate_state total delivered dead ≢ AggregateState.delivered
unfolding aggregate_state
never total delivered dead less e = elim (Bool-cases (ltb 0 dead)) [
  | inl some_dead ↦ cc (rw some_dead at e)
  | inr none_dead ↦
      let short : (ltb 0 total && delivered == total) ≡ false = ground (arith, less) in
      cc (rw (none_dead, short) at e)
]

-- From a system with the invariant, a delivery for the websocket is marked as delivered by no
-- sequence of steps, and neither is the outbox row of its event.
pub websocket_never_delivered :
    (settings : OutboxSettings) (publishers : List Consumer) (s t : System) (k : ℕ) (d : Delivery)
    → IsSystem settings.max_attempts s
    → Reaches settings publishers s t
    → get_row delivery_key k t.store.deliveries ≡ some d
    → d.consumer_name ≡ Consumer.websocket
    → (is_delivered d.delivery_state ≡ false)
      × All
          (λ o. o.event_log_id ≡ d.event_log_id → o.delivery_state ≢ AggregateState.delivered)
          t.store.outbox
unfolding aggregate_state aggregate_of
websocket_never_delivered settings publishers s t k d i r read socket =
    let j = Reaches-IsSystem settings publishers s t i r in
    let row =
      All-get_row delivery_key (RowFits settings.max_attempts) k d t.store.deliveries j.outbox.rows
        read in
    let waits = not_delivered d row.2 socket in
    (
      waits,
      All-imp (Aggregates t.store.deliveries)
          (λ o. o.event_log_id ≡ d.event_log_id → o.delivery_state ≢ AggregateState.delivered)
          (λ o h own done.
            never (count (of_event o.event_log_id) t.store.deliveries)
              (count (delivered_of o.event_log_id) t.store.deliveries)
              (count (dead_of o.event_log_id) t.store.deliveries)
              (one_open k o.event_log_id d t.store.deliveries read (sym own) waits) (sym h ∙ done))
          t.store.outbox j.outbox.aggregated,
    )
  where
    not_delivered :
        (d : Delivery)
        → (is_delivered d.delivery_state ≡ true → is_audit d.consumer_name ≡ true)
        → d.consumer_name ≡ Consumer.websocket
        → is_delivered d.delivery_state ≡ false
    not_delivered d h socket = elim (Bool-cases (is_delivered d.delivery_state)) [
      | inl yes' ↦ cc (h yes', socket)
      | inr no' ↦ no'
    ]
