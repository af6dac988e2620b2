-- ===== src/Events/Broker.antt =====
-- The broker of event streams (`EventStreamBroker` of
-- backend/src/agent_platform/application/events/streaming.py). A method runs under the broker's lock,
-- so it is one step; a reader takes from its own queue.
pub mod Gaps
pub mod Readers
mod Tests
use agent_program.Prelude.{
  ℕ, ◌+◌, Bool, true, false, ◌&&◌, ◌||◌, not, Option, none, some, List, [], ◌∷◌, ◌++◌, ◌==◌, ltb,
  leb, if◌then◌else◌, length, map, mem,
}
use agent_program.Errors.{Result, ok, err, ◌>>=◌, ◌>>◌, raise_if, value_error}

-- `EventEnvelope`, by what the broker reads of it
pub record Envelope : Type 0 where
  pub event_id : Option ℕ
  pub workflow_id : Option ℕ

-- `EventSubscription`: the reader holds it also when the broker has dropped it. `is_open` says that it
-- is in `_subscriptions`. In the queue, nothing stands for the end of the stream. `taken` are the items
-- that the reader has taken so far, the first one first; no code reads them.
pub record Subscription : Type 0 where
  pub id : ℕ
  pub workflow_id : ℕ
  pub queue : List (Option Envelope)
  pub is_open : Bool
  pub taken : List (Option Envelope)

pub record Broker : Type 0 where
  pub queue_capacity : ℕ
  pub dedup_capacity : ℕ
  pub subscriptions : List Subscription
  pub published : List ℕ

unfoldable pub new_broker : ℕ → ℕ → Result Broker
new_broker queue_capacity dedup_capacity = do
  raise_if (ltb queue_capacity 1 || ltb dedup_capacity 1) value_error
  ok (record {
    queue_capacity = queue_capacity;
    dedup_capacity = dedup_capacity;
    subscriptions = [];
    published = [];
  })

abbrev pub with_subscriptions : Broker → List Subscription → Broker
with_subscriptions b subscriptions = record b { subscriptions = subscriptions }

abbrev pub new_subscription : ℕ → ℕ → Subscription
new_subscription id workflow_id = record {
  id = id;
  workflow_id = workflow_id;
  queue = [];
  is_open = true;
  taken = [];
}

abbrev pub close : ℕ → Subscription → Subscription
close id s = if s.id == id then record s { is_open = false } else s

-- `subscribe`, with an identifier that `new_id` drew: the entry of the dictionary is written.
unfoldable pub subscribe : ℕ → ℕ → Broker → Broker
subscribe id workflow_id b =
    with_subscriptions b (map (close id) b.subscriptions ++ new_subscription id workflow_id ∷ [])

unfoldable pub unsubscribe : ℕ → Broker → Broker
unsubscribe id b = with_subscriptions b (map (close id) b.subscriptions)

-- `while len(self._published) > self._dedup_capacity: popitem(last=False)`
unfoldable pub forget_old : ℕ → List ℕ → List ℕ
forget_old capacity [] = []
forget_old capacity (n ∷ ns) =
    let rest = forget_old capacity ns in if ltb capacity (length (n ∷ ns)) then rest else n ∷ ns

abbrev pub is_value : Option ℕ → ℕ → Bool
is_value none n = false
is_value (some m) n = n == m

-- The body of the loop over the subscriptions: a full queue is emptied and ended, and its subscription
-- is dropped.
abbrev pub offer : ℕ → Envelope → Subscription → Subscription
offer capacity e s =
    if s.is_open && is_value e.workflow_id s.workflow_id
    then (if ltb (length s.queue) capacity
        then record s { queue = s.queue ++ some e ∷ [] }
        else record s { queue = none ∷ []; is_open = false })
    else s

abbrev pub deliver : Envelope → ℕ → Broker → Broker
deliver e event_id b = if mem event_id b.published then b else record b {
  subscriptions = map (offer b.queue_capacity e) b.subscriptions;
  published = forget_old b.dedup_capacity (b.published ++ event_id ∷ []);
}

unfoldable pub publish : Envelope → ℕ → Broker → Result Broker
unfolding forget_old
publish e event_id b = do
  raise_if (not (is_value e.event_id event_id)) value_error
  ok (deliver e event_id b)

-- A reader takes the next item of its queue.
abbrev pub taken_from : Subscription → List (Option Envelope) → Subscription
taken_from s [] = s
taken_from s (item ∷ items) = record s { queue = items; taken = s.taken ++ item ∷ [] }

abbrev pub take_item : ℕ → Subscription → Subscription
take_item id s = if s.id == id then taken_from s s.queue else s

unfoldable pub read_item : ℕ → Broker → Broker
read_item id b = with_subscriptions b (map (take_item id) b.subscriptions)

pub data Use : Type 0 where
  subscribes : ℕ → ℕ → Use
  unsubscribes reads : ℕ → Use
  publishes : Envelope → ℕ → Use

abbrev kept_or : Broker → Result Broker → Broker
kept_or b (err e) = b
kept_or b (ok b') = b'

abbrev pub apply : Use → Broker → Broker
apply (subscribes id workflow_id) b = subscribe id workflow_id b
apply (unsubscribes id) b = unsubscribe id b
apply (reads id) b = read_item id b
apply (publishes e event_id) b = kept_or b (publish e event_id b)

-- The events that were published, without the refused ones and those that the broker still knows.
abbrev pub accepts : Use → Broker → List Envelope
accepts (publishes e event_id) b =
    if is_value e.event_id event_id && not (mem event_id b.published) then e ∷ [] else []
accepts _ b = []

unfoldable pub run : List Use → Broker → Broker
run [] b = b
run (u ∷ us) b = run us (apply u b)

unfoldable pub log_of : List Use → Broker → List Envelope → List Envelope
log_of [] b log = log
log_of (u ∷ us) b log = log_of us (apply u b) (log ++ accepts u b)
