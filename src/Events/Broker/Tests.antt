-- ===== src/Events/Broker/Tests.antt =====
-- A broker with queues of two events.
use agent_program.Prelude.{ℕ, ◌≡◌, refl, none, some, List, [], ◌∷◌, arith, true, false}
use agent_program.Events.Broker.{
  Envelope, Broker, Use, reads, publishes, subscribe, publish, read_item, forget_old, run, log_of,
}
use agent_program.Events.Broker.Readers.{Serves, subscribe-Serves}

abbrev broker : Broker
broker = record { queue_capacity = 2; dedup_capacity = 4; subscriptions = []; published = [] }

abbrev event : ℕ → Envelope
event n = record { event_id = some n; workflow_id = some 5 }

-- The first event is read, and published again.
abbrev uses : List Use
uses = publishes (event 1) 1 ∷ reads 1 ∷ publishes (event 1) 1 ∷ publishes (event 2) 2 ∷ []

read_and_waiting :
    (run uses (subscribe 1 5 broker)).subscriptions
    ≡ record {
      id = 1;
      workflow_id = 5;
      queue = some (event 2) ∷ [];
      is_open = true;
      taken = some (event 1) ∷ [];
    }
      ∷ []
unfolding run subscribe publish read_item forget_old
read_and_waiting = refl

-- The third event finds the queue full.
overflowed :
    (run
      (publishes (event 1) 1 ∷ publishes (event 2) 2 ∷ publishes (event 3) 3 ∷ [])
      (subscribe 1 5 broker)).subscriptions
    ≡ record { id = 1; workflow_id = 5; queue = none ∷ []; is_open = false; taken = [] } ∷ []
unfolding run subscribe publish read_item forget_old
overflowed = refl

subscribe-Serves_example :
    Serves 1 5 (log_of uses (subscribe 1 5 broker) []) (run uses (subscribe 1 5 broker))
subscribe-Serves_example =
    subscribe-Serves 1 5 uses broker (omega arith) tt (tt, (tt, (tt, (tt, tt))))
