-- ===== src/Workflow/Uow.antt =====
-- The unit of work around a handler
-- (backend/src/agent_platform/infrastructure/database/unit_of_work.py), and the events that handlers
-- append (`_append_event` of backend/src/agent_platform/application/workflows/service.py). The lock
-- that serialises the writers makes a handler one step. `draw` stands for `new_id`: `draw k` is the
-- k-th identifier that the call draws.
use agent_program.Prelude.{ℕ, ◌≡◌, ap, sym, Option, some, List, [], ◌∷◌, arith}
use Prim.Native.String.{String}
use agent_program.Errors.{Error, Result, ok, err}
use agent_program.Events.Log.{AppendReads, Consumer, append}
use agent_program.Workflow.Db.{Db}

-- `commit` keeps what was written; an exception leaves the block before it, and `_cleanup` rolls
-- back.
unfoldable pub transact {ℓ} : {A : Type ℓ} → Db → Result (A × Db) → Result A × Db
transact db (ok (a, db')) = (ok a, db')
transact db (err e) = (err e, db)

-- `delivery_targets` of the workflow service's units of work
abbrev pub delivery_targets : List Consumer
delivery_targets = Consumer.local_audit ∷ Consumer.websocket ∷ []

-- `now` is the handler's time, at which the event occurred.
unfoldable pub append_event : AppendReads → ℕ → String → ℕ → ℕ → Option ℕ → Option ℕ → Db → Db
unfolding append
append_event reads now event_type project_id workflow_id room_id task_id db =
    let (_, events) =
      append reads.new_id reads.clock delivery_targets
        (record {
          event_type = event_type;
          project_id = some project_id;
          workflow_id = some workflow_id;
          room_id = room_id;
          task_id = task_id;
          occurred_at = now;
        })
        workflow_id db.events in
    record db { events = events }

-- A handler that answers has committed what its block returned; one that raises has changed nothing.
pub transact-eq-ok {ℓ} :
    {A : Type ℓ} (db : Db) (m : Result (A × Db)) {a : A} {db' : Db}
    → transact db m ≡ (ok a, db')
    → m ≡ ok (a, db')
unfolding transact
transact-eq-ok db (ok (b, d)) h = ground (arith, ap (λ p. p.0) h, ap (λ p. p.1) h)
transact-eq-ok db (err e) h = cc (ap (λ p. p.0) h)

pub transact_atomic {ℓ} :
    {A : Type ℓ} (db : Db) (m : Result (A × Db)) {e : Error} {db' : Db}
    → transact db m ≡ (err e, db')
    → db' ≡ db
unfolding transact
transact_atomic db (ok (b, d)) h = cc (ap (λ p. p.0) h)
transact_atomic db (err e) h = sym (ap (λ p. p.1) h)
