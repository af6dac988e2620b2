-- ===== src/Lib.antt =====
-- A model of the agent platform's backend: five delivery stages (planner, designer, builder,
-- reviewer, deployer), workflows that go through them one by one, the rules on what a stage may do
-- with a project, the delivery of events, and the messages between processes. Paths are from the
-- repository's root.
--
-- The parts, and the files that model them, with backend/src/agent_platform as the folder of the code:
--   * Errors: the failures of domain/shared/errors.py, of which a `DomainError` is its code; the
--     `Result` of a handler, with `>>=` for a call that may raise and `raise_if` for a guard.
--   * Shared.Text, Shared.Json: text as code points with `strip`, and domain/shared/json_values.py.
--   * Contracts.Stages, Contracts.Paths, Contracts.StageContract, Contracts.Registry:
--     domain/contracts (stages.py, runtime_policy.py, scalars.py, stage_contracts.py and
--     stage_registry.py), function by function with the names of the code. Contracts.Paths.Reading is
--     no code of the program, but how an operating system reads a path.
--   * Tooling.Catalog, Tooling.PathGuard: infrastructure/tooling/catalog.py and path_guard.py, which
--     ask the contracts for capabilities and path scopes.
--   * Events.Log: `EventLogRepository.append` of infrastructure/database/repositories.py, the log and
--     its outbox rows, with the enums of domain/events/outbox.py.
--   * Events.Outbox, Events.Recovery, Events.LocalAudit: infrastructure/database/outbox_store.py, with
--     its recovery and cleanup apart, and local_audit.py, with `retry_delay` of
--     domain/events/outbox.py. A handler's `append` leaves rows in this store.
--   * Events.Dispatcher: what application/events/outbox_dispatcher.py does with a claim, with both
--     publishers. Dispatcher.Traces has the runs as a step relation, in which a claim may be
--     dispatched at any later time.
--   * Events.Tickets, Events.Broker: the ticket store and the broker of
--     application/events/streaming.py. The digest of a token is a parameter; a subscription also
--     has what its reader has taken.
--   * Ipc.Messages, Ipc.Replay, Ipc.Header, Ipc.Framing: interfaces/ipc (messages.py, replay.py and
--     framing.py, of which Ipc.Header has `_parse_header`). Bytes
--     are numbers. The JSON text of a message and the digest of its identifier are parameters. The
--     decoder's loop runs on fuel, the length of the buffer and two more: each round behind the
--     first reads a header of at least four bytes.
--   * Workflow.Machine, Workflow.Models: domain/workflows/state_machine.py and models.py.
--   * Workflow.Db, Workflow.Queries, Workflow.Snapshots, Workflow.Transitions, Workflow.Reopening,
--     Workflow.Messages, Workflow.Tasks: infrastructure/database/workflow_repository.py. `Db` is one
--     list of rows for each table; an operation takes it and returns a result beside the new one.
--   * Workflow.Uow: infrastructure/database/unit_of_work.py; `transact` commits or rolls back.
--   * Workflow.Service: the handlers of application/workflows/service.py that create, start, move and
--     reopen, each of which checks its guards, calls the repository and appends an event; and of
--     infrastructure/database/governance_repository.py the invalidations that a reopening calls.
--   * Workflow.Rooms: the handlers on messages and tasks, the lists, and the expiry of a task's
--     capability requests.
-- Prelude passes on the library's names and has the lemmas on lists and tables.
--
-- Identifiers are numbers, since the code only compares and orders them; times are ticks in UTC. A
-- draw of an identifier (`new_id`) is a function from the call's number, so nothing is assumed of
-- what it draws; an event is appended at a time of its own. `casefold` is a parameter of the path guard, of which nothing is assumed. The writers'
-- lock makes a handler one step. Only the decoder's loop and the digits of a number run on fuel; all
-- other recursion is structural.
--
-- Not modelled: the message, details and category of an error and the payload of an event, which are
-- functions of what is modelled; the patterns of names and identifiers; columns that no modelled
-- operation reads; the rest of governance, the model runtime, orchestration,
-- projects, the service of event streams, the workers and the HTTP interface; the user
-- interface.
pub mod Prelude
pub mod Errors
pub mod Shared
pub mod Contracts
pub mod Events
pub mod Ipc
pub mod Tooling
pub mod Workflow
