-- ===== src/Workflow/Snapshots.antt =====
-- `WorkflowSnapshot` (backend/src/agent_platform/domain/workflows/models.py) and the `get_snapshot`
-- of the repository (infrastructure/database/workflow_repository.py beside it).
use agent_program.Prelude.{
  ℕ, Bool, true, ◌&&◌, ◌||◌, not, Option, none, some, List, [], ◌∷◌, ◌==◌, get_row, any,
}
use agent_program.Errors.{Result, ok, value_error, runtime_error, ◌>>=◌, ◌>>◌, raise_if, or_raise}
use agent_program.Workflow.Models.{Workflow, StageRun, Room}
use agent_program.Workflow.Db.{Db, workflow_from_row, stage_run_from_row, room_from_row}
use agent_program.Workflow.Queries.{workflow_key, current_stage_run_rows, room_for_stage_run_row}

pub record Snapshot : Type 0 where
  pub workflow : Workflow
  pub stage_runs : List StageRun
  pub rooms : List Room

abbrev distinct_runs : List StageRun → Bool
distinct_runs [] = true
distinct_runs (r ∷ rs) = not (any (λ x. x.id == r.id) rs) && distinct_runs rs

-- `WorkflowSnapshot.require_consistent_graph`
unfoldable pub is_snapshot : Snapshot → Bool
is_snapshot s =
    distinct_runs s.stage_runs
    && not (any (λ r. not (r.workflow_id == s.workflow.id)) s.stage_runs)
    && not (
        any
          (λ m.
            not (m.workflow_id == s.workflow.id)
            || not (any (λ r. r.id == m.stage_run_id) s.stage_runs))
          s.rooms)

abbrev read_runs : List StageRun → Result (List StageRun)
read_runs [] = ok []
read_runs (r ∷ rs) = do r' ← stage_run_from_row r; rs' ← read_runs rs; ok (r' ∷ rs')

-- `room_by_run[run.id] for run in runs`, which raises where a run has no room
abbrev room_rows : List StageRun → Db → Result (List Room)
room_rows [] db = ok []
room_rows (r ∷ rs) db = do
  row ← or_raise (room_for_stage_run_row r.id db) runtime_error
  rows ← room_rows rs db
  ok (row ∷ rows)

abbrev read_rooms : List Room → Result (List Room)
read_rooms [] = ok []
read_rooms (m ∷ ms) = do m' ← room_from_row m; ms' ← read_rooms ms; ok (m' ∷ ms')

unfoldable pub read_snapshot : Workflow → Db → Result Snapshot
unfolding current_stage_run_rows room_for_stage_run_row
read_snapshot row db = do
  let run_rows = current_stage_run_rows row.id db.stage_runs
  found ← room_rows run_rows db
  workflow ← workflow_from_row row
  runs ← read_runs run_rows
  rooms ← read_rooms found
  let snapshot : Snapshot = record { workflow = workflow; stage_runs = runs; rooms = rooms }
  raise_if (not (is_snapshot snapshot)) value_error
  ok snapshot

abbrev found_snapshot : Option Workflow → Db → Result (Option Snapshot)
found_snapshot none db = ok none
found_snapshot (some row) db = do s ← read_snapshot row db; ok (some s)

unfoldable pub get_snapshot : ℕ → Db → Result (Option Snapshot)
unfolding read_snapshot
get_snapshot wid db = found_snapshot (get_row workflow_key wid db.workflows) db
