-- ===== src/Workflow/Machine.antt =====
-- The state machine of a stage run (backend/src/agent_platform/domain/workflows/state_machine.py).
pub mod Routes
use agent_program.Prelude.{Bool, true, false, ◌&&◌, List, [], ◌∷◌, any, if◌then◌else◌}
use agent_program.Errors.{Result, ok, err, invalid_transition}
use agent_program.Contracts.Stages.{
  StageRunState, ready, discussing, producing, p2r_reviewing, quality_checking, waiting_approval,
  handoff_ready, completed, warning_blocked, needs_fix, external_conflict, interrupted, failed,
  cancelled, abandoned, state_eq,
}

-- `_ALLOWED_TRANSITIONS.get(current, frozenset())`
abbrev pub allowed_transitions : StageRunState → List StageRunState
allowed_transitions ready = discussing ∷ []
allowed_transitions discussing = producing ∷ []
allowed_transitions producing = p2r_reviewing ∷ []
allowed_transitions p2r_reviewing = quality_checking ∷ []
allowed_transitions quality_checking = waiting_approval ∷ warning_blocked ∷ needs_fix ∷ []
allowed_transitions waiting_approval = handoff_ready ∷ needs_fix ∷ []
allowed_transitions handoff_ready = completed ∷ []
allowed_transitions needs_fix = producing ∷ []
allowed_transitions warning_blocked = discussing ∷ []
allowed_transitions external_conflict = discussing ∷ []
allowed_transitions interrupted = discussing ∷ []
allowed_transitions _ = []

-- `current in _CANCELLABLE_STATES`
abbrev pub is_cancellable : StageRunState → Bool
is_cancellable ready = true
is_cancellable discussing = true
is_cancellable producing = true
is_cancellable p2r_reviewing = true
is_cancellable quality_checking = true
is_cancellable waiting_approval = true
is_cancellable handoff_ready = true
is_cancellable warning_blocked = true
is_cancellable needs_fix = true
is_cancellable external_conflict = true
is_cancellable interrupted = true
is_cancellable _ = false

-- `target in {FAILED, CANCELLED, ABANDONED}`
abbrev pub is_stopped : StageRunState → Bool
is_stopped failed = true
is_stopped cancelled = true
is_stopped abandoned = true
is_stopped _ = false

unfoldable pub require_stage_transition : StageRunState → StageRunState → Result (Unit {0})
require_stage_transition current target =
    if any (state_eq target) (allowed_transitions current)
    then ok tt
    else if is_stopped target && is_cancellable current
    then ok tt
    else err invalid_transition
