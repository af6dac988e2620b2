-- ===== src/Workflow/Machine/Routes.antt =====
-- Routes through the state machine of a stage run
-- (backend/src/agent_platform/domain/workflows/state_machine.py).
use agent_program.Prelude.{
  ℕ, ◌+◌, ◌<◌, ◌≤◌, ◌≡◌, ◌⊎◌, ◌↔◌, Bool, true, List, [], ◌∷◌, any, arith, length,
}
use agent_program.Errors.{ok}
use agent_program.Contracts.Stages.{
  StageRunState, locked, discussing, producing, p2r_reviewing, quality_checking, waiting_approval,
  handoff_ready, completed, needs_fix, failed, cancelled, abandoned, state_eq, state_index,
}
use agent_program.Workflow.Machine.{is_cancellable, require_stage_transition}

-- Each state of the list is reached from the one before it by a transition that is accepted.
abbrev pub IsRoute : StageRunState → List StageRunState → Type 0
IsRoute s [] = Unit {0}
IsRoute s (t ∷ ts) = (require_stage_transition s t ≡ ok tt) × IsRoute t ts

abbrev pub visits : StageRunState → List StageRunState → Bool
visits u path = any (state_eq u) path

-- An accepted step goes on by at most one place, stops or pauses the run, or goes back to the work.
step_index :
    (s t : StageRunState)
    → require_stage_transition s t ≡ ok tt
    → ((state_index t ≤ state_index s + 1) × (state_index s ≤ 8))
      ⊎ ((8 < state_index t) ⊎ (state_index t ≤ 3))
unfolding require_stage_transition
step_index locked t h = ground arith
step_index _ t h = ground arith

-- A state that lies before the place `k` of the line that ends in COMPLETED, or beside that line.
abbrev IsBefore : ℕ → StageRunState → Type 0
IsBefore k s = (state_index s < k) ⊎ (8 < state_index s)

-- The place `k` cannot be jumped over.
passes :
    (g s : StageRunState) (path : List StageRunState)
    → 4 ≤ state_index g
    → state_index g ≤ 8
    → IsBefore (state_index g) s
    → IsRoute s path
    → visits completed path ≡ true
    → visits g path ≡ true
passes g s [] low high before route seen = cc
passes g s (t ∷ ts) low high before route seen =
    grind (arith, step_index s t route.0, passes g t ts low high)

-- A stage run that is locked, ready, discussing or producing, or is beside the line that ends in
-- COMPLETED (sent back, blocked, interrupted or stopped), reaches COMPLETED along accepted transitions
-- only through the cross review, the quality check, the approval and the handoff.
pub completed_needs_gates :
    (s : StageRunState) (path : List StageRunState)
    → (state_index s ≤ 3) ⊎ (8 < state_index s)
    → IsRoute s path
    → visits completed path ≡ true
    → (visits p2r_reviewing path ≡ true)
      × (visits quality_checking path ≡ true)
      × (visits waiting_approval path ≡ true)
      × (visits handoff_ready path ≡ true)
completed_needs_gates s path start route seen = (
  passes p2r_reviewing s path (omega arith) (omega arith) (omega arith) route seen,
  passes quality_checking s path (omega arith) (omega arith) (omega arith) route seen,
  passes waiting_approval s path (omega arith) (omega arith) (omega arith) route seen,
  passes handoff_ready s path (omega arith) (omega arith) (omega arith) route seen,
)

-- A way to COMPLETED from each state that is not final.
abbrev pub completing : StageRunState → List StageRunState
completing handoff_ready = completed ∷ []
completing waiting_approval = handoff_ready ∷ completed ∷ []
completing quality_checking = waiting_approval ∷ handoff_ready ∷ completed ∷ []
completing p2r_reviewing = quality_checking ∷ waiting_approval ∷ handoff_ready ∷ completed ∷ []
completing producing =
    p2r_reviewing ∷ quality_checking ∷ waiting_approval ∷ handoff_ready ∷ completed ∷ []
completing needs_fix =
    producing ∷ p2r_reviewing ∷ quality_checking ∷ waiting_approval ∷ handoff_ready ∷ completed ∷ []
completing discussing =
    producing ∷ p2r_reviewing ∷ quality_checking ∷ waiting_approval ∷ handoff_ready ∷ completed ∷ []
completing _ =
    discussing ∷ producing ∷ p2r_reviewing ∷ quality_checking ∷ waiting_approval ∷ handoff_ready
    ∷ completed ∷ []

-- Every state from which a run may be cancelled still has a route of at most seven accepted steps
-- to COMPLETED, and also the direct step to each of FAILED, CANCELLED and ABANDONED.
pub cancellable_can_complete :
    (s : StageRunState)
    → is_cancellable s ≡ true
    → IsRoute s (completing s)
      × (visits completed (completing s) ≡ true)
      × (length (completing s) ≤ 7)
      × (require_stage_transition s failed ≡ ok tt)
      × (require_stage_transition s cancelled ≡ ok tt)
      × (require_stage_transition s abandoned ≡ ok tt)
unfolding require_stage_transition
cancellable_can_complete locked h = cc
cancellable_can_complete _ h = ground arith

-- A run leaves exactly the states from which it may be cancelled: LOCKED, COMPLETED, FAILED,
-- CANCELLED and ABANDONED accept no transition at all, and every other state accepts one.
pub leaves_iff_cancellable :
    (s : StageRunState)
    → ((t : StageRunState) × (require_stage_transition s t ≡ ok tt)) ↔ (is_cancellable s ≡ true)
unfolding require_stage_transition
leaves_iff_cancellable locked = (λ h. ground arith, λ h. cc)
leaves_iff_cancellable _ = (λ h. ground arith, λ h. (failed, ground arith))
