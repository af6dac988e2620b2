-- ===== src/Contracts/Stages.antt =====
-- The five delivery stages and the states of a stage run
-- (backend/src/agent_platform/domain/contracts/stages.py and runtime_policy.py). An enum's members
-- are compared by their place in the declaration.
use agent_program.Prelude.{
  ℕ, ◌+◌, ◌≡◌, Bool, Option, none, some, List, [], ◌∷◌, arith, ◌==◌, if◌then◌else◌,
}

pub data Stage : Type 0 where
  planner designer builder reviewer deployer : Stage

-- `_STAGE_INDEX`
abbrev pub stage_index : Stage → ℕ
stage_index planner = 0
stage_index designer = 1
stage_index builder = 2
stage_index reviewer = 3
stage_index deployer = 4

abbrev pub stage_eq : Stage → Stage → Bool
stage_eq a b = stage_index a == stage_index b

abbrev pub stage_order : List Stage
stage_order = planner ∷ designer ∷ builder ∷ reviewer ∷ deployer ∷ []

-- `STAGE_ORDER[i]`
abbrev at_index : List Stage → ℕ → Option Stage
at_index [] i = none
at_index (s ∷ ss) i = if i == 0 then some s else at_index ss (Prim.Native.Nat.pred i)

unfoldable pub successor : Stage → Option Stage
successor s = if stage_index s == 4 then none else at_index stage_order (stage_index s + 1)

unfoldable pub predecessor : Stage → Option Stage
predecessor s =
    if stage_index s == 0 then none else at_index stage_order (Prim.Native.Nat.pred (stage_index s))

pub data StageRunState : Type 0 where
  locked ready discussing producing p2r_reviewing quality_checking waiting_approval : StageRunState
  handoff_ready completed warning_blocked needs_fix external_conflict interrupted : StageRunState
  failed cancelled abandoned : StageRunState

abbrev pub state_index : StageRunState → ℕ
state_index locked = 0
state_index ready = 1
state_index discussing = 2
state_index producing = 3
state_index p2r_reviewing = 4
state_index quality_checking = 5
state_index waiting_approval = 6
state_index handoff_ready = 7
state_index completed = 8
state_index warning_blocked = 9
state_index needs_fix = 10
state_index external_conflict = 11
state_index interrupted = 12
state_index failed = 13
state_index cancelled = 14
state_index abandoned = 15

abbrev pub state_eq : StageRunState → StageRunState → Bool
state_eq a b = state_index a == state_index b

pub stage_eq_sound : (a b : Stage) → stage_eq a b ≡ Bool.true → a ≡ b
stage_eq_sound a b h = ground arith

-- The next stage is the one whose index is one higher, and the previous one undoes it.
pub predecessor-successor :
    (s t : Stage)
    → successor s ≡ some t
    → (predecessor t ≡ some s) × (stage_index t ≡ stage_index s + 1)
unfolding successor predecessor
predecessor-successor s t h = ground arith
