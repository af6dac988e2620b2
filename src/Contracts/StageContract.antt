-- ===== src/Contracts/StageContract.antt =====
-- Stage contracts: capabilities and path scopes
-- (backend/src/agent_platform/domain/contracts/stage_contracts.py).
pub mod Grants
use Prim.Native.String.{String}
use text.Mathlib.Text.{◌==◌ as str_eq}
use agent_program.Prelude.{
  ℕ, Bool, true, false, ◌&&◌, ◌||◌, not, List, [], ◌∷◌, ◌++◌, ◌==◌, any, if◌then◌else◌,
}
use agent_program.Errors.{Result, ok, err, capability_not_requestable, ◌>>=◌, ◌>>◌, raise_if}
use agent_program.Contracts.Stages.{Stage, StageRunState}

pub data CapabilityAccess : Type 0 where
  default requires_approval forbidden : CapabilityAccess

pub data StagePathScope : Type 0 where
  project_non_sensitive planner_artifact designer_artifact builder_artifact : StagePathScope
  reviewer_artifact deployer_artifact project_source project_test : StagePathScope
  project_build_config generated deployment_config deployment_script stage_draft : StagePathScope

abbrev pub scope_index : StagePathScope → ℕ
scope_index project_non_sensitive = 0
scope_index planner_artifact = 1
scope_index designer_artifact = 2
scope_index builder_artifact = 3
scope_index reviewer_artifact = 4
scope_index deployer_artifact = 5
scope_index project_source = 6
scope_index project_test = 7
scope_index project_build_config = 8
scope_index generated = 9
scope_index deployment_config = 10
scope_index deployment_script = 11
scope_index stage_draft = 12

abbrev pub scope_in : StagePathScope → List StagePathScope → Bool
scope_in s scopes = any (λ t. scope_index s == scope_index t) scopes

abbrev pub capability_in : String → List String → Bool
capability_in c cs = any (λ d. str_eq c d) cs

pub record StagePathPolicy : Type 0 where
  pub read_scopes : List StagePathScope
  pub write_scopes : List StagePathScope
  pub delete_scopes : List StagePathScope

pub record StageContract : Type 0 where
  pub stage : Stage
  pub initial_state : StageRunState
  pub default_capabilities : List String
  pub requestable_capabilities : List String
  pub forbidden_capabilities : List String
  pub path_policy : StagePathPolicy

abbrev distinct_scopes : List StagePathScope → Bool
distinct_scopes [] = true
distinct_scopes (s ∷ ss) = not (scope_in s ss) && distinct_scopes ss

-- `StagePathPolicy.validate_scopes`
unfoldable pub is_policy : StagePathPolicy → Bool
is_policy p =
    distinct_scopes p.read_scopes
    && distinct_scopes p.write_scopes
    && distinct_scopes p.delete_scopes
    && not (any (λ s. not (scope_in s p.write_scopes)) p.delete_scopes)

abbrev distinct_capabilities : List String → Bool
distinct_capabilities [] = true
distinct_capabilities (c ∷ cs) = not (capability_in c cs) && distinct_capabilities cs

-- `StageContract.validate_capabilities`
unfoldable pub is_contract : StageContract → Bool
unfolding is_policy
is_contract c =
    is_policy c.path_policy
    && distinct_capabilities c.default_capabilities
    && distinct_capabilities c.requestable_capabilities
    && distinct_capabilities c.forbidden_capabilities
    && not (any (λ d. capability_in d c.forbidden_capabilities) c.default_capabilities)
    && not (any (λ d. capability_in d c.forbidden_capabilities) c.requestable_capabilities)

unfoldable pub capability_access : StageContract → String → CapabilityAccess
capability_access c capability =
    if capability_in capability c.default_capabilities
    then default
    else if capability_in capability c.requestable_capabilities
    then requires_approval
    else forbidden

unfoldable pub can_request_capability : StageContract → String → Bool
can_request_capability c capability =
    capability_in capability c.requestable_capabilities
    && not (capability_in capability c.forbidden_capabilities)

abbrev pub check_approved : StageContract → List String → Result (Unit {0})
check_approved c [] = ok tt
check_approved c (a ∷ as') =
    raise_if (not (can_request_capability c a)) capability_not_requestable >> check_approved c as'

-- The set is a list, read by membership only.
unfoldable pub effective_capabilities : StageContract → List String → Result (List String)
unfolding can_request_capability
effective_capabilities c approved = do
  check_approved c approved
  ok (c.default_capabilities ++ approved)
