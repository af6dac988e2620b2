-- ===== src/Tooling/PathGuard/Capabilities.antt =====
-- The guard's decision on a capability against the contracts' account of it.
use Prim.Native.String.{String}
use agent_program.Prelude.{
  ◌≡◌, ◌↔◌, refl, ap, sym, ◌∙◌, Bool, true, false, ◌&&◌, ◌||◌, not, List, [], ◌∷◌, arith, any,
  Bool-cases, inl, inr, All,
}
use agent_program.Errors.{ok, err, capability_forbidden}
use agent_program.Contracts.Stages.{Stage, stage_eq}
use agent_program.Contracts.StageContract.{
  StageContract, capability_in, can_request_capability, effective_capabilities, capability_access,
  is_contract, CapabilityAccess, scope_in, project_source, project_test, project_build_config,
  generated, StagePathScope,
}
use agent_program.Contracts.StageContract.Grants.{
  capability_in-append, approved_requestable, effective_lem, effective_not_forbidden,
}
use agent_program.Contracts.Registry.{get_stage_contract}
use agent_program.Tooling.Catalog.{ToolDefinition, ToolOperation, tools}
use agent_program.Tooling.PathGuard.{authorize_capability}

-- Each of the five contracts passes the validators of its model.
pub get_stage_contract-is_contract : (s : Stage) → is_contract (get_stage_contract s) ≡ true
unfolding get_stage_contract is_contract
get_stage_contract-is_contract Stage.planner = refl
get_stage_contract-is_contract _ = refl

requestable :
    (k : StageContract) (c : String)
    → can_request_capability k c ≡ true
    → capability_in c k.requestable_capabilities ≡ true
unfolding can_request_capability
requestable k c h = ground arith

authorizes :
    (stage : Stage) (tool : ToolDefinition) (approved : List String)
    → (capability_in tool.capability approved ≡ true
        → capability_in tool.capability (get_stage_contract stage).requestable_capabilities ≡ true)
    → (authorize_capability stage tool approved ≡ ok tt) ↔ (
        (capability_in tool.capability (get_stage_contract stage).default_capabilities
          || capability_in tool.capability approved)
        ≡ true)
unfolding authorize_capability capability_access
authorizes stage tool approved asked = ((λ h. ground (arith, h)), (λ h. ground (arith, h)))

-- Where the approvals are ones that the contract lets a stage ask for, the guard lets a tool through
-- exactly if its capability is in effect, and then the stage's contract does not forbid it.
pub authorize_capability_iff_effective :
    (stage : Stage) (tool : ToolDefinition) (approved caps : List String)
    → effective_capabilities (get_stage_contract stage) approved ≡ ok caps
    → ((authorize_capability stage tool approved ≡ ok tt)
        ↔ (capability_in tool.capability caps ≡ true))
      × (authorize_capability stage tool approved ≡ ok tt
          → capability_in tool.capability (get_stage_contract stage).forbidden_capabilities ≡ false)
authorize_capability_iff_effective stage tool approved caps effective =
    let k = get_stage_contract stage in
    let c = tool.capability in
    let (checked, is_caps) = effective_lem k approved caps effective in
    let decides =
      authorizes stage tool approved
        (λ m. requestable k c (approved_requestable k c approved checked m)) in
    let same : capability_in c caps
        ≡ (capability_in c k.default_capabilities || capability_in c approved) =
      ap (capability_in c) is_caps ∙ capability_in-append c k.default_capabilities approved in
    (
      ((λ h. same ∙ decides.0 h), (λ h. decides.1 (sym same ∙ h))),
      λ h. elim (Bool-cases (capability_in c k.forbidden_capabilities)) [
        | inr allowed ↦ allowed
        | inl forbidden ↦ cc (
          effective_not_forbidden k approved caps c (get_stage_contract-is_contract stage) effective
              forbidden,
          same ∙ decides.0 h,
        )
      ],
    )

abbrev is_command : ToolOperation → Bool
is_command ToolOperation.command = true
is_command _ = false

abbrev is_forbidden : CapabilityAccess → Bool
is_forbidden CapabilityAccess.forbidden = true
is_forbidden _ = false

abbrev is_deployer : Stage → Bool
is_deployer Stage.deployer = true
is_deployer _ = false

-- The files that the tool may name: without allowed scopes of its own a tool may name any.
abbrev may_name : List StagePathScope → StagePathScope → Bool
may_name [] scope = true
may_name (s ∷ ss) scope = scope_in scope (s ∷ ss)

-- a mutating tool that may name a source, a test, a build file or a generated file
abbrev changes_source : ToolDefinition → Bool
changes_source t =
    t.mutating
    && any (may_name t.allowed_scopes)
        (project_source ∷ project_test ∷ project_build_config ∷ generated ∷ [])

abbrev catalogue_test : Stage → ToolDefinition → Bool
catalogue_test stage t =
    (is_command t.operation && is_deployer stage
      || changes_source t && not (stage_eq stage Stage.builder))
    && not (is_forbidden (capability_access (get_stage_contract stage) t.capability))

catalogue_table : (stage : Stage) → any (catalogue_test stage) tools ≡ false
unfolding tools get_stage_contract capability_access
catalogue_table Stage.planner = refl
catalogue_table _ = refl

refused :
    (stage : Stage) (t : ToolDefinition) (approved : List String)
    → catalogue_test stage t ≡ false
    → (is_command t.operation && is_deployer stage
        || changes_source t && not (stage_eq stage Stage.builder))
      ≡ true
    → authorize_capability stage t approved ≡ err capability_forbidden
unfolding authorize_capability
refused stage t approved table bad = ground arith

-- Whatever was approved, the guard refuses to the deployer every tool of the catalogue that runs a
-- command, and to every stage but the builder every tool of the catalogue that is marked as mutating
-- and whose allowed scopes are empty, so that it may name any file, or hold sources, tests, build
-- files or generated files.
pub catalogue_separates :
    (stage : Stage) (approved : List String)
    → All
        (λ t.
          (is_command t.operation && is_deployer stage
              || changes_source t && not (stage_eq stage Stage.builder))
            ≡ true
          → authorize_capability stage t approved ≡ err capability_forbidden)
        tools
catalogue_separates stage approved = over tools (catalogue_table stage)
  where
    over :
        (ts : List ToolDefinition)
        → any (catalogue_test stage) ts ≡ false
        → All
            (λ t.
              (is_command t.operation && is_deployer stage
                  || changes_source t && not (stage_eq stage Stage.builder))
                ≡ true
              → authorize_capability stage t approved ≡ err capability_forbidden)
            ts
    over [] h = tt
    over (t ∷ ts) h = elim (Bool-cases (catalogue_test stage t)) [
      | inl hit ↦ cc (rw hit at h)
      | inr miss ↦ (refused stage t approved miss, over ts (rw miss at h))
    ]
