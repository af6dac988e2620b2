-- ===== src/Tooling/Catalog.antt =====
-- The tool definitions (backend/src/agent_platform/domain/tooling/models.py) and the catalogue of
-- tools (backend/src/agent_platform/infrastructure/tooling/catalog.py).
use Prim.Native.String.{String}
use text.Mathlib.Text.{◌==◌ as str_eq}
use agent_program.Prelude.{ℕ, Bool, true, false, Option, none, some, List, [], ◌∷◌, if◌then◌else◌}
use agent_program.Errors.{Result, or_raise, tool_not_registered}
use agent_program.Contracts.StageContract.{
  StagePathScope, planner_artifact, designer_artifact, builder_artifact, reviewer_artifact,
  deployer_artifact, project_source, project_test, project_build_config, generated,
  deployment_config, deployment_script, stage_draft,
}

pub data ToolOperation : Type 0 where
  read write delete create_directory command : ToolOperation

pub record ToolDefinition : Type 0 where
  pub name : String
  pub capability : String
  pub operation : ToolOperation
  pub allowed_scopes : List StagePathScope
  pub mutating : Bool
  pub max_timeout_seconds : ℕ

-- `_tool`: the capability has the tool's name.
abbrev pub tool : String → ToolOperation → List StagePathScope → Bool → ℕ → ToolDefinition
tool name operation scopes mutating timeout = record {
  name = name;
  capability = name;
  operation = operation;
  allowed_scopes = scopes;
  mutating = mutating;
  max_timeout_seconds = timeout;
}

unfoldable pub tools : List ToolDefinition
tools =
    tool "filesystem.read_project" ToolOperation.read ([]) false 900
    ∷ tool "filesystem.read_planner_artifact" ToolOperation.read (planner_artifact ∷ []) false 900
    ∷ tool "filesystem.read_all_approved_artifacts" ToolOperation.read
        (planner_artifact ∷ designer_artifact ∷ builder_artifact ∷ reviewer_artifact
          ∷ deployer_artifact ∷ [])
        false 900
    ∷ tool "filesystem.write_planner_artifact" ToolOperation.write (planner_artifact ∷ []) true 900
    ∷ tool "filesystem.write_designer_artifact" ToolOperation.write (designer_artifact ∷ []) true
        900
    ∷ tool "filesystem.write_builder_artifact" ToolOperation.write (builder_artifact ∷ []) true 900
    ∷ tool "filesystem.write_reviewer_artifact" ToolOperation.write (reviewer_artifact ∷ []) true
        900
    ∷ tool "filesystem.write_deployment_document" ToolOperation.write (deployer_artifact ∷ []) true
        900
    ∷ tool "filesystem.write_deployment_config" ToolOperation.write (deployment_config ∷ []) true
        900
    ∷ tool "filesystem.write_deployment_script" ToolOperation.write (deployment_script ∷ []) true
        900
    ∷ tool "filesystem.write_source" ToolOperation.write (project_source ∷ []) true 900
    ∷ tool "filesystem.write_test" ToolOperation.write (project_test ∷ []) true 900
    ∷ tool "filesystem.write_build_config" ToolOperation.write (project_build_config ∷ []) true 900
    ∷ tool "filesystem.create_directory" ToolOperation.create_directory ([]) true 900
    ∷ tool "filesystem.delete_generated_or_builder_owned" ToolOperation.delete
        (generated ∷ builder_artifact ∷ stage_draft ∷ []) true 900
    ∷ tool "shell.run" ToolOperation.command ([]) false 900
    ∷ tool "shell.run_project_command" ToolOperation.command ([]) false 1800
    ∷ tool "shell.build" ToolOperation.command ([]) false 3600
    ∷ tool "shell.test" ToolOperation.command ([]) false 3600
    ∷ tool "shell.lint" ToolOperation.command ([]) false 1800
    ∷ tool "shell.format" ToolOperation.command ([]) true 1800
    ∷ tool "shell.typecheck" ToolOperation.command ([]) false 1800
    ∷ tool "shell.security_scan" ToolOperation.command ([]) false 3600
    ∷ []

abbrev pub find_tool : String → List ToolDefinition → Option ToolDefinition
find_tool name [] = none
find_tool name (t ∷ ts) = if str_eq t.name name then some t else find_tool name ts

-- `ToolCatalog.get`
unfoldable pub get_tool : String → Result ToolDefinition
unfolding tools
get_tool name = or_raise (find_tool name tools) tool_not_registered
