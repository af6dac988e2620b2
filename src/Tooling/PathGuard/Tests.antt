-- ===== src/Tooling/PathGuard/Tests.antt =====
-- Examples for the guard's theorems.
use agent_program.Prelude.{◌≡◌, ◌≤◌, ◌↔◌, refl, false, true, [], ◌∷◌}
use agent_program.Errors.{ok, err, capability_forbidden, path_out_of_scope}
use agent_program.Shared.Text.{Text}
use agent_program.Contracts.Stages.{Stage, stage_index}
use agent_program.Contracts.Paths.{codes, is_bad_path, matches_any, require_project_relative_path}
use agent_program.Contracts.StageContract.{
  planner_artifact, project_source, capability_in, effective_capabilities,
}
use agent_program.Contracts.Registry.{get_stage_contract}
use agent_program.Tooling.Catalog.{ToolDefinition, ToolOperation, tool, tools}
use agent_program.Tooling.PathGuard.{
  ProjectManifest, authorize_capability, authorize_path, classify, classify_project, is_test_path,
  is_conventional_source_path,
}
use agent_program.Tooling.PathGuard.Scopes.{
  changes_own_artifacts, reads_no_later_artifacts, only_builder_changes_source,
}
use agent_program.Tooling.PathGuard.Capabilities.{
  authorize_capability_iff_effective, catalogue_separates,
}

abbrev manifest : ProjectManifest
manifest = record { source_paths = codes "src" ∷ []; excluded_paths = codes "vendor" ∷ [] }

abbrev plain : Text → Text
plain t = t

abbrev write_planner : ToolDefinition
write_planner =
    tool "filesystem.write_planner_artifact" ToolOperation.write (planner_artifact ∷ []) true 900

abbrev read_planner : ToolDefinition
read_planner =
    tool "filesystem.read_planner_artifact" ToolOperation.read (planner_artifact ∷ []) false 900

abbrev write_source : ToolDefinition
write_source = tool "filesystem.write_source" ToolOperation.write (project_source ∷ []) true 900

abbrev plan_file : Text
plan_file = codes "artifacts/planner/plan.md"

abbrev source_file : Text
source_file = codes "src/a.py"

-- The designer may read the plan and not write it.
designer_and_plan :
    (authorize_path plain Stage.designer read_planner plan_file manifest ≡ ok planner_artifact)
    × (authorize_path plain Stage.designer write_planner plan_file manifest ≡ err path_out_of_scope)
unfolding authorize_path require_project_relative_path matches_any get_stage_contract classify
    classify_project is_test_path is_conventional_source_path is_bad_path
designer_and_plan = (refl, refl)

changes_own_artifacts_example : Stage.planner ≡ Stage.planner
unfolding authorize_path require_project_relative_path matches_any get_stage_contract classify
    classify_project is_test_path is_conventional_source_path is_bad_path
changes_own_artifacts_example =
    changes_own_artifacts plain Stage.planner Stage.planner write_planner plan_file manifest
      planner_artifact refl refl refl

reads_no_later_artifacts_example : stage_index Stage.planner ≤ stage_index Stage.designer
unfolding authorize_path require_project_relative_path matches_any get_stage_contract classify
    classify_project is_test_path is_conventional_source_path is_bad_path
reads_no_later_artifacts_example =
    reads_no_later_artifacts plain Stage.designer Stage.planner read_planner plan_file manifest
      planner_artifact refl refl refl

only_builder_changes_source_example : Stage.builder ≡ Stage.builder
unfolding authorize_path require_project_relative_path matches_any get_stage_contract classify
    classify_project is_test_path is_conventional_source_path is_bad_path
only_builder_changes_source_example =
    only_builder_changes_source plain Stage.builder write_source source_file manifest project_source
      refl refl refl

authorize_capability_iff_effective_example :
    ((authorize_capability Stage.planner write_planner [] ≡ ok tt) ↔ (
      capability_in "filesystem.write_planner_artifact"
        (get_stage_contract Stage.planner).default_capabilities
      ≡ true))
    × (authorize_capability Stage.planner write_planner [] ≡ ok tt
        → capability_in "filesystem.write_planner_artifact"
            (get_stage_contract Stage.planner).forbidden_capabilities
          ≡ false)
unfolding get_stage_contract effective_capabilities
authorize_capability_iff_effective_example =
    authorize_capability_iff_effective Stage.planner write_planner []
      (get_stage_contract Stage.planner).default_capabilities refl

abbrev shell_run : ToolDefinition
shell_run = tool "shell.run" ToolOperation.command [] false 900

-- An approval of `shell.run` does not help the deployer.
catalogue_separates_example :
    authorize_capability Stage.deployer shell_run ("shell.run" ∷ []) ≡ err capability_forbidden
unfolding tools
catalogue_separates_example =
    (catalogue_separates Stage.deployer ("shell.run" ∷ [])).1.1.1.1.1.1.1.1.1.1.1.1.1.1.1.0 refl
