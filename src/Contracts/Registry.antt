-- ===== src/Contracts/Registry.antt =====
-- The five stage contracts (backend/src/agent_platform/domain/contracts/stage_registry.py).
use agent_program.Prelude.{[], ◌∷◌}
use agent_program.Contracts.Stages.{
  Stage, planner, designer, builder, reviewer, deployer, ready, locked,
}
use agent_program.Contracts.StageContract.{
  StageContract, project_non_sensitive, planner_artifact, designer_artifact, builder_artifact,
  reviewer_artifact, deployer_artifact, project_source, project_test, project_build_config,
  generated, deployment_config, deployment_script, stage_draft,
}

unfoldable pub planner_contract : StageContract
planner_contract = record {
  stage = planner;
  initial_state = ready;
  default_capabilities =
      "project.inspect_structure" ∷ "project.search" ∷ "filesystem.read_project"
      ∷ "filesystem.read_reference" ∷ "filesystem.write_planner_artifact"
      ∷ "project.inspect_changes" ∷ "checkpoint.inspect_history" ∷ "artifact.create_draft"
      ∷ "artifact.update_planner_draft" ∷ "change_request.create" ∷ [];
  requestable_capabilities =
      "filesystem.read_project" ∷ "filesystem.write_planner_artifact" ∷ "shell.run" ∷ "shell.test"
      ∷ [];
  forbidden_capabilities =
      "filesystem.write_source" ∷ "filesystem.delete" ∷ "filesystem.write_outside_project"
      ∷ "shell.build" ∷ "dependency.install" ∷ "network.request" ∷ "remote.deploy"
      ∷ "credential.read" ∷ "system.modify" ∷ [];
  path_policy = record {
    read_scopes = project_non_sensitive ∷ planner_artifact ∷ stage_draft ∷ [];
    write_scopes = planner_artifact ∷ stage_draft ∷ [];
    delete_scopes = stage_draft ∷ [];
  };
}

unfoldable pub designer_contract : StageContract
designer_contract = record {
  stage = designer;
  initial_state = locked;
  default_capabilities =
      "project.inspect_structure" ∷ "project.search" ∷ "filesystem.read_project"
      ∷ "filesystem.read_planner_artifact" ∷ "filesystem.write_designer_artifact"
      ∷ "project.inspect_changes" ∷ "checkpoint.inspect_history" ∷ "artifact.create_draft"
      ∷ "artifact.update_designer_draft" ∷ "change_request.create" ∷ [];
  requestable_capabilities =
      "filesystem.read_project" ∷ "filesystem.write_designer_artifact" ∷ "shell.run" ∷ "shell.test"
      ∷ "dependency.inspect" ∷ [];
  forbidden_capabilities =
      "filesystem.write_source" ∷ "filesystem.modify_planner_artifact" ∷ "filesystem.delete"
      ∷ "filesystem.write_outside_project" ∷ "shell.build" ∷ "dependency.install"
      ∷ "network.request" ∷ "remote.deploy" ∷ "credential.read" ∷ "system.modify" ∷ [];
  path_policy = record {
    read_scopes = project_non_sensitive ∷ planner_artifact ∷ designer_artifact ∷ stage_draft ∷ [];
    write_scopes = designer_artifact ∷ stage_draft ∷ [];
    delete_scopes = stage_draft ∷ [];
  };
}

unfoldable pub builder_contract : StageContract
builder_contract = record {
  stage = builder;
  initial_state = locked;
  default_capabilities =
      "project.inspect_structure" ∷ "project.search" ∷ "filesystem.read_project"
      ∷ "filesystem.write_source" ∷ "filesystem.write_test" ∷ "filesystem.write_build_config"
      ∷ "filesystem.write_builder_artifact" ∷ "filesystem.create_directory"
      ∷ "filesystem.delete_generated_or_builder_owned" ∷ "shell.run_project_command" ∷ "shell.build"
      ∷ "shell.test" ∷ "shell.lint" ∷ "shell.format" ∷ "dependency.inspect"
      ∷ "project.inspect_changes" ∷ "checkpoint.inspect_history" ∷ "checkpoint.create"
      ∷ "artifact.create_draft" ∷ "artifact.update_builder_draft" ∷ "change_request.create" ∷ [];
  requestable_capabilities =
      "filesystem.write_source" ∷ "filesystem.write_test" ∷ "filesystem.write_build_config"
      ∷ "filesystem.write_builder_artifact" ∷ "shell.run_project_command" ∷ "dependency.install"
      ∷ [];
  forbidden_capabilities =
      "filesystem.modify_planner_artifact" ∷ "filesystem.modify_designer_artifact"
      ∷ "filesystem.modify_reviewer_artifact" ∷ "filesystem.modify_deployer_artifact"
      ∷ "filesystem.write_outside_project" ∷ "remote.deploy" ∷ "system.modify" ∷ "credential.read"
      ∷ [];
  path_policy = record {
    read_scopes =
        project_non_sensitive ∷ planner_artifact ∷ designer_artifact ∷ builder_artifact
        ∷ project_source ∷ project_test ∷ project_build_config ∷ generated ∷ stage_draft ∷ [];
    write_scopes =
        builder_artifact ∷ project_source ∷ project_test ∷ project_build_config ∷ generated
        ∷ stage_draft ∷ [];
    delete_scopes = builder_artifact ∷ project_source ∷ project_test ∷ generated ∷ stage_draft ∷ [];
  };
}

unfoldable pub reviewer_contract : StageContract
reviewer_contract = record {
  stage = reviewer;
  initial_state = locked;
  default_capabilities =
      "project.inspect_structure" ∷ "project.search" ∷ "filesystem.read_project"
      ∷ "filesystem.read_all_approved_artifacts" ∷ "filesystem.write_reviewer_artifact"
      ∷ "project.inspect_changes" ∷ "checkpoint.inspect_history" ∷ "shell.build" ∷ "shell.test"
      ∷ "shell.lint" ∷ "shell.typecheck" ∷ "shell.security_scan" ∷ "log.read_project"
      ∷ "artifact.create_draft" ∷ "artifact.update_reviewer_draft" ∷ "change_request.create" ∷ [];
  requestable_capabilities =
      "filesystem.read_project" ∷ "shell.build" ∷ "shell.test" ∷ "shell.lint" ∷ "shell.typecheck"
      ∷ "shell.security_scan" ∷ "shell.run_project_command" ∷ "log.read_project" ∷ [];
  forbidden_capabilities =
      "filesystem.write_source" ∷ "filesystem.modify_upstream_artifact" ∷ "filesystem.delete"
      ∷ "dependency.install" ∷ "checkpoint.restore" ∷ "remote.deploy" ∷ "credential.read" ∷ [];
  path_policy = record {
    read_scopes =
        project_non_sensitive ∷ planner_artifact ∷ designer_artifact ∷ builder_artifact
        ∷ reviewer_artifact ∷ project_source ∷ project_test ∷ project_build_config ∷ generated
        ∷ stage_draft ∷ [];
    write_scopes = reviewer_artifact ∷ stage_draft ∷ [];
    delete_scopes = stage_draft ∷ [];
  };
}

unfoldable pub deployer_contract : StageContract
deployer_contract = record {
  stage = deployer;
  initial_state = locked;
  default_capabilities =
      "project.inspect_structure" ∷ "project.search" ∷ "filesystem.read_project"
      ∷ "filesystem.read_all_approved_artifacts" ∷ "filesystem.write_deployment_document"
      ∷ "filesystem.write_deployment_config" ∷ "filesystem.write_deployment_script"
      ∷ "project.inspect_changes" ∷ "checkpoint.inspect_history" ∷ "artifact.create_draft"
      ∷ "artifact.update_deployer_draft" ∷ "change_request.create" ∷ [];
  requestable_capabilities =
      "filesystem.read_project" ∷ "filesystem.write_deployment_document"
      ∷ "filesystem.write_deployment_config" ∷ "filesystem.write_deployment_script" ∷ [];
  forbidden_capabilities =
      "shell.run" ∷ "shell.build" ∷ "shell.test" ∷ "docker.build" ∷ "package.build"
      ∷ "dependency.install" ∷ "checkpoint.restore" ∷ "remote.publish" ∷ "network.request"
      ∷ "remote.deploy" ∷ "credential.read" ∷ "filesystem.write_source" ∷ [];
  path_policy = record {
    read_scopes =
        project_non_sensitive ∷ planner_artifact ∷ designer_artifact ∷ builder_artifact
        ∷ reviewer_artifact ∷ deployer_artifact ∷ project_source ∷ project_test
        ∷ project_build_config ∷ generated ∷ deployment_config ∷ deployment_script ∷ stage_draft
        ∷ [];
    write_scopes = deployer_artifact ∷ deployment_config ∷ deployment_script ∷ stage_draft ∷ [];
    delete_scopes = stage_draft ∷ [];
  };
}

unfoldable pub get_stage_contract : Stage → StageContract
unfolding planner_contract designer_contract builder_contract reviewer_contract deployer_contract
get_stage_contract planner = planner_contract
get_stage_contract designer = designer_contract
get_stage_contract builder = builder_contract
get_stage_contract reviewer = reviewer_contract
get_stage_contract deployer = deployer_contract
