-- ===== src/Tooling/PathGuard.antt =====
-- `PathGuard` (backend/src/agent_platform/infrastructure/tooling/path_guard.py). `casefold` is
-- Python's `str.casefold`, of which nothing is assumed.
pub mod Scopes
pub mod Capabilities
mod Tests
use agent_program.Prelude.{
  ℕ, Bool, true, false, ◌&&◌, ◌||◌, not, Option, none, some, List, [], ◌∷◌, ◌++◌, any,
  if◌then◌else◌,
}
use Prim.Native.String.{String}
use agent_program.Errors.{
  Result, ok, err, capability_forbidden, approval_required, path_excluded, metadata_protected,
  path_out_of_scope, path_wrong_kind, ◌>>=◌, ◌>>◌, raise_if,
}
use agent_program.Shared.Text.{Text, text_eq}
use agent_program.Contracts.Stages.{Stage}
use agent_program.Contracts.Paths.{
  codes, starts_with, ends_with, split_on, last_part, has_char, one_of, matches, matches_any,
  require_project_relative_path,
}
use agent_program.Contracts.StageContract.{
  CapabilityAccess, StagePathScope, project_non_sensitive, planner_artifact, designer_artifact,
  builder_artifact, reviewer_artifact, deployer_artifact, project_source, project_test,
  project_build_config, generated, deployment_config, deployment_script, stage_draft, StageContract,
  capability_access, capability_in, scope_in,
}
use agent_program.Contracts.Registry.{get_stage_contract}
use agent_program.Tooling.Catalog.{
  ToolOperation, ToolDefinition, read, write, delete, create_directory, command,
}

-- the two fields of `ProjectManifest` that the guard reads
pub record ProjectManifest : Type 0 where
  pub source_paths : List Text
  pub excluded_paths : List Text

abbrev access_error : CapabilityAccess → Bool → Result (Unit {0})
access_error CapabilityAccess.forbidden approved = err capability_forbidden
access_error CapabilityAccess.requires_approval approved = raise_if (not approved) approval_required
access_error CapabilityAccess.default approved = ok tt

unfoldable pub authorize_capability : Stage → ToolDefinition → List String → Result (Unit {0})
authorize_capability stage tool approved =
    access_error (capability_access (get_stage_contract stage) tool.capability)
      (capability_in tool.capability approved)

abbrev pub build_files : List Text
build_files =
    codes "pyproject.toml"
    ∷ codes "uv.lock"
    ∷ codes "requirements.txt"
    ∷ codes "package.json"
    ∷ codes "package-lock.json"
    ∷ codes "pnpm-lock.yaml"
    ∷ codes "yarn.lock"
    ∷ codes "tsconfig.json"
    ∷ codes "vite.config.ts"
    ∷ codes "vite.config.js"
    ∷ codes "Cargo.toml"
    ∷ codes "Cargo.lock"
    ∷ codes "go.mod"
    ∷ codes "go.sum"
    ∷ codes "Dockerfile"
    ∷ []

abbrev pub source_extensions : List Text
source_extensions =
    codes ".c"
    ∷ codes ".cc"
    ∷ codes ".cpp"
    ∷ codes ".cs"
    ∷ codes ".css"
    ∷ codes ".go"
    ∷ codes ".h"
    ∷ codes ".html"
    ∷ codes ".java"
    ∷ codes ".js"
    ∷ codes ".jsx"
    ∷ codes ".kt"
    ∷ codes ".php"
    ∷ codes ".py"
    ∷ codes ".rb"
    ∷ codes ".rs"
    ∷ codes ".scss"
    ∷ codes ".swift"
    ∷ codes ".ts"
    ∷ codes ".tsx"
    ∷ codes ".vue"
    ∷ []

abbrev all_but_last : List Text → List Text
all_but_last [] = []
all_but_last (p ∷ []) = []
all_but_last (p ∷ q ∷ ps) = p ∷ all_but_last (q ∷ ps)

abbrev test_folders : List Text
test_folders = codes "test" ∷ codes "tests" ∷ codes "spec" ∷ codes "specs" ∷ codes "__tests__" ∷ []

abbrev test_endings : List Text
test_endings =
    codes "_test.py"
    ∷ codes ".test.ts"
    ∷ codes ".test.tsx"
    ∷ codes ".spec.ts"
    ∷ codes ".spec.tsx"
    ∷ []

-- `_is_test_path`
unfoldable pub is_test_path : Text → Bool
unfolding split_on last_part
is_test_path path =
    any (one_of test_folders) (all_but_last (split_on b'/' path))
    || starts_with (codes "test_") (last_part b'/' path)
    || any (λ e. ends_with e (last_part b'/' path)) test_endings

-- `_is_conventional_source_path`
abbrev suffix_of : Text → Text
suffix_of name = if has_char b'.' name then codes "." ++ last_part b'.' name else []

unfoldable pub is_conventional_source_path : (Text → Text) → Text → Bool
unfolding last_part
is_conventional_source_path casefold path =
    one_of source_extensions (casefold (suffix_of (last_part b'/' path)))

abbrev pub stage_value : Stage → Text
stage_value Stage.planner = codes "planner"
stage_value Stage.designer = codes "designer"
stage_value Stage.builder = codes "builder"
stage_value Stage.reviewer = codes "reviewer"
stage_value Stage.deployer = codes "deployer"

abbrev pub artifact_folder : Stage → Text
artifact_folder s = codes "artifacts/" ++ stage_value s

-- `_classify` behind the artifact folders and the drafts
unfoldable pub classify_project : (Text → Text) → Text → ProjectManifest → StagePathScope
classify_project casefold path manifest =
    if matches_any path manifest.source_paths || is_conventional_source_path casefold path
    then (if is_test_path path then project_test else project_source)
    else if is_test_path path
    then project_test
    else if one_of build_files (last_part b'/' path)
    then project_build_config
    else if matches_any path
        (codes "build" ∷ codes "dist" ∷ codes "coverage" ∷ codes ".coverage" ∷ codes ".cache" ∷ [])
    then generated
    else if matches_any path
        (codes "deploy/config" ∷ codes "deployment/config" ∷ codes "config/deploy" ∷ [])
    then deployment_config
    else if matches_any path
        (codes "deploy/scripts" ∷ codes "deployment/scripts" ∷ codes "scripts/deploy" ∷ [])
    then deployment_script
    else project_non_sensitive

-- `_classify`
unfoldable pub classify : (Text → Text) → Text → Stage → ProjectManifest → StagePathScope
classify casefold path stage manifest =
    if matches path (artifact_folder Stage.planner)
    then planner_artifact
    else if matches path (artifact_folder Stage.designer)
    then designer_artifact
    else if matches path (artifact_folder Stage.builder)
    then builder_artifact
    else if matches path (artifact_folder Stage.reviewer)
    then reviewer_artifact
    else if matches path (artifact_folder Stage.deployer)
    then deployer_artifact
    else if matches path (codes "drafts/" ++ stage_value stage)
    then stage_draft
    else classify_project casefold path manifest

-- the dict on `tool.operation`
abbrev pub scopes_for : StageContract → ToolOperation → Option (List StagePathScope)
scopes_for contract read = some contract.path_policy.read_scopes
scopes_for contract write = some contract.path_policy.write_scopes
scopes_for contract create_directory = some contract.path_policy.write_scopes
scopes_for contract delete = some contract.path_policy.delete_scopes
scopes_for contract command = none

abbrev pub out_of_scope : Option (List StagePathScope) → StagePathScope → Bool
out_of_scope none scope = true
out_of_scope (some scopes) scope = not (scope_in scope scopes)

-- `tool.allowed_scopes and scope not in tool.allowed_scopes`
abbrev pub wrong_kind : List StagePathScope → StagePathScope → Bool
wrong_kind [] scope = false
wrong_kind (s ∷ ss) scope = not (scope_in scope (s ∷ ss))

-- the folder `.agent` of the project's metadata
abbrev pub is_metadata : Text → Bool
is_metadata path = text_eq path (codes ".agent") || starts_with (codes ".agent/") path

unfoldable pub authorize_path :
    (Text → Text) → Stage → ToolDefinition → Text → ProjectManifest → Result StagePathScope
authorize_path casefold stage tool relative_path manifest = do
  path ← require_project_relative_path relative_path
  raise_if (matches_any path manifest.excluded_paths) path_excluded
  raise_if (is_metadata path) metadata_protected
  let scope = classify casefold path stage manifest
  raise_if (out_of_scope (scopes_for (get_stage_contract stage) tool.operation) scope)
      path_out_of_scope
  raise_if (wrong_kind tool.allowed_scopes scope) path_wrong_kind
  ok scope
