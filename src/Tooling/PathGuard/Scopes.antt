-- ===== src/Tooling/PathGuard/Scopes.antt =====
-- Which files a stage may read and change.
use agent_program.Prelude.{
  ◌≤◌, ◌≡◌, refl, sym, ◌∙◌, Bool, true, false, ◌||◌, [], ◌∷◌, ◌++◌, arith, Bool-cases, inl, inr,
}
use agent_program.Errors.{
  Error, ok, raise_if, path_excluded, metadata_protected, path_out_of_scope, path_wrong_kind,
  >>=-eq-ok, >>-eq-ok,
}
use agent_program.Shared.Text.{Text, text_eq}
use agent_program.Contracts.Stages.{Stage, stage_eq, stage_index, stage_eq_sound}
use agent_program.Contracts.Paths.{
  codes, starts_with, matches, matches_any, is_bad_path, require_project_relative_path,
}
use agent_program.Contracts.StageContract.{
  StagePathScope, planner_artifact, designer_artifact, builder_artifact, reviewer_artifact,
  deployer_artifact, project_source, project_test, project_build_config, generated, scope_in,
}
use agent_program.Contracts.Registry.{get_stage_contract}
use agent_program.Tooling.Catalog.{ToolDefinition, ToolOperation}
use agent_program.Tooling.PathGuard.{
  ProjectManifest, authorize_path, classify, artifact_folder, scopes_for, out_of_scope, is_metadata,
  wrong_kind,
}

raise_if_passed : (b : Bool) (e : Error) → raise_if b e ≡ ok tt → b ≡ false
raise_if_passed true e h = cc
raise_if_passed false e h = refl

accepted_is_good :
    (path accepted : Text)
    → require_project_relative_path path ≡ ok accepted
    → (is_bad_path path ≡ false) × (path ≡ accepted)
unfolding require_project_relative_path
accepted_is_good path accepted h = elim (Bool-cases (is_bad_path path)) [
  | inl bad ↦ cc (rw bad at h)
  | inr good ↦ (good, cc (rw good at h))
]

-- What an authorised path has passed.
pub authorize_path_passed :
    (casefold : Text → Text) (stage : Stage) (tool : ToolDefinition) (path : Text)
    (manifest : ProjectManifest) (scope : StagePathScope)
    → authorize_path casefold stage tool path manifest ≡ ok scope
    → (is_bad_path path ≡ false)
      × (matches_any path manifest.excluded_paths ≡ false)
      × (is_metadata path ≡ false)
      × (scope ≡ classify casefold path stage manifest)
      × (out_of_scope (scopes_for (get_stage_contract stage) tool.operation) scope ≡ false)
unfolding authorize_path
authorize_path_passed casefold stage tool path manifest scope h =
    let (accepted, e1, h1) = >>=-eq-ok (require_project_relative_path path) _ h in
    let (good, same) = accepted_is_good path accepted e1 in
    let (e2, h2) =
      >>-eq-ok (raise_if (matches_any accepted manifest.excluded_paths) path_excluded) _ h1 in
    let (e3, h3) = >>-eq-ok (raise_if (is_metadata accepted) metadata_protected) _ h2 in
    let (e4, h4) =
      >>-eq-ok
        (raise_if
          (out_of_scope (scopes_for (get_stage_contract stage) tool.operation)
            (classify casefold accepted stage manifest))
          path_out_of_scope)
        _ h3 in
    let (e5, h5) =
      >>-eq-ok
        (raise_if (wrong_kind tool.allowed_scopes (classify casefold accepted stage manifest))
          path_wrong_kind)
        _ h4 in
    let is_scope : classify casefold accepted stage manifest ≡ scope = cc (h5) in
    (
      good,
      rw same (raise_if_passed (matches_any accepted manifest.excluded_paths) path_excluded e2),
      rw same (raise_if_passed (is_metadata accepted) metadata_protected e3),
      rw same (sym is_scope),
      rw is_scope at (
          raise_if_passed
            (out_of_scope (scopes_for (get_stage_contract stage) tool.operation)
              (classify casefold accepted stage manifest))
            path_out_of_scope e4),
    )

text_eq_sound : (s t : Text) → text_eq s t ≡ true → s ≡ t
text_eq_sound [] [] h = refl
text_eq_sound [] (d ∷ ds) h = cc
text_eq_sound (c ∷ cs) [] h = cc
text_eq_sound (c ∷ cs) (d ∷ ds) h = ground (arith, text_eq_sound cs ds)

starts_with_refl : (t : Text) → starts_with t t ≡ true
starts_with_refl [] = refl
starts_with_refl (c ∷ cs) = ground (arith, starts_with_refl cs)

starts_with-append : (p q t : Text) → starts_with (p ++ q) t ≡ true → starts_with p t ≡ true
starts_with-append [] q t h = refl
starts_with-append (c ∷ cs) q [] h = cc
starts_with-append (c ∷ cs) q (d ∷ ds) h = ground (arith, starts_with-append cs q ds)

matches-starts_with :
    (path prefix : Text) → matches path prefix ≡ true → starts_with prefix path ≡ true
unfolding matches
matches-starts_with path prefix h = elim (Bool-cases (text_eq path prefix)) [
  | inl same ↦ rw (text_eq_sound path prefix same) (starts_with_refl prefix)
  | inr other ↦ starts_with-append prefix (codes "/") path (rw other at h)
]

-- Of two beginnings of one text one begins the other.
comparable :
    (p q t : Text)
    → starts_with p t ≡ true
    → starts_with q t ≡ true
    → (starts_with p q || starts_with q p) ≡ true
comparable [] q t hp hq = refl
comparable (c ∷ cs) [] t hp hq = refl
comparable (c ∷ cs) (d ∷ ds) [] hp hq = cc
comparable (c ∷ cs) (d ∷ ds) (e ∷ es) hp hq = ground (arith, comparable cs ds es)

folders_apart :
    (s t : Stage)
    → (starts_with (artifact_folder s) (artifact_folder t)
        || starts_with (artifact_folder t) (artifact_folder s))
      ≡ stage_eq s t
folders_apart Stage.planner Stage.planner = refl
folders_apart Stage.planner Stage.designer = refl
folders_apart Stage.planner Stage.builder = refl
folders_apart Stage.planner Stage.reviewer = refl
folders_apart Stage.planner Stage.deployer = refl
folders_apart Stage.designer Stage.planner = refl
folders_apart Stage.designer Stage.designer = refl
folders_apart Stage.designer Stage.builder = refl
folders_apart Stage.designer Stage.reviewer = refl
folders_apart Stage.designer Stage.deployer = refl
folders_apart Stage.builder Stage.planner = refl
folders_apart Stage.builder Stage.designer = refl
folders_apart Stage.builder Stage.builder = refl
folders_apart Stage.builder Stage.reviewer = refl
folders_apart Stage.builder Stage.deployer = refl
folders_apart Stage.reviewer Stage.planner = refl
folders_apart Stage.reviewer Stage.designer = refl
folders_apart Stage.reviewer Stage.builder = refl
folders_apart Stage.reviewer Stage.reviewer = refl
folders_apart Stage.reviewer Stage.deployer = refl
folders_apart Stage.deployer Stage.planner = refl
folders_apart Stage.deployer Stage.designer = refl
folders_apart Stage.deployer Stage.builder = refl
folders_apart Stage.deployer Stage.reviewer = refl
folders_apart Stage.deployer Stage.deployer = refl

-- No path lies in the artifact folders of two stages.
one_folder :
    (s t : Stage) (path : Text)
    → matches path (artifact_folder t) ≡ true
    → stage_eq s t ≡ false
    → matches path (artifact_folder s) ≡ false
one_folder s t path own other = elim (Bool-cases (matches path (artifact_folder s))) [
  | inr outside ↦ outside
  | inl inside ↦ cc (
    comparable (artifact_folder s) (artifact_folder t) path
        (matches-starts_with path (artifact_folder s) inside)
        (matches-starts_with path (artifact_folder t) own),
    folders_apart s t,
    other,
  )
]

abbrev pub artifact_scope : Stage → StagePathScope
artifact_scope Stage.planner = planner_artifact
artifact_scope Stage.designer = designer_artifact
artifact_scope Stage.builder = builder_artifact
artifact_scope Stage.reviewer = reviewer_artifact
artifact_scope Stage.deployer = deployer_artifact

classify_artifact :
    (casefold : Text → Text) (path : Text) (stage : Stage) (manifest : ProjectManifest) (t : Stage)
    → matches path (artifact_folder t) ≡ true
    → classify casefold path stage manifest ≡ artifact_scope t
unfolding classify
classify_artifact casefold path stage manifest Stage.planner h = rw h
classify_artifact casefold path stage manifest Stage.designer h =
    rw (one_folder Stage.planner Stage.designer path h refl, h)
classify_artifact casefold path stage manifest Stage.builder h = rw (
  one_folder Stage.planner Stage.builder path h refl,
  one_folder Stage.designer Stage.builder path h refl,
  h,
)
classify_artifact casefold path stage manifest Stage.reviewer h = rw (
  one_folder Stage.planner Stage.reviewer path h refl,
  one_folder Stage.designer Stage.reviewer path h refl,
  one_folder Stage.builder Stage.reviewer path h refl,
  h,
)
classify_artifact casefold path stage manifest Stage.deployer h = rw (
  one_folder Stage.planner Stage.deployer path h refl,
  one_folder Stage.designer Stage.deployer path h refl,
  one_folder Stage.builder Stage.deployer path h refl,
  one_folder Stage.reviewer Stage.deployer path h refl,
  h,
)

abbrev pub changes_files : ToolOperation → Bool
changes_files ToolOperation.write = true
changes_files ToolOperation.create_directory = true
changes_files ToolOperation.delete = true
changes_files _ = false

write_table :
    (s t : Stage) (op : ToolOperation)
    → changes_files op ≡ true
    → out_of_scope (scopes_for (get_stage_contract s) op) (artifact_scope t) ≡ false
    → stage_eq s t ≡ true
unfolding get_stage_contract
write_table Stage.planner Stage.planner ToolOperation.write change h = refl
write_table _ _ _ change h = ground arith

read_table :
    (s t : Stage)
    → out_of_scope (scopes_for (get_stage_contract s) ToolOperation.read) (artifact_scope t) ≡ false
    → stage_index t ≤ stage_index s
unfolding get_stage_contract
read_table Stage.planner Stage.planner h = omega arith
read_table _ _ h = ground arith

-- A stage that is authorised to write, create or delete a path in the artifact folder of a stage is
-- that stage.
pub changes_own_artifacts :
    (casefold : Text → Text) (stage owner : Stage) (tool : ToolDefinition) (path : Text)
    (manifest : ProjectManifest) (scope : StagePathScope)
    → authorize_path casefold stage tool path manifest ≡ ok scope
    → matches path (artifact_folder owner) ≡ true
    → changes_files tool.operation ≡ true
    → stage ≡ owner
changes_own_artifacts casefold stage owner tool path manifest scope h inside change =
    let (_, _, _, is_scope, allowed) =
      authorize_path_passed casefold stage tool path manifest scope h in
    let e = is_scope ∙ classify_artifact casefold path stage manifest owner inside in
    stage_eq_sound stage owner (write_table stage owner tool.operation change (rw e at allowed))

-- A stage that is authorised to read a path in the artifact folder of a stage does not come before
-- that stage in the pipeline.
pub reads_no_later_artifacts :
    (casefold : Text → Text) (stage owner : Stage) (tool : ToolDefinition) (path : Text)
    (manifest : ProjectManifest) (scope : StagePathScope)
    → authorize_path casefold stage tool path manifest ≡ ok scope
    → matches path (artifact_folder owner) ≡ true
    → tool.operation ≡ ToolOperation.read
    → stage_index owner ≤ stage_index stage
reads_no_later_artifacts casefold stage owner tool path manifest scope h inside reading =
    let (_, _, _, is_scope, allowed) =
      authorize_path_passed casefold stage tool path manifest scope h in
    let e = is_scope ∙ classify_artifact casefold path stage manifest owner inside in
    read_table stage owner (rw (e, reading) at allowed)

source_table :
    (s : Stage) (op : ToolOperation) (scope : StagePathScope)
    → changes_files op ≡ true
    → scope_in scope (project_source ∷ project_test ∷ project_build_config ∷ generated ∷ []) ≡ true
    → out_of_scope (scopes_for (get_stage_contract s) op) scope ≡ false
    → stage_eq s Stage.builder ≡ true
unfolding get_stage_contract
source_table Stage.planner ToolOperation.write planner_artifact change hit h = cc
source_table _ _ _ change hit h = ground arith

-- A path that is authorised passes the test of a canonical path, is not excluded by the project's
-- manifest and is neither the metadata folder nor in it.
pub authorized_path_is_open :
    (casefold : Text → Text) (stage : Stage) (tool : ToolDefinition) (path : Text)
    (manifest : ProjectManifest) (scope : StagePathScope)
    → authorize_path casefold stage tool path manifest ≡ ok scope
    → (is_bad_path path ≡ false)
      × (matches_any path manifest.excluded_paths ≡ false)
      × (text_eq path (codes ".agent") ≡ false)
      × (starts_with (codes ".agent/") path ≡ false)
authorized_path_is_open casefold stage tool path manifest scope h =
    let (good, kept, open_path, _, _) =
      authorize_path_passed casefold stage tool path manifest scope h in
    (good, kept, ground (arith, open_path), ground (arith, open_path))

-- Where a write, a creation or a deletion of a path is authorised and the path counts as a source, a
-- test, a build file or a generated file, the stage is the builder.
pub only_builder_changes_source :
    (casefold : Text → Text) (stage : Stage) (tool : ToolDefinition) (path : Text)
    (manifest : ProjectManifest) (scope : StagePathScope)
    → authorize_path casefold stage tool path manifest ≡ ok scope
    → changes_files tool.operation ≡ true
    → scope_in scope (project_source ∷ project_test ∷ project_build_config ∷ generated ∷ []) ≡ true
    → stage ≡ Stage.builder
only_builder_changes_source casefold stage tool path manifest scope h change hit =
    let (_, _, _, _, allowed) = authorize_path_passed casefold stage tool path manifest scope h in
    stage_eq_sound stage Stage.builder (source_table stage tool.operation scope change hit allowed)
