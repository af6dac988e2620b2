-- ===== src/Contracts/Tests.antt =====
-- Examples for the contracts' theorems.
use agent_program.Prelude.{◌≡◌, ◌↔◌, refl, false, true, some, [], ◌∷◌, ◌++◌}
use agent_program.Errors.{ok, err, value_error, capability_not_requestable}
use agent_program.Shared.Text.{Text, is_trimmed}
use agent_program.Contracts.Stages.{planner}
use agent_program.Contracts.Paths.{
  codes, split_on, is_bad_path, require_project_relative_path, matches,
}
use agent_program.Contracts.Paths.Reading.{windows, posix, read_path}
use agent_program.Contracts.Paths.Resolving.{accepted_path_resolves}
use agent_program.Contracts.StageContract.{capability_in, effective_capabilities, is_contract}
use agent_program.Contracts.StageContract.Grants.{effective_not_forbidden}
use agent_program.Contracts.Registry.{get_stage_contract}

split-example : split_on b'/' (codes "src/a.py") ≡ codes "src" ∷ codes "a.py" ∷ []
unfolding split_on
split-example = refl

leaving_path : require_project_relative_path (codes "src/../../x") ≡ err value_error
unfolding require_project_relative_path is_bad_path
leaving_path = refl

matches_whole_parts :
    (matches (codes "src/a.py") (codes "src") ≡ true)
    × (matches (codes "srcs/a.py") (codes "src") ≡ false)
unfolding matches
matches_whole_parts = (refl, refl)

abbrev source_file : Text
source_file = codes "src/a.py"

accepted_path_resolves_example : (require_project_relative_path source_file ≡ ok source_file) ↔ (
    (source_file ≡ source_file)
    × (is_trimmed source_file ≡ true)
    × (read_path windows source_file ≡ some (split_on b'/' source_file))
    × (read_path posix source_file ≡ some (split_on b'/' source_file)))
accepted_path_resolves_example = accepted_path_resolves source_file source_file

backslash_path : require_project_relative_path (codes "src\\main.py") ≡ err value_error
unfolding require_project_relative_path is_bad_path
backslash_path = refl

drive_path : require_project_relative_path (codes "C:/outside") ≡ err value_error
unfolding require_project_relative_path is_bad_path
drive_path = refl

-- Windows reads a backslash as a separator, and `..` behind it.
backslash_read : read_path windows (codes "src\\..\\a.py") ≡ some (codes "a.py" ∷ [])
backslash_read = refl

planner_cannot_build :
    effective_capabilities (get_stage_contract planner) ("shell.build" ∷ [])
    ≡ err capability_not_requestable
unfolding effective_capabilities get_stage_contract
planner_cannot_build = refl

effective_not_forbidden_example :
    capability_in "shell.build"
      ((get_stage_contract planner).default_capabilities ++ "shell.run" ∷ [])
    ≡ false
unfolding effective_capabilities get_stage_contract is_contract
effective_not_forbidden_example =
    effective_not_forbidden (get_stage_contract planner) ("shell.run" ∷ [])
      ((get_stage_contract planner).default_capabilities ++ "shell.run" ∷ []) "shell.build" refl
      refl refl
