-- ===== src/Shared/Json.antt =====
-- JSON documents (backend/src/agent_platform/domain/shared/json_values.py). A number is its decimal
-- text: no code of the model computes with it. A cycle, which the code refuses by object identity,
-- cannot be written as a value here.
pub mod Height
mod Tests
use agent_program.Prelude.{ℕ, ◌+◌, Bool, true, false, ◌&&◌, ltb, if◌then◌else◌}
use agent_program.Shared.Text.{Text}

-- `other` is any Python value of another type, a number that is not finite included.
mutual
  pub data Json : Type 0 where
    null other : Json
    bool : Bool → Json
    number : Text → Json
    text : Text → Json
    list : Items → Json
    dict : Fields → Json

  pub data Items : Type 0 where
    nil : Items
    cons : Json → Items → Items

  -- `bad_field` is an entry whose key is no string.
  pub data Fields : Type 0 where
    end : Fields
    field : Text → Json → Fields → Fields
    bad_field : Json → Fields → Fields

abbrev pub max_json_depth : ℕ
max_json_depth = 64

-- `_ensure_json_value`: true where it returns, false where it raises. The depth test stands first.
unfoldable mutual
  pub ensure_json_value : Json → ℕ → Bool
  ensure_json_value null depth = if ltb max_json_depth depth then false else true
  ensure_json_value other depth = false
  ensure_json_value (bool b) depth = if ltb max_json_depth depth then false else true
  ensure_json_value (number n) depth = if ltb max_json_depth depth then false else true
  ensure_json_value (text t) depth = if ltb max_json_depth depth then false else true
  ensure_json_value (list xs) depth =
      if ltb max_json_depth depth then false else ensure_items xs depth
  ensure_json_value (dict fs) depth =
      if ltb max_json_depth depth then false else ensure_fields fs depth

  pub ensure_items : Items → ℕ → Bool
  ensure_items nil depth = true
  ensure_items (cons x xs) depth = ensure_json_value x (depth + 1) && ensure_items xs depth

  pub ensure_fields : Fields → ℕ → Bool
  ensure_fields end depth = true
  ensure_fields (field k x fs) depth = ensure_json_value x (depth + 1) && ensure_fields fs depth
  ensure_fields (bad_field x fs) depth = false

-- `validate_json_payload`
unfoldable pub validate_json_payload : Json → Bool
unfolding ensure_json_value
validate_json_payload (dict fs) = ensure_json_value (dict fs) 0
validate_json_payload _ = false
