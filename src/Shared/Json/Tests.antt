-- ===== src/Shared/Json/Tests.antt =====
-- Examples for the JSON validator.
use agent_program.Prelude.{◌≡◌, refl, false, ◌&&◌, leb, []}
use agent_program.Shared.Json.{
  Json, null, other, list, dict, nil, cons, end, field, max_json_depth, validate_json_payload,
}
use agent_program.Shared.Json.Height.{height, is_plain, is_dict, validate_json_payload_lem}

abbrev document : Json
document = dict (field [] (list (cons null nil)) end)

validate_json_payload_lem_example :
    validate_json_payload document
    ≡ (is_dict document && (is_plain document && leb (height document) max_json_depth))
validate_json_payload_lem_example = validate_json_payload_lem document

two_containers : height document ≡ 2
unfolding height
two_containers = refl

refused_value : validate_json_payload (dict (field [] other end)) ≡ false
unfolding validate_json_payload
refused_value = refl
