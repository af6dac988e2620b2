-- ===== src/Shared/Json/Height.antt =====
-- What the JSON validator accepts, said without its recursion on the depth.
use agent_program.Prelude.{
  ℕ, ◌+◌, ◌≤◌, ◌≡◌, ap, ◌∙◌, refl, Bool, true, false, ◌&&◌, leb, ltb, arith, Bool-cases, inl, inr,
  if◌then◌else◌,
}
use agent_program.Shared.Json.{
  Json, null, other, bool, number, text, list, dict, Items, nil, cons, Fields, end, field,
  bad_field, ensure_json_value, ensure_items, ensure_fields, validate_json_payload, max_json_depth,
}

abbrev higher : ℕ → ℕ → ℕ
higher a b = if leb a b then b else a

-- The number of containers around the innermost value, the container itself not counted.
unfoldable mutual
  pub height : Json → ℕ
  height (list xs) = items_height xs
  height (dict fs) = fields_height fs
  height _ = 0

  pub items_height : Items → ℕ
  items_height nil = 0
  items_height (cons x xs) = higher (height x + 1) (items_height xs)

  pub fields_height : Fields → ℕ
  fields_height end = 0
  fields_height (field k x fs) = higher (height x + 1) (fields_height fs)
  fields_height (bad_field x fs) = fields_height fs

-- Every value in it is a JSON value, and every key is a string.
unfoldable mutual
  pub is_plain : Json → Bool
  is_plain other = false
  is_plain (list xs) = items_plain xs
  is_plain (dict fs) = fields_plain fs
  is_plain _ = true

  pub items_plain : Items → Bool
  items_plain nil = true
  items_plain (cons x xs) = is_plain x && items_plain xs

  pub fields_plain : Fields → Bool
  fields_plain end = true
  fields_plain (field k x fs) = is_plain x && fields_plain fs
  fields_plain (bad_field x fs) = false

container :
    (b p : Bool) (d h : ℕ)
    → (d ≤ 64 → b ≡ (p && leb (d + h) 64))
    → (if ltb 64 d then false else b) ≡ (p && leb (d + h) 64)
container b p d h e = elim (Bool-cases (leb d 64)) [
  | inl low ↦ rw (e (ground (arith, low))) (ground (arith, low))
  | inr high ↦ ground (arith, high)
]

step :
    (p q : Bool) (d h k : ℕ)
    → ((p && leb (d + 1 + h) 64) && (q && leb (d + k) 64))
      ≡ ((p && q) && leb (d + higher (h + 1) k) 64)
step p q d h k = ground arith

mutual
  unfolding ensure_json_value is_plain height

  ensure_lem : (j : Json) (d : ℕ) → ensure_json_value j d ≡ (is_plain j && leb (d + height j) 64)
  ensure_lem null d = ground arith
  ensure_lem other d = refl
  ensure_lem (bool b) d = ground arith
  ensure_lem (number n) d = ground arith
  ensure_lem (text t) d = ground arith
  ensure_lem (list xs) d =
      container (ensure_items xs d) (items_plain xs) d (items_height xs) (items_lem xs d)
  ensure_lem (dict fs) d =
      container (ensure_fields fs d) (fields_plain fs) d (fields_height fs) (fields_lem fs d)

  items_lem :
      (xs : Items) (d : ℕ)
      → d ≤ 64
      → ensure_items xs d ≡ (items_plain xs && leb (d + items_height xs) 64)
  items_lem nil d low = ground arith
  items_lem (cons x xs) d low =
      rw (ensure_lem x (d + 1), items_lem xs d low)
        (step (is_plain x) (items_plain xs) d (height x) (items_height xs))

  fields_lem :
      (fs : Fields) (d : ℕ)
      → d ≤ 64
      → ensure_fields fs d ≡ (fields_plain fs && leb (d + fields_height fs) 64)
  fields_lem end d low = ground arith
  fields_lem (field k x fs) d low =
      rw (ensure_lem x (d + 1), fields_lem fs d low)
        (step (is_plain x) (fields_plain fs) d (height x) (fields_height fs))
  fields_lem (bad_field x fs) d low = refl

abbrev pub is_dict : Json → Bool
is_dict (dict fs) = true
is_dict _ = false

-- The validator accepts exactly the dictionaries in which every value is a JSON value, every key is a
-- string and no value lies under more than 64 containers.
pub validate_json_payload_lem :
    (j : Json)
    → validate_json_payload j ≡ (is_dict j && (is_plain j && leb (height j) max_json_depth))
unfolding validate_json_payload
validate_json_payload_lem (dict fs) =
    let e : 0 + height (dict fs) ≡ height (dict fs) = omega arith in
    ensure_lem (dict fs) 0 ∙ ap (λ n. is_plain (dict fs) && leb n max_json_depth) e
validate_json_payload_lem _ = refl
