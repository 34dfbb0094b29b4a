-- ===== src/Wire/Payload.antt =====
-- `parse_result_payload` and `_reject_unknown_keys` of backend/app/persistence/result_payloads.py.
-- Pydantic's `model_validate` followed by `model_dump` is the parameter `validated`.
use quantlineage.Prelude.{
  String, Bool, true, false, ◌&&◌, ◌||◌, ◌==◌, Option, none, some, List, [], ◌∷◌, if◌then◌else◌,
}
use quantlineage.Prelude.Call.{Result, ok, err, value_error}
use quantlineage.Prelude.Text.{strip}
use quantlineage.Wire.{
  Json, null, bool, int, float, text, list, obj, Items, nil, cons, Fields, end, field, find,
}

-- The walk goes by the raw payload: every key must be in the dump, at every depth. What the dump
-- holds as another kind of value is not looked into.
unfoldable mutual
  pub known : Json → Json → Bool
  known null d = true
  known (bool b) d = true
  known (int n) d = true
  known (float x) d = true
  known (text s) d = true
  known (list xs) d = elim d [ list ys ↦ known_items xs ys | _ ↦ true ]
  known (obj fs) d = elim d [ obj ds ↦ known_fields fs ds | _ ↦ true ]

  pub known_items : Items → Items → Bool
  known_items nil ys = true
  known_items (cons x xs) ys = elim ys [ nil ↦ true | cons y r ↦ known x y && known_items xs r ]

  pub known_fields : Fields → Fields → Bool
  known_fields end ds = true
  known_fields (field k v fs) ds = elim (find k ds) [
    | none ↦ false
    | some d ↦ known v d && known_fields fs ds
  ]

-- The keys of `RISK_RESULT_PAYLOAD_SCHEMAS`.
abbrev pub result_types : List String
result_types =
    "summary" ∷ "var" ∷ "stress" ∷ "factors" ∷ "limits" ∷ "hierarchy" ∷ "contributors" ∷ "dashboard"
    ∷ "stress_evaluate" ∷ "reverse_stress" ∷ "reverse_stress_multi" ∷ "stress_compare" ∷ "query"
    ∷ "attribution" ∷ "attribution_demo" ∷ "change_attribution" ∷ "es" ∷ "var_compare" ∷ []

abbrev pub member : String → List String → Bool
member k [] = false
member k (x ∷ xs) = x == k || member k xs

abbrev pub Validator : Type 0
Validator = String → Json → Option Json

-- The stored payload is the caller's, not the dump.
unfoldable pub parse_result_payload : Validator → String → Json → Result Fields
parse_result_payload validated result_type (obj raw) =
    let key = strip result_type in
    if member key result_types
    then elim (validated key (obj raw)) [
      | none ↦ err value_error
      | some dumped ↦ if known (obj raw) dumped then ok raw else err value_error
    ]
    else err value_error
parse_result_payload validated result_type _ = err value_error
