-- ===== src/Query/Validate.antt =====
-- `_tool_args_oversized` and `validate_tool_call` of backend/app/risk/query.py.
use quantlineage.Prelude.{
  ℕ, zero, suc, String, Bool, true, false, ltb, Option, none, some, List, [], ◌∷◌, if◌then◌else◌,
}
use quantlineage.Prelude.Dict.{Dict}
use quantlineage.Prelude.Text.{is_empty, text_length}
use quantlineage.Wire.{Json, text, list, obj, Items, nil, cons, Fields, end, field}
use quantlineage.Workload.Walk.{size}
use quantlineage.Query.Tools.{RiskToolName, parse_tool}
use quantlineage.Query.Texts.{fake_tool_refusal_answer}
use quantlineage.Query.Args.{Arg, tool_arg_max_chars, validated_args}

-- The stack with its top first: `extend` leaves the last value on top.
unfoldable pub push_items : Items → List Json → List Json
push_items nil stack = stack
push_items (cons x xs) stack = push_items xs (x ∷ stack)

unfoldable pub push_values : Fields → List Json → List Json
push_values end stack = stack
push_values (field _ v fs) stack = push_values fs (v ∷ stack)

abbrev pub oversized_text : Json → Bool
oversized_text (text s) = ltb tool_arg_max_chars (text_length s)
oversized_text _ = false

abbrev pub extended : Json → List Json → List Json
extended (obj fs) stack = push_values fs stack
extended (list xs) stack = push_items xs stack
extended _ stack = stack

-- `while stack`, with fuel.
unfoldable pub scan : ℕ → List Json → Option Bool
scan fuel [] = some false
scan zero (current ∷ stack) = none
scan (suc fuel) (current ∷ stack) =
    let rest = scan fuel (extended current stack) in
    if oversized_text current then some true else rest

unfoldable pub tool_args_oversized : Fields → Option Bool
tool_args_oversized end = some false
tool_args_oversized (field k v fs) = scan (size (obj (field k v fs))) (obj (field k v fs) ∷ [])

pub record ToolCallValidation : Type 0 where
  pub allowed : Bool
  pub tool_name : Option RiskToolName
  pub args : Dict Arg
  pub refusal : Option String

abbrev pub refused_call : String → ToolCallValidation
refused_call refusal = record {
  allowed = false;
  tool_name = none;
  args = [];
  refusal = some refusal;
}

abbrev pub schema_refusal : String
schema_refusal = "Tool arguments failed JSON-schema validation."

-- The last argument is `_tool_args_oversized(args)`.
unfoldable pub validate_args :
    (Json → Option ℕ) → RiskToolName → Fields → Option Bool → ToolCallValidation
validate_args date name args (some false) = elim (validated_args date name args) [
  | none ↦ refused_call schema_refusal
  | some parsed ↦ record { allowed = true; tool_name = some name; args = parsed; refusal = none }
]
validate_args date name args _ = refused_call schema_refusal

unfoldable pub validate_tool_call : (Json → Option ℕ) → Option String → Fields → ToolCallValidation
validate_tool_call date none args = refused_call "No allowlisted QuantLineage tool was selected."
validate_tool_call date (some raw) args =
    if is_empty raw
    then refused_call "No allowlisted QuantLineage tool was selected."
    else elim (parse_tool raw) [
      | none ↦ refused_call fake_tool_refusal_answer
      | some name ↦ validate_args date name args (tool_args_oversized args)
    ]
