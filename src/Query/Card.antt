-- ===== src/Query/Card.antt =====
-- The card of an answer (backend/app/risk/query.py): values copied from the tool's payload under the
-- keys that a reader needs, and a mark where the payload has none.
use quantlineage.Prelude.{
  String, Bool, true, false, Option, none, some, List, [], ◌∷◌, if◌then◌else◌,
}
use quantlineage.Prelude.Dict.{Dict, get, put, contains}
use quantlineage.Prelude.Call.{Result, ok, err, bind_result, type_error}
use quantlineage.Wire.{
  Json, null, bool, int, float, text, list, obj, Items, nil, cons, Fields, find,
}
use quantlineage.Query.Service.{falsy}
use quantlineage.Query.Tools.{
  RiskToolName, explain_risk_change, search_instruments, get_market_history, get_data_quality,
  compare_risk_runs,
}
use quantlineage.Query.Texts.{missing_on_payload, card_identity_keys, risk_change_card_keys}

-- `payload.get(key)`, with `none` for a `None` too.
abbrev pub present : Option Json → Option Json
present (some null) = none
present o = o

abbrev pub payload_of_item : Json → Option Fields
payload_of_item (obj item) = elim (find "payload" item) [ some (obj fs) ↦ some fs | _ ↦ none ]
payload_of_item _ = none

abbrev pub nested_rows : Items → List Fields
nested_rows nil = []
nested_rows (cons x xs) = elim (payload_of_item x) [
  | none ↦ nested_rows xs
  | some fs ↦ fs ∷ nested_rows xs
]

-- A text or a dict is iterated too: its characters or keys are no dicts.
unfoldable pub nested_result_payloads : Fields → Result (List Fields)
nested_result_payloads payload = elim (find "results" payload) [
  | some (list rows) ↦ ok (nested_rows rows)
  | some (text _) ↦ ok []
  | some (obj _) ↦ ok []
  | some (bool b) ↦ if falsy (bool b) then ok [] else err type_error
  | some (int n) ↦ if falsy (int n) then ok [] else err type_error
  | some (float x) ↦ if falsy (float x) then ok [] else err type_error
  | _ ↦ ok []
]

unfoldable pub first_present : String → List Fields → Option Json
first_present key [] = none
first_present key (nested ∷ rest) = elim (present (find key nested)) [
  | some v ↦ some v
  | none ↦ first_present key rest
]

abbrev pub request_field : Fields → String → Option Json
request_field payload key = elim (find "request" payload) [
  | some (obj request) ↦ present (find key request)
  | _ ↦ none
]

unfoldable pub payload_field : Fields → String → Result (Option Json)
payload_field payload key = elim (present (find key payload)) [
  | some v ↦ ok (some v)
  | none ↦ bind_result (nested_result_payloads payload) (λ rows. elim (first_present key rows) [
    | some v ↦ ok (some v)
    | none ↦ ok (request_field payload key)
  ])
]

abbrev pub first_field : Fields → List String → Result (Option Json)
first_field payload [] = ok none
first_field payload (key ∷ keys) =
    bind_result (payload_field payload key)
      (λ value. elim value [ some v ↦ ok (some v) | none ↦ first_field payload keys ])

unfoldable pub payload_run_id : Fields → Result (Option Json)
payload_run_id payload = first_field payload ("risk_run_id" ∷ "id" ∷ "run_id" ∷ [])

abbrev pub Card : Type 0
Card = Dict Json

abbrev pub with_value : String → Option Json → Card → Card
with_value key none card = card
with_value key (some v) card = put key v card

-- The loop of `_copy_present`, with the card so far.
unfoldable pub copy_present : Fields → List String → Card → Result Card
copy_present payload [] card = ok card
copy_present payload (key ∷ keys) card =
    bind_result (payload_field payload key)
      (λ value. copy_present payload keys (with_value key value card))

-- `card.setdefault(key, value)`
unfoldable pub set_default : String → Json → Card → Card
set_default key v card = if contains key card then card else put key v card

unfoldable pub fill_missing_identity : Card → List String → Card
fill_missing_identity card [] = card
fill_missing_identity card (key ∷ keys) =
    fill_missing_identity (set_default key (text missing_on_payload) card) keys

unfoldable pub is_numeric_tool : RiskToolName → Bool
is_numeric_tool search_instruments = false
is_numeric_tool get_market_history = false
is_numeric_tool get_data_quality = false
is_numeric_tool _ = true

abbrev pub change_identity_keys : List String
change_identity_keys =
    "residual" ∷ "unit" ∷ "sign_convention" ∷ "risk_run_id" ∷ "as_of" ∷ "methodology"
    ∷ "market_snapshot_id" ∷ "historical_dataset_id" ∷ []

abbrev pub numeric_identity_keys : List String
numeric_identity_keys =
    "metric" ∷ "value" ∷ "unit" ∷ "sign_convention" ∷ "risk_run_id" ∷ "as_of" ∷ "methodology"
    ∷ "market_snapshot_id" ∷ "historical_dataset_id" ∷ "historical_dataset_version" ∷ []

abbrev pub default_run_id : Option Json → Card → Card
default_run_id none card = card
default_run_id (some v) card = set_default "risk_run_id" v card

unfoldable pub change_card : Fields → Result Card
change_card payload = bind_result (copy_present payload risk_change_card_keys []) (λ card.
    bind_result (payload_run_id payload)
      (λ run_id. ok (fill_missing_identity (default_run_id run_id card) change_identity_keys)))

abbrev pub with_id : Option Json → Card → Card
with_id none card = card
with_id (some v) card = set_default "id" v card

abbrev pub with_run_id : Fields → Option Json → Card → Card
with_run_id payload none card = card
with_run_id payload (some v) card = with_id (present (find "id" payload)) (put "risk_run_id" v card)

unfoldable pub value_card : RiskToolName → Fields → Result Card
value_card tool payload = bind_result (copy_present payload card_identity_keys []) (λ card.
    bind_result (payload_run_id payload) (λ run_id.
      let card = with_run_id payload run_id card in
      ok (if is_numeric_tool tool then fill_missing_identity card numeric_identity_keys else card)))

unfoldable pub grounded_card : RiskToolName → Fields → Result Card
grounded_card explain_risk_change payload = change_card payload
grounded_card compare_risk_runs payload = change_card payload
grounded_card tool payload = value_card tool payload

unfoldable pub grounded_provenance : List String → Card → Card
grounded_provenance [] card = []
grounded_provenance (key ∷ keys) card =
    let rest = grounded_provenance keys card in
    elim (get key card) [ none ↦ rest | some v ↦ (key, v) ∷ rest ]
