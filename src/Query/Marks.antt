-- ===== src/Query/Marks.antt =====
-- What a question is about: the predicates of backend/app/risk/query.py on the lowered question.
use quantlineage.Prelude.{
  String, Bool, false, not, ◌&&◌, ◌||◌, Option, none, some, List, [], ◌∷◌, if◌then◌else◌,
}
use quantlineage.Prelude.Text.{is_in}
use quantlineage.Query.{Language}
use quantlineage.Query.Texts.{
  injection_markers, fake_tool_markers, secret_request_markers, stress_aliases,
}

-- `any(term in question for term in terms)`
unfoldable pub mentions : String → List String → Bool
mentions q [] = false
mentions q (t ∷ ts) = is_in t q || mentions q ts

unfoldable pub is_prompt_injection : String → Bool
is_prompt_injection q = mentions q injection_markers

unfoldable pub is_fake_tool_request : String → Bool
is_fake_tool_request q = mentions q fake_tool_markers

unfoldable pub is_secret_request : String → Bool
is_secret_request q = mentions q secret_request_markers

unfoldable pub is_advisory : String → Bool
is_advisory q = mentions q (
    "should we" ∷ "should i" ∷ "recommend" ∷ "investment advice" ∷ "trading advice" ∷ "go to cash"
    ∷ [])

unfoldable pub is_instrument_discovery : Language → String → Bool
is_instrument_discovery py q =
    py.has_word "search" q || mentions q ("find instrument" ∷ "look up" ∷ "lookup" ∷ [])

unfoldable pub is_history_question : Language → String → Bool
is_history_question py q =
    py.has_word "history" q || mentions q ("price series" ∷ "historical prices" ∷ [])

unfoldable pub is_data_quality_question : String → Bool
is_data_quality_question q =
    mentions q ("data quality" ∷ "inspect quality" ∷ "series quality" ∷ "quality flags" ∷ [])

unfoldable pub is_compare_runs_question : Language → String → Bool
is_compare_runs_question py q =
    if not (mentions q ("compare" ∷ []))
    then false
    else mentions q ("runs" ∷ "risk run" ∷ "riskrun" ∷ []) || py.has_word "run" q

unfoldable pub is_provenance_question : String → Bool
is_provenance_question q = mentions q ("provenance" ∷ "lineage" ∷ [])

unfoldable pub is_key_rate_dv01_question : String → Bool
is_key_rate_dv01_question q =
    mentions q
      ("kr-dv01" ∷ "kr dv01" ∷ "kr_dv01" ∷ "key-rate dv01" ∷ "key rate dv01" ∷ "key_rate_dv01" ∷ [])

unfoldable pub is_risk_change_question : String → Bool
is_risk_change_question q =
    if not (mentions q ("why" ∷ "explain" ∷ []))
    then false
    else if not (mentions q ("var" ∷ "risk" ∷ "es" ∷ "expected shortfall" ∷ "dv01" ∷ "vega" ∷ []))
    then false
    else mentions q ("change" ∷ "increase" ∷ "decrease" ∷ "moved" ∷ "up" ∷ "down" ∷ [])

unfoldable pub is_enqueue : Language → String → Bool
is_enqueue py q = mentions q ("enqueue" ∷ "submit" ∷ []) || py.has_word "run" q

abbrev pub named_among : String → List (String × String) → Option String
named_among q [] = none
named_among q ((alias, scenario_id) ∷ rest) =
    if is_in alias q then some scenario_id else named_among q rest

unfoldable pub named_stress_scenario : String → Option String
named_stress_scenario q = named_among q stress_aliases

unfoldable pub ambiguous_tool_pair : Language → String → Option String
ambiguous_tool_pair py q =
    if is_instrument_discovery py q && is_history_question py q
    then some "Please choose one deterministic tool: instrument search or market history."
    else if is_instrument_discovery py q && is_data_quality_question q
    then some "Please choose one deterministic tool: instrument search or data quality."
    else if is_compare_runs_question py q && is_risk_change_question q
    then some "Please choose one deterministic tool: run comparison or risk-change explanation."
    else none
