-- ===== src/Query/Response.antt =====
-- The assistant's requests and responses (backend/app/risk/query.py, and `RiskQueryResponse` of
-- backend/app/api/schemas/transport.py), and how a payload becomes a response.
use quantlineage.Prelude.{
  String, Bool, true, false, Option, none, some, List, [], ◌∷◌, map, if◌then◌else◌,
}
use quantlineage.Prelude.Text.{is_empty}
use quantlineage.Prelude.Call.{
  Fault, value_error, attribute_error, type_error, run_not_found, invalid_transition,
  portfolio_exists, portfolio_not_found, version_conflict, key_error, access_denied, foreign,
  Result, ok, err, bind_result,
}
use quantlineage.Wire.{Json, Fields}
use quantlineage.Query.{Language}
use quantlineage.Query.Tools.{
  RiskToolName, tool_names, tool_value, get_portfolio_summary, get_var_es, get_worst_stress,
  get_limits, get_contributors, explain_risk_change, search_instruments, get_market_history,
  get_data_quality, run_portfolio_risk, get_risk_run, compare_risk_runs, run_stress,
  get_key_rate_dv01, get_top_risk_contributors, get_run_provenance,
}
use quantlineage.Query.Contracts.{RiskToolContract, tool_contract}
use quantlineage.Query.Texts.{tool_failure_answer, provenance_keys}
use quantlineage.Query.Card.{Card, grounded_card, grounded_provenance}
use quantlineage.Query.Safe.{Outside, safe_ungrounded_text}
use quantlineage.Query.Sentences.{format_answer}

-- The rationale and the proposed answer are only echoed.
pub record RiskAssistantModelResponse : Type 0 where
  pub tool_name : Option String
  pub tool_args : Fields
  pub intent : Option String
  pub requires_clarification : Bool
  pub clarification : Option String
  pub refusal : Option String
  pub rationale : Option String
  pub proposed_answer : Option String

abbrev pub ToolSchemas : Type 0
ToolSchemas = List (RiskToolContract × Json)

-- Its fixed `instruction` is left out.
pub record RiskAssistantModelRequest : Type 0 where
  pub question : String
  pub tools : ToolSchemas

-- `data` as its entries; `none` for an entry that is absent or `None`.
pub record RiskQueryResponse : Type 0 where
  pub intent : String
  pub answer : String
  pub contract : Option RiskToolContract
  pub tool_result : Option Fields
  pub card : Option Card
  pub provenance : Option Card
  pub supported_tools : Option ToolSchemas
  pub model : Option RiskAssistantModelResponse
  pub tool_name : Option String
  pub requires_clarification : Bool

abbrev pub intent_for_tool : RiskToolName → String
intent_for_tool get_portfolio_summary = "portfolio_summary"
intent_for_tool get_var_es = "var"
intent_for_tool get_worst_stress = "worst_scenario"
intent_for_tool get_limits = "limits"
intent_for_tool get_contributors = "contributors"
intent_for_tool explain_risk_change = "explain_risk_change"
intent_for_tool search_instruments = "instrument_discovery"
intent_for_tool get_market_history = "history"
intent_for_tool get_data_quality = "quality"
intent_for_tool run_portfolio_risk = "portfolio_risk"
intent_for_tool compare_risk_runs = "run_comparison"
intent_for_tool run_stress = "stress"
intent_for_tool get_top_risk_contributors = "contributors"
intent_for_tool get_run_provenance = "provenance"
intent_for_tool get_risk_run = "get_risk_run"
intent_for_tool get_key_rate_dv01 = "get_key_rate_dv01"

-- `value or default` of an optional text.
unfoldable pub text_or : Option String → String → String
text_or none default = default
text_or (some s) default = if is_empty s then default else s

abbrev pub is_truthy : Option String → Bool
is_truthy none = false
is_truthy (some s) = if is_empty s then false else true

-- The exceptions that `_grounded_tool_response` catches: the repositories' and the lifecycle's derive
-- from `ValueError`, but for a run that is not found, which is named. `foreign` is a class that is not
-- caught.
unfoldable pub is_caught : Fault → Bool
is_caught value_error = true
is_caught (invalid_transition _) = true
is_caught (portfolio_exists _) = true
is_caught (portfolio_not_found _) = true
is_caught (version_conflict _) = true
is_caught attribute_error = true
is_caught type_error = true
is_caught (run_not_found _) = true
is_caught (key_error _) = false
is_caught (access_denied _) = false
is_caught foreign = false

module _ (py : Language) (out : Outside) where
  unfoldable pub tool_contract_schemas : ToolSchemas
  tool_contract_schemas = map (λ name. (tool_contract name, out.json_schema name)) tool_names

  abbrev pub request_of : String → RiskAssistantModelRequest
  request_of question = record { question = question; tools = tool_contract_schemas }

  unfoldable pub refused_response :
      String → String → Option RiskAssistantModelResponse → RiskQueryResponse
  refused_response intent answer model = record {
    intent = intent;
    answer = answer;
    contract = none;
    tool_result = none;
    card = none;
    provenance = none;
    supported_tools = some tool_contract_schemas;
    model = model;
    tool_name = none;
    requires_clarification = true;
  }

  abbrev pub default_clarification : String
  default_clarification =
      "Please choose a deterministic risk view: VaR/ES, limits, contributors, worst stress, or portfolio summary."

  unfoldable pub clarified : RiskAssistantModelResponse → RiskQueryResponse
  clarified reply =
      refused_response
        (text_or reply.intent (if is_truthy reply.refusal then "unsupported" else "ambiguous"))
        (safe_ungrounded_text py out (reply.refusal ∷ reply.clarification ∷ [])
          default_clarification)
        (some reply)

  -- What follows the `try` of `_grounded_tool_response`.
  unfoldable pub grounded_response :
      String → RiskToolName → Fields → Option RiskAssistantModelResponse → Result RiskQueryResponse
  grounded_response intent tool payload model = bind_result (grounded_card tool payload) (λ card.
      bind_result (format_answer out.printing tool payload card) (λ answer. ok (record {
        intent = intent;
        answer = answer;
        contract = some (tool_contract tool);
        tool_result = some payload;
        card = some card;
        provenance = some (grounded_provenance provenance_keys card);
        supported_tools = none;
        model = model;
        tool_name = some (tool_value tool);
        requires_clarification = false;
      })))

  unfoldable pub settled :
      String
      → RiskToolName
      → Option RiskAssistantModelResponse
      → Result Fields
      → Result RiskQueryResponse
  settled intent tool model (ok payload) = grounded_response intent tool payload model
  settled intent tool model (err e) =
      if is_caught e then ok (refused_response intent tool_failure_answer model) else err e
