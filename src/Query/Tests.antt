-- ===== src/Query/Tests.antt =====
-- The assistant on a book, with texts that are read by their ASCII characters.
use quantlineage.Prelude.{
  ℕ, ◌+◌, true, false, ◌&&◌, leb, ◌≡◌, refl, none, some, [], ◌∷◌, ◌==◌, if◌then◌else◌, All,
}
use quantlineage.Prelude.Int.{pos}
use quantlineage.Prelude.Text.{is_in, strip, joined_words, lstrip, rstrip, is_space, starts_with}
use quantlineage.Prelude.Call.{ok, Call, pure}
use quantlineage.Prelude.Dict.{get, put}
use quantlineage.Wire.{null, text, int, list, obj, nil, cons, Fields, end, field, find}
use quantlineage.Hierarchy.{Portfolio}
use quantlineage.Query.{Language}
use quantlineage.Query.Tools.{get_var_es, tool_value, parse_tool}
use quantlineage.Query.Service.{Service, supported_kwargs}
use quantlineage.Query.Card.{
  grounded_provenance, is_numeric_tool, set_default, fill_missing_identity, first_present,
  nested_result_payloads, payload_run_id, payload_field, copy_present, value_card, Card,
  grounded_card,
}
use quantlineage.Query.Safe.{Outside}
use quantlineage.Query.Response.{
  text_or, grounded_response, settled, RiskAssistantModelRequest, RiskAssistantModelResponse,
  RiskQueryResponse,
}
use quantlineage.Query.Validate.{validate_args, validate_tool_call, tool_args_oversized}
use quantlineage.Query.Oversized.{oversized_is_structural, holds_long}
use quantlineage.Query.Route.{route_portfolio, route_identified, route_collided, route}
use quantlineage.Query.Bound.{BindsOrAsks}
use quantlineage.Query.Bindings.{route-BindsOrAsks}
use quantlineage.Query.Copied.{Copied}
use quantlineage.Query.Identity.{grounded_card-Copied, identity_keys, Has}
use quantlineage.Query.Grounded.{Answered, answers_are_grounded}
use quantlineage.Query.Answer.{
  grounded_tool_response, checked_response, answer_named, answer, answer_with_model,
}
use quantlineage.Query.Offline.{complete_offline, offline_reply, with_model, offline_model_agrees}
use quantlineage.Query.Contracts.{tool_contract}
use quantlineage.Query.Texts.{provenance_keys}
use quantlineage.Query.Args.{after_checks, read_slots, only_slots, arg_slots, validated_args}
use quantlineage.Query.Execute.{dump, execute_tool}
use quantlineage.Query.Marks.{
  named_stress_scenario, is_enqueue, is_risk_change_question, is_key_rate_dv01_question,
  is_provenance_question, is_compare_runs_question, is_data_quality_question, is_history_question,
  is_instrument_discovery, is_advisory, is_fake_tool_request, is_prompt_injection,
  ambiguous_tool_pair, mentions, is_secret_request,
}
use quantlineage.Query.Plan.{tool_plan, when◌then◌else◌}
use quantlineage.Query.Sentences.{answer_text, format_answer}
use quantlineage.Query.Printing.{fmt, format_card_value, format_card_text, join_grounding, iterated}

abbrev ascii : Language
ascii = record {
  lower = λ s. s;
  upper = λ s. s;
  is_alpha = λ s. true;
  is_digit = λ c. leb 48 c && leb c 57;
  has_word = is_in;
  run_ids = λ s. [];
  iso_dates = λ s. [];
  catalog_ids = λ s. [];
  tokens = λ s. s ∷ [];
  is_run_id = λ s. false;
  drop_lead_word = λ s. s;
  before_and = λ s. s;
  ascii_digits = λ c h. refl;
}

abbrev outside : Outside
outside = record {
  environ = λ name. none;
  date = λ v. none;
  json_schema = λ tool. null;
  printing = record {
    shown = λ v. elim v [ text s ↦ s | _ ↦ "None" ];
    grouped = λ v. ok "120";
    whole_percent = λ v. ok "99";
    one_digit = λ v. ok "1.0";
  };
}

abbrev historical : Fields
historical =
    field "method" (text "historical")
      (field "confidence" (int (pos 1)) (field "var" (int (pos 120)) end))

abbrev var_payload : Fields
var_payload = field "methods" (list (cons (obj historical) nil)) (field "unit" (text "USD") end)

-- One method, `var_report`; its calls are counted.
abbrev desk : Service ℕ Fields
desk = record {
  attribute = λ name.
      if name == "var_report"
      then some (record { declares = λ k. true; run = λ args kwargs n. (ok var_payload, n + 1) })
      else none;
  search_catalog = λ query. pure end;
  model_dump = λ o. some o;
  as_dict = λ o. ok o;
  hits = λ o. none;
  elements = λ o. ok [];
}

abbrev macro : Portfolio
macro = record {
  id = "macro";
  name = "Macro";
  positions = [];
  firm = "QuantLineage";
  desk = "Global Macro";
  strategy = "Multi-Asset";
  version = 1;
}

abbrev long_args : Fields
long_args = field "query" (list (cons (text "spx") (cons null nil))) end

oversized_is_structural_example : tool_args_oversized long_args ≡ some (holds_long (obj long_args))
oversized_is_structural_example = oversized_is_structural long_args

route-BindsOrAsks_example : BindsOrAsks ascii (route ascii "  show the   var limits ")
route-BindsOrAsks_example = route-BindsOrAsks ascii "  show the   var limits "

abbrev var_card : Card
var_card =
    ("unit", text "USD")
    ∷ ("metric", text "not on this payload")
    ∷ ("value", text "not on this payload")
    ∷ ("sign_convention", text "not on this payload")
    ∷ ("risk_run_id", text "not on this payload")
    ∷ ("as_of", text "not on this payload")
    ∷ ("methodology", text "not on this payload")
    ∷ ("market_snapshot_id", text "not on this payload")
    ∷ ("historical_dataset_id", text "not on this payload")
    ∷ ("historical_dataset_version", text "not on this payload")
    ∷ []

var_card_made : grounded_card get_var_es var_payload ≡ ok var_card
unfolding grounded_card value_card copy_present payload_field payload_run_id nested_result_payloads
    first_present fill_missing_identity set_default is_numeric_tool find get put
var_card_made = refl

grounded_card-Copied_example :
    All (Copied var_payload) var_card × All (Has var_card) (identity_keys get_var_es)
grounded_card-Copied_example = grounded_card-Copied get_var_es var_payload var_card var_card_made

abbrev reply : RiskAssistantModelResponse
reply = record {
  tool_name = some "get_var_es";
  tool_args = end;
  intent = none;
  requires_clarification = false;
  clarification = none;
  refusal = none;
  rationale = none;
  proposed_answer = some "99% VaR is 7.";
}

abbrev complete : RiskAssistantModelRequest → Call ℕ RiskAssistantModelResponse
complete request = pure reply

abbrev shown : RiskQueryResponse
shown = record {
  intent = "var";
  answer =
      "historical 99% VaR is 120. metric not on this payload; value not on this payload; unit USD; sign not on this payload; run not on this payload; as_of not on this payload; methodology not on this payload; market_snapshot_id not on this payload; historical_dataset_id not on this payload; historical_dataset_version not on this payload.";
  contract = some (tool_contract get_var_es);
  tool_result = some var_payload;
  card = some var_card;
  provenance = some (grounded_provenance provenance_keys var_card);
  supported_tools = none;
  model = some reply;
  tool_name = some "get_var_es";
  requires_clarification = false;
}

shown_by_model :
    answer_with_model ascii outside desk complete "how large is the var" macro none 0
    ≡ (ok shown, 1)
unfolding format_answer answer_text iterated join_grounding format_card_text format_card_value fmt
    answer_with_model answer_named checked_response grounded_tool_response settled grounded_response
    validate_tool_call validate_args validated_args tool_args_oversized parse_tool tool_value
    arg_slots only_slots read_slots after_checks execute_tool dump supported_kwargs text_or
    is_secret_request mentions is_in starts_with strip lstrip rstrip is_space joined_words
    grounded_card value_card copy_present payload_field payload_run_id nested_result_payloads
    first_present fill_missing_identity set_default is_numeric_tool find get put
shown_by_model = refl

answers_are_grounded_example :
    Answered ascii outside desk macro none complete "how large is the var" 0 1 shown
answers_are_grounded_example =
    answers_are_grounded ascii outside desk macro none complete "how large is the var" 0 1 shown
      shown_by_model

ready : (route ascii "how large is the var").needs_clarification ≡ false
unfolding route route_collided route_identified route_portfolio ambiguous_tool_pair mentions is_in
    starts_with strip lstrip rstrip is_space joined_words when◌then◌else◌ tool_plan
    is_prompt_injection is_fake_tool_request is_secret_request is_advisory is_instrument_discovery
    is_history_question is_data_quality_question is_compare_runs_question is_provenance_question
    is_key_rate_dv01_question is_risk_change_question is_enqueue named_stress_scenario
ready = refl

offline_model_agrees_example :
    answer_with_model ascii outside desk
      (complete_offline ascii)
      "how large is the var"
      macro
      none
      0
    ≡ with_model ascii outside desk macro none 0
        (offline_reply (route ascii "how large is the var"))
        (answer ascii outside desk "how large is the var" macro none 0)
offline_model_agrees_example =
    offline_model_agrees ascii outside desk macro none 0 "how large is the var" ready
