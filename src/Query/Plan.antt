-- ===== src/Query/Plan.antt =====
-- The plan that the router of backend/app/risk/query.py makes, and the plans its branches share.
use quantlineage.Prelude.{String, Bool, true, false, Option, none, some, List, [], ◌∷◌}
use quantlineage.Wire.{text, Fields, end, field}
use quantlineage.Query.{Language}
use quantlineage.Query.Tools.{
  RiskToolName, get_run_provenance, get_key_rate_dv01, get_data_quality, search_instruments,
  get_market_history,
}
use quantlineage.Query.Texts.{history_stopwords, quality_stopwords}
use quantlineage.Query.Extract.{
  extract_run_ids, extract_iso_dates, extract_instrument_id, extract_search_query,
  extract_showcase_tenor, non_empty,
}

pub record RiskQueryPlan : Type 0 where
  pub intent : String
  pub tool_name : Option RiskToolName
  pub needs_clarification : Bool
  pub clarification : Option String
  pub tool_args : Fields

infix 1 when◌then◌else◌
-- A branch of the router.
unfoldable pub when◌then◌else◌ : Bool → RiskQueryPlan → RiskQueryPlan → RiskQueryPlan
when true then p else q = p
when false then p else q = q

unfoldable pub clarification_plan : String → String → Option RiskToolName → RiskQueryPlan
clarification_plan intent message tool_name = record {
  intent = intent;
  tool_name = tool_name;
  needs_clarification = true;
  clarification = some message;
  tool_args = end;
}

unfoldable pub tool_plan : String → RiskToolName → Fields → RiskQueryPlan
tool_plan intent tool_name args = record {
  intent = intent;
  tool_name = some tool_name;
  needs_clarification = false;
  clarification = none;
  tool_args = args;
}

-- A plan for the ids that the question names.
unfoldable pub plan_for_ids : String → RiskToolName → String → List String → RiskQueryPlan
plan_for_ids intent tool_name missing [] = clarification_plan intent missing (some tool_name)
plan_for_ids intent tool_name missing (_ ∷ []) = clarification_plan intent missing (some tool_name)
plan_for_ids intent tool_name missing (t0 ∷ t1 ∷ _) =
    tool_plan intent tool_name (field "t0_run_id" (text t0) (field "t1_run_id" (text t1) end))

abbrev pub plan_for_two_run_ids : Language → String → RiskToolName → String → String → RiskQueryPlan
plan_for_two_run_ids py intent tool_name question missing =
    plan_for_ids intent tool_name missing (extract_run_ids py question)

-- The body of `if _is_provenance_question(q)`, and of the tests that follow it.
unfoldable pub provenance_for : List String → RiskQueryPlan
provenance_for [] =
    clarification_plan "provenance"
      "Provide a completed RiskRun identifier for provenance. Do not invent lineage."
      (some get_run_provenance)
provenance_for (run_id ∷ _) =
    tool_plan "provenance" get_run_provenance (field "run_id" (text run_id) end)

abbrev pub provenance_plan : Language → String → RiskQueryPlan
provenance_plan py original = provenance_for (extract_run_ids py original)

unfoldable pub key_rate_for : Option String → RiskQueryPlan
key_rate_for none = tool_plan "get_key_rate_dv01" get_key_rate_dv01 end
key_rate_for (some tenor) =
    tool_plan "get_key_rate_dv01" get_key_rate_dv01 (field "tenor" (text tenor) end)

abbrev pub key_rate_plan : Language → String → RiskQueryPlan
key_rate_plan py original = key_rate_for (extract_showcase_tenor py original)

-- `not instrument_id` is true of the empty text too.
abbrev pub truthy : Option String → Option String
truthy none = none
truthy (some s) = non_empty s

-- The two questions that need an instrument and a range of dates.
unfoldable pub range_plan :
    String → RiskToolName → String → Option String → List String → RiskQueryPlan
range_plan intent tool_name missing none dates = clarification_plan intent missing (some tool_name)
range_plan intent tool_name missing (some instrument_id) [] =
    clarification_plan intent missing (some tool_name)
range_plan intent tool_name missing (some instrument_id) (_ ∷ []) =
    clarification_plan intent missing (some tool_name)
range_plan intent tool_name missing (some instrument_id) (first ∷ last ∷ _) =
    tool_plan intent tool_name (
      field "instrument_id" (text instrument_id)
        (field "start" (text first) (field "end" (text last) end)))

unfoldable pub quality_plan : Language → String → RiskQueryPlan
quality_plan py original =
    range_plan "quality" get_data_quality
      "Provide an instrument id and a start and end date range. Do not invent quality scores."
      (truthy (extract_instrument_id py quality_stopwords original)) (extract_iso_dates py original)

unfoldable pub history_plan : Language → String → RiskQueryPlan
history_plan py original =
    range_plan "history" get_market_history
      "Provide an instrument id and a start and end date range. Do not invent prices."
      (truthy (extract_instrument_id py history_stopwords original)) (extract_iso_dates py original)

unfoldable pub search_for : Option String → RiskQueryPlan
search_for none =
    clarification_plan "instrument_discovery" "Provide a catalog search query."
      (some search_instruments)
search_for (some query) =
    tool_plan "instrument_discovery" search_instruments (field "query" (text query) end)

abbrev pub search_plan : Language → String → RiskQueryPlan
search_plan py original = search_for (extract_search_query py original)
