-- ===== src/Query/Route.antt =====
-- `RiskQueryEngine.route` of backend/app/risk/query.py. Its tests stand in the source's order; the
-- function is cut in three where one group of questions ends.
use quantlineage.Prelude.{String, ◌&&◌, ◌||◌, Option, none, some, [], ◌∷◌, if◌then◌else◌, is_some}
use quantlineage.Prelude.Text.{strip, is_empty, joined_words}
use quantlineage.Wire.{text, end, field}
use quantlineage.Query.{Language}
use quantlineage.Query.Tools.{
  get_portfolio_summary, get_var_es, get_worst_stress, get_limits, get_contributors,
  explain_risk_change, compare_risk_runs, run_portfolio_risk, run_stress, get_top_risk_contributors,
}
use quantlineage.Query.Texts.{
  safe_ungrounded_answer, secret_refusal_answer, fake_tool_refusal_answer,
}
use quantlineage.Query.Marks.{
  mentions, is_prompt_injection, is_fake_tool_request, is_secret_request, is_advisory,
  is_instrument_discovery, is_history_question, is_data_quality_question, is_compare_runs_question,
  is_provenance_question, is_key_rate_dv01_question, is_risk_change_question, is_enqueue,
  named_stress_scenario, ambiguous_tool_pair,
}
use quantlineage.Query.Plan.{
  RiskQueryPlan, when◌then◌else◌, clarification_plan, tool_plan, plan_for_two_run_ids,
  provenance_plan, key_rate_plan, quality_plan, history_plan, search_plan,
}

abbrev pub supported_only : String
supported_only =
    "I can only answer supported portfolio risk questions using deterministic QuantLineage tools: VaR/ES, limits, contributors, worst stress, or portfolio summary."

unfoldable pub stress_plan : Option String → RiskQueryPlan
stress_plan none =
    clarification_plan "stress" "Choose an allowlisted stress scenario. Do not invent losses."
      (some run_stress)
stress_plan (some scenario_id) =
    tool_plan "stress" run_stress (field "scenario_id" (text scenario_id) end)

-- From `if _mentions(q, "worst", "largest") …` to the end.
unfoldable pub route_portfolio : Language → String → RiskQueryPlan
route_portfolio py q =
    when mentions q ("worst" ∷ "largest" ∷ []) && mentions q ("stress" ∷ "scenario" ∷ "threat" ∷ [])
    then tool_plan "worst_scenario" get_worst_stress end
    else when is_some (named_stress_scenario q) || (is_enqueue py q && mentions q ("stress" ∷ []))
    then stress_plan (named_stress_scenario q)
    else when mentions q
        ("contributor" ∷ "contributors" ∷ "dominate" ∷ "biggest risk" ∷ "top risk" ∷ [])
    then (when is_enqueue py q
        then tool_plan "contributors" get_top_risk_contributors end
        else tool_plan "contributors" get_contributors end)
    else when mentions q ("limit" ∷ "limits" ∷ "breach" ∷ "breaches" ∷ [])
    then tool_plan "limits" get_limits end
    else when is_enqueue py q && mentions q ("portfolio risk" ∷ "risk run" ∷ "riskrun" ∷ [])
    then tool_plan "portfolio_risk" run_portfolio_risk
        (field "run_type" (text (if mentions q ("var" ∷ []) then "var" else "summary")) end)
    else when mentions q ("var" ∷ "expected shortfall" ∷ []) || py.has_word "es" q
    then tool_plan "var" get_var_es end
    else when mentions q ("summary" ∷ "summarize" ∷ "overview" ∷ "portfolio" ∷ [])
    then tool_plan "portfolio_summary" get_portfolio_summary end
    else when mentions q ("risk" ∷ "exposure" ∷ "loss" ∷ [])
    then clarification_plan "ambiguous"
        "Please choose a deterministic risk view: VaR/ES, limits, contributors, worst stress, or portfolio summary."
        none
    else clarification_plan "unsupported" supported_only none

-- From `if _is_risk_change_question(q)` to the tests above.
unfoldable pub route_identified : Language → String → String → RiskQueryPlan
route_identified py original q =
    when is_risk_change_question q
    then plan_for_two_run_ids py "explain_risk_change" explain_risk_change original
        "Provide two completed RiskRun identifiers to explain why the risk metric changed. Do not invent VaR."
    else when is_compare_runs_question py q
    then plan_for_two_run_ids py "run_comparison" compare_risk_runs original
        "Provide two completed RiskRun identifiers to compare. Do not invent VaR."
    else when is_provenance_question q
    then provenance_plan py original
    else when is_key_rate_dv01_question q
    then key_rate_plan py original
    else when is_data_quality_question q
    then quality_plan py original
    else when is_instrument_discovery py q
    then search_plan py original
    else when is_history_question py q
    then history_plan py original
    else route_portfolio py q

-- From `if collision` on.
unfoldable pub route_collided : Language → String → String → Option String → RiskQueryPlan
route_collided py original q (some collision) = clarification_plan "ambiguous" collision none
route_collided py original q none = route_identified py original q

unfoldable pub route : Language → String → RiskQueryPlan
route py question =
    let original = joined_words (strip question) in
    let q = py.lower original in
    when is_empty q
    then clarification_plan "unsupported"
        "Ask a supported portfolio risk question: VaR/ES, limits, contributors, worst stress, portfolio summary, instrument search, history, stress, run comparison, or provenance."
        none
    else when is_prompt_injection q
    then clarification_plan "unsupported" safe_ungrounded_answer none
    else when is_fake_tool_request q
    then clarification_plan "unsupported" fake_tool_refusal_answer none
    else when is_secret_request q
    then clarification_plan "unsupported" secret_refusal_answer none
    else when is_advisory q
    then clarification_plan "unsupported" supported_only none
    else route_collided py original q (ambiguous_tool_pair py q)
