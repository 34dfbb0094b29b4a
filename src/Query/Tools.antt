-- ===== src/Query/Tools.antt =====
-- The tools of backend/app/risk/query.py: `RiskToolName`, and how a text is read as one.
use quantlineage.Prelude.{String, ◌==◌, Option, none, some, List, [], ◌∷◌, if◌then◌else◌}

pub data RiskToolName : Type 0 where
  get_portfolio_summary : RiskToolName
  get_var_es : RiskToolName
  get_worst_stress : RiskToolName
  get_limits : RiskToolName
  get_contributors : RiskToolName
  explain_risk_change : RiskToolName
  search_instruments : RiskToolName
  get_market_history : RiskToolName
  get_data_quality : RiskToolName
  run_portfolio_risk : RiskToolName
  get_risk_run : RiskToolName
  compare_risk_runs : RiskToolName
  run_stress : RiskToolName
  get_key_rate_dv01 : RiskToolName
  get_top_risk_contributors : RiskToolName
  get_run_provenance : RiskToolName

-- The enumeration in its order.
abbrev pub tool_names : List RiskToolName
tool_names =
    get_portfolio_summary ∷ get_var_es ∷ get_worst_stress ∷ get_limits ∷ get_contributors
    ∷ explain_risk_change ∷ search_instruments ∷ get_market_history ∷ get_data_quality
    ∷ run_portfolio_risk ∷ get_risk_run ∷ compare_risk_runs ∷ run_stress ∷ get_key_rate_dv01
    ∷ get_top_risk_contributors ∷ get_run_provenance ∷ []

-- `name.value`
unfoldable pub tool_value : RiskToolName → String
tool_value get_portfolio_summary = "get_portfolio_summary"
tool_value get_var_es = "get_var_es"
tool_value get_worst_stress = "get_worst_stress"
tool_value get_limits = "get_limits"
tool_value get_contributors = "get_contributors"
tool_value explain_risk_change = "explain_risk_change"
tool_value search_instruments = "search_instruments"
tool_value get_market_history = "get_market_history"
tool_value get_data_quality = "get_data_quality"
tool_value run_portfolio_risk = "run_portfolio_risk"
tool_value get_risk_run = "get_risk_run"
tool_value compare_risk_runs = "compare_risk_runs"
tool_value run_stress = "run_stress"
tool_value get_key_rate_dv01 = "get_key_rate_dv01"
tool_value get_top_risk_contributors = "get_top_risk_contributors"
tool_value get_run_provenance = "get_run_provenance"

abbrev pub tool_among : String → List RiskToolName → Option RiskToolName
tool_among s [] = none
tool_among s (t ∷ ts) = if tool_value t == s then some t else tool_among s ts

-- `RiskToolName(raw)`, with `none` for its `ValueError`.
unfoldable pub parse_tool : String → Option RiskToolName
unfolding tool_value
parse_tool raw = tool_among raw tool_names
