-- ===== src/Query/Contracts.antt =====
-- `RiskToolContract` and `TOOL_CONTRACTS` of backend/app/risk/query.py.
use quantlineage.Prelude.{String, List, [], ◌∷◌}
use quantlineage.Query.Tools.{
  RiskToolName, get_portfolio_summary, get_var_es, get_worst_stress, get_limits, get_contributors,
  explain_risk_change, search_instruments, get_market_history, get_data_quality, run_portfolio_risk,
  get_risk_run, compare_risk_runs, run_stress, get_key_rate_dv01, get_top_risk_contributors,
  get_run_provenance,
}

pub record RiskToolContract : Type 0 where
  pub name : RiskToolName
  pub description : String
  pub service_method : String
  pub required_inputs : List String
  pub returns : List String
  pub numeric_source : String
  pub http_path : String
  pub provenance_fields : List String

-- `TOOL_CONTRACTS[name]`; every name has a contract.
unfoldable pub tool_contract : RiskToolName → RiskToolContract
tool_contract get_portfolio_summary = record {
  name = get_portfolio_summary;
  description = "Summarize portfolio market value and aggregate risk measures.";
  service_method = "summary";
  required_inputs = "portfolio" ∷ [];
  returns = "RiskSummary" ∷ [];
  numeric_source = "deterministic PortfolioService.summary payload";
  http_path = "";
  provenance_fields = [];
}
tool_contract get_var_es = record {
  name = get_var_es;
  description = "Return VaR and Expected Shortfall analytics.";
  service_method = "var_report";
  required_inputs = "portfolio" ∷ [];
  returns = "VaRReport" ∷ [];
  numeric_source = "deterministic PortfolioService.var_report payload";
  http_path = "";
  provenance_fields = [];
}
tool_contract get_worst_stress = record {
  name = get_worst_stress;
  description = "Identify the worst configured stress or threat scenario.";
  service_method = "threat_evaluation";
  required_inputs = "portfolio" ∷ [];
  returns = "ScenarioEvaluationReport" ∷ [];
  numeric_source = "deterministic PortfolioService.threat_evaluation payload";
  http_path = "";
  provenance_fields = [];
}
tool_contract get_limits = record {
  name = get_limits;
  description = "List current risk limits and breach status.";
  service_method = "limits";
  required_inputs = "portfolio" ∷ [];
  returns = "list[LimitResult]" ∷ [];
  numeric_source = "deterministic PortfolioService.limits payload";
  http_path = "";
  provenance_fields = [];
}
tool_contract get_contributors = record {
  name = get_contributors;
  description = "Rank top position-level risk contributors.";
  service_method = "contributors";
  required_inputs = "portfolio" ∷ [];
  returns = "list[Contributor]" ∷ [];
  numeric_source = "deterministic PortfolioService.contributors payload";
  http_path = "";
  provenance_fields = [];
}
tool_contract explain_risk_change = record {
  name = explain_risk_change;
  description =
      "Explain why a risk metric changed between two COMPLETED RiskRuns. Requires t0_run_id and t1_run_id; never invent VaR or other numbers. Shares compare_runs with compare_risk_runs.";
  service_method = "compare_runs";
  required_inputs = "t0_run_id" ∷ "t1_run_id" ∷ [];
  returns = "RiskChangeReport" ∷ [];
  numeric_source = "deterministic RiskRunWorker.compare_runs payload";
  http_path = "POST /api/v1/risk/runs/compare";
  provenance_fields =
      "t0_run_id" ∷ "t1_run_id" ∷ "metric" ∷ "unit" ∷ "sign_convention" ∷ "identity" ∷ [];
}
tool_contract search_instruments = record {
  name = search_instruments;
  description = "Search the curated instrument catalog. Curated identity wins.";
  service_method = "search_catalog";
  required_inputs = "query" ∷ [];
  returns = "list[CatalogSearchHit]" ∷ [];
  numeric_source = "deterministic search_catalog metadata payload";
  http_path = "GET /api/v1/instruments/search";
  provenance_fields = "instrument_id" ∷ "provider" ∷ "source_symbol" ∷ [];
}
tool_contract get_market_history = record {
  name = get_market_history;
  description =
      "Return normalized instrument price/percent levels and series lineage. Does not compute returns and is not Wave B historical-analytics.";
  service_method = "get_market_history";
  required_inputs = "instrument_id" ∷ "start" ∷ "end" ∷ [];
  returns = "InstrumentHistoryOut" ∷ [];
  numeric_source =
      "deterministic GET /api/v1/market/history levels payload; not historical-analytics";
  http_path = "GET /api/v1/market/history/{instrument_id}";
  provenance_fields =
      "instrument_id" ∷ "source" ∷ "source_symbol" ∷ "content_hash" ∷ "normalization_version"
      ∷ "unit" ∷ [];
}
tool_contract get_data_quality = record {
  name = get_data_quality;
  description = "Return series lineage and quality flags without history points.";
  service_method = "get_data_quality";
  required_inputs = "instrument_id" ∷ "start" ∷ "end" ∷ [];
  returns = "SeriesLineage" ∷ [];
  numeric_source = "deterministic GET /api/v1/instruments/{id}/quality payload";
  http_path = "GET /api/v1/instruments/{instrument_id}/quality";
  provenance_fields = "content_hash" ∷ "unit" ∷ "currency" ∷ "frequency" ∷ "adjustment" ∷ [];
}
tool_contract run_portfolio_risk = record {
  name = run_portfolio_risk;
  description =
      "Enqueue a portfolio RiskRun (summary or var). Prefer run identity over a synchronous dump.";
  service_method = "submit";
  required_inputs = "portfolio" ∷ "run_type" ∷ [];
  returns = "RiskRunView" ∷ [];
  numeric_source = "deterministic RiskRunWorker.submit payload";
  http_path = "POST /api/v1/risk/runs";
  provenance_fields =
      "id" ∷ "portfolio_id" ∷ "portfolio_version" ∷ "market_snapshot_id" ∷ "historical_dataset_id"
      ∷ "historical_dataset_version" ∷ "as_of" ∷ "methodology" ∷ [];
}
tool_contract get_risk_run = record {
  name = get_risk_run;
  description = "Read a persisted RiskRun. Stale ids fail closed.";
  service_method = "get";
  required_inputs = "run_id" ∷ [];
  returns = "RiskRunView" ∷ [];
  numeric_source = "deterministic RiskRunWorker.get payload";
  http_path = "GET /api/v1/risk/runs/{run_id}";
  provenance_fields =
      "id" ∷ "market_snapshot_id" ∷ "historical_dataset_id" ∷ "as_of" ∷ "methodology" ∷ [];
}
tool_contract compare_risk_runs = record {
  name = compare_risk_runs;
  description =
      "Compare two COMPLETED RiskRuns. Same compare_runs engine as explain_risk_change; no second kernel.";
  service_method = "compare_runs";
  required_inputs = "t0_run_id" ∷ "t1_run_id" ∷ [];
  returns = "RiskChangeReport" ∷ [];
  numeric_source = "deterministic RiskRunWorker.compare_runs payload";
  http_path = "POST /api/v1/risk/runs/compare";
  provenance_fields =
      "t0_run_id" ∷ "t1_run_id" ∷ "metric" ∷ "unit" ∷ "sign_convention" ∷ "identity" ∷ [];
}
tool_contract run_stress = record {
  name = run_stress;
  description =
      "Enqueue an allowlisted named stress RiskRun (DEFAULT_SCENARIOS, including eq_down_10 / equity-down). Not arbitrary shocks.";
  service_method = "submit";
  required_inputs = "portfolio" ∷ "scenario_id" ∷ [];
  returns = "RiskRunView" ∷ [];
  numeric_source = "deterministic RiskRunWorker.submit stress payload";
  http_path = "POST /api/v1/risk/runs";
  provenance_fields = "id" ∷ "run_type" ∷ "market_snapshot_id" ∷ "as_of" ∷ "methodology" ∷ [];
}
tool_contract get_key_rate_dv01 = record {
  name = get_key_rate_dv01;
  description =
      "USD key-rate DV01 from the rates-macro showcase (2Y/5Y/10Y). Demo book only; not a second bump engine.";
  service_method = "build_rates_showcase";
  required_inputs = [];
  returns = "RatesShowcaseView" ∷ [];
  numeric_source = "deterministic GET /api/v1/market/rates-showcase payload";
  http_path = "GET /api/v1/market/rates-showcase";
  provenance_fields = "portfolio_id" ∷ "market_snapshot_id" ∷ "unit" ∷ [];
}
tool_contract get_top_risk_contributors = record {
  name = get_top_risk_contributors;
  description = "Enqueue a contributors RiskRun (parametric component VaR).";
  service_method = "submit";
  required_inputs = "portfolio" ∷ [];
  returns = "RiskRunView" ∷ [];
  numeric_source = "deterministic RiskRunWorker.submit contributors payload";
  http_path = "POST /api/v1/risk/runs";
  provenance_fields = "id" ∷ "run_type" ∷ "portfolio_id" ∷ "market_snapshot_id" ∷ [];
}
tool_contract get_run_provenance = record {
  name = get_run_provenance;
  description = "Return persisted RiskRun lineage. Never invents release_sha.";
  service_method = "get_run_provenance";
  required_inputs = "run_id" ∷ [];
  returns = "RiskRunProvenance" ∷ [];
  numeric_source = "deterministic GET /api/v1/risk/runs/{id}/provenance payload";
  http_path = "GET /api/v1/risk/runs/{run_id}/provenance";
  provenance_fields =
      "risk_run_id" ∷ "portfolio_id" ∷ "market_snapshot_id" ∷ "as_of" ∷ "historical_dataset_id"
      ∷ "methodology" ∷ [];
}
