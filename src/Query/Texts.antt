-- ===== src/Query/Texts.antt =====
-- The texts and the word lists of backend/app/risk/query.py.
use quantlineage.Prelude.{String, List, [], ◌∷◌, ◌++◌}

abbrev pub safe_ungrounded_answer : String
safe_ungrounded_answer =
    "I cannot ignore deterministic tools or invent VaR, Greeks, P&L, prices, stress losses, or limit values. Ask a supported portfolio risk question: VaR/ES, limits, contributors, worst stress, portfolio summary, or why risk changed."

abbrev pub secret_refusal_answer : String
secret_refusal_answer = "I cannot disclose API keys, tokens, passwords, or other secrets."

abbrev pub fake_tool_refusal_answer : String
fake_tool_refusal_answer = "Unknown tool is not in the QuantLineage allowlist."

abbrev pub tool_failure_answer : String
tool_failure_answer =
    "The selected deterministic tool could not be executed. I cannot invent VaR, Expected Shortfall, or Greeks."

abbrev pub missing_on_payload : String
missing_on_payload = "not on this payload"

abbrev pub card_identity_keys : List String
card_identity_keys =
    "metric" ∷ "value" ∷ "unit" ∷ "sign_convention" ∷ "as_of" ∷ "methodology" ∷ "market_snapshot_id"
    ∷ "historical_dataset_id" ∷ "historical_dataset_version" ∷ []

abbrev pub provenance_keys : List String
provenance_keys =
    "metric" ∷ "value" ∷ "unit" ∷ "sign_convention" ∷ "risk_run_id" ∷ "id" ∷ "as_of" ∷ "methodology"
    ∷ "market_snapshot_id" ∷ "historical_dataset_id" ∷ "historical_dataset_version" ∷ []

abbrev pub risk_change_card_keys : List String
risk_change_card_keys =
    "t0_run_id" ∷ "t1_run_id" ∷ "metric" ∷ "unit" ∷ "sign_convention" ∷ "previous_risk"
    ∷ "current_risk" ∷ "total_change" ∷ "portfolio_trade_change" ∷ "market_change"
    ∷ "explained_change" ∷ "residual" ∷ "residual_name" ∷ "disclosed_changes" ∷ "identity"
    ∷ "factor_contributors" ∷ "hierarchy_contributors" ∷ "items" ∷ []

abbrev pub injection_markers : List String
injection_markers =
    "ignore tools" ∷ "ignore the tools" ∷ "invent var" ∷ "invent a var" ∷ "disregard tools"
    ∷ "forget the tools" ∷ "ignore previous" ∷ []

abbrev pub fake_tool_markers : List String
fake_tool_markers =
    "estimate_var" ∷ "invent_var" ∷ "shell_exec" ∷ "call shell" ∷ "run shell" ∷ "hidden tool"
    ∷ "shell tool" ∷ []

abbrev pub secret_request_markers : List String
secret_request_markers =
    "api key" ∷ "api-key" ∷ "apikey" ∷ "secret key" ∷ "password" ∷ "credential" ∷ "bearer token"
    ∷ "private key" ∷ []

abbrev pub secret_env_names : List String
secret_env_names =
    "FRED_API_KEY" ∷ "QUANTLINEAGE_API_TOKEN" ∷ "QUANTLINEAGE_API_TOKENS"
    ∷ "QUANTLINEAGE_MCP_AUTHORIZATION" ∷ []

abbrev pub history_stopwords : List String
history_stopwords =
    "show" ∷ "get" ∷ "fetch" ∷ "the" ∷ "a" ∷ "an" ∷ "for" ∷ "from" ∷ "to" ∷ "and" ∷ "of" ∷ "with"
    ∷ "between" ∷ "market" ∷ "history" ∷ "historical" ∷ "price" ∷ "prices" ∷ "series" ∷ "range"
    ∷ "please" ∷ "instrument" ∷ "instruments" ∷ "start" ∷ "end" ∷ "date" ∷ "dates" ∷ []

abbrev quality_words : List String
quality_words =
    "data" ∷ "quality" ∷ "inspect" ∷ "book" ∷ "catalog" ∷ "coverage" ∷ "flags" ∷ "score" ∷ "scores"
    ∷ "lineage" ∷ []

abbrev pub quality_stopwords : List String
quality_stopwords = history_stopwords ++ quality_words

abbrev pub stress_aliases : List (String × String)
stress_aliases =
    ("eq_down_vol_up", "eq_down_vol_up")
    ∷ ("combined_crisis", "combined_crisis")
    ∷ ("combined crisis", "combined_crisis")
    ∷ ("eq_down_10", "eq_down_10")
    ∷ ("equity-down", "eq_down_10")
    ∷ ("equity down", "eq_down_10")
    ∷ ("rates_up_100", "rates_up_100")
    ∷ ("rates up", "rates_up_100")
    ∷ ("vol_up_25", "vol_up_25")
    ∷ ("vol up", "vol_up_25")
    ∷ []
