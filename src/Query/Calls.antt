-- ===== src/Query/Calls.antt =====
-- `_format_c1_answer` (backend/app/risk/query.py): the sentence about a payload of the newer tools.
use quantlineage.Prelude.{ℕ, String, List, [], ◌∷◌, if◌then◌else◌}
use quantlineage.Prelude.Int.{pos}
use quantlineage.Prelude.Text.{is_empty}
use quantlineage.Prelude.Call.{Result, ok, bind_result}
use quantlineage.Wire.{int, Fields}
use quantlineage.Query.Printing.{Printing, got, joined, sentence, iterated, count, dicts}
use quantlineage.Query.Tools.{
  RiskToolName, tool_value, search_instruments, get_market_history, get_data_quality,
  run_portfolio_risk, get_risk_run, run_stress, get_key_rate_dv01, get_top_risk_contributors,
  get_run_provenance,
}

module _ (print : Printing) where
  -- `str(n)` of a count.
  abbrev pub number : ℕ → String
  number n = print.shown (int (pos n))

  abbrev pub got_text : String → Fields → String
  got_text key payload = print.shown (got key payload)

  abbrev tenors : List Fields → List String
  tenors [] = []
  tenors (row ∷ rows) = got_text "tenor" row ∷ tenors rows

  abbrev or_none : String → String
  or_none s = if is_empty s then "none" else s

  unfoldable pub format_c1_answer : RiskToolName → Fields → Result String
  format_c1_answer run_portfolio_risk payload = ok (
      sentence (
        "Submitted RiskRun "
        ∷ got_text "id" payload
        ∷ " ("
        ∷ got_text "run_type" payload
        ∷ ") with status "
        ∷ got_text "status" payload
        ∷ "."
        ∷ []))
  format_c1_answer get_risk_run payload = ok (
      sentence (
        "RiskRun "
        ∷ got_text "id" payload
        ∷ " status is "
        ∷ got_text "status" payload
        ∷ " for "
        ∷ got_text "run_type" payload
        ∷ "."
        ∷ []))
  format_c1_answer get_market_history payload =
      bind_result (iterated (got "points" payload)) (λ points. ok (
        sentence (
          "History for "
          ∷ got_text "instrument_id" payload
          ∷ " has "
          ∷ number (count points)
          ∷ " level observations (unit "
          ∷ got_text "unit" payload
          ∷ ")."
          ∷ [])))
  format_c1_answer get_data_quality payload = ok (
      sentence
        ("Quality lineage for " ∷ got_text "instrument_id" payload ∷ " from validate_series." ∷ []))
  format_c1_answer search_instruments payload =
      bind_result (iterated (got "hits" payload))
        (λ hits. ok (sentence ("Catalog search returned " ∷ number (count hits) ∷ " hits." ∷ [])))
  format_c1_answer run_stress payload = ok (
      sentence (
        "Submitted stress RiskRun "
        ∷ got_text "id" payload
        ∷ " with status "
        ∷ got_text "status" payload
        ∷ "."
        ∷ []))
  format_c1_answer get_key_rate_dv01 payload =
      bind_result (iterated (got "key_rate_dv01" payload)) (λ items.
        bind_result (dicts items) (λ rows. ok (
          sentence (
            "Rates showcase KR-DV01 tenors: "
            ∷ or_none (joined ", " (tenors rows))
            ∷ " (snapshot "
            ∷ got_text "market_snapshot_id" payload
            ∷ ")."
            ∷ []))))
  format_c1_answer get_top_risk_contributors payload = ok (
      sentence (
        "Submitted contributors RiskRun "
        ∷ got_text "id" payload
        ∷ " with status "
        ∷ got_text "status" payload
        ∷ "."
        ∷ []))
  format_c1_answer get_run_provenance payload = ok (
      sentence (
        "Provenance for RiskRun "
        ∷ got_text "risk_run_id" payload
        ∷ " methodology "
        ∷ got_text "methodology" payload
        ∷ "."
        ∷ []))
  format_c1_answer tool payload =
      ok (sentence ("Deterministic tool " ∷ tool_value tool ∷ " returned a service payload." ∷ []))
