-- ===== src/Query/Sentences.antt =====
-- `_format_answer` (backend/app/risk/query.py): the sentence about a payload.
use quantlineage.Prelude.{
  String, Bool, true, false, Option, none, some, List, [], ◌∷◌, if◌then◌else◌,
}
use quantlineage.Prelude.Int.{pos}
use quantlineage.Prelude.Text.{concat}
use quantlineage.Prelude.Call.{Result, ok, err, bind_result}
use quantlineage.Wire.{Json, null, float, text, obj, Fields, find, finite}
use quantlineage.Query.Service.{falsy}
use quantlineage.Query.Card.{Card}
use quantlineage.Query.Printing.{
  Printing, got, joined, sentence, iterated, count, dicts, fmt, join_grounding,
}
use quantlineage.Query.Tools.{
  RiskToolName, get_portfolio_summary, get_var_es, get_worst_stress, get_limits, get_contributors,
  explain_risk_change, compare_risk_runs,
}
use quantlineage.Query.Format.{format_risk_change_answer}
use quantlineage.Query.Calls.{number, got_text, format_c1_answer}
use quantlineage.Prelude.Call.{attribute_error}

abbrev pub is_null : Json → Bool
is_null null = true
is_null _ = false

abbrev pub or_key : Option Json → Json → Json
or_key none v = v
or_key (some v) w = v

abbrev pub breached_count : List Fields → List Json
breached_count [] = []
breached_count (fs ∷ rest) =
    if falsy (got "breached" fs) then breached_count rest else obj fs ∷ breached_count rest

module _ (print : Printing) where
  abbrev with_es : Json → String → Result String
  with_es null s = ok s
  with_es es s =
      bind_result (fmt print es)
        (λ shown. ok (sentence (s ∷ " and Expected Shortfall is " ∷ shown ∷ [])))

  abbrev method_part : Fields → Result String
  method_part item = bind_result (fmt print (got "var" item)) (λ value.
      let label = print.shown (or_key (find "method" item) (text "method")) in
      let s =
        if is_null (got "confidence" item)
        then ok (sentence (label ∷ " VaR is " ∷ value ∷ []))
        else bind_result (print.whole_percent (got "confidence" item))
            (λ percent. ok (sentence (label ∷ " " ∷ percent ∷ "% VaR is " ∷ value ∷ []))) in
      bind_result s (with_es (got "expected_shortfall" item)))

  -- `item.get` is an error on what is no dict.
  abbrev each_part : (Fields → Result String) → List Json → Result (List String)
  each_part part [] = ok []
  each_part part (obj item ∷ items) =
      bind_result (part item) (λ s. bind_result (each_part part items) (λ rest. ok (s ∷ rest)))
  each_part part (_ ∷ items) = err attribute_error

  abbrev contributor_part : Fields → Result String
  contributor_part item =
      bind_result
        (print.one_digit (or_key (find "contribution_pct" item) (float (finite (pos 0) (pos 0)))))
        (λ share. ok (
          sentence (
            print.shown (or_key (find "label" item) (got "position_id" item))
            ∷ " "
            ∷ share
            ∷ "%"
            ∷ [])))

  unfoldable pub answer_text : RiskToolName → Fields → Result String
  answer_text get_portfolio_summary payload =
      bind_result (fmt print (got "market_value" payload)) (λ value.
        bind_result (fmt print (got "var_99" payload)) (λ var.
          bind_result (fmt print (got "expected_shortfall_99" payload)) (λ es. ok (
            sentence (
              "Portfolio market value is " ∷ value ∷ "; 99% VaR is " ∷ var
              ∷ "; 99% Expected Shortfall is " ∷ es ∷ "." ∷ [])))))
  answer_text get_var_es payload = bind_result (iterated (got "methods" payload)) (λ items.
      bind_result (each_part method_part items) (λ parts. ok (elim parts [
        | [] ↦ "No VaR/ES methods returned."
        | s ∷ rest ↦ concat (joined "; " (s ∷ rest)) "."
      ])))
  answer_text get_worst_stress payload =
      if is_null (got "worst_scenario" payload)
      then ok "No stress scenarios returned."
      else bind_result (fmt print (got "worst_loss" payload)) (λ loss. ok (
          sentence (
            "Worst stress scenario is "
            ∷ got_text print "worst_scenario" payload
            ∷ " with loss "
            ∷ loss
            ∷ "."
            ∷ [])))
  answer_text get_limits payload = bind_result (iterated (got "limits" payload)) (λ items.
      bind_result (dicts items) (λ limits. ok (
        sentence (
          number print (count (breached_count limits))
          ∷ " limit breaches from "
          ∷ number print (count items)
          ∷ " evaluated limits."
          ∷ []))))
  answer_text get_contributors payload =
      bind_result (iterated (got "contributors" payload)) (λ items.
        bind_result (each_part contributor_part items) (λ names. ok (elim names [
          | [] ↦ "No risk contributors returned."
          | s ∷ rest ↦ sentence ("Top risk contributors: " ∷ joined ", " (s ∷ rest) ∷ "." ∷ [])
        ])))
  answer_text explain_risk_change payload = format_risk_change_answer print payload
  answer_text compare_risk_runs payload = format_risk_change_answer print payload
  answer_text tool payload = format_c1_answer print tool payload

  unfoldable pub format_answer : RiskToolName → Fields → Card → Result String
  format_answer tool payload card =
      bind_result (answer_text tool payload) (λ s. join_grounding print s card)
