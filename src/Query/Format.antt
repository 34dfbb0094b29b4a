-- ===== src/Query/Format.antt =====
-- `_format_risk_change_answer` (backend/app/risk/query.py): the sentence about a comparison of runs.
use quantlineage.Prelude.{
  ℕ, String, not, ◌||◌, none, some, List, [], ◌∷◌, ◌++◌, if◌then◌else◌, is_some,
}
use quantlineage.Prelude.Int.{pos}
use quantlineage.Prelude.Text.{concat}
use quantlineage.Prelude.Call.{Result, ok, bind_result}
use quantlineage.Wire.{Json, int, obj, Fields, find}
use quantlineage.Query.Service.{falsy}
use quantlineage.Query.Texts.{missing_on_payload}
use quantlineage.Query.Printing.{
  Printing, got, joined, sentence, iterated, format_card_value, label_payload,
}

-- `a or b or item`
abbrev pub first_truthy : Json → Json → Json → Json
first_truthy a b item = if not (falsy a) then a else if not (falsy b) then b else item

module _ (print : Printing) where
  -- `str(n)` of a count.
  abbrev number : ℕ → String
  number n = print.shown (int (pos n))

  abbrev shown_all : List Json → List String
  shown_all [] = []
  shown_all (x ∷ xs) = print.shown x ∷ shown_all xs

  abbrev pub contributor_names : String → String → List Json → List String
  contributor_names first second [] = []
  contributor_names first second (obj fs ∷ rest) =
      print.shown (first_truthy (got first fs) (got second fs) (obj fs))
      ∷ contributor_names first second rest
  contributor_names first second (_ ∷ rest) = contributor_names first second rest

  unfoldable pub changed_part : Fields → Result (List String)
  changed_part payload =
      if is_some (find "previous_risk" payload) || is_some (find "current_risk" payload)
      then bind_result (format_card_value print (got "previous_risk" payload)) (λ before.
        bind_result (format_card_value print (got "current_risk" payload))
          (λ after. ok (sentence ("changed from " ∷ before ∷ " to " ∷ after ∷ []) ∷ [])))
      else ok []

  unfoldable pub contributors_part : Fields → Result String
  contributors_part payload = bind_result (iterated (got "factor_contributors" payload)) (λ factors.
      bind_result (iterated (got "hierarchy_contributors" payload)) (λ levels.
        let names =
          contributor_names "factor" "factor_id" factors
          ++ contributor_names "name" "path" levels in
        ok (elim names [
          | n ∷ ns ↦ concat "contributors " (joined ", " (n ∷ ns))
          | [] ↦
              if is_some (find "factor_contributors" payload)
                || is_some (find "hierarchy_contributors" payload)
              then "contributors none"
              else concat "contributors " missing_on_payload
        ])))

  unfoldable pub disclosed_part : Fields → Result String
  disclosed_part payload = elim (find "disclosed_changes" payload) [
    | none ↦ ok (concat "disclosed changes " missing_on_payload)
    | some changes ↦ bind_result (iterated changes) (λ items. ok (
        if falsy changes
        then "disclosed changes none"
        else concat "disclosed changes " (joined ", " (shown_all items))))
  ]

  unfoldable pub identity_part : Fields → Result (List String)
  identity_part payload = elim (find "identity" payload) [
    | some (obj identity) ↦ bind_result (iterated (got "changed_fields" identity)) (λ changed.
        ok (elim changed [
          | [] ↦ []
          | x ∷ xs ↦ concat "identity " (joined ", " (shown_all (x ∷ xs))) ∷ []
        ]))
    | _ ↦ ok []
  ]

  abbrev label_all : Fields → List (String × String) → Result (List String)
  label_all payload [] = ok []
  label_all payload ((key, label) ∷ rest) =
      bind_result (label_payload print payload key label)
        (λ part. bind_result (label_all payload rest) (λ parts. ok (part ∷ parts)))

  unfoldable pub format_risk_change_answer : Fields → Result String
  format_risk_change_answer payload =
      bind_result
        (label_all payload (("metric", "Metric") ∷ ("t0_run_id", "T0") ∷ ("t1_run_id", "T1") ∷ []))
        (λ head. bind_result (changed_part payload) (λ changed.
          bind_result
            (label_all payload (
              ("total_change", "total")
              ∷ ("portfolio_trade_change", "portfolio/trade")
              ∷ ("market_change", "market")
              ∷ ("residual", "residual")
              ∷ []))
            (λ changes. bind_result (contributors_part payload) (λ contributors.
              bind_result (disclosed_part payload) (λ disclosed.
                bind_result
                  (label_all payload (("unit", "unit") ∷ ("sign_convention", "sign") ∷ []))
                  (λ units. bind_result (identity_part payload) (λ identity. ok (
                    concat
                      (joined "; " (
                        head ++ changed ++ changes ++ contributors ∷ disclosed ∷ units ++ identity))
                      "."))))))))
