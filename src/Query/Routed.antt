-- ===== src/Query/Routed.antt =====
-- The branches of `route` (backend/app/risk/query.py): each asks, or binds what its tool requires.
use quantlineage.Prelude.{
  String, ◌≡◌, refl, Bool, true, false, ◌&&◌, Option, none, some, List, [], ◌∷◌, inl, inr,
  Bool-cases, Option-cases, subst, all,
}
use quantlineage.Prelude.Text.{is_empty, is_in}
use quantlineage.Wire.{text, end, field, find}
use quantlineage.Wire.Payload.{member}
use quantlineage.Query.{Language}
use quantlineage.Query.Tools.{
  RiskToolName, get_run_provenance, get_key_rate_dv01, get_data_quality, search_instruments,
  get_market_history, run_stress, explain_risk_change, compare_risk_runs,
}
use quantlineage.Query.Contracts.{tool_contract}
use quantlineage.Query.Texts.{stress_aliases}
use quantlineage.Query.Marks.{named_among, named_stress_scenario}
use quantlineage.Query.Args.{arg_slots, only_slots, allowlisted_stress_scenarios, showcase_tenors}
use quantlineage.Query.Extract.{tenor_among, extract_showcase_tenor}
use quantlineage.Query.Plan.{
  plan_for_ids, provenance_for, search_for, key_rate_for, tool_plan, plan_for_two_run_ids,
  provenance_plan, key_rate_plan, range_plan, quality_plan, history_plan, search_plan,
}
use quantlineage.Query.Route.{stress_plan}
use quantlineage.Query.Plain.{is_plain}
use quantlineage.Query.Bound.{
  inputs_given, fits, fits_kind, BindsOrAsks, asking, binding, both, some_inj,
}
use quantlineage.Query.Extract.{extract_run_ids, extract_search_query}

abbrev all_allowed : List (String × String) → Bool
all_allowed [] = true
all_allowed ((_, t) ∷ rest) = member t allowlisted_stress_scenarios && all_allowed rest

named_among_lem :
    (q s : String) (aliases : List (String × String))
    → all_allowed aliases ≡ true
    → named_among q aliases ≡ some s
    → member s allowlisted_stress_scenarios ≡ true
named_among_lem q s [] all h = cc h
named_among_lem q s ((a, t) ∷ rest) all h = elim (Bool-cases (is_in a q)) [
  | inl named ↦
      let same : t ≡ s = some_inj (rw named at h) in
      subst (λ x. member x allowlisted_stress_scenarios ≡ true) same (both all).0
  | inr other ↦ named_among_lem q s rest (both all).1 (rw other at h)
]

-- A scenario that an alias names is on the list of the tool's argument.
alias_is_allowed :
    (q s : String) → named_stress_scenario q ≡ some s → member s allowlisted_stress_scenarios ≡ true
unfolding named_stress_scenario
alias_is_allowed q s h = named_among_lem q s stress_aliases refl h

tenor_among_lem :
    (upper s : String) (tenors : List String)
    → all (λ t. member t showcase_tenors) tenors ≡ true
    → tenor_among upper tenors ≡ some s
    → member s showcase_tenors ≡ true
tenor_among_lem upper s [] h k = cc k
tenor_among_lem upper s (t ∷ rest) h k = elim (Bool-cases (is_in t upper)) [
  | inl named ↦
      let same : t ≡ s = some_inj (rw named at k) in
      subst (λ x. member x showcase_tenors ≡ true) same (both h).0
  | inr other ↦ tenor_among_lem upper s rest (both h).1 (rw other at k)
]

module _ (py : Language) where
  stress_chosen :
      (s : String)
      → member s allowlisted_stress_scenarios ≡ true
      → BindsOrAsks py (stress_plan (some s))
  unfolding tool_contract inputs_given find arg_slots only_slots fits fits_kind stress_plan
  stress_chosen s h = binding py "stress" run_stress _ refl refl refl (rw h refl)

  pub stress_plan-BindsOrAsks :
      (q : String) → BindsOrAsks py (stress_plan (named_stress_scenario q))
  stress_plan-BindsOrAsks q = elim (Option-cases (named_stress_scenario q)) [
    | inl e ↦ rw e (unfold stress_plan in asking py "stress" _ (some run_stress) refl refl)
    | inr (s, e) ↦ rw e (stress_chosen s (alias_is_allowed q s e))
  ]

  key_rate_found :
      (tenor : Option String)
      → ((s : String) → tenor ≡ some s → member s showcase_tenors ≡ true)
      → BindsOrAsks py (key_rate_for tenor)
  unfolding tool_contract inputs_given find arg_slots only_slots fits fits_kind key_rate_for
  key_rate_found none h = binding py "get_key_rate_dv01" get_key_rate_dv01 _ refl refl refl refl
  key_rate_found (some s) h =
      binding py "get_key_rate_dv01" get_key_rate_dv01 _ refl refl refl (rw (h s refl) refl)

  pub key_rate_plan-BindsOrAsks : (original : String) → BindsOrAsks py (key_rate_plan py original)
  unfolding extract_showcase_tenor
  key_rate_plan-BindsOrAsks original =
      key_rate_found (extract_showcase_tenor py original)
        (λ s e. tenor_among_lem (py.upper original) s ("10Y" ∷ "5Y" ∷ "2Y" ∷ []) refl e)

  range_plan-BindsOrAsks :
      (intent : String) (tool : RiskToolName) (missing : String) (id : Option String)
      (dates : List String)
      → is_empty missing ≡ false
      → is_plain missing ≡ true
      → ((i a b : String)
          → BindsOrAsks py (
              tool_plan intent tool (
                field "instrument_id"
                  (text i)
                  (field "start" (text a) (field "end" (text b) end)))))
      → BindsOrAsks py (range_plan intent tool missing id dates)
  unfolding range_plan
  range_plan-BindsOrAsks intent tool missing none dates h k good = asking py intent missing _ h k
  range_plan-BindsOrAsks intent tool missing (some i) [] h k good = asking py intent missing _ h k
  range_plan-BindsOrAsks intent tool missing (some i) (a ∷ []) h k good =
      asking py intent missing _ h k
  range_plan-BindsOrAsks intent tool missing (some i) (a ∷ b ∷ _) h k good = good i a b

  pub quality_plan-BindsOrAsks : (original : String) → BindsOrAsks py (quality_plan py original)
  unfolding tool_contract inputs_given find arg_slots only_slots fits fits_kind quality_plan
  quality_plan-BindsOrAsks original =
      range_plan-BindsOrAsks "quality" get_data_quality _ _ _ refl refl
        (λ i a b. binding py "quality" get_data_quality _ refl refl refl refl)

  pub history_plan-BindsOrAsks : (original : String) → BindsOrAsks py (history_plan py original)
  unfolding tool_contract inputs_given find arg_slots only_slots fits fits_kind history_plan
  history_plan-BindsOrAsks original =
      range_plan-BindsOrAsks "history" get_market_history _ _ _ refl refl
        (λ i a b. binding py "history" get_market_history _ refl refl refl refl)

  search_found : (query : Option String) → BindsOrAsks py (search_for query)
  unfolding tool_contract inputs_given find arg_slots only_slots fits fits_kind search_for
  search_found none = asking py "instrument_discovery" _ _ refl refl
  search_found (some s) = binding py "instrument_discovery" search_instruments _ refl refl refl refl

  pub search_plan-BindsOrAsks : (original : String) → BindsOrAsks py (search_plan py original)
  search_plan-BindsOrAsks original = search_found (extract_search_query py original)

  provenance_found : (ids : List String) → BindsOrAsks py (provenance_for ids)
  unfolding tool_contract inputs_given find arg_slots only_slots fits fits_kind provenance_for
  provenance_found [] = asking py "provenance" _ _ refl refl
  provenance_found (i ∷ _) = binding py "provenance" get_run_provenance _ refl refl refl refl

  pub provenance_plan-BindsOrAsks :
      (original : String) → BindsOrAsks py (provenance_plan py original)
  provenance_plan-BindsOrAsks original = provenance_found (extract_run_ids py original)

  two_runs :
      (intent : String) (tool : RiskToolName) (missing : String) (ids : List String)
      → is_empty missing ≡ false
      → is_plain missing ≡ true
      → ((a b : String)
          → BindsOrAsks py
              (tool_plan intent tool (field "t0_run_id" (text a) (field "t1_run_id" (text b) end))))
      → BindsOrAsks py (plan_for_ids intent tool missing ids)
  unfolding plan_for_ids
  two_runs intent tool missing [] h k good = asking py intent missing _ h k
  two_runs intent tool missing (a ∷ []) h k good = asking py intent missing _ h k
  two_runs intent tool missing (a ∷ b ∷ _) h k good = good a b

  pub change_plan-BindsOrAsks :
      (original missing : String)
      → is_empty missing ≡ false
      → is_plain missing ≡ true
      → BindsOrAsks py
          (plan_for_two_run_ids py "explain_risk_change" explain_risk_change original missing)
  unfolding tool_contract inputs_given find arg_slots only_slots fits fits_kind
  change_plan-BindsOrAsks original missing h k =
      two_runs _ _ missing (extract_run_ids py original) h k
        (λ a b. binding py "explain_risk_change" explain_risk_change _ refl refl refl refl)

  pub comparison_plan-BindsOrAsks :
      (original missing : String)
      → is_empty missing ≡ false
      → is_plain missing ≡ true
      → BindsOrAsks py (plan_for_two_run_ids py "run_comparison" compare_risk_runs original missing)
  unfolding tool_contract inputs_given find arg_slots only_slots fits fits_kind
  comparison_plan-BindsOrAsks original missing h k =
      two_runs _ _ missing (extract_run_ids py original) h k
        (λ a b. binding py "run_comparison" compare_risk_runs _ refl refl refl refl)
