-- ===== src/Query/Bindings.antt =====
-- `route` (backend/app/risk/query.py) over all its branches.
use quantlineage.Prelude.{
  String, Bool, subst, true, false, refl, Option, none, some, ◌≡◌, if◌then◌else◌, Bool-cases, inl,
  inr, ◌&&◌, [], ◌∷◌,
}
use quantlineage.Prelude.Text.{is_empty, joined_words, strip}
use quantlineage.Wire.{text, end, field, find}
use quantlineage.Query.{Language}
use quantlineage.Query.Tools.{
  RiskToolName, run_portfolio_risk, get_worst_stress, get_top_risk_contributors, get_contributors,
  get_limits, get_var_es, get_portfolio_summary,
}
use quantlineage.Query.Plan.{tool_plan}
use quantlineage.Query.Plain.{is_plain}
use quantlineage.Query.Contracts.{tool_contract}
use quantlineage.Query.Args.{arg_slots, only_slots}
use quantlineage.Query.Marks.{
  is_instrument_discovery, is_history_question, is_data_quality_question, is_compare_runs_question,
  is_risk_change_question, mentions, ambiguous_tool_pair,
}
use quantlineage.Query.Route.{route, route_collided, route_identified, route_portfolio}
use quantlineage.Query.Bound.{
  BindsOrAsks, BindsOrAsks-when, asking, binding, some_inj, inputs_given, fits, fits_kind,
}
use quantlineage.Query.Routed.{
  stress_plan-BindsOrAsks, key_rate_plan-BindsOrAsks, quality_plan-BindsOrAsks,
  history_plan-BindsOrAsks, search_plan-BindsOrAsks, provenance_plan-BindsOrAsks,
  change_plan-BindsOrAsks, comparison_plan-BindsOrAsks,
}

module _ (py : Language) where
  run_type_bound :
      (b : Bool)
      → BindsOrAsks py (
          tool_plan "portfolio_risk" run_portfolio_risk
            (field "run_type" (text (if b then "var" else "summary")) end))
  unfolding tool_contract inputs_given find arg_slots only_slots fits fits_kind
  run_type_bound true = binding py "portfolio_risk" run_portfolio_risk _ refl refl refl refl
  run_type_bound false = binding py "portfolio_risk" run_portfolio_risk _ refl refl refl refl

  plain_tool :
      (intent : String) (tool : RiskToolName)
      → is_empty intent ≡ false
      → inputs_given (tool_contract tool).required_inputs end ≡ true
      → fits (arg_slots tool) end ≡ true
      → BindsOrAsks py (tool_plan intent tool end)
  unfolding only_slots
  plain_tool intent tool h k l = binding py intent tool end h k refl l

  route_portfolio-BindsOrAsks : (q : String) → BindsOrAsks py (route_portfolio py q)
  unfolding tool_contract inputs_given find arg_slots only_slots fits fits_kind route_portfolio
  route_portfolio-BindsOrAsks q =
      BindsOrAsks-when py _ _ _ (plain_tool "worst_scenario" get_worst_stress refl refl refl) (
        BindsOrAsks-when py _ _ _ (stress_plan-BindsOrAsks py q) (
          BindsOrAsks-when py _ _ _
            (BindsOrAsks-when py _ _ _
              (plain_tool "contributors" get_top_risk_contributors refl refl refl)
              (plain_tool "contributors" get_contributors refl refl refl))
            (BindsOrAsks-when py _ _ _ (plain_tool "limits" get_limits refl refl refl) (
              BindsOrAsks-when py _ _ _ (run_type_bound (mentions q ("var" ∷ []))) (
                BindsOrAsks-when py _ _ _ (plain_tool "var" get_var_es refl refl refl) (
                  BindsOrAsks-when py _ _ _
                    (plain_tool "portfolio_summary" get_portfolio_summary refl refl refl)
                    (BindsOrAsks-when py _ _ _ (asking py "ambiguous" _ none refl refl)
                      (asking py "unsupported" _ none refl refl))))))))

  route_identified-BindsOrAsks :
      (original q : String) → BindsOrAsks py (route_identified py original q)
  unfolding route_identified
  route_identified-BindsOrAsks original q =
      BindsOrAsks-when py _ _ _ (change_plan-BindsOrAsks py original _ refl refl) (
        BindsOrAsks-when py _ _ _ (comparison_plan-BindsOrAsks py original _ refl refl) (
          BindsOrAsks-when py _ _ _ (provenance_plan-BindsOrAsks py original) (
            BindsOrAsks-when py _ _ _ (key_rate_plan-BindsOrAsks py original) (
              BindsOrAsks-when py _ _ _ (quality_plan-BindsOrAsks py original) (
                BindsOrAsks-when py _ _ _ (search_plan-BindsOrAsks py original) (
                  BindsOrAsks-when py _ _ _ (history_plan-BindsOrAsks py original)
                    (route_portfolio-BindsOrAsks q)))))))

  plain_of :
      (s message : String)
      → is_empty message ≡ false
      → is_plain message ≡ true
      → ◌≡◌ {A = Option String} (some message) (some s)
      → (is_empty s ≡ false) × (is_plain s ≡ true)
  plain_of s message h k e =
      subst (λ x. (is_empty x ≡ false) × (is_plain x ≡ true)) (some_inj e) (h, k)

  collision_plain :
      (q s : String)
      → ambiguous_tool_pair py q ≡ some s
      → (is_empty s ≡ false) × (is_plain s ≡ true)
  unfolding ambiguous_tool_pair
  collision_plain q s h =
      elim (Bool-cases (is_instrument_discovery py q && is_history_question py q)) [
        | inl a ↦ plain_of s _ refl refl (rw a at h)
        | inr a ↦ elim (Bool-cases (is_instrument_discovery py q && is_data_quality_question q)) [
          | inl b ↦ plain_of s _ refl refl (rw (a, b) at h)
          | inr b ↦ elim (Bool-cases (is_compare_runs_question py q && is_risk_change_question q)) [
            | inl c ↦ plain_of s _ refl refl (rw (a, b, c) at h)
            | inr c ↦ cc (rw (a, b, c) at h)
          ]
        ]
      ]

  collided-BindsOrAsks :
      (original q : String) (pair : Option String)
      → ((s : String) → pair ≡ some s → (is_empty s ≡ false) × (is_plain s ≡ true))
      → BindsOrAsks py (route_collided py original q pair)
  unfolding route_collided
  collided-BindsOrAsks original q none h = route_identified-BindsOrAsks original q
  collided-BindsOrAsks original q (some s) h =
      asking py "ambiguous" s none (h s refl).0 (h s refl).1

  -- Whatever the question is: the plan asks for clarification with a text that has no digit; or it
  -- names a tool, has an intent, asks nothing, and its arguments have each input that the tool's contract requires
  -- but the portfolio, no key that the tool's argument model does not have, and for each field of
  -- that model a text, one of the listed values where the model lists them, or a default. Whether a
  -- text is a date, or has the length that the model asks for, is not part of this: `validate_args`
  -- looks at that when the call is made.
  pub route-BindsOrAsks : (question : String) → BindsOrAsks py (route py question)
  unfolding route
  route-BindsOrAsks question =
      let original = joined_words (strip question) in
      let q = py.lower original in
      BindsOrAsks-when py _ _ _ (asking py "unsupported" _ none refl refl) (
        BindsOrAsks-when py _ _ _ (asking py "unsupported" _ none refl refl) (
          BindsOrAsks-when py _ _ _ (asking py "unsupported" _ none refl refl) (
            BindsOrAsks-when py _ _ _ (asking py "unsupported" _ none refl refl) (
              BindsOrAsks-when py _ _ _ (asking py "unsupported" _ none refl refl)
                (collided-BindsOrAsks original q (ambiguous_tool_pair py q) (collision_plain q))))))
