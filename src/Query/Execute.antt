-- ===== src/Query/Execute.antt =====
-- `execute_allowlisted_tool` (backend/app/risk/tool_contracts.py): one tool is one call of the service,
-- and the payload is what the service returned. The last `raise` is for names that are no tool.
use quantlineage.Prelude.{String, Option, none, some, List, [], ◌∷◌, take}
use quantlineage.Prelude.Dict.{Dict, get}
use quantlineage.Prelude.Call.{
  Fault, Result, ok, err, Call, pure, lift, ◌>>=◌, bind_result, value_error, attribute_error,
}
use quantlineage.Wire.{list, obj, Items, nil, cons, Fields, end, field}
use quantlineage.Hierarchy.{Portfolio}
use quantlineage.Query.Tools.{
  RiskToolName, get_portfolio_summary, get_var_es, get_worst_stress, get_limits, get_contributors,
  explain_risk_change, search_instruments, get_market_history, get_data_quality, run_portfolio_risk,
  get_risk_run, compare_risk_runs, run_stress, get_key_rate_dv01, get_top_risk_contributors,
  get_run_provenance,
}
use quantlineage.Query.Args.{Arg, absent, words}
use quantlineage.Query.Service.{
  Value, arg, book, blob, Keywords, Method, Service, supported_kwargs, owner_of, argument,
  required_arg, argument_or, for_tenor,
}

module _ {S O : Type 0} (service : Service S O) where
  -- `_dump`
  unfoldable pub dump : O → Result Fields
  dump value = elim (service.model_dump value) [
    | none ↦ service.as_dict value
    | some dumped ↦ ok dumped
  ]

  abbrev pub dump_items : List O → Result Items
  dump_items [] = ok nil
  dump_items (item ∷ items) =
      let rest = dump_items items in
      bind_result (dump item) (λ fs. bind_result rest (λ xs. ok (cons (obj fs) xs)))

  -- `{name: [_dump(item) for item in items]}`
  abbrev pub listed : String → Result (List O) → Result Fields
  listed name items =
      bind_result items (λ os. bind_result (dump_items os) (λ xs. ok (field name (list xs) end)))

  abbrev pub first_five : Result (List O) → Result (List O)
  first_five items = bind_result items (λ os. ok (take 5 os))

  abbrev pub hits_of : O → O
  hits_of result = elim (service.hits result) [ none ↦ result | some inner ↦ inner ]

  -- A method that must be there, with the exception that the code raises without it.
  abbrev pub method_or : String → Fault → Call S (Method S O)
  method_or name fault s = elim (service.attribute name) [
    | none ↦ (err fault, s)
    | some method ↦ (ok method, s)
  ]

  abbrev pub require_submit : Call S (Method S O)
  require_submit = method_or "submit" value_error

  abbrev pub compare_runs_fn : Call S (Method S O)
  compare_runs_fn = elim (service.attribute "compare_runs") [
    | some compare ↦ pure compare
    | none ↦ method_or "explain_risk_change" attribute_error
  ]

  -- `_dump(_call(fn, *args, **kwargs))`
  unfoldable pub dump_call : Method S O → List Value → Keywords → Call S Fields
  dump_call fn args kwargs = do
    result ← fn.run args (supported_kwargs fn.declares kwargs)
    lift (dump result)

  -- `service.name(portfolio)`
  abbrev pub on_portfolio : String → Portfolio → Call S O
  on_portfolio name portfolio = do
    fn ← method_or name attribute_error
    fn.run (book portfolio ∷ []) []

  unfoldable pub search_tool : Dict Arg → Call S Fields
  search_tool args = do
    query ← lift (argument args "query")
    result ← elim (service.attribute "search_catalog") [
      | some search ↦ search.run (query ∷ []) []
      | none ↦ service.search_catalog query
    ]
    lift (listed "hits" (service.elements (hits_of result)))

  unfoldable pub range_tool : String → Dict Arg → Call S Fields
  range_tool name args = do
    fetch ← method_or name value_error
    instrument_id ← lift (argument args "instrument_id")
    start ← lift (argument args "start")
    last ← lift (argument args "end")
    result ← fetch.run (instrument_id ∷ start ∷ last ∷ []) []
    lift (dump result)

  unfoldable pub run_id_tool : String → Dict Arg → Option String → Call S Fields
  run_id_tool name args principal = do
    fetch ← method_or name value_error
    run_id ← lift (argument args "run_id")
    dump_call fetch (run_id ∷ []) (("principal", owner_of principal) ∷ [])

  unfoldable pub compare_tool : Dict Arg → Option String → Call S Fields
  compare_tool args principal = do
    compare ← compare_runs_fn
    t0 ← lift (argument args "t0_run_id")
    t1 ← lift (argument args "t1_run_id")
    dump_call compare (t0 ∷ t1 ∷ []) (
        ("metric", argument_or args "metric" (words "var_99"))
        ∷ ("principal", owner_of principal)
        ∷ [])

  unfoldable pub execute_tool : RiskToolName → Portfolio → Dict Arg → Option String → Call S Fields
  execute_tool search_instruments portfolio args principal = search_tool args
  execute_tool get_market_history portfolio args principal = range_tool "get_market_history" args
  execute_tool get_data_quality portfolio args principal = range_tool "get_data_quality" args
  execute_tool run_portfolio_risk portfolio args principal = do
    submit ← require_submit
    dump_call submit [] (
        ("portfolio", book portfolio)
        ∷ ("run_type", argument_or args "run_type" (words "summary"))
        ∷ ("request", blob [])
        ∷ ("market_snapshot_id", argument_or args "market_snapshot_id" absent)
        ∷ ("owner", owner_of principal)
        ∷ [])
  execute_tool get_risk_run portfolio args principal = run_id_tool "get" args principal
  execute_tool compare_risk_runs portfolio args principal = compare_tool args principal
  execute_tool explain_risk_change portfolio args principal = compare_tool args principal
  execute_tool run_stress portfolio args principal = do
    submit ← require_submit
    scenario_id ← lift (required_arg args "scenario_id")
    dump_call submit [] (
        ("portfolio", book portfolio)
        ∷ ("run_type", arg (words "stress"))
        ∷ ("request", blob (("scenario_id", scenario_id) ∷ []))
        ∷ ("market_snapshot_id", argument_or args "market_snapshot_id" absent)
        ∷ ("owner", owner_of principal)
        ∷ [])
  execute_tool get_key_rate_dv01 portfolio args principal = do
    showcase ← method_or "build_rates_showcase" value_error
    result ← showcase.run [] []
    payload ← lift (dump result)
    lift (for_tenor (get "tenor" args) payload)
  execute_tool get_top_risk_contributors portfolio args principal = do
    submit ← require_submit
    dump_call submit [] (
        ("portfolio", book portfolio)
        ∷ ("run_type", arg (words "contributors"))
        ∷ ("request", blob [])
        ∷ ("owner", owner_of principal)
        ∷ [])
  execute_tool get_run_provenance portfolio args principal =
      run_id_tool "get_run_provenance" args principal
  execute_tool get_portfolio_summary portfolio args principal = do
    result ← on_portfolio "summary" portfolio
    lift (dump result)
  execute_tool get_var_es portfolio args principal = do
    result ← on_portfolio "var_report" portfolio
    lift (dump result)
  execute_tool get_worst_stress portfolio args principal = do
    result ← on_portfolio "threat_evaluation" portfolio
    lift (dump result)
  execute_tool get_limits portfolio args principal = do
    result ← on_portfolio "limits" portfolio
    lift (listed "limits" (service.elements result))
  execute_tool get_contributors portfolio args principal = do
    result ← on_portfolio "contributors" portfolio
    lift (listed "contributors" (first_five (service.elements result)))
