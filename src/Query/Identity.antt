-- ===== src/Query/Identity.antt =====
-- The card of a payload, over all tools (backend/app/risk/query.py).
use quantlineage.Prelude.{
  String, ◌≡◌, Bool, true, false, List, [], ◌∷◌, inl, inr, if◌then◌else◌, Bool-cases, arith, All,
  subst, eq_iff,
}
use quantlineage.Prelude.Dict.{contains, get-put}
use quantlineage.Prelude.Call.{ok, bind_result-ok, ok_inj}
use quantlineage.Wire.{Json, text, Fields}
use quantlineage.Query.Tools.{
  RiskToolName, get_portfolio_summary, get_var_es, get_worst_stress, get_limits, get_contributors,
  explain_risk_change, search_instruments, get_market_history, get_data_quality, run_portfolio_risk,
  get_risk_run, compare_risk_runs, run_stress, get_key_rate_dv01, get_top_risk_contributors,
  get_run_provenance,
}
use quantlineage.Query.Texts.{missing_on_payload, card_identity_keys, risk_change_card_keys}
use quantlineage.Query.Card.{
  Card, payload_run_id, copy_present, set_default, fill_missing_identity, with_run_id, change_card,
  value_card, grounded_card, is_numeric_tool, change_identity_keys, numeric_identity_keys,
}
use quantlineage.Query.Copied.{
  Copied, IsCopy, copy_present-IsCopy, fill-IsCopy, default_run_id-IsCopy, with_run_id-IsCopy,
}

-- The keys that a card of the tool has whether or not the payload has them.
unfoldable pub identity_keys : RiskToolName → List String
identity_keys explain_risk_change = change_identity_keys
identity_keys compare_risk_runs = change_identity_keys
identity_keys tool = if is_numeric_tool tool then numeric_identity_keys else []

abbrev pub Has : Card → String → Type 0
Has card k = contains k card ≡ true

set_default-kept :
    (j k : String) (v : Json) (card : Card) → Has card j → Has (set_default k v card) j
unfolding set_default
set_default-kept j k v card h = elim (Bool-cases (contains k card)) [
  | inl there ↦ rw there h
  | inr new ↦ rw new (ground (arith, get-put k j v card))
]

set_default-Has : (k : String) (v : Json) (card : Card) → Has (set_default k v card) k
unfolding set_default
set_default-Has k v card = elim (Bool-cases (contains k card)) [
  | inl there ↦ rw there there
  | inr new ↦ rw new (ground (arith, get-put k k v card, eq_iff k k))
]

fill-kept :
    (j : String) (keys : List String) (card : Card)
    → Has card j
    → Has (fill_missing_identity card keys) j
unfolding fill_missing_identity
fill-kept j [] card h = h
fill-kept j (k ∷ keys) card h =
    fill-kept j keys _ (set_default-kept j k (text missing_on_payload) card h)

fill-Has : (keys : List String) (card : Card) → All (Has (fill_missing_identity card keys)) keys
unfolding fill_missing_identity
fill-Has [] card = tt
fill-Has (k ∷ keys) card = (
  fill-kept k keys _ (set_default-Has k (text missing_on_payload) card),
  fill-Has keys (set_default k (text missing_on_payload) card),
)

abbrev Whole : Fields → List String → Card → Type 0
Whole payload keys card = All (Copied payload) card × All (Has card) keys

change_card-Whole :
    (payload : Fields) (card : Card)
    → change_card payload ≡ ok card
    → Whole payload change_identity_keys card
unfolding change_card
change_card-Whole payload card h =
    let (copied, c, rest) =
      bind_result-ok (copy_present payload risk_change_card_keys []) _ card h in
    let (run_id, r, last) = bind_result-ok (payload_run_id payload) _ card rest in
    subst (Whole payload change_identity_keys) (ok_inj last) (
      fill-IsCopy payload change_identity_keys _ (
          default_run_id-IsCopy payload run_id copied r
            (copy_present-IsCopy payload risk_change_card_keys [] copied tt c)),
      fill-Has change_identity_keys _,
    )

filled_if :
    (payload : Fields) (b : Bool) (card : Card)
    → IsCopy payload card
    → Whole payload
        (if b then numeric_identity_keys else [])
        (if b then fill_missing_identity card numeric_identity_keys else card)
filled_if payload true card h =
    (fill-IsCopy payload numeric_identity_keys card h, fill-Has numeric_identity_keys card)
filled_if payload false card h = (h, tt)

value_card-Whole :
    (tool : RiskToolName) (payload : Fields) (card : Card)
    → value_card tool payload ≡ ok card
    → Whole payload (if is_numeric_tool tool then numeric_identity_keys else []) card
unfolding value_card
value_card-Whole tool payload card h =
    let (copied, c, rest) = bind_result-ok (copy_present payload card_identity_keys []) _ card h in
    let (run_id, r, last) = bind_result-ok (payload_run_id payload) _ card rest in
    subst (Whole payload (if is_numeric_tool tool then numeric_identity_keys else [])) (ok_inj last)
      (filled_if payload (is_numeric_tool tool) (with_run_id payload run_id copied) (
        with_run_id-IsCopy payload run_id copied r
          (copy_present-IsCopy payload card_identity_keys [] copied tt c)))

-- If a payload has a card, each entry of it has the value that its key has in the first of these
-- dicts that gives it one which is not `None`: the payload, the payloads of the items of its `results`
-- in their order, its `request`; or it is the entry `risk_run_id` with the value that the same dicts
-- give for `risk_run_id`, or else for `id`, or else for `run_id`; or it has the mark for a
-- missing value. And a card of a numeric tool has all the keys of its identity.
pub grounded_card-Copied :
    (tool : RiskToolName) (payload : Fields) (card : Card)
    → grounded_card tool payload ≡ ok card
    → All (Copied payload) card × All (Has card) (identity_keys tool)
unfolding grounded_card identity_keys
grounded_card-Copied explain_risk_change payload card h = change_card-Whole payload card h
grounded_card-Copied compare_risk_runs payload card h = change_card-Whole payload card h
grounded_card-Copied get_portfolio_summary payload card h =
    value_card-Whole get_portfolio_summary payload card h
grounded_card-Copied get_var_es payload card h = value_card-Whole get_var_es payload card h
grounded_card-Copied get_worst_stress payload card h =
    value_card-Whole get_worst_stress payload card h
grounded_card-Copied get_limits payload card h = value_card-Whole get_limits payload card h
grounded_card-Copied get_contributors payload card h =
    value_card-Whole get_contributors payload card h
grounded_card-Copied search_instruments payload card h =
    value_card-Whole search_instruments payload card h
grounded_card-Copied get_market_history payload card h =
    value_card-Whole get_market_history payload card h
grounded_card-Copied get_data_quality payload card h =
    value_card-Whole get_data_quality payload card h
grounded_card-Copied run_portfolio_risk payload card h =
    value_card-Whole run_portfolio_risk payload card h
grounded_card-Copied get_risk_run payload card h = value_card-Whole get_risk_run payload card h
grounded_card-Copied run_stress payload card h = value_card-Whole run_stress payload card h
grounded_card-Copied get_key_rate_dv01 payload card h =
    value_card-Whole get_key_rate_dv01 payload card h
grounded_card-Copied get_top_risk_contributors payload card h =
    value_card-Whole get_top_risk_contributors payload card h
grounded_card-Copied get_run_provenance payload card h =
    value_card-Whole get_run_provenance payload card h
