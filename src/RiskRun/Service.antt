-- ===== src/RiskRun/Service.antt =====
-- `RiskRunService` of backend/app/services/risk_run_service.py over the in-memory repository: the
-- lifecycle QUEUED → RUNNING → COMPLETED | FAILED.

use quantlineage.Prelude.{
  ℕ, ◌+◌, String, Bool, false, not, ◌||◌, ◌==◌, Option, none, some, List, [], ◌∷◌, if◌then◌else◌,
}
use quantlineage.Prelude.Int.{pos_part, sub_ℕ}
use quantlineage.Prelude.Text.{strip, is_empty}
use quantlineage.Prelude.Dict
use quantlineage.Prelude.Call.{
  Result, ok, err, Call, pure, raise, lift, raise_if, value_error, key_error, run_not_found,
  invalid_transition, ◌>>=◌, ◌>>◌,
}
use quantlineage.Wire.{Json, Fields}
use quantlineage.Wire.Payload.{Validator, parse_result_payload}
use quantlineage.RiskRun.{
  RiskRun, RiskRunStatus, queued, running, completed, failed, VaRMethodology, AsOf,
  RiskRunCalculationConfig, construct, duration,
}
use quantlineage.RiskRun.Repo
use quantlineage.RiskRun.Repo.{RiskRunRepo, status_eq}

abbrev pub allowed_transitions : RiskRunStatus → List RiskRunStatus
allowed_transitions queued = running ∷ []
allowed_transitions running = completed ∷ failed ∷ []
allowed_transitions completed = []
allowed_transitions failed = []

abbrev pub status_in : RiskRunStatus → List RiskRunStatus → Bool
status_in s [] = false
status_in s (t ∷ ts) = status_eq s t || status_in s ts

abbrev pub can_transition : RiskRunStatus → RiskRunStatus → Bool
can_transition source target = status_in target (allowed_transitions source)

unfoldable pub parse_status : String → Result RiskRunStatus
parse_status value =
    if value == "QUEUED"
    then ok queued
    else if value == "RUNNING"
    then ok running
    else if value == "COMPLETED"
    then ok completed
    else if value == "FAILED"
    then ok failed
    else err value_error

-- Microseconds; a clock that was set back shows as 0.
unfoldable pub elapsed_seconds : ℕ → RiskRun → Option ℕ
elapsed_seconds now run = elim (duration run) [
  | some d ↦ some (pos_part d)
  | none ↦
      if not (status_eq run.status running)
      then none
      else elim run.started_at [ none ↦ none | some started ↦ some (pos_part (sub_ℕ now started)) ]
]

-- The keyword arguments of `enqueue`.
pub record RunSpec : Type 0 where
  pub run_id : String
  pub portfolio_id : String
  pub run_type : String
  pub request : Fields
  pub market_snapshot_id : Option String
  pub portfolio_version : Option ℕ
  pub pricing_engine_version : Option String
  pub methodology : Option VaRMethodology
  pub scenario_set : List String
  pub historical_dataset_id : Option String
  pub historical_dataset_version : Option String
  pub as_of : Option AsOf
  pub calculation_config : Option RiskRunCalculationConfig
  pub owner : Option String

-- The `RiskRun` that `enqueue` constructs, with the default `created_at`.
abbrev pub queued_run : RunSpec → ℕ → RiskRun
queued_run spec now = record {
  id = spec.run_id;
  portfolio_id = spec.portfolio_id;
  portfolio_version = spec.portfolio_version;
  owner = spec.owner;
  market_snapshot_id = spec.market_snapshot_id;
  created_at = now;
  started_at = none;
  completed_at = none;
  pricing_engine_version = spec.pricing_engine_version;
  methodology = spec.methodology;
  scenario_set = spec.scenario_set;
  historical_dataset_id = spec.historical_dataset_id;
  historical_dataset_version = spec.historical_dataset_version;
  as_of = spec.as_of;
  calculation_config = spec.calculation_config;
  status = queued;
  result_refs = [];
  error = none;
  run_type = spec.run_type;
  request = spec.request;
}

abbrev pub utcnow : (ℕ → ℕ) → Call RiskRunRepo ℕ
utcnow clock s = (ok (clock s.reads), record s { reads = s.reads + 1 })

-- `RiskRunService.get` and `_require`.
unfoldable pub require : String → Call RiskRunRepo RiskRun
require run_id s = elim (Dict.get run_id s.runs) [
  | none ↦ (err (run_not_found run_id), s)
  | some run ↦ (ok run, s)
]

-- `except KeyError as exc: raise RiskRunNotFound(run_id) from exc`
abbrev pub missing_as_not_found : {A : Type 0} → String → Call RiskRunRepo A → Call RiskRunRepo A
missing_as_not_found run_id m s =
    let (r, s') = m s in
    elim r [
      | ok a ↦ (ok a, s')
      | err e ↦ elim e [ key_error _ ↦ (err (run_not_found run_id), s') | other ↦ (err other, s') ]
    ]

-- `current.market_snapshot_id` as a truth value.
abbrev pub is_set : Option String → Bool
is_set none = false
is_set (some s) = not (is_empty s)

abbrev pub same_id : Option String → String → Bool
same_id none s = false
same_id (some t) s = t == s

unfoldable pub bind_market_snapshot : String → String → Call RiskRunRepo RiskRun
unfolding require Repo.bind_market_snapshot
bind_market_snapshot run_id snapshot_id = do
  let snap_id = strip snapshot_id
  raise_if (is_empty snap_id) value_error
  current ← require run_id
  if is_set current.market_snapshot_id
      then (raise_if (not (same_id current.market_snapshot_id snap_id)) value_error >> pure current)
      else missing_as_not_found run_id (Repo.bind_market_snapshot run_id snap_id)

unfoldable pub get_result_payloads : String → Call RiskRunRepo (Dict.Dict Fields)
unfolding Repo.get_result_payloads
get_result_payloads run_id s = elim (Repo.get_result_payloads run_id s) [
  | none ↦ (err (run_not_found run_id), s)
  | some payloads ↦ (ok payloads, s)
]

module _ (clock : ℕ → ℕ) where
  unfoldable pub enqueue : RunSpec → Call RiskRunRepo RiskRun
  unfolding construct Repo.create
  enqueue spec = do
    now ← utcnow clock
    run ← lift (construct (queued_run spec now))
    Repo.create run

  unfoldable pub transition : String → RiskRunStatus → Option String → Call RiskRunRepo RiskRun
  unfolding require Repo.set_status
  transition run_id target error = do
    current ← require run_id
    raise_if (not (can_transition current.status target)) (invalid_transition run_id)
    missing_as_not_found run_id (Repo.set_status clock run_id target error)

  unfoldable pub start : String → Call RiskRunRepo RiskRun
  start run_id = transition run_id running none

  unfoldable pub fail : String → String → Call RiskRunRepo RiskRun
  fail run_id error = do
    let message = strip error
    raise_if (is_empty message) value_error
    transition run_id failed (some message)

  module _ (validated : Validator) where
    -- Attaching the payload, which `complete` does before the transition if there is a result type.
    unfoldable pub attach : String → String → Option Json → Call RiskRunRepo (Unit {0})
    unfolding require Repo.add_result
    attach run_id result_type none = raise value_error
    attach run_id result_type (some payload) = do
      current ← require run_id
      raise_if (not (can_transition current.status completed)) (invalid_transition run_id)
      lift (parse_result_payload validated result_type payload)
      Repo.add_result validated run_id result_type payload

    unfoldable pub complete : String → Option String → Option Json → Call RiskRunRepo RiskRun
    complete run_id none payload = transition run_id completed none
    complete run_id (some result_type) payload = do
      attach run_id result_type payload
      transition run_id completed none
