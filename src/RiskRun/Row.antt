-- ===== src/RiskRun/Row.antt =====
-- The database row of a run: backend/app/persistence/risk_run_mapping.py. An instant is stored as it
-- is, so `_as_utc` changes nothing, and a row always has its `created_at`.
use quantlineage.Prelude.{
  ℕ, suc, ◌||◌, ◌&&◌, not, leb, ltb, Bool, true, false, String, ◌==◌, Option, none, some, List, [],
  ◌∷◌, if◌then◌else◌,
}
use Prim.Native.Nat.{◌^◌}
use quantlineage.Prelude.Int.{ℤ, pos, negsuc, pos_part}
use quantlineage.Prelude.Text.{strip, is_empty}
use quantlineage.Prelude.Call.{Result, ok, err, bind_result, value_error}
use quantlineage.Wire.{find, Double, finite, Json, null, int, float, Fields, end, field}
use quantlineage.RiskRun.{
  RiskRunStatus, VaRMethodology, linear, delta_gamma, full_revaluation, AsOf, day, current, t0,
  RiskResultRef, RiskRunCalculationConfig, RiskRun, construct,
}

-- What the mapping takes from elsewhere: `str.lower`, `date.isoformat`, the shape test with
-- `date.fromisoformat`, and Pydantic's reading of a value as an `int` and as a `float`.
pub record Codec : Type 0 where
  pub lower : String → String
  pub iso_format : ℕ → String
  pub from_iso : String → Option ℕ
  pub as_int : Json → Option ℤ
  pub as_float : Json → Option Double

pub record RiskResultRow : Type 0 where
  pub id : ℕ
  pub result_type : String
  pub payload : Fields

pub record RiskRunRow : Type 0 where
  pub id : String
  pub portfolio_id : String
  pub portfolio_version : Option ℕ
  pub owner : Option String
  pub market_snapshot_id : Option String
  pub status : RiskRunStatus
  pub run_type : String
  pub request : Fields
  pub pricing_engine_version : Option String
  pub methodology : Option String
  pub scenario_set : List String
  pub historical_dataset_id : Option String
  pub historical_dataset_version : Option String
  pub as_of : Option String
  pub calculation_config : Option Fields
  pub error_message : Option String
  pub created_at : ℕ
  pub started_at : Option ℕ
  pub finished_at : Option ℕ
  pub results : List RiskResultRow

-- `methodology.value`, and `VaRMethodology(value)`.
abbrev pub methodology_value : VaRMethodology → String
methodology_value linear = "LINEAR"
methodology_value delta_gamma = "DELTA_GAMMA"
methodology_value full_revaluation = "FULL_REVALUATION"

unfoldable pub methodology_of : String → Result (Option VaRMethodology)
methodology_of s =
    if s == "LINEAR"
    then ok (some linear)
    else if s == "DELTA_GAMMA"
    then ok (some delta_gamma)
    else if s == "FULL_REVALUATION"
    then ok (some full_revaluation)
    else err value_error

abbrev pub or_null {ℓ} : {A : Type ℓ} → (A → Json) → Option A → Json
or_null f none = null
or_null f (some a) = f a

-- `calculation_config.model_dump()`
abbrev pub dump_config : RiskRunCalculationConfig → Fields
dump_config c =
    field "observations" (or_null (λ n. int (pos n)) c.observations)
      (field "seed" (or_null int c.seed) (field "confidence" (or_null float c.confidence) end))

-- The constraints of the fields of `RiskRunCalculationConfig`: no other key, from 1 to 5000
-- observations, and a confidence strictly between 0 and 1.
abbrev pub known_keys : Fields → Bool
known_keys end = true
known_keys (field k v fs) =
    (k == "observations" || (k == "seed" || k == "confidence")) && known_keys fs

abbrev pub is_observations : ℕ → Bool
is_observations n = leb 1 n && leb n 5000

abbrev pub in_unit : Double → Bool
in_unit (finite (pos m) (negsuc e)) = leb 1 m && ltb m (2 ^ suc e)
in_unit _ = false

module _ (codec : Codec) where
  -- `as_of_wire`
  abbrev pub as_of_wire : AsOf → String
  as_of_wire (day d) = codec.iso_format d
  as_of_wire current = "current"
  as_of_wire t0 = "t0"

  -- `_coerce_as_of` of a text, with `none` for its error.
  unfoldable pub coerce_as_of : String → Option AsOf
  coerce_as_of value =
      let lowered = codec.lower (strip value) in
      if lowered == "current"
      then some current
      else if lowered == "t0"
      then some t0
      else elim (codec.from_iso (strip value)) [ none ↦ none | some d ↦ some (day d) ]

  unfoldable pub parse_methodology : Option String → Result (Option VaRMethodology)
  parse_methodology none = ok none
  parse_methodology (some s) = if is_empty s then ok none else methodology_of s

  unfoldable pub parse_as_of : Option String → Result (Option AsOf)
  parse_as_of none = ok none
  parse_as_of (some s) =
      if is_empty s
      then ok none
      else elim (coerce_as_of s) [ none ↦ err value_error | some a ↦ ok (some a) ]

  -- A field that may be absent or `None`, and its constraint; the outer `none` is an error.
  abbrev pub optional : {A : Type 0} → (Json → Option A) → Option Json → Option (Option A)
  optional read none = some none
  optional read (some null) = some none
  optional read (some v) = elim (read v) [ none ↦ none | some a ↦ some (some a) ]

  abbrev pub bounded_int : Option ℤ → Option ℕ
  bounded_int none = none
  bounded_int (some n) = if is_observations (pos_part n) then some (pos_part n) else none

  abbrev pub unit_float : Option Double → Option Double
  unit_float none = none
  unit_float (some x) = if in_unit x then some x else none

  -- `RiskRunCalculationConfig.model_validate`
  unfoldable pub config_of : Fields → Option RiskRunCalculationConfig
  config_of fs =
      if not (known_keys fs)
      then none
      else elim (optional (λ v. bounded_int (codec.as_int v)) (find "observations" fs)) [
        | none ↦ none
        | some n ↦ elim (optional codec.as_int (find "seed" fs)) [
          | none ↦ none
          | some s ↦ elim (optional (λ v. unit_float (codec.as_float v)) (find "confidence" fs)) [
            | none ↦ none
            | some x ↦ some (record { observations = n; seed = s; confidence = x })
          ]
        ]
      ]

  unfoldable pub parse_calculation_config : Option Fields → Result (Option RiskRunCalculationConfig)
  parse_calculation_config none = ok none
  parse_calculation_config (some end) = ok none
  parse_calculation_config (some (field k v fs)) = elim (config_of (field k v fs)) [
    | none ↦ err value_error
    | some c ↦ ok (some c)
  ]

  -- `text or None`
  abbrev pub truthy_or_none : Option String → Option String
  truthy_or_none none = none
  truthy_or_none (some s) = if is_empty s then none else some s

  abbrev pub refs_of : List RiskResultRow → List RiskResultRef
  refs_of [] = []
  refs_of (r ∷ rs) = record { result_type = r.result_type; result_id = some r.id } ∷ refs_of rs

  unfoldable pub row_to_risk_run : RiskRunRow → Result RiskRun
  row_to_risk_run row = bind_result (parse_methodology row.methodology) (λ methodology.
      bind_result (parse_as_of row.as_of) (λ as_of.
        bind_result (parse_calculation_config row.calculation_config) (λ config. construct (record {
          id = row.id;
          portfolio_id = row.portfolio_id;
          portfolio_version = row.portfolio_version;
          owner = row.owner;
          market_snapshot_id = row.market_snapshot_id;
          created_at = row.created_at;
          started_at = row.started_at;
          completed_at = row.finished_at;
          pricing_engine_version = row.pricing_engine_version;
          methodology = methodology;
          scenario_set = row.scenario_set;
          historical_dataset_id = truthy_or_none row.historical_dataset_id;
          historical_dataset_version = truthy_or_none row.historical_dataset_version;
          as_of = as_of;
          calculation_config = config;
          status = row.status;
          result_refs = refs_of row.results;
          error = row.error_message;
          run_type = row.run_type;
          request = row.request;
        }))))

  abbrev pub mapped {ℓ κ} : {A : Type ℓ} {B : Type κ} → (A → B) → Option A → Option B
  mapped f none = none
  mapped f (some a) = some (f a)

  unfoldable pub risk_run_to_row : RiskRun → RiskRunRow
  risk_run_to_row run = record {
    id = run.id;
    portfolio_id = run.portfolio_id;
    portfolio_version = run.portfolio_version;
    owner = run.owner;
    market_snapshot_id = run.market_snapshot_id;
    status = run.status;
    run_type = run.run_type;
    request = run.request;
    pricing_engine_version = run.pricing_engine_version;
    methodology = mapped methodology_value run.methodology;
    scenario_set = run.scenario_set;
    historical_dataset_id = run.historical_dataset_id;
    historical_dataset_version = run.historical_dataset_version;
    as_of = mapped as_of_wire run.as_of;
    calculation_config = mapped dump_config run.calculation_config;
    error_message = run.error;
    created_at = run.created_at;
    started_at = run.started_at;
    finished_at = run.completed_at;
    results = [];
  }
