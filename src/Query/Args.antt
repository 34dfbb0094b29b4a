-- ===== src/Query/Args.antt =====
-- The argument models of the tools: backend/app/risk/tool_contracts.py, and `RiskToolArgs` of
-- backend/app/risk/query.py. A model is its fields in order with what Pydantic checks of each; a key
-- that is no field is refused (`extra="forbid"`).
use quantlineage.Prelude.{
  ℕ, ◌-◌, String, Bool, true, false, ◌&&◌, ◌==◌, leb, Option, none, some, List, [], ◌∷◌,
  if◌then◌else◌,
}
use quantlineage.Prelude.Dict.{Dict}
use quantlineage.Prelude.Text.{text_length}
use quantlineage.Wire.{Json, null, text, Fields, end, field, find}
use quantlineage.Wire.Payload.{member}
use quantlineage.Query.Tools.{
  RiskToolName, get_portfolio_summary, get_var_es, get_worst_stress, get_limits, get_contributors,
  explain_risk_change, search_instruments, get_market_history, get_data_quality, run_portfolio_risk,
  get_risk_run, compare_risk_runs, run_stress, get_key_rate_dv01, get_top_risk_contributors,
  get_run_provenance,
}

abbrev pub history_max_range_days : ℕ
history_max_range_days = 1826

abbrev pub tool_arg_max_chars : ℕ
tool_arg_max_chars = 4096

-- A validated argument. A date is its `toordinal()`.
pub data Arg : Type 0 where
  absent : Arg
  words : String → Arg
  day : ℕ → Arg

-- `str` of 1 to 4096 characters, `date`, a `Literal`, and `str | None` or `Literal | None`.
pub data Kind : Type 0 where
  filled : Kind
  calendar : Kind
  literal : List String → Kind
  optional_text : Kind
  optional_literal : List String → Kind

pub record Slot : Type 0 where
  pub name : String
  pub kind : Kind
  pub default : Option Arg

abbrev pub required : String → Kind → Slot
required name kind = record { name = name; kind = kind; default = none }

abbrev pub defaulted : String → Kind → Arg → Slot
defaulted name kind value = record { name = name; kind = kind; default = some value }

abbrev pub allowlisted_stress_scenarios : List String
allowlisted_stress_scenarios =
    "eq_down_10" ∷ "rates_up_100" ∷ "vol_up_25" ∷ "eq_down_vol_up" ∷ "combined_crisis" ∷ []

abbrev pub showcase_tenors : List String
showcase_tenors = "2Y" ∷ "5Y" ∷ "10Y" ∷ []

abbrev pub risk_change_metrics : List String
risk_change_metrics =
    "var_99" ∷ "var_95" ∷ "expected_shortfall_99" ∷ "dv01" ∷ "vega" ∷ "stress" ∷ []

abbrev pub range_slots : List Slot
range_slots =
    required "instrument_id" filled ∷ required "start" calendar ∷ required "end" calendar ∷ []

abbrev pub run_id_slots : List Slot
run_id_slots = required "run_id" filled ∷ []

abbrev pub compare_slots : List Slot
compare_slots =
    required "t0_run_id" filled
    ∷ required "t1_run_id" filled
    ∷ defaulted "metric" (literal risk_change_metrics) (words "var_99")
    ∷ []

-- `TOOL_ARG_MODELS[name]`
unfoldable pub arg_slots : RiskToolName → List Slot
arg_slots get_portfolio_summary = []
arg_slots get_var_es = []
arg_slots get_worst_stress = []
arg_slots get_limits = []
arg_slots get_contributors = []
arg_slots explain_risk_change = compare_slots
arg_slots search_instruments = required "query" filled ∷ []
arg_slots get_market_history = range_slots
arg_slots get_data_quality = range_slots
arg_slots run_portfolio_risk =
    defaulted "run_type" (literal ("summary" ∷ "var" ∷ [])) (words "summary")
    ∷ defaulted "market_snapshot_id" optional_text absent
    ∷ []
arg_slots get_risk_run = run_id_slots
arg_slots compare_risk_runs = compare_slots
arg_slots run_stress =
    defaulted "scenario_id" (literal allowlisted_stress_scenarios) (words "eq_down_10")
    ∷ defaulted "market_snapshot_id" optional_text absent
    ∷ []
arg_slots get_key_rate_dv01 = defaulted "tenor" (optional_literal showcase_tenors) absent ∷ []
arg_slots get_top_risk_contributors = []
arg_slots get_run_provenance = run_id_slots

-- Reading one value. `date` is Pydantic's: the parameter.
abbrev pub among : List String → Json → Option Arg
among values (text s) = if member s values then some (words s) else none
among values _ = none

abbrev pub at_most : Json → Option Arg
at_most (text s) = if leb (text_length s) tool_arg_max_chars then some (words s) else none
at_most _ = none

abbrev pub filled_text : Json → Option Arg
filled_text (text s) = if leb 1 (text_length s) then at_most (text s) else none
filled_text _ = none

abbrev pub or_none : (Json → Option Arg) → Json → Option Arg
or_none read null = some absent
or_none read v = read v

unfoldable pub read_arg : (Json → Option ℕ) → Kind → Json → Option Arg
read_arg date filled v = filled_text v
read_arg date calendar v = elim (date v) [ none ↦ none | some d ↦ some (day d) ]
read_arg date (literal values) v = among values v
read_arg date optional_text v = or_none at_most v
read_arg date (optional_literal values) v = or_none (among values) v

unfoldable pub read_slot : (Json → Option ℕ) → Fields → Slot → Option Arg
read_slot date fs slot = elim (find slot.name fs) [
  | none ↦ slot.default
  | some v ↦ read_arg date slot.kind v
]

unfoldable pub read_slots : (Json → Option ℕ) → Fields → List Slot → Option (Dict Arg)
read_slots date fs [] = some []
read_slots date fs (slot ∷ slots) =
    let rest = read_slots date fs slots in
    elim (read_slot date fs slot) [
      | none ↦ none
      | some a ↦ elim rest [ none ↦ none | some args ↦ some ((slot.name, a) ∷ args) ]
    ]

abbrev pub slot_among : String → List Slot → Bool
slot_among k [] = false
slot_among k (slot ∷ slots) = if slot.name == k then true else slot_among k slots

unfoldable pub only_slots : List Slot → Fields → Bool
only_slots slots end = true
only_slots slots (field k _ fs) = slot_among k slots && only_slots slots fs

-- The two `model_validator(mode="after")`.
abbrev pub in_range : Option ℕ → Dict Arg → Bool
in_range cap ((_, words _) ∷ (_, day start) ∷ (_, day last) ∷ []) =
    if leb start last then elim cap [ none ↦ true | some days ↦ leb (last - start) days ] else false
in_range cap _ = false

unfoldable pub after_checks : RiskToolName → Dict Arg → Bool
after_checks get_market_history args = in_range (some history_max_range_days) args
after_checks get_data_quality args = in_range none args
after_checks _ args = true

-- `TOOL_ARG_MODELS[name].model_validate(args).model_dump()`, with `none` for a `ValidationError`.
unfoldable pub validated_args : (Json → Option ℕ) → RiskToolName → Fields → Option (Dict Arg)
validated_args date name fs =
    if only_slots (arg_slots name) fs
    then elim (read_slots date fs (arg_slots name)) [
      | none ↦ none
      | some args ↦ if after_checks name args then some args else none
    ]
    else none
