-- ===== src/RiskRun/Stored.antt =====
-- Writing a run to its row and reading it (backend/app/persistence/risk_run_mapping.py).
use quantlineage.Prelude.{
  ℕ, Bool, ◌&&◌, String, true, false, ◌==◌, Option, none, some, List, ◌≡◌, refl, arith, inl, inr,
  Bool-cases,
}
use quantlineage.Prelude.Text.{strip, lstrip, rstrip, is_empty}
use quantlineage.Prelude.Call.{ok}
use quantlineage.Prelude.Int.{ℤ, pos}
use quantlineage.Wire.{Double, int, float, find}
use quantlineage.RiskRun.{
  VaRMethodology, linear, delta_gamma, full_revaluation, AsOf, day, current, t0,
  RiskRunCalculationConfig, RiskRun, filled_if_set, is_valid, identity_ok, construct,
}
use quantlineage.RiskRun.Row.{
  Codec, RiskResultRow, methodology_value, methodology_of, dump_config, as_of_wire, coerce_as_of,
  parse_methodology, parse_as_of, parse_calculation_config, truthy_or_none, refs_of,
  row_to_risk_run, mapped, risk_run_to_row, optional, bounded_int, unit_float, or_null,
  is_observations, in_unit, config_of,
}

-- What reading an ISO date relies on: `isoformat` gives a text without blanks at its ends that is no
-- label in lower case, and that `fromisoformat` reads back.
pub record ReadsDate (codec : Codec) (d : ℕ) : Type 0 where
  pub written : is_empty (codec.iso_format d) ≡ false
  pub stripped : strip (codec.iso_format d) ≡ codec.iso_format d
  pub not_current : (codec.lower (codec.iso_format d) == "current") ≡ false
  pub not_t0 : (codec.lower (codec.iso_format d) == "t0") ≡ false
  pub read : codec.from_iso (codec.iso_format d) ≡ some d

abbrev pub ReadsAsOf : Codec → Option AsOf → Type 0
ReadsAsOf codec none = Unit
ReadsAsOf codec (some (day d)) = ReadsDate codec d
ReadsAsOf codec (some current) = codec.lower "current" ≡ "current"
ReadsAsOf codec (some t0) = codec.lower "t0" ≡ "t0"

-- Pydantic reads an `int` as itself and a `float` as itself.
pub record ReadsNumbers (codec : Codec) : Type 0 where
  pub read_int : (n : ℤ) → codec.as_int (int n) ≡ some n
  pub read_float : (x : Double) → codec.as_float (float x) ≡ some x

abbrev within : {A : Type 0} → (A → Bool) → Option A → Bool
within test none = true
within test (some a) = test a

-- The settings keep the constraints of their class.
abbrev pub is_config : Option RiskRunCalculationConfig → Bool
is_config none = true
is_config (some c) = within is_observations c.observations && within in_unit c.confidence

blank_lem : (s : String) → is_empty s ≡ true → filled_if_set (some s) ≡ true → ⊥
unfolding strip lstrip rstrip
blank_lem String.[] e h = cc h
blank_lem (String.◌∷◌ c s) e h = cc e

module _ (codec : Codec) where
  methodology_lem :
      (m : Option VaRMethodology)
      → parse_methodology codec (mapped codec methodology_value m) ≡ ok m
  unfolding parse_methodology methodology_of
  methodology_lem none = refl
  methodology_lem (some linear) = refl
  methodology_lem (some delta_gamma) = refl
  methodology_lem (some full_revaluation) = refl

  as_of_lem :
      (a : Option AsOf)
      → ReadsAsOf codec a
      → parse_as_of codec (mapped codec (as_of_wire codec) a) ≡ ok a
  unfolding parse_as_of coerce_as_of strip
  as_of_lem none h = refl
  as_of_lem (some current) h = rw h refl
  as_of_lem (some t0) h = rw h refl
  as_of_lem (some (day d)) h =
      ground (arith, h.written, h.stripped, h.not_current, h.not_t0, h.read)

  observations_lem :
      (o : Option ℕ)
      → ReadsNumbers codec
      → within is_observations o ≡ true
      → optional codec
          (λ v. bounded_int codec (codec.as_int v))
          (some (or_null (λ n. int (pos n)) o))
        ≡ some o
  observations_lem none h k = refl
  observations_lem (some n) h k = rw (h.read_int (pos n), k, optional) refl

  seed_lem :
      (o : Option ℤ)
      → ReadsNumbers codec
      → optional codec codec.as_int (some (or_null int o)) ≡ some o
  seed_lem none h = refl
  seed_lem (some n) h = rw (h.read_int n) refl

  confidence_lem :
      (o : Option Double)
      → ReadsNumbers codec
      → within in_unit o ≡ true
      → optional codec (λ v. unit_float codec (codec.as_float v)) (some (or_null float o)) ≡ some o
  confidence_lem none h k = refl
  confidence_lem (some x) h k = rw (h.read_float x, k, optional) refl

  dumped_config_lem :
      (c : RiskRunCalculationConfig)
      → ReadsNumbers codec
      → is_config (some c) ≡ true
      → config_of codec (dump_config c) ≡ some c
  unfolding config_of find
  dumped_config_lem c h k =
      let (o, x) : (within is_observations c.observations ≡ true)
          × (within in_unit c.confidence ≡ true) =
        ground arith in
      rw (observations_lem c.observations h o, seed_lem c.seed h, confidence_lem c.confidence h x)
        refl

  config_lem :
      (c : Option RiskRunCalculationConfig)
      → ReadsNumbers codec
      → is_config c ≡ true
      → parse_calculation_config codec (mapped codec dump_config c) ≡ ok c
  unfolding parse_calculation_config
  config_lem none h k = refl
  config_lem (some c) h k = rw (dumped_config_lem c h k, parse_calculation_config) refl

  truthy_lem : (o : Option String) → filled_if_set o ≡ true → truthy_or_none codec o ≡ o
  unfolding strip
  truthy_lem none h = refl
  truthy_lem (some s) h = elim (Bool-cases (is_empty s)) [
    | inr full ↦ rw full refl
    | inl empty ↦ absurd (blank_lem s empty h)
  ]

  names_filled :
      (run : RiskRun)
      → is_valid run ≡ true
      → (filled_if_set run.historical_dataset_id ≡ true)
        × (filled_if_set run.historical_dataset_version ≡ true)
  unfolding is_valid identity_ok
  names_filled run h = (ground arith, ground arith)

  constructed :
      (run : RiskRun) (rs : List RiskResultRow)
      → is_valid run ≡ true
      → construct (record run { result_refs = refs_of codec rs })
        ≡ ok (record run { result_refs = refs_of codec rs })
  unfolding construct is_valid identity_ok
  constructed run rs h = rw h refl

  -- If a run is valid, its settings keep the constraints of their class, its date is read back and
  -- numbers are read as themselves, then reading the row that is written for it, with any result rows
  -- attached, gives the run with the references to these results in place of its own.
  pub stored_run_reads_back :
      (run : RiskRun) (rs : List RiskResultRow)
      → is_valid run ≡ true
      → ReadsAsOf codec run.as_of
      → ReadsNumbers codec
      → is_config run.calculation_config ≡ true
      → row_to_risk_run codec (record (risk_run_to_row codec run) { results = rs })
        ≡ ok (record run { result_refs = refs_of codec rs })
  unfolding row_to_risk_run risk_run_to_row
  stored_run_reads_back run rs valid date numbers config =
      let names = names_filled run valid in
      rw
        (
          methodology_lem run.methodology,
          as_of_lem run.as_of date,
          config_lem run.calculation_config numbers config,
          truthy_lem run.historical_dataset_id names.0,
          truthy_lem run.historical_dataset_version names.1,
        )
        (constructed run rs valid)
