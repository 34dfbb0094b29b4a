-- ===== src/RiskRun.antt =====
-- The domain record of a risk run: `RiskRunStatus`, `RiskResultRef`, `RiskRunCalculationConfig` and
-- `RiskRun` of backend/app/domain/models.py, with the checks that its construction makes.
-- A `datetime` is the number of microseconds of the instant that it names in UTC.
pub mod Repo
pub mod Service
pub mod Steps
pub mod Invariant
pub mod History
pub mod Outcomes
mod Fifo
pub mod Claiming
pub mod Row
pub mod Stored
pub mod Database
pub mod Agreement
mod Tests
mod RowTests
use quantlineage.Prelude.{
  ℕ, String, Bool, true, false, not, ◌&&◌, ◌==◌, Option, none, some, List, all, leb, is_some,
  if◌then◌else◌,
}
use quantlineage.Prelude.Int.{ℤ, sub_ℕ, pos_part}
use quantlineage.Prelude.Text.{is_blank}
use quantlineage.Prelude.Call.{Result, ok, err, value_error}
use quantlineage.Wire.{Json, Double, Fields}

pub data RiskRunStatus : Type 0 where
  queued running completed failed : RiskRunStatus

pub data VaRMethodology : Type 0 where
  linear delta_gamma full_revaluation : VaRMethodology

-- An ISO date by its ordinal, or an engine label.
pub data AsOf : Type 0 where
  day : ℕ → AsOf
  current t0 : AsOf

pub record RiskResultRef : Type 0 where
  pub result_type : String
  pub result_id : Option ℕ

pub record RiskRunCalculationConfig : Type 0 where
  pub observations : Option ℕ
  pub seed : Option ℤ
  pub confidence : Option Double

pub record RiskRun : Type 0 where
  pub id : String
  pub portfolio_id : String
  pub portfolio_version : Option ℕ
  pub owner : Option String
  pub market_snapshot_id : Option String
  pub created_at : ℕ
  pub started_at : Option ℕ
  pub completed_at : Option ℕ
  pub pricing_engine_version : Option String
  pub methodology : Option VaRMethodology
  pub scenario_set : List String
  pub historical_dataset_id : Option String
  pub historical_dataset_version : Option String
  pub as_of : Option AsOf
  pub calculation_config : Option RiskRunCalculationConfig
  pub status : RiskRunStatus
  pub result_refs : List RiskResultRef
  pub error : Option String
  pub run_type : String
  pub request : Fields

abbrev filled : String → Bool
filled s = not (is_blank s)

abbrev filled_if_set : Option String → Bool
filled_if_set none = true
filled_if_set (some s) = filled s

abbrev version_at_least_one : Option ℕ → Bool
version_at_least_one none = true
version_at_least_one (some v) = leb 1 v

-- The field constraints, and the checks of `_validate_lifecycle` on the names.
unfoldable pub identity_ok : RiskRun → Bool
identity_ok r =
    filled r.id
    && filled r.portfolio_id
    && not (r.run_type == "")
    && version_at_least_one r.portfolio_version
    && all filled r.scenario_set
    && filled_if_set r.pricing_engine_version
    && filled_if_set r.historical_dataset_id
    && filled_if_set r.historical_dataset_version

-- `completed_at` is not before `started_at`, where both are set.
unfoldable pub times_ok : Option ℕ → Option ℕ → Bool
times_ok (some s) (some c) = leb s c
times_ok (some s) none = true
times_ok none c = true

-- What each status requires of the times and of the error.
unfoldable pub lifecycle_ok : RiskRunStatus → Option ℕ → Option ℕ → Option String → Bool
lifecycle_ok queued started ended e =
    not (is_some started) && not (is_some ended) && not (is_some e)
lifecycle_ok running started ended e = is_some started && not (is_some ended) && not (is_some e)
lifecycle_ok completed started ended e = is_some started && is_some ended && not (is_some e)
lifecycle_ok failed started ended none = false
lifecycle_ok failed started ended (some e) = is_some started && is_some ended && filled e

unfoldable pub is_valid : RiskRun → Bool
is_valid r =
    identity_ok r
    && times_ok r.started_at r.completed_at
    && lifecycle_ok r.status r.started_at r.completed_at r.error

-- `RiskRun(...)`: a `ValidationError` is a `ValueError`.
unfoldable pub construct : RiskRun → Result RiskRun
construct r = if is_valid r then ok r else err value_error

-- `RiskRun.duration`, in microseconds.
unfoldable pub duration : RiskRun → Option ℤ
duration r = elim r.started_at [
  | none ↦ none
  | some s ↦ elim r.completed_at [ none ↦ none | some c ↦ some (sub_ℕ c s) ]
]
