-- ===== src/Series.antt =====
-- Historical series: backend/app/market/ingestion/normalize.py turns rows into points, and
-- backend/app/market/quality/validate.py accepts or rejects the points. A date is its ordinal
-- (`date.toordinal`), and a time is kept as the date that `retrieved_at.date()` gives.
pub mod Collected
pub mod Accepted
pub mod Align
pub mod Common
pub mod Aligned
mod Tests
use quantlineage.Prelude.{
  ℕ, suc, ◌+◌, String, Bool, true, false, not, ◌&&◌, ◌||◌, ◌==◌, eqb, leb, ltb, Option, none, some,
  List, [], ◌∷◌, map, all, length, if◌then◌else◌,
}
use quantlineage.Prelude.Int.{ℤ, pos_part, sub_ℕ}
use quantlineage.Prelude.Text.{strip, is_empty}
use quantlineage.Prelude.Sort.{sort_by}
use quantlineage.Wire.{Double, finite, infinite, nan, Json, null, bool, int, float, text, list, obj}
use quantlineage.Wire.Payload.{member}

pub record HistoricalPoint : Type 0 where
  pub observation_date : ℕ
  pub value : Double

abbrev pub is_finite : Double → Bool
is_finite (finite m e) = true
is_finite _ = false

abbrev pub is_positive : Double → Bool
is_positive (finite m e) = not (eqb (pos_part m) 0)
is_positive (infinite negative) = not negative
is_positive nan = true

-- The exceptions of backend/app/market/quality/errors.py and `MalformedResponseError`.
pub data QualityError : Type 0 where
  malformed_response : QualityError
  unsorted_dates : QualityError
  duplicate_dates : QualityError
  non_finite_value : QualityError
  unknown_unit : QualityError
  non_positive_price : QualityError
  insufficient_observations : QualityError

pub data Checked {ℓ} (A : Type ℓ) : Type ℓ where
  good : A → Checked A
  bad : QualityError → Checked A

abbrev pub finite_value : Double → Checked (Option Double)
finite_value x = if is_finite x then good (some x) else bad malformed_response

-- `float(token)`, which is `none` where it raises, and `float(n)` of an integer within the range of
-- a double.
module _ (parse_float : String → Option Double) (float_of : ℤ → Double) where
  abbrev pub parsed : Option Double → Checked (Option Double)
  parsed none = bad malformed_response
  parsed (some x) = finite_value x

  unfoldable pub parse_observation_value : List String → Json → Checked (Option Double)
  parse_observation_value missing_tokens null = good none
  parse_observation_value missing_tokens (bool _) = bad malformed_response
  parse_observation_value missing_tokens (int n) = finite_value (float_of n)
  parse_observation_value missing_tokens (float x) = finite_value x
  parse_observation_value missing_tokens (text raw) =
      let token = strip raw in
      if is_empty token || member token missing_tokens
      then good none
      else parsed (parse_float token)
  parse_observation_value missing_tokens (list _) = bad malformed_response
  parse_observation_value missing_tokens (obj _) = bad malformed_response

abbrev pub holds : ℕ → List ℕ → Bool
holds d [] = false
holds d (e ∷ es) = eqb e d || holds d es

pub record Collection : Type 0 where
  pub points : List HistoricalPoint
  pub missing : ℕ
  pub duplicates : ℕ

-- The loop of `collect_points`. The values are those of `parse_observation_value`, which are
-- finite, so the construction of a point does not raise.
unfoldable pub collect_rows : List ℕ → List (ℕ × Option Double) → Collection
collect_rows seen [] = record { points = []; missing = 0; duplicates = 0 }
collect_rows seen ((d, none) ∷ rows) =
    let c = collect_rows seen rows in record c { missing = c.missing + 1 }
collect_rows seen ((d, some x) ∷ rows) =
    let again = collect_rows seen rows in
    let fresh = collect_rows (d ∷ seen) rows in
    if holds d seen
    then record again { duplicates = again.duplicates + 1 }
    else record fresh { points = record { observation_date = d; value = x } ∷ fresh.points }

unfoldable pub by_date : HistoricalPoint → HistoricalPoint → Bool
by_date a b = leb a.observation_date b.observation_date

unfoldable pub collect_points : List (ℕ × Option Double) → Collection
collect_points rows = let c = collect_rows [] rows in record c { points = sort_by by_date c.points }

abbrev pub stale_after_days : ℕ
stale_after_days = 7

abbrev pub horizon : ℕ → ℕ → ℕ
horizon requested_end retrieved_at =
    if leb requested_end retrieved_at then requested_end else retrieved_at

unfoldable pub is_stale : Option ℕ → ℕ → ℕ → Bool
is_stale none requested_end retrieved_at = true
is_stale (some last) requested_end retrieved_at =
    ltb stale_after_days (pos_part (sub_ℕ (horizon requested_end retrieved_at) last))

-- The parts of a series that its validation reads, and the rest of its lineage as one value.
pub record HistoricalSeries (Lineage : Type 0) : Type 0 where
  pub points : List HistoricalPoint
  pub unit : String
  pub retrieved_at : ℕ
  pub lineage : Lineage

pub record SeriesLineage (Lineage : Type 0) : Type 0 where
  pub first_observation : Option ℕ
  pub last_observation : Option ℕ
  pub observation_count : ℕ
  pub stale : Bool
  pub lineage : Lineage

abbrev pub dates_of : List HistoricalPoint → List ℕ
dates_of points = map (λ (x : HistoricalPoint). x.observation_date) points

abbrev pub same_dates : List ℕ → List ℕ → Bool
same_dates [] [] = true
same_dates (x ∷ xs) (y ∷ ys) = eqb x y && same_dates xs ys
same_dates _ _ = false

-- `len(dates) != len(set(dates))`
abbrev pub has_repeats : List ℕ → Bool
has_repeats [] = false
has_repeats (x ∷ xs) = holds x xs || has_repeats xs

abbrev pub first_of : List ℕ → Option ℕ
first_of [] = none
first_of (x ∷ xs) = some x

abbrev pub last_of : List ℕ → Option ℕ
last_of [] = none
last_of (x ∷ []) = some x
last_of (x ∷ y ∷ ys) = last_of (y ∷ ys)

abbrev pub min_observations : ℕ
min_observations = 5

abbrev pub allowed_units : List String
allowed_units = "price" ∷ "percent" ∷ []

module _ {Lineage : Type 0} where
  abbrev pub lineage_of : HistoricalSeries Lineage → ℕ → SeriesLineage Lineage
  lineage_of series requested_end = record {
    first_observation = first_of (dates_of series.points);
    last_observation = last_of (dates_of series.points);
    observation_count = length series.points;
    stale = is_stale (last_of (dates_of series.points)) requested_end series.retrieved_at;
    lineage = series.lineage;
  }

  unfoldable pub validate_series :
      HistoricalSeries Lineage → ℕ → ℕ → Checked (SeriesLineage Lineage)
  validate_series series requested_end minimum =
      let dates = dates_of series.points in
      if not (same_dates dates (sort_by leb dates))
      then bad unsorted_dates
      else if has_repeats dates
      then bad duplicate_dates
      else if not (all (λ (x : HistoricalPoint). is_finite x.value) series.points)
      then bad non_finite_value
      else if not (member series.unit allowed_units)
      then bad unknown_unit
      else if series.unit == "price"
          && not (all (λ (x : HistoricalPoint). is_positive x.value) series.points)
      then bad non_positive_price
      else if ltb (length series.points) minimum
      then bad insufficient_observations
      else good (lineage_of series requested_end)
