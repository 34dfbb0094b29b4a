-- ===== src/Series/Align.antt =====
-- `align_series` of backend/app/market/quality/align.py. A mapping is a dictionary; a dict of points
-- by date is a list of pairs, each date once.
use quantlineage.Prelude.{
  ℕ, String, Bool, not, eqb, leb, ltb, Option, none, some, List, [], ◌∷◌, all, length, select,
  is_some, if◌then◌else◌,
}
use quantlineage.Prelude.Dict.{Dict, put}
use quantlineage.Prelude.Sort.{sort_by}
use quantlineage.Prelude.Text.{le_text}
use quantlineage.Series.{HistoricalPoint, holds}

-- The parts of a `HistoricalSeries` that the alignment reads.
pub record Subject : Type 0 where
  pub instrument_id : String
  pub points : List HistoricalPoint

abbrev pub Dated : Type 0
Dated = List (ℕ × HistoricalPoint)

unfoldable pub find_day : ℕ → Dated → Option HistoricalPoint
find_day d [] = none
find_day d ((e, p) ∷ rest) = if eqb e d then some p else find_day d rest

unfoldable pub put_day : ℕ → HistoricalPoint → Dated → Dated
put_day d p [] = (d, p) ∷ []
put_day d p ((e, q) ∷ rest) =
    let later = put_day d p rest in if eqb e d then (e, p) ∷ rest else (e, q) ∷ later

-- `{point.observation_date: point for point in series.points}`
unfoldable pub dated_points : List HistoricalPoint → Dated → Dated
dated_points [] acc = acc
dated_points (p ∷ ps) acc = dated_points ps (put_day p.observation_date p acc)

abbrev pub days : Dated → List ℕ
days [] = []
days ((d, _) ∷ rest) = d ∷ days rest

abbrev pub dated_of : Dict Subject → List Dated
dated_of [] = []
dated_of ((_, s) ∷ rest) = dated_points s.points [] ∷ dated_of rest

-- `set.intersection(*date_sets)`
unfoldable pub intersection : List Dated → List ℕ
intersection [] = []
intersection (first ∷ rest) =
    select (λ d. all (λ (x : Dated). is_some (find_day d x)) rest) (days first)

unfoldable pub aligned_dates : Dict Subject → List ℕ
aligned_dates series = sort_by leb (intersection (dated_of series))

pub data AlignError : Type 0 where
  insufficient_aligned_history : AlignError
  key_error : AlignError

pub record AlignmentResult : Type 0 where
  pub dates : List ℕ
  pub series_ids : List String
  pub aligned : Dict (List HistoricalPoint)
  pub dropped_dates : Dict (List ℕ)

pub data Alignment : Type 0 where
  raised : AlignError → Alignment
  aligned : AlignmentResult → Alignment

-- `tuple(points[day] for day in aligned_dates)`, with `none` for a `KeyError`.
unfoldable pub at_days : Dated → List ℕ → Option (List HistoricalPoint)
at_days points [] = some []
at_days points (d ∷ ds) =
    let rest = at_days points ds in
    elim (find_day d points) [
      | none ↦ none
      | some p ↦ elim rest [ none ↦ none | some ps ↦ some (p ∷ ps) ]
    ]

abbrev pub by_instrument : String × Subject → String × Subject → Bool
by_instrument x y = le_text x.1.instrument_id y.1.instrument_id

unfoldable pub dropped : Dated → List ℕ → List ℕ
dropped points common = sort_by leb (select (λ d. not (holds d common)) (days points))

-- The loop over `ordered_keys`, with the two dicts so far.
unfoldable pub align_each :
    List ℕ
    → List (String × Subject)
    → List String
    → Dict (List HistoricalPoint)
    → Dict (List ℕ)
    → Alignment
align_each dates [] ids points gaps =
    aligned (record { dates = dates; series_ids = ids; aligned = points; dropped_dates = gaps })
align_each dates ((_, s) ∷ rest) ids points gaps = elim (at_days (dated_points s.points []) dates) [
  | none ↦ raised key_error
  | some ps ↦
      align_each dates rest ids (put s.instrument_id ps points)
        (put s.instrument_id (dropped (dated_points s.points []) dates) gaps)
]

abbrev pub ids_of : List (String × Subject) → List String
ids_of [] = []
ids_of ((_, s) ∷ rest) = s.instrument_id ∷ ids_of rest

unfoldable pub align_series : Dict Subject → ℕ → Alignment
align_series [] min_aligned = raised insufficient_aligned_history
align_series ((k, s) ∷ rest) min_aligned =
    let series = (k, s) ∷ rest in
    if ltb (length (aligned_dates series)) min_aligned
    then raised insufficient_aligned_history
    else let ordered = sort_by by_instrument series in
      align_each (aligned_dates series) ordered (ids_of ordered) [] []
