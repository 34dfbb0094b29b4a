-- ===== src/Series/Collected.antt =====
-- What `collect_points` of backend/app/market/ingestion/normalize.py collects.
use quantlineage.Prelude.{
  ℕ, suc, ◌+◌, ◌<◌, ◌≢◌, ◌≡◌, refl, Bool, true, false, ◌||◌, eqb, leb, Option, none, some, List, [],
  ◌∷◌, arith, length, All, Each, Bool-cases, inl, inr, sym,
}
use quantlineage.Prelude
use quantlineage.Prelude.Sort
use quantlineage.Prelude.Sort.{IsOrder, IsSorted, sort_by}
use quantlineage.Wire.{Double}
use quantlineage.Series
use quantlineage.Series.{HistoricalPoint, Collection, collect_rows, holds, by_date}

by_date-IsOrder : IsOrder by_date
unfolding by_date
by_date-IsOrder = record { total = λ x y h. ground arith; trans = λ x y z h k. ground arith }

rows_counted :
    (seen : List ℕ) (rows : List (ℕ × Option Double))
    → let c = collect_rows seen rows in length c.points + c.missing + c.duplicates ≡ length rows
unfolding collect_rows
rows_counted seen [] = omega arith
rows_counted seen ((d, none) ∷ rows) = omega (arith, rows_counted seen rows)
rows_counted seen ((d, some x) ∷ rows) =
    ground (arith, rows_counted seen rows, rows_counted (d ∷ seen) rows)

-- Every row is accounted for: the points, the missing values and the duplicates are together as
-- many as the rows.
collected_counts :
    (rows : List (ℕ × Option Double))
    → let c = Series.collect_points rows in length c.points + c.missing + c.duplicates ≡ length rows
unfolding Series.collect_points
collected_counts rows =
    omega (arith, Sort.length-sort_by by_date (collect_rows [] rows).points, rows_counted [] rows)

not_held : (d e : ℕ) (seen : List ℕ) → holds e (d ∷ seen) ≡ false → (d ≢ e) × (holds e seen ≡ false)
not_held d e seen h = ((λ same. ground arith), ground arith)

new_dates :
    (seen : List ℕ) (rows : List (ℕ × Option Double))
    → All
        (λ (x : HistoricalPoint). holds x.observation_date seen ≡ false)
        (collect_rows seen rows).points
unfolding collect_rows
new_dates seen [] = tt
new_dates seen ((d, none) ∷ rows) = new_dates seen rows
new_dates seen ((d, some x) ∷ rows) = elim (Bool-cases (holds d seen)) [
  | inl old ↦ rw old (new_dates seen rows)
  | inr new ↦ rw new (
    new,
    Prelude.All-map (λ y h. (not_held d y.observation_date seen h).1) _ (new_dates (d ∷ seen) rows),
  )
]

apart_dates :
    (seen : List ℕ) (rows : List (ℕ × Option Double))
    → Each
        (λ (x y : HistoricalPoint). x.observation_date ≢ y.observation_date)
        (collect_rows seen rows).points
unfolding collect_rows
apart_dates seen [] = tt
apart_dates seen ((d, none) ∷ rows) = apart_dates seen rows
apart_dates seen ((d, some x) ∷ rows) = elim (Bool-cases (holds d seen)) [
  | inl old ↦ rw old (apart_dates seen rows)
  | inr new ↦ rw new (
    Prelude.All-map (λ y h. (not_held d y.observation_date seen h).0) _ (new_dates (d ∷ seen) rows),
    apart_dates (d ∷ seen) rows,
  )
]

abbrev pub Ascending : List HistoricalPoint → Type 0
Ascending = Each (λ (x y : HistoricalPoint). x.observation_date < y.observation_date)

below :
    (x : HistoricalPoint) (ys : List HistoricalPoint)
    → All (λ y. by_date x y ≡ true) ys
    → All (λ (y : HistoricalPoint). x.observation_date ≢ y.observation_date) ys
    → All (λ (y : HistoricalPoint). x.observation_date < y.observation_date) ys
unfolding by_date
below x [] h k = tt
below x (y ∷ ys) h k = (ground (arith, h.0, k.0), below x ys h.1 k.1)

strictly :
    (ps : List HistoricalPoint)
    → IsSorted by_date ps
    → Each (λ (x y : HistoricalPoint). x.observation_date ≢ y.observation_date) ps
    → Ascending ps
strictly [] h k = tt
strictly (x ∷ ps) h k = (below x ps h.0 k.0, strictly ps h.1 k.1)

-- The points are in strictly ascending order of their dates, so no date occurs twice.
pub collect_points-Ascending :
    (rows : List (ℕ × Option Double)) → Ascending (Series.collect_points rows).points
unfolding Series.collect_points
collect_points-Ascending rows =
    strictly _ (Sort.sort_by-IsSorted by_date by_date-IsOrder _)
      (Sort.Each-sort_by by_date _ (λ x y h e. h (sym e)) _ (apart_dates [] rows))
