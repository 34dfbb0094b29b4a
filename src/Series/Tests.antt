-- ===== src/Series/Tests.antt =====
-- Two rows for one day, a gap, and an earlier day.
use quantlineage.Prelude.{
  ℕ, String, ◌<◌, ◌≤◌, ◌≡◌, refl, true, Option, none, some, List, [], ◌∷◌, length, Each, all,
}
use quantlineage.Prelude.Int.{pos}
use quantlineage.Prelude.Sort.{sort_by}
use quantlineage.Wire.{Double, finite}
use quantlineage.Series
use quantlineage.Series.{holds, HistoricalPoint, HistoricalSeries, dates_of, is_finite, lineage_of}
use quantlineage.Series.Collected.{Ascending, collect_points-Ascending}
use quantlineage.Series.Accepted.{accepted_series_sound}
use quantlineage.Series.Align.{aligned_dates, Subject}
use quantlineage.Series.Common.{has_date, IsAscending}
use quantlineage.Series.Aligned.{aligns_to_intersection, Ends}

abbrev price : ℕ → Double
price n = finite (pos n) (pos 0)

abbrev rows : List (ℕ × Option Double)
rows = (5, some (price 10)) ∷ (6, none) ∷ (5, some (price 11)) ∷ (3, some (price 9)) ∷ []

collect_points-Ascending_example : Ascending (Series.collect_points rows).points
collect_points-Ascending_example = collect_points-Ascending rows

abbrev series : HistoricalSeries (Option ℕ)
series = record {
  points =
      record { observation_date = 3; value = price 9 }
      ∷ record { observation_date = 5; value = price 10 }
      ∷ [];
  unit = "price";
  retrieved_at = 6;
  lineage = none;
}

accepted_series_sound_example :
    Each (λ x y. x < y) (dates_of series.points)
    × (all (λ (x : HistoricalPoint). is_finite x.value) series.points ≡ true)
    × (2 ≤ 2)
    × ((lineage_of series 6).observation_count ≡ length series.points)
unfolding Series.validate_series sort_by
accepted_series_sound_example = accepted_series_sound series 6 2 (lineage_of series 6) refl

abbrev spx : Subject
spx = record {
  instrument_id = "spx";
  points =
      (record { observation_date = 3; value = price 2 })
      ∷ (record { observation_date = 5; value = price 2 })
      ∷ [];
}

abbrev vix : Subject
vix = record {
  instrument_id = "vix";
  points = (record { observation_date = 5; value = price 2 }) ∷ [];
}

aligns_to_intersection_example :
    IsAscending (aligned_dates (("s", spx) ∷ ("v", vix) ∷ []))
    × (holds 5 (aligned_dates (("s", spx) ∷ ("v", vix) ∷ []))
        ≡ all (λ (e : String × Subject). has_date 5 e.1) (("s", spx) ∷ ("v", vix) ∷ []))
    × Ends (("s", spx) ∷ ("v", vix) ∷ []) 1 (aligned_dates (("s", spx) ∷ ("v", vix) ∷ []))
aligns_to_intersection_example = aligns_to_intersection "s" spx (("v", vix) ∷ []) 1 5
