-- ===== src/Series/Accepted.antt =====
-- What `validate_series` of backend/app/market/quality/validate.py guarantees of an accepted
-- series.
use quantlineage.Prelude.{
  ℕ, ◌<◌, ◌≤◌, ◌≢◌, ◌≡◌, refl, true, false, leb, List, [], ◌∷◌, arith, length, All, Each, all, sym,
  subst,
}
use quantlineage.Prelude.Sort
use quantlineage.Prelude.Sort.{IsOrder, IsSorted, sort_by}
use quantlineage.Series
use quantlineage.Series.{
  HistoricalPoint, HistoricalSeries, SeriesLineage, good, dates_of, same_dates, has_repeats, holds,
  is_finite,
}

leb-IsOrder : IsOrder leb
leb-IsOrder = record { total = λ x y h. ground arith; trans = λ x y z h k. ground arith }

same_dates_eq : (xs ys : List ℕ) → same_dates xs ys ≡ true → xs ≡ ys
same_dates_eq [] [] h = refl
same_dates_eq [] (y ∷ ys) h = cc h
same_dates_eq (x ∷ xs) [] h = cc h
same_dates_eq (x ∷ xs) (y ∷ ys) h =
    let tails = same_dates_eq xs ys (ground arith) in
    let heads : x ≡ y = ground arith in cc (tails, heads)

apart : (x : ℕ) (xs : List ℕ) → holds x xs ≡ false → All (λ y. x ≢ y) xs
apart x [] h = tt
apart x (y ∷ ys) h = ((λ same. ground arith), apart x ys (ground arith))

ascending : (xs : List ℕ) → IsSorted leb xs → has_repeats xs ≡ false → Each (λ x y. x < y) xs
ascending [] h k = tt
ascending (x ∷ xs) h k = (below xs h.0 (apart x xs (ground arith)), ascending xs h.1 (ground arith))
  where
    below : (ys : List ℕ) → All (λ y. leb x y ≡ true) ys → All (λ y. x ≢ y) ys → All (λ y. x < y) ys
    below [] a b = tt
    below (y ∷ ys) a b = (ground (arith, a.0, b.0), below ys a.1 b.1)

module _ {Lineage : Type 0} (series : HistoricalSeries Lineage) (requested_end minimum : ℕ) where
  accepted_sorted :
      (l : SeriesLineage Lineage)
      → Series.validate_series series requested_end minimum ≡ good l
      → same_dates (dates_of series.points) (sort_by leb (dates_of series.points)) ≡ true
  unfolding Series.validate_series
  accepted_sorted l h = ground arith

  accepted_distinct :
      (l : SeriesLineage Lineage)
      → Series.validate_series series requested_end minimum ≡ good l
      → has_repeats (dates_of series.points) ≡ false
  unfolding Series.validate_series
  accepted_distinct l h = ground arith

  accepted_values :
      (l : SeriesLineage Lineage)
      → Series.validate_series series requested_end minimum ≡ good l
      → all (λ (x : HistoricalPoint). is_finite x.value) series.points ≡ true
  unfolding Series.validate_series
  accepted_values l h = ground arith

  accepted_count :
      (l : SeriesLineage Lineage)
      → Series.validate_series series requested_end minimum ≡ good l
      → (minimum ≤ length series.points) × (l.observation_count ≡ length series.points)
  unfolding Series.validate_series
  accepted_count l h = (ground arith, ground arith)

  -- An accepted series has strictly ascending dates and only finite values, and it has at least the
  -- required number of observations, which is the number that its lineage reports.
  pub accepted_series_sound :
      (l : SeriesLineage Lineage)
      → Series.validate_series series requested_end minimum ≡ good l
      → Each (λ x y. x < y) (dates_of series.points)
        × (all (λ (x : HistoricalPoint). is_finite x.value) series.points ≡ true)
        × (minimum ≤ length series.points)
        × (l.observation_count ≡ length series.points)
  accepted_series_sound l h =
      let dates = dates_of series.points in
      let sorted : IsSorted leb dates =
        subst (λ xs. IsSorted leb xs) (sym (same_dates_eq dates _ (accepted_sorted l h)))
          (Sort.sort_by-IsSorted leb leb-IsOrder dates) in
      (
        ascending dates sorted (accepted_distinct l h),
        accepted_values l h,
        (accepted_count l h).0,
        (accepted_count l h).1,
      )
