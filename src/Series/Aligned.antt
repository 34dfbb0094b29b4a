-- ===== src/Series/Aligned.antt =====
-- `align_series` (backend/app/market/quality/align.py) against the common dates of the series.
use quantlineage.Prelude.{
  ℕ, ◌≡◌, refl, String, true, false, ltb, eqb, some, List, [], ◌∷◌, all, length, is_some, arith,
  All, All-map, Bool-cases, Option-cases, inl, inr, sym, ap, ◌∙◌,
}
use quantlineage.Prelude.Dict.{Dict, get, put, contains, All-put, All-found, get-put, get-put_self}
use quantlineage.Prelude.Sort.{sort_by, All-sort_by, All-of-sort_by}
use quantlineage.Series.{HistoricalPoint, holds, dates_of}
use quantlineage.Series.Align.{
  Subject, Dated, find_day, put_day, dated_points, at_days, aligned_dates, AlignmentResult, raised,
  aligned, insufficient_aligned_history, align_each, align_series, by_instrument, dropped, ids_of,
}
use quantlineage.Series.Common.{
  has_date, find_day_lem, aligned_dates_lem, IsAscending, aligned_dates-IsAscending,
}

-- Each point stands under its own date.
abbrev Keyed : Dated → Type 0
Keyed = All (λ (e : ℕ × HistoricalPoint). e.1.observation_date ≡ e.0)

put_day-Keyed : (p : HistoricalPoint) (x : Dated) → Keyed x → Keyed (put_day p.observation_date p x)
unfolding put_day
put_day-Keyed p [] h = (refl, tt)
put_day-Keyed p ((e, q) ∷ rest) h = elim (Bool-cases (eqb e p.observation_date)) [
  | inl same ↦ rw same (ground arith, h.1)
  | inr other ↦ rw other (h.0, put_day-Keyed p rest h.1)
]

dated_points-Keyed : (ps : List HistoricalPoint) (x : Dated) → Keyed x → Keyed (dated_points ps x)
unfolding dated_points
dated_points-Keyed [] x h = h
dated_points-Keyed (p ∷ ps) x h = dated_points-Keyed ps _ (put_day-Keyed p x h)

find_day-Keyed :
    (d : ℕ) (x : Dated) (p : HistoricalPoint)
    → Keyed x
    → find_day d x ≡ some p
    → p.observation_date ≡ d
unfolding find_day
find_day-Keyed d [] p h e = cc e
find_day-Keyed d ((f, q) ∷ rest) p h e = elim (Bool-cases (eqb f d)) [
  | inl same ↦
      let found : q ≡ p = cc (rw same at e) in
      let at_d : f ≡ d = ground arith in
      sym (ap (λ (z : HistoricalPoint). z.observation_date) found) ∙ h.0 ∙ at_d
  | inr other ↦ find_day-Keyed d rest p h.1 (rw other at e)
]

abbrev Has : Dated → ℕ → Type 0
Has x d = is_some (find_day d x) ≡ true

at_days_lem :
    (x : Dated) (ds : List ℕ)
    → Keyed x
    → All (Has x) ds
    → (ps : List HistoricalPoint) × (at_days x ds ≡ some ps) × (dates_of ps ≡ ds)
unfolding at_days
at_days_lem x [] k h = ([], refl, refl)
at_days_lem x (d ∷ ds) k h = elim (Option-cases (find_day d x)) [
  | inl missing ↦ cc (rw missing at h.0)
  | inr (p, found) ↦
      let (ps, rest, dates) = at_days_lem x ds k h.1 in
      (p ∷ ps, rw (found, rest, at_days) refl, λ i. find_day-Keyed d x p k found i ∷ dates i)
]

abbrev Covers : List ℕ → String × Subject → Type 0
Covers ds e = All (Has (dated_points e.1.points [])) ds

-- The points that a result has for an instrument.
abbrev pub OnDates : List ℕ → String × List HistoricalPoint → Type 0
OnDates ds e = dates_of e.1 ≡ ds

abbrev HasPoints : Dict (List HistoricalPoint) → String → Type 0
HasPoints d i = contains i d ≡ true

put_points :
    (k i : String) (ps : List HistoricalPoint) (d : Dict (List HistoricalPoint))
    → HasPoints d i
    → HasPoints (put k ps d) i
put_points k i ps d h = ground (arith, get-put k i ps d)

put_own :
    (k : String) (ps : List HistoricalPoint) (d : Dict (List HistoricalPoint))
    → HasPoints (put k ps d) k
put_own k ps d = rw (get-put_self k ps d) refl

-- The points of a series' instrument in a result.
abbrev pub Standing : Dict (List HistoricalPoint) → List ℕ → String × Subject → Type 0
Standing d ds e =
    (ps : List HistoricalPoint) × (get e.1.instrument_id d ≡ some ps) × (dates_of ps ≡ ds)

points_stand :
    (d : Dict (List HistoricalPoint)) (ds : List ℕ) (e : String × Subject)
    → All (OnDates ds) d
    → HasPoints d e.1.instrument_id
    → Standing d ds e
points_stand d ds e on has = elim (Option-cases (get e.1.instrument_id d)) [
  | inl missing ↦ cc (rw missing at has)
  | inr (ps, found) ↦ (ps, found, All-found (OnDates ds) e.1.instrument_id ps d on found)
]

align_each_lem :
    (ds : List ℕ) (series : List (String × Subject)) (ids : List String)
    (points : Dict (List HistoricalPoint)) (gaps : Dict (List ℕ))
    → All (Covers ds) series
    → All (OnDates ds) points
    → (r : AlignmentResult) × (align_each ds series ids points gaps ≡ aligned r)
      × (r.dates ≡ ds)
      × All (OnDates ds) r.aligned
      × ((i : String) → HasPoints points i → HasPoints r.aligned i)
      × All (λ (e : String × Subject). HasPoints r.aligned e.1.instrument_id) series
unfolding align_each
align_each_lem ds [] ids points gaps h k = (_, refl, refl, k, (λ i g. g), tt)
align_each_lem ds ((key, s) ∷ rest) ids points gaps h k =
    let (ps, found, dates) =
      at_days_lem (dated_points s.points []) ds (dated_points-Keyed s.points [] tt) h.0 in
    let (r, returned, on, aligned_on, keeps, later) =
      align_each_lem ds rest ids (put s.instrument_id ps points)
        (put s.instrument_id (dropped (dated_points s.points []) ds) gaps) h.1
        (All-put (OnDates ds) s.instrument_id ps points dates k) in
    (
      r,
      rw (found, align_each) returned,
      on,
      aligned_on,
      (λ i g. keeps i (put_points s.instrument_id i ps points g)),
      (keeps s.instrument_id (put_own s.instrument_id ps points), later),
    )

held :
    (ds es : List ℕ)
    → All (λ d. holds d (es) ≡ true) ds
    → (x : ℕ) → All (λ d. holds d (x ∷ es) ≡ true) ds
held [] es h x = tt
held (d ∷ ds) es h x = (ground (arith, h.0), held ds es h.1 x)

holds_itself : (ds : List ℕ) → All (λ d. holds d ds ≡ true) ds
holds_itself [] = tt
holds_itself (d ∷ ds) = (ground arith, held ds ds (holds_itself ds) d)

each-Covers :
    (ds : List ℕ) (series : Dict Subject)
    → All (λ d. all (λ (e : String × Subject). has_date d e.1) series ≡ true) ds
    → All (Covers ds) series
each-Covers ds [] h = tt
each-Covers ds ((k, s) ∷ rest) h = (first ds h, each-Covers ds rest (others ds h))
  where
    first :
        (xs : List ℕ)
        → All (λ d. all (λ (e : String × Subject). has_date d e.1) ((k, s) ∷ rest) ≡ true) xs
        → All (Has (dated_points s.points [])) xs
    first [] g = tt
    first (x ∷ xs) g = (ground (arith, g.0, find_day_lem x s), first xs g.1)

    others :
        (xs : List ℕ)
        → All (λ d. all (λ (e : String × Subject). has_date d e.1) ((k, s) ∷ rest) ≡ true) xs
        → All (λ d. all (λ (e : String × Subject). has_date d e.1) rest ≡ true) xs
    others [] g = tt
    others (x ∷ xs) g = (ground (arith, g.0), others xs g.1)

-- How the alignment of series ends, given their common dates.
pub data Ends (series : Dict Subject) (minimum : ℕ) (ds : List ℕ) : Type 0 where
  too_short :
      ltb (length ds) minimum ≡ true
      → align_series series minimum ≡ raised insufficient_aligned_history
      → Ends series minimum ds
  on_dates :
      (r : AlignmentResult)
      → ltb (length ds) minimum ≡ false
      → align_series series minimum ≡ aligned r
      → r.dates ≡ ds
      → All (Standing r.aligned ds) series
      → Ends series minimum ds

-- For at least one series: the aligned dates are strictly ascending, and a date is one of them exactly
-- if all of the series have it; the alignment raises `InsufficientAlignedHistoryError` if they are
-- fewer than the minimum, and else returns a result on these dates, in which the instrument of each
-- series has points, and they stand on exactly these dates in their order.
pub aligns_to_intersection :
    (key : String) (s : Subject) (rest : Dict Subject) (minimum d : ℕ)
    → IsAscending (aligned_dates ((key, s) ∷ rest))
      × (holds d (aligned_dates ((key, s) ∷ rest))
          ≡ all (λ (e : String × Subject). has_date d e.1) ((key, s) ∷ rest))
      × Ends ((key, s) ∷ rest) minimum (aligned_dates ((key, s) ∷ rest))
unfolding align_series
aligns_to_intersection key s rest minimum d =
    let series = (key, s) ∷ rest in
    let ds = aligned_dates series in
    let covers =
      each-Covers ds series
        (All-map (λ x h. sym (aligned_dates_lem x key s rest) ∙ h) ds (holds_itself ds)) in
    let ordered = sort_by by_instrument series in
    (
      aligned_dates-IsAscending key s rest,
      aligned_dates_lem d key s rest,
      elim (Bool-cases (ltb (length ds) minimum)) [
        | inl short ↦ too_short short (rw short refl)
        | inr enough ↦
            let (r, returned, dates, points, _, has) =
              align_each_lem ds ordered (ids_of ordered) [] []
                (All-sort_by by_instrument (Covers ds) series covers) tt in
            on_dates r enough (rw enough returned) dates (
              All-map (λ e g. points_stand r.aligned ds e points g) series
                (All-of-sort_by by_instrument _ series has))
      ],
    )
