-- ===== src/Series/Common.antt =====
-- The common dates that backend/app/market/quality/align.py aligns series to.
use quantlineage.Prelude.{
  ℕ, ◌<◌, ◌≢◌, ◌≡◌, refl, String, Bool, true, ◌&&◌, ◌||◌, eqb, leb, List, [], ◌∷◌, all, select,
  is_some, arith, All, Each, Each-select, Bool-cases, inl, inr, sym,
}
use quantlineage.Prelude.Dict.{Dict}
use quantlineage.Prelude.Sort.{
  sort_by, insert_by, IsSorted, IsOrder, sort_by-IsSorted, Each-sort_by,
}
use quantlineage.Series.{HistoricalPoint, holds, dates_of}
use quantlineage.Series.Align.{
  Subject, Dated, find_day, put_day, dated_points, days, dated_of, intersection, aligned_dates,
}

-- A date is one of the series' observation dates.
abbrev pub has_date : ℕ → Subject → Bool
has_date d s = holds d (dates_of s.points)

find_day-put_day :
    (d e : ℕ) (p : HistoricalPoint) (x : Dated)
    → is_some (find_day d (put_day e p x)) ≡ (eqb e d || is_some (find_day d x))
unfolding find_day put_day
find_day-put_day d e p [] = ground arith
find_day-put_day d e p ((f, q) ∷ rest) = ground (arith, find_day-put_day d e p rest)

find_day-dated_points :
    (d : ℕ) (ps : List HistoricalPoint) (x : Dated)
    → is_some (find_day d (dated_points ps x)) ≡ (holds d (dates_of ps) || is_some (find_day d x))
unfolding dated_points
find_day-dated_points d [] x = refl
find_day-dated_points d (p ∷ ps) x = ground (
  arith,
  find_day-dated_points d ps (put_day p.observation_date p x),
  find_day-put_day d p.observation_date p x,
)

pub find_day_lem :
    (d : ℕ) (s : Subject) → is_some (find_day d (dated_points s.points [])) ≡ has_date d s
unfolding find_day
find_day_lem d s = ground (arith, find_day-dated_points d s.points [])

holds-days : (d : ℕ) (x : Dated) → holds d (days x) ≡ is_some (find_day d x)
unfolding find_day
holds-days d [] = refl
holds-days d ((e, p) ∷ rest) = ground (arith, holds-days d rest)

holds-select : (d : ℕ) (q : ℕ → Bool) (xs : List ℕ) → holds d (select q xs) ≡ (q d && holds d xs)
holds-select d q [] = ground arith
holds-select d q (x ∷ xs) = elim (Bool-cases (eqb x d)) [
  | inl same ↦ let at_d : x ≡ d = ground arith in ground (arith, at_d, holds-select d q xs)
  | inr other ↦ ground (arith, holds-select d q xs)
]

holds-insert_by : (d x : ℕ) (xs : List ℕ) → holds d (insert_by leb x xs) ≡ (eqb x d || holds d xs)
unfolding insert_by
holds-insert_by d x [] = refl
holds-insert_by d x (y ∷ ys) = ground (arith, holds-insert_by d x ys)

holds-sort_by : (d : ℕ) (xs : List ℕ) → holds d (sort_by leb xs) ≡ holds d xs
unfolding sort_by
holds-sort_by d [] = refl
holds-sort_by d (x ∷ xs) = ground (arith, holds-insert_by d x (sort_by leb xs), holds-sort_by d xs)

all_dated :
    (d : ℕ) (series : Dict Subject)
    → all (λ (x : Dated). is_some (find_day d x)) (dated_of series)
      ≡ all (λ (e : String × Subject). has_date d e.1) series
all_dated d [] = refl
all_dated d ((k, s) ∷ rest) = ground (arith, all_dated d rest, find_day_lem d s)

-- The aligned dates are those that every series has.
pub aligned_dates_lem :
    (d : ℕ) (k : String) (s : Subject) (rest : Dict Subject)
    → holds d (aligned_dates ((k, s) ∷ rest))
      ≡ all (λ (e : String × Subject). has_date d e.1) ((k, s) ∷ rest)
unfolding aligned_dates intersection
aligned_dates_lem d k s rest =
    let x = dated_points s.points [] in
    let q : ℕ → Bool = λ e. all (λ (y : Dated). is_some (find_day e y)) (dated_of rest) in
    ground (
      arith,
      holds-sort_by d (select q (days x)),
      holds-select d q (days x),
      holds-days d x,
      find_day_lem d s,
      all_dated d rest,
    )

-- No date occurs twice, so that the order is strict.
abbrev Apart : List ℕ → Type 0
Apart = Each (λ (x y : ℕ). x ≢ y)

put_day-keeps :
    (P : ℕ → Type 0) (d : ℕ) (p : HistoricalPoint) (x : Dated)
    → P d
    → All P (days x)
    → All P (days (put_day d p x))
unfolding put_day
put_day-keeps P d p [] h all = (h, tt)
put_day-keeps P d p ((e, q) ∷ rest) h all = elim (Bool-cases (eqb e d)) [
  | inl same ↦ rw same all
  | inr other ↦ rw other (all.0, put_day-keeps P d p rest h all.1)
]

put_day-Apart :
    (d : ℕ) (p : HistoricalPoint) (x : Dated) → Apart (days x) → Apart (days (put_day d p x))
unfolding put_day
put_day-Apart d p [] h = (tt, tt)
put_day-Apart d p ((e, q) ∷ rest) h = elim (Bool-cases (eqb e d)) [
  | inl same ↦ rw same h
  | inr other ↦
      rw other
        (put_day-keeps (λ y. e ≢ y) d p rest (λ same. ground arith) h.0, put_day-Apart d p rest h.1)
]

dated_points-Apart :
    (ps : List HistoricalPoint) (x : Dated) → Apart (days x) → Apart (days (dated_points ps x))
unfolding dated_points
dated_points-Apart [] x h = h
dated_points-Apart (p ∷ ps) x h = dated_points-Apart ps _ (put_day-Apart p.observation_date p x h)

leb-IsOrder : IsOrder leb
leb-IsOrder = record { total = λ x y h. ground arith; trans = λ x y z h k. ground arith }

above :
    (x : ℕ) (ys : List ℕ) → All (λ y. leb x y ≡ true) ys → All (λ y. x ≢ y) ys → All (λ y. x < y) ys
above x [] h k = tt
above x (y ∷ ys) h k = (ground (arith, h.0, k.0), above x ys h.1 k.1)

abbrev pub IsAscending : List ℕ → Type 0
IsAscending = Each (λ (x y : ℕ). x < y)

strictly : (xs : List ℕ) → IsSorted leb xs → Apart xs → IsAscending xs
strictly [] h k = tt
strictly (x ∷ xs) h k = (above x xs h.0 k.0, strictly xs h.1 k.1)

pub aligned_dates-IsAscending :
    (k : String) (s : Subject) (rest : Dict Subject) → IsAscending (aligned_dates ((k, s) ∷ rest))
unfolding aligned_dates intersection
aligned_dates-IsAscending k s rest = strictly _ (sort_by-IsSorted leb leb-IsOrder _) (
    Each-sort_by leb _ (λ x y h e. h (sym e)) _
      (Each-select _ _ (days (dated_points s.points [])) (dated_points-Apart s.points [] tt)))
