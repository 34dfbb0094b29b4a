-- ===== src/Definitions/Listing.antt =====
-- Listing and looking up limits (backend/app/persistence/memory_repos.py).
use quantlineage.Prelude.{
  String, subst, ◌≡◌, refl, Bool, true, false, ◌&&◌, ◌==◌, Option, none, some, List, [], ◌∷◌, map,
  select, arith, All, ap, sym, ◌∙◌, eq_iff, eq_refl, Bool-cases, inl, inr, if◌then◌else◌,
}
use quantlineage.Prelude
use quantlineage.Prelude.Sort
use quantlineage.Prelude.Sort.{sort_by, IsSorted, IsOrder}
use quantlineage.Prelude.Dict
use quantlineage.Prelude.Dict.{Dict, Distinct}
use quantlineage.Definitions
use quantlineage.Definitions.{
  Limits, LimitRow, by_key, is_listed, id_and_limit, same_portfolio, active_limit,
}

module _ {V : Type 0} where
  Own : Dict V → String × V → Type 0
  Own d (k, v) = Dict.get k d ≡ some v

  cons-Own :
      (i : String) (w : V) (d e : Dict V)
      → Dict.get i d ≡ none
      → All (Own d) e
      → All (Own ((i, w) ∷ d)) e
  unfolding Dict.get Own
  cons-Own i w d [] free h = tt
  cons-Own i w d ((k, v) ∷ e) free h = (
    elim (Bool-cases (i == k)) [
      | inl same ↦ absurd (ground (arith, ap (λ x. Dict.get x d) ((eq_iff i k).0 same), h.0))
      | inr other ↦ rw other h.0
    ],
    cons-Own i w d e free h.1,
  )

  -- Each pair of a dictionary is what its key finds.
  own : (d : Dict V) → Distinct d → All (Own d) d
  unfolding Dict.get Own
  own [] h = tt
  own ((i, w) ∷ d) h = (rw (eq_refl i) refl, cons-Own i w d d h.0 (own d h.1))

same_eq : (a b : Option String) → same_portfolio a b ≡ true → a ≡ b
same_eq none none h = refl
same_eq none (some b) h = cc h
same_eq (some a) none h = cc h
same_eq (some a) (some b) h = ap some ((eq_iff a b).0 h)

same_self : (a : Option String) → same_portfolio a a ≡ true
same_self none = refl
same_self (some a) = eq_refl a

-- To stand in a list.
pub data In {A : Type 0} (x : A) : List A → Type 0 where
  first : {xs : List A} → In x (x ∷ xs)
  later : {y : A} {xs : List A} → In x xs → In x (y ∷ xs)

map-In : {A B : Type 0} (f : A → B) (xs : List A) → All (λ x. In (f x) (map f xs)) xs
map-In f [] = tt
map-In f (x ∷ xs) = (first, Prelude.All-map (λ y h. later h) xs (map-In f xs))

module _ {RiskLimit : Type 0} (s : Limits RiskLimit) where
  Found : String × RiskLimit → Type 0
  Found (k, limit) = Definitions.get_limit k s ≡ some limit

  -- An active row that names the portfolio.
  abbrev pub Row : Option String → String × RiskLimit → Type 0
  Row portfolio_id (k, limit) =
      (row : LimitRow RiskLimit) × (Dict.get k s ≡ some row)
      × (row.active ≡ true)
      × (row.portfolio_id ≡ portfolio_id)
      × (row.limit ≡ limit)

  listed-Found :
      (portfolio_id : Option String) (x : String × LimitRow RiskLimit)
      → Own s x
      → is_listed portfolio_id x ≡ true
      → Row portfolio_id (id_and_limit x) × Found (id_and_limit x)
  unfolding Own Found Definitions.get_limit
  listed-Found portfolio_id (k, row) at h = (
    (row, at, ground arith, same_eq row.portfolio_id portfolio_id (ground arith), refl),
    ground arith,
  )

  all-Found :
      (portfolio_id : Option String) (xs : List (String × LimitRow RiskLimit))
      → All (Own s) xs
      → All (λ x. is_listed portfolio_id x ≡ true) xs
      → All (λ (x : String × RiskLimit). Row portfolio_id x × Found x) (map id_and_limit xs)
  all-Found portfolio_id [] h k = tt
  all-Found portfolio_id (x ∷ xs) h k =
      (listed-Found portfolio_id x h.0 k.0, all-Found portfolio_id xs h.1 k.1)

  -- Every row that is to be listed is in the list.
  abbrev Listed : Option String → String × LimitRow RiskLimit → Type 0
  Listed portfolio_id x =
      is_listed portfolio_id x ≡ true
      → In (id_and_limit x) (Definitions.list_for_portfolio portfolio_id s)

  rows-Listed : (portfolio_id : Option String) → All (Listed portfolio_id) s
  unfolding Definitions.list_for_portfolio
  rows-Listed portfolio_id =
      Sort.All-of-sort_by by_key (Listed portfolio_id) s (
        Prelude.All-of-select _ (is_listed portfolio_id) (sort_by by_key s) (map-In id_and_limit _))

  -- In a repository with one row for each id, the limits that are listed for a portfolio are those
  -- of its active rows, no more and no less: each listed limit is that of an active row which stands
  -- under its id and names this portfolio, and `get` returns it; and each active row that names the
  -- portfolio, under whatever key, is in the list with its key and its limit.
  pub listed_limits_found :
      (portfolio_id : Option String)
      → Distinct s
      → All
          (λ (x : String × RiskLimit).
            Row portfolio_id x × (Definitions.get_limit x.0 s ≡ some x.1))
          (Definitions.list_for_portfolio portfolio_id s)
        × ((k : String) (limit : RiskLimit)
            → Row portfolio_id (k, limit)
            → In (k, limit) (Definitions.list_for_portfolio portfolio_id s))
  unfolding Definitions.list_for_portfolio Found
  listed_limits_found portfolio_id d = (
    all-Found portfolio_id _
        (Prelude.All-select (Own s) (is_listed portfolio_id) _
          (Sort.All-sort_by by_key (Own s) s (own s d)))
        (Prelude.All-select_test (is_listed portfolio_id) (sort_by by_key s)),
    (λ k limit (row, at_k, active, same, same_limit).
        subst (λ l. In (k, l) (Definitions.list_for_portfolio portfolio_id s)) same_limit
          (Dict.All-found (Listed portfolio_id) k row s (rows-Listed portfolio_id) at_k
            (ground (arith, same, same_self portfolio_id)))),
  )
