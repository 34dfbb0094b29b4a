-- ===== src/Definitions/Tests.antt =====
-- Two limits of one portfolio.
use quantlineage.Prelude.{ℕ, String, ◌≡◌, refl, true, some, [], ◌∷◌, All}
use quantlineage.Prelude.Dict
use quantlineage.Definitions
use quantlineage.Definitions.{Limits}
use quantlineage.Definitions.Listing.{Row, In, listed_limits_found}

abbrev limits : Limits ℕ
limits =
    ("var", record { portfolio_id = some "macro"; limit = 5; active = true })
    ∷ ("dv01", record { portfolio_id = some "macro"; limit = 7; active = true })
    ∷ []

listed_limits_found_example :
    All
      (λ (x : String × ℕ).
        Row limits (some "macro") x × (Definitions.get_limit x.0 limits ≡ some x.1))
      (Definitions.list_for_portfolio (some "macro") limits)
    × ((k : String) (limit : ℕ)
        → Row limits (some "macro") (k, limit)
        → In (k, limit) (Definitions.list_for_portfolio (some "macro") limits))
unfolding Dict.get
listed_limits_found_example = listed_limits_found limits (some "macro") (refl, (refl, tt))
