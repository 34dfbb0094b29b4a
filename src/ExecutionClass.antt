-- ===== src/ExecutionClass.antt =====
-- The execution class of a route: backend/app/api/execution_class.py. `upper` is Python's
-- `str.upper`.
mod Routes
mod Tests
use quantlineage.Prelude.{
  String, Bool, true, false, ◌&&◌, ◌||◌, ◌==◌, Option, none, some, List, [], ◌∷◌, if◌then◌else◌,
}
use quantlineage.Prelude.Text.{strip}
use quantlineage.Prelude.Call.{Result, ok, err, key_error}

pub data ExecutionClass : Type 0 where
  interactive : ExecutionClass
  heavy : ExecutionClass

abbrev pub Route : Type 0
Route = String × String

abbrev pub same_route : Route → Route → Bool
same_route (m, p) (n, q) = m == n && p == q

unfoldable pub listed : Route → List Route → Bool
listed r [] = false
listed r (x ∷ xs) = same_route x r || listed r xs

abbrev pub methodology_bearing_routes : List Route
methodology_bearing_routes =
    ("POST", "/risk/summary")
    ∷ ("POST", "/risk/var")
    ∷ ("POST", "/risk/es")
    ∷ ("POST", "/risk/what-if")
    ∷ ("POST", "/risk/historical-analytics")
    ∷ ("POST", "/risk/stress/compare")
    ∷ ("POST", "/risk/stress/formal/compare")
    ∷ []

abbrev pub listed_heavy_routes : List Route
listed_heavy_routes =
    ("POST", "/risk/var")
    ∷ ("POST", "/risk/es")
    ∷ ("POST", "/risk/var/compare")
    ∷ ("POST", "/risk/hierarchy")
    ∷ ("POST", "/risk/stress/reverse/multi")
    ∷ ("POST", "/risk/what-if")
    ∷ ("POST", "/risk/stress/evaluate")
    ∷ ("POST", "/risk/stress/evaluate/custom")
    ∷ ("POST", "/risk/stress/formal/evaluate/custom")
    ∷ ("POST", "/risk/contributors")
    ∷ ("POST", "/risk/change-attribution")
    ∷ []

abbrev pub endpoint_execution_class : List (Route × ExecutionClass)
endpoint_execution_class =
    (("GET", "/health"), interactive)
    ∷ (("GET", "/portfolio"), interactive)
    ∷ (("GET", "/portfolios"), interactive)
    ∷ (("GET", "/portfolios/{portfolio_id}"), interactive)
    ∷ (("PUT", "/portfolios/{portfolio_id}"), interactive)
    ∷ (("GET", "/risk/runs/{run_id}"), interactive)
    ∷ (("GET", "/risk/runs/{run_id}/provenance"), interactive)
    ∷ (("GET", "/risk/stress/scenarios"), interactive)
    ∷ (("GET", "/risk/stress/scenarios/formal"), interactive)
    ∷ (("POST", "/market/snapshot"), interactive)
    ∷ (("GET", "/market/rates-showcase"), interactive)
    ∷ (("GET", "/market/history/{instrument_id}"), interactive)
    ∷ (("GET", "/market/snapshots/{snapshot_id}"), interactive)
    ∷ (("POST", "/market/snapshots/from-public-data"), interactive)
    ∷ (("POST", "/risk/summary"), interactive)
    ∷ (("POST", "/risk/historical-analytics"), heavy)
    ∷ (("POST", "/risk/factors"), interactive)
    ∷ (("POST", "/risk/limits/drilldown"), interactive)
    ∷ (("POST", "/risk/var"), heavy)
    ∷ (("POST", "/risk/es"), heavy)
    ∷ (("POST", "/risk/var/compare"), heavy)
    ∷ (("POST", "/risk/what-if"), heavy)
    ∷ (("POST", "/risk/hierarchy"), heavy)
    ∷ (("POST", "/risk/query"), heavy)
    ∷ (("POST", "/risk/contributors"), heavy)
    ∷ (("POST", "/risk/stress"), heavy)
    ∷ (("POST", "/risk/stress/custom"), heavy)
    ∷ (("POST", "/risk/stress/formal/custom"), heavy)
    ∷ (("POST", "/risk/stress/evaluate"), heavy)
    ∷ (("POST", "/risk/stress/evaluate/custom"), heavy)
    ∷ (("POST", "/risk/stress/formal/evaluate/custom"), heavy)
    ∷ (("POST", "/risk/stress/reverse"), heavy)
    ∷ (("POST", "/risk/stress/reverse/multi"), heavy)
    ∷ (("POST", "/risk/stress/compare"), heavy)
    ∷ (("POST", "/risk/stress/formal/compare"), heavy)
    ∷ (("POST", "/risk/attribution"), heavy)
    ∷ (("POST", "/risk/attribution/demo"), heavy)
    ∷ (("POST", "/risk/change-attribution"), heavy)
    ∷ (("POST", "/risk/limits"), heavy)
    ∷ (("POST", "/risk/runs"), heavy)
    ∷ (("POST", "/risk/runs/compare"), heavy)
    ∷ (("POST", "/risk/dashboard"), heavy)
    ∷ []

unfoldable pub lookup : Route → List (Route × ExecutionClass) → Option ExecutionClass
lookup r [] = none
lookup r ((x, c) ∷ xs) = if same_route x r then some c else lookup r xs

-- What is left of a text behind a prefix.
unfoldable pub behind : String → String → Option String
behind String.[] s = some s
behind (String.◌∷◌ c p) String.[] = none
behind (String.◌∷◌ c p) (String.◌∷◌ d s) =
    let rest = behind p s in if String.◌∷◌ c String.[] == String.◌∷◌ d String.[] then rest else none

abbrev pub api_v1_prefix : String
api_v1_prefix = "/api/v1"

abbrev pub under_prefix : String → Option String → String
under_prefix path (some (String.◌∷◌ c rest)) =
    if String.◌∷◌ c String.[] == "/" then String.◌∷◌ c rest else path
under_prefix path _ = path

unfoldable pub normalize_path : String → String
normalize_path path =
    if path == api_v1_prefix then "/" else under_prefix path (behind api_v1_prefix path)

module _ (upper : String → String) where
  unfoldable pub canonical_route : String → String → Route
  canonical_route method path = (upper method, normalize_path path)

  abbrev pub is_full_revaluation : Option String → Bool
  is_full_revaluation none = false
  is_full_revaluation (some m) = upper (strip m) == "FULL_REVALUATION"

  abbrev pub class_or_error : Route → Option ExecutionClass → Result ExecutionClass
  class_or_error r none = err (key_error r.1)
  class_or_error r (some c) = ok c

  unfoldable pub classify : String → String → Option String → Result ExecutionClass
  classify method path methodology =
      let key = canonical_route method path in
      if is_full_revaluation methodology && listed key methodology_bearing_routes
      then ok heavy
      else class_or_error key (lookup key endpoint_execution_class)

  abbrev pub is_interactive : Result ExecutionClass → Result Bool
  is_interactive (ok interactive) = ok true
  is_interactive (ok heavy) = ok false
  is_interactive (err e) = err e

  unfoldable pub is_interactive_only : String → String → Result Bool
  is_interactive_only method path =
      if listed (canonical_route method path) methodology_bearing_routes
      then ok false
      else is_interactive (classify method path none)
