-- ===== src/Access/Gate.antt =====
-- `SharedTokenMiddleware` (backend/app/api/auth.py).
use quantlineage.Prelude.{
  String, Bool, true, false, not, ◌||◌, ◌==◌, Option, none, some, List, [], ◌∷◌, if◌then◌else◌,
}
use quantlineage.Prelude.Call.{Result, ok, bind_result}
use quantlineage.Access.{Python, Environ, is_shared_deployment, is_public_path}
use quantlineage.Access.Bearer.{Pair, configured_principals, principal_for_bearer}

-- The scope's parts that the middleware reads or writes; the principal is `state.principal`.
pub record Scope : Type 0 where
  pub kind : String
  pub method : String
  pub path : String
  pub authorization : Option String
  pub principal : Option String

-- Either the application is called, with the scope then, or the answer is 401.
pub data Outcome : Type 0 where
  forwarded : Scope → Outcome
  unauthorized : Outcome

abbrev pub stamped : Scope → Option String → Outcome
stamped scope none = unauthorized
stamped scope (some p) = forwarded (record scope { principal = some p })

abbrev pub is_none_configured : List Pair → Bool
is_none_configured [] = true
is_none_configured (_ ∷ _) = false

-- The tests before the token is looked at, with the scopes that pass without one.
unfoldable pub passes_freely : Python → Environ → Scope → Bool
passes_freely py environ scope =
    not (scope.kind == "http")
    || not (is_shared_deployment py environ)
    || py.upper scope.method == "OPTIONS"
    || is_public_path scope.path

unfoldable pub middleware : Python → Environ → Scope → Result Outcome
middleware py environ scope =
    if passes_freely py environ scope
    then ok (forwarded scope)
    else if is_none_configured (configured_principals environ)
    then ok unauthorized
    else bind_result (principal_for_bearer py environ scope.authorization)
        (λ principal. ok (stamped scope principal))

-- `require_shared_auth_configured`: the process does not start (`RuntimeError`).
unfoldable pub starts : Python → Environ → Bool
starts py environ =
    if not (is_shared_deployment py environ)
    then true
    else not (is_none_configured (configured_principals environ))
