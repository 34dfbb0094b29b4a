-- ===== src/Access/Admission.antt =====
-- Whom `SharedTokenMiddleware` (backend/app/api/auth.py) lets through, and as whom.
use quantlineage.Prelude.{
  String, true, eqb, Option, none, some, List, [], ◌∷◌, ◌≡◌, refl, ◌⊎◌, inl, inr, eq_iff,
  Bool-cases, Option-cases, sym, ap, ◌∙◌,
}
use quantlineage.Prelude.Text.{text_length}
use quantlineage.Prelude.Call.{ok, bind_result-ok, ok_inj}
use quantlineage.Access.{Python, Environ}
use quantlineage.Access.Bearer.{
  Pair, configured_principals, token_matches, principal_among, extract_bearer, principal_for_bearer,
}
use quantlineage.Access.Gate.{
  Scope, forwarded, stamped, is_none_configured, passes_freely, middleware,
}
use quantlineage.Access.Unique.{Listed, one_principal}

module _ (py : Python) where
  token_matches_lem :
      (presented token : String) → token_matches py presented token ≡ ok true → presented ≡ token
  unfolding token_matches
  token_matches_lem presented token h =
      elim (Bool-cases (eqb (text_length presented) (text_length token))) [
        | inr longer ↦ cc (rw longer at h)
        | inl same ↦
            (eq_iff presented token).0 (sym (py.compares presented token true (rw same at h)))
      ]

  principal_among-Listed :
      (presented p : String) (pairs : List Pair)
      → principal_among py presented pairs ≡ ok (some p)
      → Listed p presented pairs
  unfolding principal_among
  principal_among-Listed presented p [] h = cc h
  principal_among-Listed presented p ((name, token) ∷ pairs) h =
      let (matches, e, rest) = bind_result-ok (token_matches py presented token) _ (some p) h in
      elim (Bool-cases matches) [
        | inl agree ↦ inl (
          cc (rw agree at rest),
          sym (token_matches_lem presented token (e ∙ ap (λ b. ok b) agree)),
        )
        | inr differ ↦ inr (principal_among-Listed presented p pairs (rw differ at rest))
      ]

  -- A token of the header that is configured for the principal, and for no other.
  pub record Proves (environ : Environ) (header : Option String) (p : String) : Type 0 where
    pub token : String
    pub presented : extract_bearer py header ≡ some token
    pub configured : Listed p token (configured_principals environ)
    pub only : (q : String) → Listed q token (configured_principals environ) → q ≡ p

  principal_for_bearer-Proves :
      (environ : Environ) (header : Option String) (p : String)
      → principal_for_bearer py environ header ≡ ok (some p)
      → Proves environ header p
  unfolding principal_for_bearer
  principal_for_bearer-Proves environ header p h = elim (Option-cases (extract_bearer py header)) [
    | inl e ↦ cc (rw (e, principal_for_bearer) at h)
    | inr (token, e) ↦
        let listed = principal_among-Listed token p _ (rw (e, principal_for_bearer) at h) in
        record {
          token = token;
          presented = e;
          configured = listed;
          only = λ q other. one_principal environ p q token listed other;
        }
  ]

  stamped_lem :
      (scope after : Scope) (principal : Option String)
      → stamped scope principal ≡ forwarded after
      → (p : String) × (principal ≡ some p) × (after ≡ record scope { principal = some p })
  stamped_lem scope after none h = cc h
  stamped_lem scope after (some p) h = (p, refl, cc h)

  -- If the application is called, then the request is one that needs no token (it is not HTTP, the
  -- deployment is not shared, or its method is OPTIONS or its path public) and its scope is as it came;
  -- or the scope names the principal whose configured token the request's bearer token is, no other
  -- principal is configured with that token, and nothing else of the scope is changed.
  pub admitted_are_proved :
      (environ : Environ) (scope after : Scope)
      → middleware py environ scope ≡ ok (forwarded after)
      → ((passes_freely py environ scope ≡ true) × (after ≡ scope))
        ⊎ ((p : String) × (after ≡ record scope { principal = some p })
            × Proves environ scope.authorization p)
  unfolding middleware
  admitted_are_proved environ scope after h = elim (Bool-cases (passes_freely py environ scope)) [
    | inl free ↦ inl (free, cc (rw free at h))
    | inr guarded ↦ elim (Bool-cases (is_none_configured (configured_principals environ))) [
      | inl empty ↦ cc (rw (guarded, empty) at h)
      | inr some_configured ↦
          let (principal, e, rest) =
            bind_result-ok (principal_for_bearer py environ scope.authorization) _ (forwarded after)
              (rw (guarded, some_configured) at h) in
          let (p, named, same) = stamped_lem scope after principal (ok_inj rest) in
          inr (
            p,
            same,
            principal_for_bearer-Proves environ scope.authorization p (e ∙ ap (λ o. ok o) named),
          )
    ]
  ]
