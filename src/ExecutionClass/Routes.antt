-- ===== src/ExecutionClass/Routes.antt =====
-- Which requests may count on a quick answer (backend/app/api/execution_class.py).
use quantlineage.Prelude.{
  String, ◌≡◌, refl, true, false, Option, none, Bool-cases, inl, inr, sym, ◌∙◌,
}
use quantlineage.Prelude.Call.{Result, ok, err}
use quantlineage.ExecutionClass.{
  ExecutionClass, interactive, heavy, listed, canonical_route, classify, is_interactive_only,
  is_interactive, lookup, class_or_error, methodology_bearing_routes, endpoint_execution_class,
  is_full_revaluation,
}

module _ (upper : String → String) (method path : String) where
  unbearing :
      (methodology : Option String)
      → listed (canonical_route upper method path) methodology_bearing_routes ≡ false
      → classify upper method path methodology
        ≡ class_or_error upper
            (canonical_route upper method path)
            (lookup (canonical_route upper method path) endpoint_execution_class)
  unfolding classify
  unbearing methodology h = elim (Bool-cases (is_full_revaluation upper methodology)) [
    | inl full ↦ rw (full, h) refl
    | inr light ↦ rw light refl
  ]

  interactive_of :
      (r : Result ExecutionClass) → is_interactive upper r ≡ ok true → r ≡ ok interactive
  interactive_of (ok interactive) h = refl
  interactive_of (ok heavy) h = cc h
  interactive_of (err e) h = cc h

  only_unbearing :
      is_interactive_only upper method path ≡ ok true
      → (listed (canonical_route upper method path) methodology_bearing_routes ≡ false)
        × (is_interactive upper (classify upper method path none) ≡ ok true)
  unfolding is_interactive_only
  only_unbearing h =
      elim (Bool-cases (listed (canonical_route upper method path) methodology_bearing_routes)) [
        | inl a ↦ absurd (cc (rw a at h))
        | inr a ↦ (a, rw a at h)
      ]

  -- A route that counts as interactive only is classified as interactive for every methodology, so
  -- a request for full revaluation cannot make it heavy.
  pub interactive_only_stays :
      (methodology : Option String)
      → is_interactive_only upper method path ≡ ok true
      → classify upper method path methodology ≡ ok interactive
  interactive_only_stays methodology h =
      let (a, b) = only_unbearing h in
      unbearing methodology a ∙ sym (unbearing none a) ∙ interactive_of _ b
