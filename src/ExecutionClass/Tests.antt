-- ===== src/ExecutionClass/Tests.antt =====
-- A catalog route that the API mounts twice.
use quantlineage.Prelude.{String, ◌≡◌, refl, some}
use quantlineage.Prelude.Call.{ok}
use quantlineage.ExecutionClass.{
  interactive, classify, is_interactive_only, canonical_route, normalize_path, behind, listed,
  lookup,
}
use quantlineage.ExecutionClass.Routes.{interactive_only_stays}

abbrev upper : String → String
upper s = s

interactive_only_stays_example :
    classify upper "GET" "/api/v1/health" (some "FULL_REVALUATION") ≡ ok interactive
unfolding classify is_interactive_only canonical_route normalize_path behind listed lookup
interactive_only_stays_example =
    interactive_only_stays upper "GET" "/api/v1/health" (some "FULL_REVALUATION") refl
