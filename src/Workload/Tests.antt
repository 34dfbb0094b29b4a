-- ===== src/Workload/Tests.antt =====
-- The caps on small requests.
use quantlineage.Prelude.{◌≡◌, ◌≤◌, refl, true, false, ◌&&◌, some, List, [], ◌∷◌}
use quantlineage.Prelude.Int.{pos}
use quantlineage.Wire.{Json, obj, list, int, end, field, nil, cons, find}
use quantlineage.Workload.{max_json_depth}
use quantlineage.Workload.Walk
use quantlineage.Workload.Walk.{Caps, accepted, check_node, check_root}
use quantlineage.Workload.Fits.{
  fits, enforce_decides, accepted_nodes_within_caps, in_dict, in_list, root, first_value, first,
}
use quantlineage.Workload.Body
use quantlineage.Workload.Body.{Message, request, other, disconnect, Scope, passed}
use quantlineage.Workload.Stream.{Capped, whole_body, cache_body_exact, passed_stream_same}
use quantlineage.Workload.Caps.{NodeWithin, is_root_within, Answers}

abbrev two_of_each : Caps
two_of_each = record { max_positions = 2; max_scenarios = 2 }

abbrev book : Json
book = obj (field "positions" (list (cons (obj end) (cons (int (pos 1)) nil))) end)

enforce_decides_example :
    Answers two_of_each
      (is_root_within two_of_each book && fits two_of_each 0 book)
      (Walk.enforce_parsed_payload two_of_each book)
enforce_decides_example = enforce_decides two_of_each book

accepted_nodes_within_caps_example : (2 ≤ max_json_depth) × NodeWithin two_of_each (obj end)
unfolding Walk.enforce_parsed_payload Walk.walk Walk.check_object Walk.check_changes
    Walk.push_values Walk.push_items Walk.size find Walk.positions_for_changes
accepted_nodes_within_caps_example =
    accepted_nodes_within_caps two_of_each book (obj end) 2 refl
      (in_dict _ 1 _ (first_value _ _ _ 1 _ (in_list _ 0 _ (first _ _ 0 _ (root (obj end))))))

abbrev chunks : List Message
chunks = request (1 ∷ 2 ∷ []) true ∷ other ∷ request (3 ∷ []) false ∷ disconnect ∷ []

cache_body_exact_example :
    Capped 2 (1 ∷ 2 ∷ 3 ∷ []) (disconnect ∷ []) 3 (Body.cache_body_capped 2 chunks)
unfolding whole_body
cache_body_exact_example = cache_body_exact 2 chunks (1 ∷ 2 ∷ 3 ∷ []) (disconnect ∷ []) refl

abbrev post : Scope
post = record { is_http = true; method = "POST"; declared = some (pos 3) }

passed_stream_same_example :
    (3 ≤ 3)
    × (request (1 ∷ 2 ∷ 3 ∷ []) false ∷ disconnect ∷ []
        ≡ request (1 ∷ 2 ∷ 3 ∷ []) false ∷ disconnect ∷ [])
    × (whole_body (request (1 ∷ 2 ∷ 3 ∷ []) false ∷ disconnect ∷ [])
        ≡ some (1 ∷ 2 ∷ 3 ∷ [], disconnect ∷ []))
unfolding whole_body Body.middleware Body.cache_body_capped Body.cache_chunks Body.handle_received
passed_stream_same_example =
    passed_stream_same 3 post chunks (request (1 ∷ 2 ∷ 3 ∷ []) false ∷ disconnect ∷ [])
      (1 ∷ 2 ∷ 3 ∷ []) (disconnect ∷ []) refl refl refl refl
