-- ===== src/Workload/Walk.antt =====
-- `enforce_parsed_payload`, `_iter_dicts` and their helpers (backend/app/api/workload.py). A value
-- is what `json.loads` returns, so the keys of an object are distinct. The generator and its
-- consumer are one loop: each object is checked when it is taken from the stack.
use quantlineage.Prelude.{
  ℕ, zero, suc, ◌+◌, String, Bool, true, false, ◌&&◌, ◌==◌, ltb, Option, none, some, List, [], ◌∷◌,
  if◌then◌else◌,
}
use quantlineage.Wire.{Json, text, list, obj, Items, nil, cons, Fields, end, field, find}
use quantlineage.Workload.{WorkloadLimitExceeded, max_json_depth}

pub record Caps : Type 0 where
  pub max_positions : ℕ
  pub max_scenarios : ℕ

abbrev pub item_count : Items → ℕ
item_count nil = 0
item_count (cons x xs) = suc (item_count xs)

abbrev pub as_list : Option Json → Option Items
as_list (some (list xs)) = some xs
as_list _ = none

abbrev pub as_dict : Option Json → Option Fields
as_dict (some (obj fs)) = some fs
as_dict _ = none

abbrev pub is_text : String → Option Json → Bool
is_text s (some (text t)) = t == s
is_text s _ = false

abbrev pub is_dict : Option Json → Bool
is_dict (some (obj _)) = true
is_dict _ = false

abbrev pub is_add : Json → Bool
is_add (obj fs) = is_text "add" (find "operation" fs) && is_dict (find "position" fs)
is_add _ = false

unfoldable pub add_with_position_count : Items → ℕ
add_with_position_count nil = 0
add_with_position_count (cons x xs) =
    let n = add_with_position_count xs in if is_add x then suc n else n

unfoldable pub positions_for_changes : Fields → Option Items
positions_for_changes fs = elim (as_list (find "positions" fs)) [
  | some xs ↦ some xs
  | none ↦ elim (as_dict (find "portfolio" fs)) [
    | none ↦ none
    | some book ↦ as_list (find "positions" book)
  ]
]

abbrev pub over : String → ℕ → Option Items → Option WorkloadLimitExceeded
over name cap none = none
over name cap (some xs) =
    if ltb cap (item_count xs)
    then some (record { field = name; actual = item_count xs; limit = cap })
    else none

unfoldable pub check_changes : ℕ → Option Items → Option Items → Option WorkloadLimitExceeded
check_changes cap none book = none
check_changes cap (some changes) none = none
check_changes cap (some changes) (some book) =
    let computed = item_count book + add_with_position_count changes in
    if ltb cap computed
    then some (record { field = "positions"; actual = computed; limit = cap })
    else none

abbrev pub first_failure {ℓ} : {A : Type ℓ} → Option A → Option A → Option A
first_failure (some a) o = some a
first_failure none o = o

-- The body of the loop of `enforce_parsed_payload`.
unfoldable pub check_object : Caps → Fields → Option WorkloadLimitExceeded
check_object caps fs =
    first_failure (over "positions" caps.max_positions (as_list (find "positions" fs))) (
      first_failure (over "scenarios" caps.max_scenarios (as_list (find "scenarios" fs)))
        (check_changes caps.max_positions (as_list (find "changes" fs)) (positions_for_changes fs)))

-- The top of the stack is the head of the list.
abbrev pub Stack : Type 0
Stack = List (Json × ℕ)

unfoldable pub push_items : Items → ℕ → Stack → Stack
push_items nil depth stack = stack
push_items (cons x xs) depth stack = push_items xs depth ((x, depth) ∷ stack)

unfoldable pub push_values : Fields → ℕ → Stack → Stack
push_values end depth stack = stack
push_values (field k v fs) depth stack = push_values fs depth ((v, depth) ∷ stack)

-- How the walk ends. It does not run out of fuel if the fuel is the size of what is on the stack.
pub data Verdict : Type 0 where
  accepted : Verdict
  rejected : WorkloadLimitExceeded → Verdict
  out_of_fuel : Verdict

abbrev pub verdict : Option WorkloadLimitExceeded → Verdict → Verdict
verdict (some e) v = rejected e
verdict none v = v

abbrev pub children : Json → ℕ → Stack → Stack
children (obj fs) depth stack = push_values fs (depth + 1) stack
children (list xs) depth stack = push_items xs (depth + 1) stack
children _ depth stack = stack

abbrev pub check_node : Caps → Json → Option WorkloadLimitExceeded
check_node caps (obj fs) = check_object caps fs
check_node caps _ = none

unfoldable pub walk : Caps → ℕ → Stack → Verdict
walk caps fuel [] = accepted
walk caps zero (top ∷ stack) = out_of_fuel
walk caps (suc fuel) ((node, depth) ∷ stack) =
    let rest = walk caps fuel (children node depth stack) in
    if ltb max_json_depth depth
    then rejected (record { field = "nesting"; actual = depth; limit = max_json_depth })
    else verdict (check_node caps node) rest

unfoldable mutual
  pub size : Json → ℕ
  size (list xs) = suc (size_items xs)
  size (obj fs) = suc (size_values fs)
  size _ = 1

  pub size_items : Items → ℕ
  size_items nil = 0
  size_items (cons x xs) = size x + size_items xs

  pub size_values : Fields → ℕ
  size_values end = 0
  size_values (field k v fs) = size v + size_values fs

abbrev pub check_root : Caps → Json → Option WorkloadLimitExceeded
check_root caps (list xs) = over "scenarios" caps.max_scenarios (some xs)
check_root caps _ = none

unfoldable pub enforce_parsed_payload : Caps → Json → Verdict
enforce_parsed_payload caps payload =
    verdict (check_root caps payload) (walk caps (size payload) ((payload, 0) ∷ []))
