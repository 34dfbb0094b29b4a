-- ===== src/Query/Oversized.antt =====
-- The scan for oversized arguments (backend/app/risk/query.py) against the values' structure.
use quantlineage.Prelude.{
  ℕ, zero, suc, ◌+◌, ◌≤◌, ◌≡◌, refl, Bool, false, ◌||◌, some, List, [], ◌∷◌, arith,
}
use quantlineage.Wire.{
  Json, null, bool, int, float, text, list, obj, Items, nil, cons, Fields, end, field,
}
use quantlineage.Workload.Walk.{size, size_items, size_values}
use quantlineage.Query.Validate
use quantlineage.Query.Validate.{push_items, push_values, oversized_text, extended, scan}

-- Some text within the value is longer than the cap; the keys do not count.
unfoldable mutual
  pub holds_long : Json → Bool
  holds_long (text s) = oversized_text (text s)
  holds_long (list xs) = items_hold_long xs
  holds_long (obj fs) = values_hold_long fs
  holds_long _ = false

  pub items_hold_long : Items → Bool
  items_hold_long nil = false
  items_hold_long (cons x xs) = holds_long x || items_hold_long xs

  pub values_hold_long : Fields → Bool
  values_hold_long end = false
  values_hold_long (field _ v fs) = holds_long v || values_hold_long fs

abbrev stack_holds_long : List Json → Bool
stack_holds_long [] = false
stack_holds_long (x ∷ xs) = holds_long x || stack_holds_long xs

abbrev stack_size : List Json → ℕ
stack_size [] = 0
stack_size (x ∷ xs) = size x + stack_size xs

stack_size-push_items :
    (xs : Items) (stack : List Json)
    → stack_size (push_items xs stack) ≡ size_items xs + stack_size stack
unfolding push_items size
stack_size-push_items nil stack = omega arith
stack_size-push_items (cons x xs) stack = ground (arith, stack_size-push_items xs (x ∷ stack))

stack_size-push_values :
    (fs : Fields) (stack : List Json)
    → stack_size (push_values fs stack) ≡ size_values fs + stack_size stack
unfolding push_values size
stack_size-push_values end stack = omega arith
stack_size-push_values (field _ v fs) stack = ground (arith, stack_size-push_values fs (v ∷ stack))

stack-push_items :
    (xs : Items) (stack : List Json)
    → stack_holds_long (push_items xs stack) ≡ (items_hold_long xs || stack_holds_long stack)
unfolding push_items holds_long
stack-push_items nil stack = refl
stack-push_items (cons x xs) stack = ground (arith, stack-push_items xs (x ∷ stack))

stack-push_values :
    (fs : Fields) (stack : List Json)
    → stack_holds_long (push_values fs stack) ≡ (values_hold_long fs || stack_holds_long stack)
unfolding push_values holds_long
stack-push_values end stack = refl
stack-push_values (field _ v fs) stack = ground (arith, stack-push_values fs (v ∷ stack))

stack_size-extended :
    (x : Json) (stack : List Json) → suc (stack_size (extended x stack)) ≡ stack_size (x ∷ stack)
unfolding size
stack_size-extended (obj fs) stack = ground (arith, stack_size-push_values fs stack)
stack_size-extended (list xs) stack = ground (arith, stack_size-push_items xs stack)
stack_size-extended null stack = omega arith
stack_size-extended (bool b) stack = omega arith
stack_size-extended (int n) stack = omega arith
stack_size-extended (float x) stack = omega arith
stack_size-extended (text s) stack = omega arith

stack-extended :
    (x : Json) (stack : List Json)
    → (oversized_text x || stack_holds_long (extended x stack)) ≡ stack_holds_long (x ∷ stack)
unfolding holds_long
stack-extended (obj fs) stack = ground (arith, stack-push_values fs stack)
stack-extended (list xs) stack = ground (arith, stack-push_items xs stack)
stack-extended null stack = refl
stack-extended (bool b) stack = refl
stack-extended (int n) stack = refl
stack-extended (float x) stack = refl
stack-extended (text s) stack = ground arith

scan_lem :
    (fuel : ℕ) (stack : List Json)
    → stack_size stack ≤ fuel
    → scan fuel stack ≡ some (stack_holds_long stack)
unfolding scan
scan_lem fuel [] h = refl
scan_lem zero (x ∷ stack) h = absurd (omega (arith, stack_size-extended x stack))
scan_lem (suc fuel) (x ∷ stack) h =
    let rest = scan_lem fuel (extended x stack) (omega (arith, stack_size-extended x stack)) in
    ground (arith, rest, stack-extended x stack)

-- The loop ends for every argument dict, and it tells whether a text of more than 4096 characters
-- stands in it at any depth.
pub oversized_is_structural :
    (args : Fields) → Validate.tool_args_oversized args ≡ some (holds_long (obj args))
unfolding Validate.tool_args_oversized holds_long
oversized_is_structural end = refl
oversized_is_structural (field k v fs) =
    ground (arith, scan_lem (size (obj (field k v fs))) (obj (field k v fs) ∷ []) (ground arith))
