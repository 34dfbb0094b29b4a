-- ===== src/Workload/Caps.antt =====
-- The caps of backend/app/api/workload.py as counts, beside the checks of its helpers.
use quantlineage.Prelude.{
  ℕ, suc, ◌+◌, ◌≤◌, ◌<◌, String, ◌≡◌, refl, Bool, true, false, ◌&&◌, ◌==◌, leb, ltb, ltb→lt, Option,
  none, some, List, [], ◌∷◌, length, select, arith, Bool-cases, inl, inr, ap,
}
use quantlineage.Wire.{
  Json, null, bool, int, float, text, list, obj, Items, nil, cons, Fields, find,
}
use quantlineage.Workload.{max_json_depth, WorkloadLimitExceeded}
use quantlineage.Workload.Walk
use quantlineage.Workload.Walk.{Caps, Verdict, accepted, rejected, check_node, check_root}

-- The caps as counts: the elements of a list, and what the changes of a request add to the
-- positions that it names, its own or its portfolio's.
abbrev pub elements : Items → List Json
elements nil = []
elements (cons x xs) = x ∷ elements xs

abbrev pub count : Option Json → ℕ
count (some (list xs)) = length (elements xs)
count _ = 0

abbrev is_addition : Option Json → Option Json → Bool
is_addition (some (text t)) (some (obj _)) = t == "add"
is_addition _ _ = false

abbrev adds : Json → Bool
adds (obj fs) = is_addition (find "operation" fs) (find "position" fs)
adds _ = false

abbrev named_positions : Option Json → Option Json → Option Json
named_positions (some (list xs)) _ = some (list xs)
named_positions _ (some (obj book)) = find "positions" book
named_positions _ _ = none

abbrev grown : Option Json → Option Json → ℕ
grown (some (list changes)) (some (list xs)) =
    length (elements xs) + length (select adds (elements changes))
grown _ _ = 0

-- The number of positions after the changes of a request, 0 if it has none or names no list.
abbrev pub count_after_changes : Fields → ℕ
count_after_changes fs =
    grown (find "changes" fs) (named_positions (find "positions" fs) (find "portfolio" fs))

abbrev pub is_within : Caps → Fields → Bool
is_within caps fs =
    leb (count (find "positions" fs)) caps.max_positions
    && (leb (count (find "scenarios" fs)) caps.max_scenarios
        && leb (count_after_changes fs) caps.max_positions)

abbrev pub is_root_within : Caps → Json → Bool
is_root_within caps payload = leb (count (some payload)) caps.max_scenarios

length_elements : (xs : Items) → Walk.item_count xs ≡ length (elements xs)
length_elements nil = refl
length_elements (cons x xs) = ap suc (length_elements xs)

is_add_lem : (o p : Option Json) → (Walk.is_text "add" o && Walk.is_dict p) ≡ is_addition o p
is_add_lem o p = ground arith

adds_lem : (x : Json) → Walk.is_add x ≡ adds x
adds_lem (obj fs) = is_add_lem (find "operation" fs) (find "position" fs)
adds_lem null = refl
adds_lem (bool _) = refl
adds_lem (int _) = refl
adds_lem (float _) = refl
adds_lem (text _) = refl
adds_lem (list _) = refl

additions_lem : (xs : Items) → Walk.add_with_position_count xs ≡ length (select adds (elements xs))
unfolding Walk.add_with_position_count
additions_lem nil = refl
additions_lem (cons x xs) = rw (adds_lem x, additions_lem xs) (ground arith)

-- What an exceeded limit reports.
pub data IsCap (caps : Caps) : String → ℕ → Type 0 where
  positions : IsCap caps "positions" caps.max_positions
  scenarios : IsCap caps "scenarios" caps.max_scenarios
  nesting : IsCap caps "nesting" max_json_depth

abbrev pub IsExcess : Caps → WorkloadLimitExceeded → Type 0
IsExcess caps e = IsCap caps e.field e.limit × (e.limit < e.actual)

-- The verdict for a value that is to be accepted, and for one that is not.
abbrev pub Answers : Caps → Bool → Verdict → Type 0
Answers caps true v = v ≡ accepted
Answers caps false v = (e : WorkloadLimitExceeded) × (v ≡ rejected e) × IsExcess caps e

-- What a check reports, if the caps are kept and if they are not.
abbrev pub Reports : Caps → Bool → Option WorkloadLimitExceeded → Type 0
Reports caps true o = o ≡ none
Reports caps false o = (e : WorkloadLimitExceeded) × (o ≡ some e) × IsExcess caps e

-- An object is within the caps, and any other value is.
abbrev pub is_node_within : Caps → Json → Bool
is_node_within caps (obj fs) = is_within caps fs
is_node_within caps _ = true

abbrev pub NodeWithin : Caps → Json → Type 0
NodeWithin caps (obj fs) =
    (count (find "positions" fs) ≤ caps.max_positions)
    × (count (find "scenarios" fs) ≤ caps.max_scenarios)
    × (count_after_changes fs ≤ caps.max_positions)
NodeWithin caps _ = Unit

leb_zero : (n : ℕ) → leb 0 n ≡ true
leb_zero n = ground arith

named_positions_lem :
    (fs : Fields)
    → Walk.positions_for_changes fs
      ≡ Walk.as_list (named_positions (find "positions" fs) (find "portfolio" fs))
unfolding Walk.positions_for_changes
named_positions_lem fs = ground arith

module _ (caps : Caps) where
  over_items :
      (name : String) (most : ℕ) (xs : Items)
      → IsCap caps name most
      → Reports caps (leb (length (elements xs)) most) (Walk.over name most (some xs))
  over_items name most xs is_cap =
      rw (length_elements xs) (elim (Bool-cases (ltb most (length (elements xs)))) [
        | inl b ↦
            let c : leb (length (elements xs)) most ≡ false = ground arith in
            rw (b, c) (_, refl, (is_cap, ltb→lt _ _ b))
        | inr b ↦ let c : leb (length (elements xs)) most ≡ true = ground arith in rw (b, c) refl
      ])

  over_lem :
      (name : String) (most : ℕ) (o : Option Json)
      → IsCap caps name most
      → Reports caps (leb (count o) most) (Walk.over name most (Walk.as_list o))
  over_lem name most (some (list xs)) is_cap = over_items name most xs is_cap
  over_lem name most none is_cap = rw (leb_zero most) refl
  over_lem name most (some null) is_cap = rw (leb_zero most) refl
  over_lem name most (some (bool _)) is_cap = rw (leb_zero most) refl
  over_lem name most (some (int _)) is_cap = rw (leb_zero most) refl
  over_lem name most (some (float _)) is_cap = rw (leb_zero most) refl
  over_lem name most (some (text _)) is_cap = rw (leb_zero most) refl
  over_lem name most (some (obj _)) is_cap = rw (leb_zero most) refl

  changes_items :
      (changes xs : Items)
      → Reports caps
          (leb (length (elements xs) + length (select adds (elements changes))) caps.max_positions)
          (Walk.check_changes caps.max_positions (some changes) (some xs))
  unfolding Walk.check_changes
  changes_items changes xs =
      rw (length_elements xs, additions_lem changes)
        (let n = length (elements xs) + length (select adds (elements changes)) in
          elim (Bool-cases (ltb caps.max_positions n)) [
            | inl b ↦
                let c : leb n caps.max_positions ≡ false = ground arith in
                rw (b, c) (_, refl, (positions, ltb→lt _ _ b))
            | inr b ↦ let c : leb n caps.max_positions ≡ true = ground arith in rw (b, c) refl
          ])

  changes_lem :
      (o b : Option Json)
      → Reports caps
          (leb (grown o b) caps.max_positions)
          (Walk.check_changes caps.max_positions (Walk.as_list o) (Walk.as_list b))
  unfolding Walk.check_changes
  changes_lem (some (list changes)) (some (list xs)) = changes_items changes xs
  changes_lem (some (list changes)) none = rw (leb_zero caps.max_positions) refl
  changes_lem (some (list changes)) (some null) = rw (leb_zero caps.max_positions) refl
  changes_lem (some (list changes)) (some (bool _)) = rw (leb_zero caps.max_positions) refl
  changes_lem (some (list changes)) (some (int _)) = rw (leb_zero caps.max_positions) refl
  changes_lem (some (list changes)) (some (float _)) = rw (leb_zero caps.max_positions) refl
  changes_lem (some (list changes)) (some (text _)) = rw (leb_zero caps.max_positions) refl
  changes_lem (some (list changes)) (some (obj _)) = rw (leb_zero caps.max_positions) refl
  changes_lem none b = rw (leb_zero caps.max_positions) refl
  changes_lem (some null) b = rw (leb_zero caps.max_positions) refl
  changes_lem (some (bool _)) b = rw (leb_zero caps.max_positions) refl
  changes_lem (some (int _)) b = rw (leb_zero caps.max_positions) refl
  changes_lem (some (float _)) b = rw (leb_zero caps.max_positions) refl
  changes_lem (some (text _)) b = rw (leb_zero caps.max_positions) refl
  changes_lem (some (obj _)) b = rw (leb_zero caps.max_positions) refl

  first-Reports :
      (b c : Bool) (o p : Option WorkloadLimitExceeded)
      → Reports caps b o
      → Reports caps c p
      → Reports caps (b && c) (Walk.first_failure o p)
  first-Reports true c o p h k = rw h k
  first-Reports false c o p (e, h, x) k = (e, rw h refl, x)

  check_object_lem : (fs : Fields) → Reports caps (is_within caps fs) (Walk.check_object caps fs)
  unfolding Walk.check_object
  check_object_lem fs =
      first-Reports _ _ _ _
        (over_lem "positions" caps.max_positions (find "positions" fs) positions)
        (first-Reports _ _ _ _
          (over_lem "scenarios" caps.max_scenarios (find "scenarios" fs) scenarios)
          (rw (named_positions_lem fs) (
            changes_lem (find "changes" fs)
              (named_positions (find "positions" fs) (find "portfolio" fs)))))

  pub check_node_lem : (x : Json) → Reports caps (is_node_within caps x) (check_node caps x)
  check_node_lem (obj fs) = check_object_lem fs
  check_node_lem null = refl
  check_node_lem (bool _) = refl
  check_node_lem (int _) = refl
  check_node_lem (float _) = refl
  check_node_lem (text _) = refl
  check_node_lem (list _) = refl

  pub check_root_lem : (x : Json) → Reports caps (is_root_within caps x) (check_root caps x)
  check_root_lem (list xs) = over_items "scenarios" caps.max_scenarios xs scenarios
  check_root_lem null = rw (leb_zero caps.max_scenarios) refl
  check_root_lem (bool _) = rw (leb_zero caps.max_scenarios) refl
  check_root_lem (int _) = rw (leb_zero caps.max_scenarios) refl
  check_root_lem (float _) = rw (leb_zero caps.max_scenarios) refl
  check_root_lem (text _) = rw (leb_zero caps.max_scenarios) refl
  check_root_lem (obj _) = rw (leb_zero caps.max_scenarios) refl
