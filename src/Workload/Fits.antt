-- ===== src/Workload/Fits.antt =====
-- What the walk of `enforce_parsed_payload` (backend/app/api/workload.py) accepts, by recursion on
-- the value instead of by a stack.
use quantlineage.Prelude.{
  ltb→lt, ℕ, zero, suc, ◌+◌, ◌≤◌, String, ◌≡◌, refl, Bool, true, false, not, ◌&&◌, leb, ltb, Option,
  [], ◌∷◌, arith, Bool-cases, inl, inr, subst,
}
use quantlineage.Wire.{
  Json, null, bool, int, float, text, list, obj, Items, nil, cons, Fields, end, field,
}
use quantlineage.Workload.{max_json_depth, WorkloadLimitExceeded}
use quantlineage.Workload.Walk
use quantlineage.Workload.Walk.{
  Caps, Stack, Verdict, accepted, rejected, out_of_fuel, verdict, check_node, check_root, children,
  size, size_items, size_values,
}
use quantlineage.Workload.Caps.{
  check_root_lem, check_node_lem, NodeWithin, is_root_within, is_node_within, is_within, Reports,
  Answers, nesting,
}

and_true : (b : Bool) → (b && true) ≡ b
and_true b = ground arith

module _ (caps : Caps) where
  -- No node lies deeper than 64, and every object passes the check.
  unfoldable mutual
    pub fits : ℕ → Json → Bool
    fits depth (list xs) = leb depth max_json_depth && fits_items (depth + 1) xs
    fits depth (obj fs) =
        leb depth max_json_depth && is_within caps fs && fits_values (depth + 1) fs
    fits depth null = leb depth max_json_depth
    fits depth (bool _) = leb depth max_json_depth
    fits depth (int _) = leb depth max_json_depth
    fits depth (float _) = leb depth max_json_depth
    fits depth (text _) = leb depth max_json_depth

    pub fits_items : ℕ → Items → Bool
    fits_items depth nil = true
    fits_items depth (cons x xs) = fits depth x && fits_items depth xs

    pub fits_values : ℕ → Fields → Bool
    fits_values depth end = true
    fits_values depth (field k v fs) = fits depth v && fits_values depth fs

  abbrev stack_fits : Stack → Bool
  stack_fits [] = true
  stack_fits ((x, d) ∷ s) = fits d x && stack_fits s

  abbrev weight : Stack → ℕ
  weight [] = 0
  weight ((x, d) ∷ s) = size x + weight s

  items_weight :
      (xs : Items) (d : ℕ) (s : Stack) → weight (Walk.push_items xs d s) ≡ size_items xs + weight s
  unfolding Walk.push_items size_items
  items_weight nil d s = omega arith
  items_weight (cons x xs) d s = omega (arith, items_weight xs d ((x, d) ∷ s))

  values_weight :
      (fs : Fields) (d : ℕ) (s : Stack)
      → weight (Walk.push_values fs d s) ≡ size_values fs + weight s
  unfolding Walk.push_values size_values
  values_weight end d s = omega arith
  values_weight (field k v fs) d s = omega (arith, values_weight fs d ((v, d) ∷ s))

  items_fit :
      (xs : Items) (d : ℕ) (s : Stack)
      → stack_fits (Walk.push_items xs d s) ≡ (fits_items d xs && stack_fits s)
  unfolding Walk.push_items fits_items
  items_fit nil d s = refl
  items_fit (cons x xs) d s = ground (arith, items_fit xs d ((x, d) ∷ s))

  values_fit :
      (fs : Fields) (d : ℕ) (s : Stack)
      → stack_fits (Walk.push_values fs d s) ≡ (fits_values d fs && stack_fits s)
  unfolding Walk.push_values fits_values
  values_fit end d s = refl
  values_fit (field k v fs) d s = ground (arith, values_fit fs d ((v, d) ∷ s))

  node_weight : (x : Json) (d : ℕ) (s : Stack) → suc (weight (children x d s)) ≡ size x + weight s
  unfolding size
  node_weight (list xs) d s = omega (arith, items_weight xs (d + 1) s)
  node_weight (obj fs) d s = omega (arith, values_weight fs (d + 1) s)
  node_weight null d s = omega arith
  node_weight (bool _) d s = omega arith
  node_weight (int _) d s = omega arith
  node_weight (float _) d s = omega arith
  node_weight (text _) d s = omega arith

  node_fits :
      (x : Json) (d : ℕ) (s : Stack)
      → stack_fits ((x, d) ∷ s)
        ≡ (not (ltb max_json_depth d) && (is_node_within caps x && stack_fits (children x d s)))
  unfolding fits
  node_fits (list xs) d s = ground (arith, items_fit xs (d + 1) s)
  node_fits (obj fs) d s = ground (arith, values_fit fs (d + 1) s)
  node_fits null d s = ground arith
  node_fits (bool _) d s = ground arith
  node_fits (int _) d s = ground arith
  node_fits (float _) d s = ground arith
  node_fits (text _) d s = ground arith

  verdict-Answers :
      (b c : Bool) (o : Option WorkloadLimitExceeded) (v : Verdict)
      → Reports caps b o
      → Answers caps c v
      → Answers caps (b && c) (verdict o v)
  verdict-Answers true c o v r h = rw r h
  verdict-Answers false c o v (e, r, x) h = (e, rw r refl, x)

  walk-Answers :
      (fuel : ℕ) (s : Stack) → weight s ≤ fuel → Answers caps (stack_fits s) (Walk.walk caps fuel s)
  unfolding Walk.walk
  walk-Answers fuel [] h = refl
  walk-Answers zero ((x, d) ∷ s) h = absurd (omega (arith, node_weight x d s))
  walk-Answers (suc fuel) ((x, d) ∷ s) h =
      let deeper = walk-Answers fuel (children x d s) (omega (arith, node_weight x d s)) in
      rw (node_fits x d s) (elim (Bool-cases (ltb max_json_depth d)) [
        | inl deep ↦ rw deep (_, refl, (nesting, ltb→lt _ _ deep))
        | inr flat ↦ rw flat (verdict-Answers _ _ _ _ (check_node_lem caps x) deeper)
      ])

  -- `enforce_parsed_payload` terminates and decides the caps: it returns if the payload, where it
  -- is a list, is within the scenario cap, no node lies deeper than 64, and every object in it names
  -- at most `max_positions` positions, at most `max_scenarios` scenarios, and with the additions of
  -- its changes at most `max_positions` positions; otherwise it raises, and reports one of these
  -- caps with a number above it.
  pub enforce_decides :
      (payload : Json)
      → Answers caps
          (is_root_within caps payload && fits 0 payload)
          (Walk.enforce_parsed_payload caps payload)
  unfolding Walk.enforce_parsed_payload
  enforce_decides payload = verdict-Answers _ _ _ _ (check_root_lem caps payload) (
      subst (λ b. Answers caps b (Walk.walk caps (size payload) ((payload, 0) ∷ []))) (and_true _)
        (walk-Answers (size payload) ((payload, 0) ∷ []) (omega arith)))

  accepted_fits :
      (payload : Json) → Walk.enforce_parsed_payload caps payload ≡ accepted → fits 0 payload ≡ true
  accepted_fits payload h = ground (arith, enforce_decides payload)

-- The nodes of a value with their depths.
mutual
  pub data Node : Json → ℕ → Json → Type 0 where
    root : (x : Json) → Node x 0 x
    in_list : (xs : Items) (d : ℕ) (y : Json) → Item xs d y → Node (list xs) (d + 1) y
    in_dict : (fs : Fields) (d : ℕ) (y : Json) → Value fs d y → Node (obj fs) (d + 1) y

  pub data Item : Items → ℕ → Json → Type 0 where
    first : (x : Json) (xs : Items) (d : ℕ) (y : Json) → Node x d y → Item (cons x xs) d y
    later : (x : Json) (xs : Items) (d : ℕ) (y : Json) → Item xs d y → Item (cons x xs) d y

  pub data Value : Fields → ℕ → Json → Type 0 where
    first_value :
        (k : String) (v : Json) (fs : Fields) (d : ℕ) (y : Json)
        → Node v d y
        → Value (field k v fs) d y
    later_value :
        (k : String) (v : Json) (fs : Fields) (d : ℕ) (y : Json)
        → Value fs d y
        → Value (field k v fs) d y

module _ (caps : Caps) where
  at_depth : (x : Json) {m n : ℕ} → m ≡ n → fits caps m x ≡ true → fits caps n x ≡ true
  at_depth x e h = subst (λ k. fits caps k x ≡ true) e h

  mutual
    unfolding fits

    fits-Node :
        (x y : Json) (n d : ℕ) → Node x d y → fits caps n x ≡ true → fits caps (n + d) y ≡ true
    fits-Node x _ n _ (root _) h = at_depth x (omega arith) h
    fits-Node _ y n _ (in_list xs d _ i) h =
        at_depth y (omega arith) (fits_items-Item xs y (n + 1) d i (ground arith))
    fits-Node _ y n _ (in_dict fs d _ i) h =
        at_depth y (omega arith) (fits_values-Value fs y (n + 1) d i (ground arith))

    fits_items-Item :
        (xs : Items) (y : Json) (n d : ℕ)
        → Item xs d y
        → fits_items caps n xs ≡ true
        → fits caps (n + d) y ≡ true
    fits_items-Item _ y n d (first x xs _ _ i) h = fits-Node x y n d i (ground arith)
    fits_items-Item _ y n d (later x xs _ _ i) h = fits_items-Item xs y n d i (ground arith)

    fits_values-Value :
        (fs : Fields) (y : Json) (n d : ℕ)
        → Value fs d y
        → fits_values caps n fs ≡ true
        → fits caps (n + d) y ≡ true
    fits_values-Value _ y n d (first_value k v fs _ _ i) h = fits-Node v y n d i (ground arith)
    fits_values-Value _ y n d (later_value k v fs _ _ i) h =
        fits_values-Value fs y n d i (ground arith)

  fits_caps : (n : ℕ) (x : Json) → fits caps n x ≡ true → (n ≤ max_json_depth) × NodeWithin caps x
  unfolding fits
  fits_caps n (list xs) h = ground arith
  fits_caps n (obj fs) h = ground arith
  fits_caps n null h = ground arith
  fits_caps n (bool _) h = ground arith
  fits_caps n (int _) h = ground arith
  fits_caps n (float _) h = ground arith
  fits_caps n (text _) h = ground arith

  -- In a payload that is accepted, each node at whatever place lies at most 64 deep and, if it is
  -- an object, its positions and its positions after its changes number at most `max_positions`,
  -- and its scenarios at most `max_scenarios`.
  pub accepted_nodes_within_caps :
      (payload y : Json) (d : ℕ)
      → Walk.enforce_parsed_payload caps payload ≡ accepted
      → Node payload d y
      → (d ≤ max_json_depth) × NodeWithin caps y
  accepted_nodes_within_caps payload y d h at =
      fits_caps d y
        (at_depth y (omega arith) (fits-Node payload y 0 d at (accepted_fits caps payload h)))
