-- ===== src/Hierarchy/Labels.antt =====
-- The labels of a sub-portfolio (backend/app/risk/hierarchy_placement.py): a position that has no
-- label of its own takes the portfolio's, so the sub-portfolio's labels must be the right ones.
use quantlineage.Prelude.{
  String, ◌≡◌, refl, Bool, true, false, ◌&&◌, ◌==◌, ◌⊎◌, Option, none, some, List, [], ◌∷◌, map,
  arith, select, all, Bool-cases, inl, inr, All, sym, ◌∙◌, eq_iff, ap, subst,
}
use quantlineage.Prelude
use quantlineage.Prelude.Call.{ok}
use quantlineage.Hierarchy.Slicing.{filtered}
use quantlineage.Hierarchy.{
  HierarchyLevel, HierarchyRef, Position, Portfolio, firm, portfolio, desk, strategy, book, trade,
  matches, filter_positions, resolve_desk, common, given_or, is_label, sub_portfolio,
}

-- The levels that lie within a desk.
abbrev pub below_desk : HierarchyLevel → Bool
below_desk firm = false
below_desk portfolio = false
below_desk _ = true

matches_desk :
    (p : Portfolio) (ref : HierarchyRef) (l : HierarchyLevel) (x : Position)
    → below_desk l ≡ true
    → matches p ref l x ≡ true
    → is_label ref.desk (resolve_desk x p) ≡ true
unfolding matches
matches_desk p ref firm x b h = cc b
matches_desk p ref portfolio x b h = cc b
matches_desk p ref desk x b h = h
matches_desk p ref strategy x b h = ground arith
matches_desk p ref book x b h = ground arith
matches_desk p ref trade x b h = ground arith

label_eq : (o : Option String) (s d : String) → is_label o s ≡ true → given_or d o ≡ s
label_eq none s d h = cc h
label_eq (some t) s d h = ground (arith, eq_iff s t)

-- Each label is the common one, or the common one is the default.
all_equal : (a : String) (xs : List String) → all (λ y. y == a) xs ≡ true → All (λ y. a ≡ y) xs
all_equal a [] h = tt
all_equal a (y ∷ xs) h = (ground (arith, eq_iff y a), all_equal a xs (ground arith))

common_cases :
    (d : String) (xs : List String)
    → (common d xs ≡ d) ⊎ ((c : String) × (common d xs ≡ c) × All (λ y. c ≡ y) xs)
common_cases d [] = inl refl
common_cases d (a ∷ xs) = elim (Bool-cases (all (λ y. y == a) xs)) [
  | inl same ↦ rw same (inr (a, refl, (refl, all_equal a xs same)))
  | inr apart ↦ rw apart (inl refl)
]

-- A position resolves to the same label if the default stays, or is the label already.
kept :
    (o : Option String) (d d' : String)
    → (d' ≡ d) ⊎ (d' ≡ given_or d o)
    → given_or d' o ≡ given_or d o
kept none d d' (inl h) = h
kept none d d' (inr h) = h
kept (some l) d d' h = refl

module _ (p : Portfolio) (ref : HierarchyRef) where
  -- Below the desk level the reference's desk is every position's desk.
  kept_below :
      below_desk ref.level ≡ true
      → (ps : List Position) (d : String) → All (λ x. matches p ref ref.level x ≡ true) ps
      → All (λ x. given_or (given_or d ref.desk) x.desk ≡ resolve_desk x p) ps
  kept_below b [] d h = tt
  kept_below b (x ∷ ps) d h = (
    kept x.desk p.desk _ (inr (label_eq ref.desk _ d (matches_desk p ref ref.level x b h.0))),
    kept_below b ps d h.1,
  )

  kept_common :
      (ps : List Position) (c : String)
      → (c ≡ p.desk) ⊎ All (λ y. c ≡ y) (map (λ (x : Position). resolve_desk x p) ps)
      → All (λ x. given_or c x.desk ≡ resolve_desk x p) ps
  kept_common [] c h = tt
  kept_common (x ∷ ps) c (inl h) = (kept x.desk p.desk c (inl h), kept_common ps c (inl h))
  kept_common (x ∷ ps) c (inr h) = (kept x.desk p.desk c (inr h.0), kept_common ps c (inr h.1))

  common_either :
      (ps : List Position)
      → let xs = map (λ (x : Position). resolve_desk x p) ps in
        (common p.desk xs ≡ p.desk) ⊎ All (λ y. common p.desk xs ≡ y) xs
  common_either ps = elim (common_cases p.desk (map (λ (x : Position). resolve_desk x p) ps)) [
    | inl h ↦ inl h
    | inr (c, h, a) ↦ inr (Prelude.All-map (λ y e. h ∙ e) _ a)
  ]

  -- If a reference is at desk level or below, or names no desk, then each position that it selects
  -- resolves to the same desk in the sub-portfolio as in the portfolio.
  pub slicing_keeps_desks :
      (ps : List Position)
      → filter_positions p ref ≡ ok ps
      → (below_desk ref.level ≡ true) ⊎ (ref.desk ≡ none)
      → All (λ x. resolve_desk x (sub_portfolio p ref ps) ≡ resolve_desk x p) ps
  slicing_keeps_desks ps h (inl b) =
      let (_, _, _, found) = filtered p ref ps h in
      kept_below b ps _ (
        subst (λ l. All (λ x. matches p ref ref.level x ≡ true) l) found
          (Prelude.All-select_test (matches p ref ref.level) p.positions))
  slicing_keeps_desks ps h (inr free) =
      subst
        (λ (o : Option String).
          All
            (λ (x : Position).
              given_or (given_or (common p.desk (map (λ (y : Position). resolve_desk y p) ps)) o)
                x.desk
              ≡ resolve_desk x p)
            ps)
        (sym free) (kept_common ps _ (common_either ps))
