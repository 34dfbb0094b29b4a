-- ===== src/Hierarchy/Slicing.antt =====
-- Slices of a portfolio along the hierarchy (backend/app/risk/hierarchy_placement.py).
use quantlineage.Prelude.{
  String, ◌≡◌, refl, Bool, true, not, ◌==◌, List, [], ◌∷◌, arith, select, select-select, all,
  Bool-cases, inl, inr, ◌∙◌, sym,
}
use quantlineage.Prelude.Call.{ok}
use quantlineage.Hierarchy.{
  HierarchyLevel, HierarchyRef, Position, Portfolio, firm, portfolio, desk, strategy, book, trade,
  matches, filter_positions, has_labels, unique_ids, sub_portfolio, portfolio_at, agrees,
}

-- The level above.
abbrev pub parent : HierarchyLevel → HierarchyLevel
parent firm = firm
parent portfolio = firm
parent desk = portfolio
parent strategy = desk
parent book = strategy
parent trade = book

abbrev pub up : HierarchyRef → HierarchyRef
up ref = record ref { level = parent ref.level }

matches_up :
    (p : Portfolio) (ref : HierarchyRef) (l : HierarchyLevel) (x : Position)
    → matches p ref l x ≡ true
    → matches p ref (parent l) x ≡ true
unfolding matches
matches_up p ref firm x h = ground arith
matches_up p ref portfolio x h = ground arith
matches_up p ref desk x h = ground arith
matches_up p ref strategy x h = ground arith
matches_up p ref book x h = ground arith
matches_up p ref trade x h = ground arith

matches_of_up :
    (p : Portfolio) (ref : HierarchyRef) (l : HierarchyLevel) (x : Position)
    → matches p (up ref) l x ≡ matches p ref l x
unfolding matches
matches_of_up p ref firm x = refl
matches_of_up p ref portfolio x = refl
matches_of_up p ref desk x = refl
matches_of_up p ref strategy x = refl
matches_of_up p ref book x = refl
matches_of_up p ref trade x = refl

labels_up :
    (ref : HierarchyRef) (l : HierarchyLevel)
    → has_labels ref l ≡ true
    → has_labels (up ref) (parent l) ≡ true
unfolding has_labels
labels_up ref firm h = ground arith
labels_up ref portfolio h = ground arith
labels_up ref desk h = ground arith
labels_up ref strategy h = ground arith
labels_up ref book h = ground arith
labels_up ref trade h = ground arith

-- What `filter_positions` has checked, and what it returns.
pub filtered :
    (p : Portfolio) (ref : HierarchyRef) (ps : List Position)
    → filter_positions p ref ≡ ok ps
    → (agrees ref.firm p.firm ≡ true)
      × (agrees ref.portfolio_id p.id ≡ true)
      × (has_labels ref ref.level ≡ true)
      × (select (matches p ref ref.level) p.positions ≡ ps)
unfolding filter_positions
filtered p ref ps h = ground arith

unfiltered :
    (p : Portfolio) (ref : HierarchyRef)
    → agrees ref.firm p.firm ≡ true
    → agrees ref.portfolio_id p.id ≡ true
    → has_labels ref ref.level ≡ true
    → filter_positions p ref ≡ ok (select (matches p ref ref.level) p.positions)
unfolding filter_positions
unfiltered p ref f g h = ground arith

-- Drilling down: where a reference selects positions, the reference one level up selects positions
-- too, and the finer selection is what the finer test leaves of the coarser one, in the same order.
pub slices_nest :
    (p : Portfolio) (ref : HierarchyRef) (ps : List Position)
    → filter_positions p ref ≡ ok ps
    → (qs : List Position) × (filter_positions p (up ref) ≡ ok qs)
      × (select (matches p ref ref.level) qs ≡ ps)
slices_nest p ref ps h =
    let (f, g, l, found) = filtered p ref ps h in
    (
      _,
      unfiltered p (up ref) f g (labels_up ref ref.level l),
      select-select (matches p (up ref) (parent ref.level)) (matches p ref ref.level) p.positions
            (λ x m. matches_of_up p ref (parent ref.level) x ∙ matches_up p ref ref.level x m)
          ∙ found,
    )

other_ids :
    (i : String) (test : Position → Bool) (xs : List Position)
    → all (λ (y : Position). not (y.id == i)) xs ≡ true
    → all (λ (y : Position). not (y.id == i)) (select test xs) ≡ true
other_ids i test [] h = refl
other_ids i test (x ∷ xs) h = ground (arith, other_ids i test xs)

unique_select :
    (test : Position → Bool) (xs : List Position)
    → unique_ids xs ≡ true
    → unique_ids (select test xs) ≡ true
unique_select test [] h = refl
unique_select test (x ∷ xs) h = elim (Bool-cases (test x)) [
  | inl a ↦ rw a (ground (arith, other_ids x.id test xs, unique_select test xs))
  | inr a ↦ rw a (ground (arith, unique_select test xs))
]

-- In a portfolio whose position ids are unique, a reference that selects positions also has a
-- sub-portfolio, the construction's check of the ids does not fail: its positions are exactly the
-- selected ones in their order, which the level's test selects from the portfolio's, its firm is the
-- portfolio's, and its position ids are unique.
pub slice_is_portfolio :
    (p : Portfolio) (ref : HierarchyRef) (ps : List Position)
    → unique_ids p.positions ≡ true
    → filter_positions p ref ≡ ok ps
    → (q : Portfolio) × (portfolio_at p ref ≡ ok q)
      × (q.positions ≡ ps)
      × (q.positions ≡ select (matches p ref ref.level) p.positions)
      × (q.firm ≡ p.firm)
      × (unique_ids q.positions ≡ true)
unfolding portfolio_at
slice_is_portfolio p ref ps u h =
    let (_, _, _, found) = filtered p ref ps h in
    let still = unique_select (matches p ref ref.level) p.positions u in
    let unique : unique_ids ps ≡ true = rw found at still in
    (sub_portfolio p ref ps, ground arith, refl, sym found, refl, unique)
