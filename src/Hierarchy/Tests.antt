-- ===== src/Hierarchy/Tests.antt =====
-- A book of two positions, of which one has a desk of its own.
use quantlineage.Prelude.{◌≡◌, refl, true, none, some, List, [], ◌∷◌, select, All, inl}
use quantlineage.Prelude.Call.{ok}
use quantlineage.Wire.{null}
use quantlineage.Hierarchy.{
  unique_ids, HierarchyRef, Position, Portfolio, desk, matches, filter_positions, sub_portfolio,
  portfolio_at, resolve_desk, has_labels,
}
use quantlineage.Hierarchy.Slicing.{up, slices_nest, slice_is_portfolio}
use quantlineage.Hierarchy.Labels.{slicing_keeps_desks}

abbrev swap : Position
swap = record { id = "swap"; desk = some "Rates"; strategy = none; book = "Rates"; terms = null }

abbrev share : Position
share = record { id = "share"; desk = none; strategy = none; book = "Equity"; terms = null }

abbrev macro : Portfolio
macro = record {
  id = "macro";
  name = "Macro";
  positions = swap ∷ share ∷ [];
  firm = "QuantLineage";
  desk = "Global Macro";
  strategy = "Multi-Asset";
  version = 1;
}

abbrev rates : HierarchyRef
rates = record {
  level = desk;
  firm = none;
  portfolio_id = some "macro";
  desk = some "Rates";
  strategy = none;
  book = none;
  trade_id = none;
}

slices_nest_example :
    (qs : List Position) × (filter_positions macro (up rates) ≡ ok qs)
    × (select (matches macro rates desk) qs ≡ swap ∷ [])
unfolding filter_positions matches has_labels
slices_nest_example = slices_nest macro rates (swap ∷ []) refl

slice_is_portfolio_example :
    (q : Portfolio) × (portfolio_at macro rates ≡ ok q)
    × (q.positions ≡ swap ∷ [])
    × (q.positions ≡ select (matches macro rates desk) macro.positions)
    × (q.firm ≡ "QuantLineage")
    × (unique_ids q.positions ≡ true)
unfolding filter_positions matches has_labels
slice_is_portfolio_example = slice_is_portfolio macro rates (swap ∷ []) refl refl

slicing_keeps_desks_example :
    All
      (λ (x : Position).
        resolve_desk x (sub_portfolio macro rates (swap ∷ [])) ≡ resolve_desk x macro)
      (swap ∷ [])
unfolding filter_positions matches has_labels
slicing_keeps_desks_example = slicing_keeps_desks macro rates (swap ∷ []) refl (inl refl)
