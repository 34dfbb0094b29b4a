-- ===== src/Hierarchy.antt =====
-- Desk, strategy, book and trade membership: backend/app/risk/hierarchy_placement.py over the
-- portfolio and the references of backend/app/domain/models.py. The fields of a position that
-- placement does not read are one value, `terms`.
pub mod Slicing
pub mod Labels
mod Tests
use Prim.Native.Char.{code}
use quantlineage.Prelude.{
  ℕ, String, Bool, true, false, not, ◌&&◌, ◌||◌, ◌==◌, eqb, Option, none, some, List, [], ◌∷◌, map,
  all, select, if◌then◌else◌,
}
use quantlineage.Prelude.Text.{concat, is_empty}
use quantlineage.Prelude.Call.{Result, ok, err, value_error, bind_result}
use quantlineage.Wire.{Json}

pub data HierarchyLevel : Type 0 where
  firm : HierarchyLevel
  portfolio : HierarchyLevel
  desk : HierarchyLevel
  strategy : HierarchyLevel
  book : HierarchyLevel
  trade : HierarchyLevel

pub record HierarchyRef : Type 0 where
  pub level : HierarchyLevel
  pub firm : Option String
  pub portfolio_id : Option String
  pub desk : Option String
  pub strategy : Option String
  pub book : Option String
  pub trade_id : Option String

pub record Position : Type 0 where
  pub id : String
  pub desk : Option String
  pub strategy : Option String
  pub book : String
  pub terms : Json

pub record Portfolio : Type 0 where
  pub id : String
  pub name : String
  pub positions : List Position
  pub firm : String
  pub desk : String
  pub strategy : String
  pub version : ℕ

-- `x or default`, and `x if x is not None else default`.
abbrev pub text_or : String → Option String → String
text_or default none = default
text_or default (some s) = if is_empty s then default else s

abbrev pub given_or : String → Option String → String
given_or default none = default
given_or default (some s) = s

-- `str.replace` of one character.
unfoldable pub replace_char : ℕ → String → String → String
replace_char n by String.[] = String.[]
replace_char n by (String.◌∷◌ c s) =
    let r = replace_char n by s in if eqb (code c) n then concat by r else String.◌∷◌ c r

-- 37 is `%` and 47 is `/`.
unfoldable pub seg : Option String → String
seg value = replace_char 47 "%2F" (replace_char 37 "%25" (text_or "" value))

abbrev slash : String → String → String
slash s t = concat s (concat "/" t)

unfoldable pub hierarchy_node_id :
    HierarchyLevel
    → String
    → String
    → Option String
    → Option String
    → Option String
    → Option String
    → String
hierarchy_node_id firm f p d s b t = concat "firm:" (seg (some f))
hierarchy_node_id portfolio f p d s b t = concat "portfolio:" (seg (some p))
hierarchy_node_id desk f p d s b t = concat "desk:" (seg d)
hierarchy_node_id strategy f p d s b t = concat "strategy:" (slash (seg d) (seg s))
hierarchy_node_id book f p d s b t = concat "book:" (slash (seg d) (slash (seg s) (seg b)))
hierarchy_node_id trade f p d s b t =
    concat "trade:" (slash (seg d) (slash (seg s) (slash (seg b) (seg t))))

abbrev pub resolve_desk : Position → Portfolio → String
resolve_desk x p = given_or p.desk x.desk

abbrev pub resolve_strategy : Position → Portfolio → String
resolve_strategy x p = given_or p.strategy x.strategy

abbrev pub is_label : Option String → String → Bool
is_label none s = false
is_label (some t) s = s == t

abbrev pub in_desk : Portfolio → HierarchyRef → Position → Bool
in_desk p ref x = is_label ref.desk (resolve_desk x p)

abbrev pub in_strategy : Portfolio → HierarchyRef → Position → Bool
in_strategy p ref x = in_desk p ref x && is_label ref.strategy (resolve_strategy x p)

abbrev pub in_book : Portfolio → HierarchyRef → Position → Bool
in_book p ref x = in_strategy p ref x && is_label ref.book x.book

-- `_matches`
unfoldable pub matches : Portfolio → HierarchyRef → HierarchyLevel → Position → Bool
matches p ref firm x = true
matches p ref portfolio x = true
matches p ref desk x = in_desk p ref x
matches p ref strategy x = in_strategy p ref x
matches p ref book x = in_book p ref x
matches p ref trade x = in_book p ref x && is_label ref.trade_id x.id

abbrev pub is_given : Option String → Bool
is_given none = false
is_given (some _) = true

abbrev pub agrees : Option String → String → Bool
agrees none s = true
agrees (some t) s = t == s

-- The labels that a level needs.
unfoldable pub has_labels : HierarchyRef → HierarchyLevel → Bool
has_labels ref firm = true
has_labels ref portfolio = true
has_labels ref desk = is_given ref.desk
has_labels ref strategy = is_given ref.desk && is_given ref.strategy
has_labels ref book = is_given ref.desk && is_given ref.strategy && is_given ref.book
has_labels ref trade =
    is_given ref.desk && is_given ref.strategy && is_given ref.book && is_given ref.trade_id

unfoldable pub filter_positions : Portfolio → HierarchyRef → Result (List Position)
filter_positions p ref =
    if not (agrees ref.firm p.firm)
    then err value_error
    else if not (agrees ref.portfolio_id p.id)
    then err value_error
    else if not (has_labels ref ref.level)
    then err value_error
    else ok (select (matches p ref ref.level) p.positions)

-- The one element of a set of labels, or the default.
abbrev pub common : String → List String → String
common default [] = default
common default (x ∷ xs) = if all (λ y. y == x) xs then x else default

abbrev pub desk_of : Portfolio → HierarchyRef → List Position → String
desk_of p ref positions =
    given_or (common p.desk (map (λ (x : Position). resolve_desk x p) positions)) ref.desk

abbrev pub strategy_of : Portfolio → HierarchyRef → List Position → String
strategy_of p ref positions =
    given_or (common p.strategy (map (λ (x : Position). resolve_strategy x p) positions))
      ref.strategy

abbrev pub first_id : List Position → String
first_id [] = ""
first_id (x ∷ xs) = x.id

abbrev pub trade_at : HierarchyRef → List Position → HierarchyLevel → Option String
trade_at ref positions trade = some (given_or (first_id positions) ref.trade_id)
trade_at ref positions _ = none

abbrev pub trade_of : HierarchyRef → List Position → Option String
trade_of ref positions = trade_at ref positions ref.level

abbrev pub name_at : Portfolio → HierarchyRef → List Position → HierarchyLevel → String
name_at p ref positions firm = p.firm
name_at p ref positions portfolio = p.name
name_at p ref positions desk = desk_of p ref positions
name_at p ref positions strategy = strategy_of p ref positions
name_at p ref positions book = text_or "book" ref.book
name_at p ref positions trade = text_or "trade" (trade_of ref positions)

-- `Portfolio.unique_ids`
abbrev pub unique_ids : List Position → Bool
unique_ids [] = true
unique_ids (x ∷ xs) = all (λ (y : Position). not (y.id == x.id)) xs && unique_ids xs

abbrev pub new_portfolio : Portfolio → Result Portfolio
new_portfolio p = if unique_ids p.positions then ok p else err value_error

abbrev pub sub_portfolio : Portfolio → HierarchyRef → List Position → Portfolio
sub_portfolio p ref positions = record {
  id =
      hierarchy_node_id ref.level p.firm p.id (some (desk_of p ref positions))
        (some (strategy_of p ref positions)) ref.book (trade_of ref positions);
  name = name_at p ref positions ref.level;
  positions = positions;
  firm = p.firm;
  desk = desk_of p ref positions;
  strategy = strategy_of p ref positions;
  version = 1;
}

unfoldable pub portfolio_at : Portfolio → HierarchyRef → Result Portfolio
portfolio_at p ref =
    bind_result (filter_positions p ref)
      (λ positions. new_portfolio (sub_portfolio p ref positions))
