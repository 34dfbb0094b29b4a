-- ===== src/Books.antt =====
-- `SqlAlchemyPortfolioRepository` of backend/app/persistence/sqlalchemy_repos.py, with the rows of
-- backend/app/persistence/models.py: one call in its own session, taken as one step; the source reads,
-- compares and writes without a row lock, so two calls that overlap are not covered. The database is a table of rows
-- by id; `dump` and `validate` are pydantic's, and `before` is the order of the column
-- `TradeRow.id`. The time stamps of the rows are not modelled, since no operation reads them.
pub mod Versions
pub mod Reading
mod Tests
use quantlineage.Prelude.{
  ℕ, suc, ◌+◌, String, Bool, true, false, not, eqb, Option, none, some, List, [], ◌∷◌, map,
  if◌then◌else◌,
}
use quantlineage.Prelude.Sort.{sort_by}
use quantlineage.Prelude.Dict
use quantlineage.Prelude.Dict.{Dict}
use quantlineage.Prelude.Call.{
  Result, ok, err, Call, bind_result, value_error, portfolio_exists, portfolio_not_found,
  version_conflict,
}
use quantlineage.Wire.{Json}
use quantlineage.Hierarchy.{Position, Portfolio, new_portfolio}

pub record TradeRow : Type 0 where
  pub id : String
  pub desk : Option String
  pub strategy : Option String
  pub book : String
  pub payload : Json

pub record PortfolioRow : Type 0 where
  pub name : String
  pub firm : String
  pub desk : String
  pub strategy : String
  pub version : ℕ
  pub owner : Option String
  pub trades : List TradeRow

abbrev pub Books : Type 0
Books = Dict PortfolioRow

-- The reads of a row by relationship order.
abbrev pub by_id : (String → String → Bool) → TradeRow → TradeRow → Bool
by_id before a b = before a.id b.id

module _ (dump : Position → Json) where
  abbrev pub trade_row : Position → TradeRow
  trade_row x = record {
    id = x.id;
    desk = x.desk;
    strategy = x.strategy;
    book = x.book;
    payload = dump x;
  }

  abbrev pub written_row : Portfolio → ℕ → Option String → PortfolioRow
  written_row p version owner = record {
    name = p.name;
    firm = p.firm;
    desk = p.desk;
    strategy = p.strategy;
    version = version;
    owner = owner;
    trades = map trade_row p.positions;
  }

  -- `_write`: the trades are replaced wholesale; the owner stays the row's.
  unfoldable pub write : Portfolio → ℕ → Option String → Call Books Portfolio
  write p version owner s = (
    new_portfolio (record p { version = version }),
    Dict.put p.id (written_row p version owner) s,
  )

  unfoldable pub create : Portfolio → Option String → Call Books Portfolio
  create p owner s = elim (Dict.get p.id s) [
    | some row ↦ (err (portfolio_exists p.id), s)
    | none ↦ write p 1 owner s
  ]

  unfoldable pub update : Portfolio → Call Books Portfolio
  update p s = elim (Dict.get p.id s) [
    | none ↦ (err (portfolio_not_found p.id), s)
    | some row ↦
        if not (eqb row.version p.version)
        then (err (version_conflict p.id), s)
        else write p (row.version + 1) row.owner s
  ]

  unfoldable pub save : Portfolio → Call Books Portfolio
  save p s = elim (Dict.get p.id s) [
    | none ↦ write p 1 (some "demo") s
    | some row ↦ write p (row.version + 1) row.owner s
  ]

unfoldable pub get_owner : String → Books → Option String
get_owner k s = elim (Dict.get k s) [ none ↦ none | some row ↦ row.owner ]

unfoldable pub delete : String → Books → Bool × Books
delete k s = elim (Dict.get k s) [ none ↦ (false, s) | some row ↦ (true, Dict.remove k s) ]

module _ (validate : Json → Option Position) (before : String → String → Bool) where
  unfoldable pub validate_all : List TradeRow → Result (List Position)
  validate_all [] = ok []
  validate_all (t ∷ ts) = elim (validate t.payload) [
    | none ↦ err value_error
    | some x ↦ bind_result (validate_all ts) (λ xs. ok (x ∷ xs))
  ]

  abbrev pub read_portfolio : String → PortfolioRow → List Position → Portfolio
  read_portfolio k row positions = record {
    id = k;
    name = row.name;
    positions = positions;
    firm = row.firm;
    desk = row.desk;
    strategy = row.strategy;
    version = row.version;
  }

  unfoldable pub get : String → Books → Result (Option Portfolio)
  get k s = elim (Dict.get k s) [
    | none ↦ ok none
    | some row ↦ bind_result (validate_all (sort_by (by_id before) row.trades)) (λ positions.
        bind_result (new_portfolio (read_portfolio k row positions)) (λ p. ok (some p)))
  ]
