-- ===== src/Definitions.antt =====
-- `InMemoryScenarioDefinitionRepository`, `InMemoryLimitDefinitionRepository` and
-- `InMemoryMarketSnapshotRepository` of backend/app/persistence/memory_repos.py. A definition is
-- any type, since the repositories read nothing of it but a scenario's id; each call holds the
-- lock.
pub mod Listing
mod Tests
use quantlineage.Prelude.{
  ℕ, String, Bool, true, false, not, ◌==◌, Option, none, some, List, [], ◌∷◌, map, select, is_some,
  ◌&&◌, if◌then◌else◌,
}
use quantlineage.Prelude.Text.{is_empty, le_text}
use quantlineage.Prelude.Sort.{sort_by}
use quantlineage.Prelude.Dict
use quantlineage.Prelude.Dict.{Dict}
use quantlineage.Prelude.Call.{Result, ok, err, Call, value_error}

module _ {Scenario : Type 0} (id : Scenario → String) where
  unfoldable pub save_scenario : Scenario → Call (Dict Scenario) Scenario
  save_scenario x s = if is_empty (id x) then (err value_error, s) else (ok x, Dict.put (id x) x s)

  unfoldable pub by_scenario_id : Scenario → Scenario → Bool
  by_scenario_id a b = le_text (id a) (id b)

  unfoldable pub list_scenarios : Dict Scenario → List Scenario
  list_scenarios s = sort_by by_scenario_id (Dict.values s)

unfoldable pub delete_row : {Row : Type 0} → String → Dict Row → Bool × Dict Row
delete_row k s = if is_some (Dict.get k s) then (true, Dict.remove k s) else (false, s)

-- A row of the limit repository.
pub record LimitRow (RiskLimit : Type 0) : Type 0 where
  pub portfolio_id : Option String
  pub limit : RiskLimit
  pub active : Bool

abbrev pub same_portfolio : Option String → Option String → Bool
same_portfolio none none = true
same_portfolio (some a) (some b) = a == b
same_portfolio _ _ = false

abbrev pub Limits : Type 0 → Type 0
Limits RiskLimit = Dict (LimitRow RiskLimit)

module _ {RiskLimit : Type 0} where
  unfoldable pub save_limit :
      String → RiskLimit → Option String → Limits RiskLimit → Limits RiskLimit
  save_limit limit_id limit portfolio_id s =
      Dict.put limit_id (record { portfolio_id = portfolio_id; limit = limit; active = true }) s

  abbrev pub active_limit : Option (LimitRow RiskLimit) → Option RiskLimit
  active_limit none = none
  active_limit (some row) = if row.active then some row.limit else none

  unfoldable pub get_limit : String → Limits RiskLimit → Option RiskLimit
  get_limit limit_id s = active_limit (Dict.get limit_id s)

  unfoldable pub by_key : String × LimitRow RiskLimit → String × LimitRow RiskLimit → Bool
  by_key a b = le_text a.0 b.0

  abbrev pub is_listed : Option String → String × LimitRow RiskLimit → Bool
  is_listed portfolio_id (k, row) = row.active && same_portfolio row.portfolio_id portfolio_id

  abbrev pub id_and_limit : String × LimitRow RiskLimit → String × RiskLimit
  id_and_limit (k, row) = (k, row.limit)

  unfoldable pub list_for_portfolio : Option String → Limits RiskLimit → List (String × RiskLimit)
  list_for_portfolio portfolio_id s =
      map id_and_limit (select (is_listed portfolio_id) (sort_by by_key s))

-- The snapshots with their hashes; `meta` is what the caller gives.
pub record SnapshotMeta (Meta : Type 0) : Type 0 where
  pub id : String
  pub as_of : String
  pub content_hash : String
  pub meta : Meta
  pub created_at : ℕ

pub record Snapshots (MarketSnapshot Meta : Type 0) : Type 0 where
  pub data_rows : Dict MarketSnapshot
  pub meta_rows : Dict (SnapshotMeta Meta)

module _ {MarketSnapshot Meta : Type 0} (id as_of content_hash : MarketSnapshot → String) where
  unfoldable pub save_snapshot :
      ℕ → MarketSnapshot → Meta → Snapshots MarketSnapshot Meta → Snapshots MarketSnapshot Meta
  save_snapshot now m meta s = record {
    data_rows = Dict.put (id m) m s.data_rows;
    meta_rows =
        Dict.put (id m)
          (record {
            id = id m;
            as_of = as_of m;
            content_hash = content_hash m;
            meta = meta;
            created_at = now;
          })
          s.meta_rows;
  }
