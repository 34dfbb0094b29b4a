-- ===== src/Worker.antt =====
-- `RiskRunWorker` of backend/app/services/risk_run_worker.py over the in-memory repositories. The
-- database, the market data provider and the quantitative engines are parameters: `load_portfolio`
-- is `_load_portfolio`, `snapshot_of` is `PortfolioService.market_snapshot`, and `resolve_spec` is
-- `resolve_execute_spec`, `calculate` is the run's type executed by a service for the spec, and
-- `repr` writes a text in quotes. They return or raise any exception; `load_portfolio` returns `none`
-- where there is no payload. The repositories themselves do not fail.
pub mod Execute
pub mod Standing
pub mod Branches
pub mod Settles
pub mod Poll
mod Tests
use quantlineage.Prelude.{ℕ, String, Bool, Option, List}
use quantlineage.Prelude.Dict.{Dict}
use quantlineage.Prelude.Call.{Result, Call}
use quantlineage.Wire.{Json}
use quantlineage.Wire.Payload.{Validator}
use quantlineage.RiskRun.{RiskRun}
use quantlineage.RiskRun.Repo.{RiskRunRepo}

-- What the worker uses and does not implement.
pub record Environment : Type 1 where
  pub Portfolio : Type 0
  pub MarketSnapshot : Type 0
  pub snapshot_id : MarketSnapshot → String
  pub RunSpec : Type 0
  pub repr : String → String
  pub clock : ℕ → ℕ
  pub validated : Validator
  pub load_portfolio : String → Result (Option Portfolio)
  pub snapshot_of : Portfolio → Result MarketSnapshot
  pub resolve_spec : RiskRun → Result RunSpec
  pub calculate : RiskRun → Portfolio → RunSpec → MarketSnapshot → Result Json

-- The worker's fields. A future is `true` once it is done; `submitted` is what the pool was given.
pub record Worker (e : Environment) : Type 0 where
  pub repo : RiskRunRepo
  pub market_snapshots : Dict e.MarketSnapshot
  pub portfolios : Dict e.Portfolio
  pub completed_portfolios : Dict e.Portfolio
  pub completed_markets : Dict e.MarketSnapshot
  pub futures : Dict Bool
  pub submitted : List String

module _ (e : Environment) where
  -- `_with_service`
  abbrev pub with_service : {A : Type 0} → Call RiskRunRepo A → Call (Worker e) A
  with_service m w = let (r, repo) = m w.repo in (r, record w { repo = repo })
