-- ===== src/Worker/Execute.antt =====
-- `_schedule`, `_execute` and `poll_once` of backend/app/services/risk_run_worker.py, branch by
-- branch.
use quantlineage.Prelude.{
  ℕ, ◌+◌, String, Bool, true, false, not, Option, none, some, List, [], ◌∷◌, ◌++◌, if◌then◌else◌,
  is_some,
}
use quantlineage.Prelude.Int.{ℤ}
use quantlineage.Prelude.Dict
use quantlineage.Prelude.Call.{
  Result, ok, err, run_not_found, invalid_transition, Call, pure, lift, ◌>>=◌, ◌>>◌,
}
use quantlineage.Prelude.Text.{concat}
use quantlineage.RiskRun.{RiskRun, queued, running}
use quantlineage.RiskRun.Repo.{claim_queued}
use quantlineage.RiskRun.Service
use quantlineage.RiskRun.Service.{is_set}
use quantlineage.Worker.{Environment, Worker, with_service}

abbrev pub public_failure_message : String
public_failure_message = "Risk run failed"

abbrev pub portfolio_missing : String
portfolio_missing = "portfolio payload missing for run"

-- An id counts as set if it is not the empty text.
abbrev pub truthy : Option String → Option String
truthy o = if is_set o then o else none

module _ (e : Environment) where
  abbrev pub snapshot_missing : String → String
  snapshot_missing id = concat "market snapshot " (concat (e.repr id) " not found")

  abbrev pub portfolio_missing_for_queued : String → String
  portfolio_missing_for_queued id =
      concat "portfolio " (concat (e.repr id) " missing for queued run")

  abbrev pub started_or_skipped : Result RiskRun × Worker e → Result Bool × Worker e
  started_or_skipped (r, w) = elim r [
    | ok _ ↦ (ok true, w)
    | err f ↦ elim f [ invalid_transition _ ↦ (ok false, w) | other ↦ (err other, w) ]
  ]

  -- `_persist_execute_market`: a snapshot that is already stored is not replaced.
  unfoldable pub persist_market : e.MarketSnapshot → Worker e → Worker e
  persist_market m w =
      if is_some (Dict.get (e.snapshot_id m) w.market_snapshots)
      then w
      else record w { market_snapshots = Dict.put (e.snapshot_id m) m w.market_snapshots }

  unfoldable pub stamp_execute_market : String → e.MarketSnapshot → Call (Worker e) RiskRun
  stamp_execute_market run_id m w =
      with_service e (Service.bind_market_snapshot run_id (e.snapshot_id m)) (persist_market m w)

  -- The snapshot of now, stored and bound to the run.
  unfoldable pub fresh_market : String → e.Portfolio → Call (Worker e) e.MarketSnapshot
  fresh_market run_id p = do m ← lift (e.snapshot_of p); stamp_execute_market run_id m; pure m

  -- Both payloads are kept for later comparisons.
  abbrev pub remember : String → e.Portfolio → e.MarketSnapshot → Worker e → Worker e
  remember run_id p m w = record w {
    completed_portfolios = Dict.put run_id p w.completed_portfolios;
    completed_markets = Dict.put run_id m w.completed_markets;
  }

  -- With the snapshot at hand: keep the payloads, compute, and complete.
  unfoldable pub compute :
      String → RiskRun → e.Portfolio → e.RunSpec → e.MarketSnapshot → Call (Worker e) (Unit {0})
  compute run_id header p spec m w =
      (do
        payload ← lift (e.calculate header p spec m)
        with_service e
            (Service.complete e.clock e.validated run_id (some header.run_type) (some payload))
        pure tt)
        (remember run_id p m w)

  -- A return value of the source's `fail(...)` followed by `return`.
  unfoldable pub give_up : String → String → Call (Worker e) (Unit {0})
  give_up run_id message = do with_service e (Service.fail e.clock run_id message); pure tt

  unfoldable pub with_bound_market :
      String → RiskRun → e.Portfolio → e.RunSpec → Option String → Call (Worker e) (Unit {0})
  with_bound_market run_id header p spec none w =
      (do m ← fresh_market run_id p; compute run_id header p spec m) w
  with_bound_market run_id header p spec (some id) w = elim (Dict.get id w.market_snapshots) [
    | none ↦ give_up run_id (snapshot_missing id) w
    | some m ↦ compute run_id header p spec m w
  ]

  -- From the loaded portfolio on: the bound snapshot, which may be missing, or a fresh one.
  unfoldable pub run_on_market : String → e.Portfolio → Call (Worker e) (Unit {0})
  run_on_market run_id p = do
    header ← with_service e (Service.require run_id)
    spec ← lift (e.resolve_spec header)
    with_bound_market run_id header p spec (truthy header.market_snapshot_id)

  -- The portfolio at hand, or the loaded one, which may be missing; loading may raise.
  unfoldable pub with_portfolio : String → RiskRun → Call (Worker e) (Unit {0})
  with_portfolio run_id header w = elim (Dict.get run_id w.portfolios) [
    | some p ↦ run_on_market run_id p w
    | none ↦ elim (e.load_portfolio header.portfolio_id) [
      | err f ↦ (err f, w)
      | ok loaded ↦ elim loaded [
        | none ↦ give_up run_id portfolio_missing w
        | some p ↦ run_on_market run_id p w
      ]
    ]
  ]

  -- The start of an in-process run; `false` if another executor has started it.
  unfoldable pub begin_run : String → RiskRun → Call (Worker e) Bool
  begin_run run_id header w = elim header.status [
    | queued ↦ started_or_skipped (with_service e (Service.start e.clock run_id) w)
    | running ↦ (ok true, w)
    | _ ↦ (ok false, w)
  ]

  -- The body of the `try` in `_execute`.
  unfoldable pub execute_body : String → Call (Worker e) (Unit {0})
  execute_body run_id = do
    header ← with_service e (Service.require run_id)
    go ← begin_run run_id header
    if go then with_portfolio run_id header else pure tt

  -- The `except` clauses: a vanished run is logged, any other exception fails the run with the
  -- public message, and an exception of that is logged too.
  unfoldable pub settle : String → Result (Unit {0}) × Worker e → Worker e
  settle run_id (r, w) = elim r [
    | ok _ ↦ w
    | err f ↦ elim f [
      | run_not_found _ ↦ w
      | _ ↦ (with_service e (Service.fail e.clock run_id public_failure_message) w).1
    ]
  ]

  -- The `finally` clause.
  unfoldable pub forget : String → Worker e → Worker e
  forget run_id w = record w {
    portfolios = Dict.remove run_id w.portfolios;
    futures = Dict.remove run_id w.futures;
  }

  unfoldable pub execute : String → Worker e → Worker e
  execute run_id w = forget run_id (settle run_id (execute_body run_id w))

  -- A future that is not done keeps its run from being scheduled again.
  unfoldable pub is_pending : Option Bool → Bool
  is_pending none = false
  is_pending (some done) = not done

  unfoldable pub schedule : String → Worker e → Worker e
  schedule run_id w = if is_pending (Dict.get run_id w.futures) then w else record w {
    submitted = w.submitted ++ run_id ∷ [];
    futures = Dict.put run_id false w.futures;
  }

  -- A claimed run whose portfolio is at hand.
  unfoldable pub schedule_claimed : String → Call (Worker e) ℕ
  schedule_claimed run_id w =
      if is_pending (Dict.get run_id w.futures) then (ok 0, w) else (ok 1, schedule run_id w)

  -- A portfolio that the cache misses is loaded, and kept.
  abbrev pub keep_portfolio : String → e.Portfolio → Worker e → Worker e
  keep_portfolio run_id p w = record w {
    portfolios = Dict.put run_id p w.portfolios;
    completed_portfolios = Dict.put run_id p w.completed_portfolios;
  }

  -- A claimed run without a portfolio.
  unfoldable pub fail_claimed : RiskRun → Call (Worker e) ℕ
  fail_claimed run = do
    with_service e (Service.fail e.clock run.id (portfolio_missing_for_queued run.portfolio_id))
    pure 0

  -- The body of the loop of `poll_once`.
  unfoldable pub poll_run : RiskRun → Call (Worker e) ℕ
  poll_run run w = elim (Dict.get run.id w.portfolios) [
    | some p ↦ schedule_claimed run.id w
    | none ↦ elim (e.load_portfolio run.portfolio_id) [
      | err f ↦ (err f, w)
      | ok loaded ↦ elim loaded [
        | none ↦ fail_claimed run w
        | some p ↦ schedule_claimed run.id (keep_portfolio run.id p w)
      ]
    ]
  ]

  -- An exception leaves the loop.
  unfoldable pub poll_runs : List RiskRun → Call (Worker e) ℕ
  poll_runs [] = pure 0
  poll_runs (run ∷ rest) = do n ← poll_run run; m ← poll_runs rest; pure (n + m)

  unfoldable pub poll_once : ℤ → Call (Worker e) ℕ
  poll_once limit = do claimed ← with_service e (claim_queued e.clock limit); poll_runs claimed
