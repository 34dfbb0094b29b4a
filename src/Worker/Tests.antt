-- ===== src/Worker/Tests.antt =====
-- The worker's theorems at concrete runs: the market is missing, or a queued run has no portfolio.
use quantlineage.Prelude.Call.{Fault, run_not_found, ok, err, foreign}
use quantlineage.Prelude.{
  ◌+◌, All, length, ℕ, ◌*◌, String, ◌≡◌, refl, none, some, [], ◌∷◌, ◌⊎◌, inr,
}
use quantlineage.Prelude.Dict
use quantlineage.Prelude.Int.{pos}
use quantlineage.Prelude.Text.{concat}
use quantlineage.Wire.{obj, end}
use quantlineage.RiskRun.{RiskRun, running, completed}
use quantlineage.RiskRun.Repo.{
  new_repo, is_terminal, claim_queued, claim_each, set_status, new_error, restamped, new_started,
  new_completed,
}
use quantlineage.Prelude.Sort.{sort_by, insert_by}
use quantlineage.RiskRun.Service.{queued_run}
use quantlineage.Worker.{Environment, Worker}
use quantlineage.Worker.Standing.{is_running, Stands}
use quantlineage.Worker.Execute
use quantlineage.Worker.Execute.{is_pending}
use quantlineage.Worker.Settles.{execute_ends_run, execute_skips_ended}
use quantlineage.Worker.Poll.{Moved, polled_runs_move}
use quantlineage.RiskRun.Invariant.{put-IsKeyed, IsWellFormed}

-- No market data: `market_snapshot` raises.
abbrev no_market : Environment
no_market = record {
  Portfolio = ℕ;
  MarketSnapshot = String;
  RunSpec = ℕ;
  snapshot_id = λ m. m;
  repr = λ s. concat "'" (concat s "'");
  clock = λ n. n * 10;
  validated = λ t j. some j;
  load_portfolio = λ id. ok none;
  snapshot_of = λ p. err foreign;
  resolve_spec = λ r. ok 0;
  calculate = λ r p spec m. ok (obj end);
}

abbrev waiting : RiskRun
waiting =
    queued_run
      (record {
        run_id = "r1";
        portfolio_id = "book";
        run_type = "var";
        request = end;
        market_snapshot_id = none;
        portfolio_version = none;
        pricing_engine_version = none;
        methodology = none;
        scenario_set = [];
        historical_dataset_id = none;
        historical_dataset_version = none;
        as_of = none;
        calculation_config = none;
        owner = none;
      })
      0

abbrev claimed : RiskRun
claimed = record waiting { status = running; started_at = some 10 }

abbrev ended : RiskRun
ended = record claimed { status = completed; completed_at = some 20 }

abbrev holding : RiskRun → Worker no_market
holding r = record {
  repo = record new_repo { runs = (r.id, r) ∷ []; payloads = (r.id, []) ∷ [] };
  market_snapshots = [];
  portfolios = (r.id, 7) ∷ [];
  completed_portfolios = [];
  completed_markets = [];
  futures = [];
  submitted = [];
}

execute_ends_run_example :
    let s = (Execute.execute no_market "r1" (holding waiting)).repo in
    Stands "r1" is_terminal s
    ⊎ ((id : String) × ((Execute.execute_body no_market "r1" (holding waiting)).0
          ≡ err (run_not_found id))
        × Stands "r1" is_running s)
unfolding Dict.get
execute_ends_run_example = execute_ends_run no_market "r1" (holding waiting) waiting refl refl

execute_skips_ended_example :
    Execute.execute no_market "r1" (holding ended) ≡ Execute.forget no_market "r1" (holding ended)
unfolding Dict.get
execute_skips_ended_example =
    execute_skips_ended no_market "r1" (holding ended) (inr (ended, refl, refl))

holding-IsWellFormed : IsWellFormed (holding waiting).repo
unfolding Dict.get Dict.put
holding-IsWellFormed = record {
  distinct = (refl, tt);
  keyed = put-IsKeyed "r1" waiting [] (λ k r h. cc h) refl;
}

-- A poll that claims the waiting run, which has a portfolio.
polled_runs_move_example :
    ((n : ℕ) × (t : Worker no_market) × (Execute.poll_once no_market (pos 1) (holding waiting)
        ≡ (ok n, t))
      × All (Moved no_market t) (record claimed { started_at = some 0 } ∷ [])
      × (length t.submitted ≡ 0 + n))
    ⊎ ((id : String) × (f : Fault) × (t : Worker no_market) × (no_market.load_portfolio id ≡ err f)
        × (Execute.poll_once no_market (pos 1) (holding waiting) ≡ (err f, t)))
unfolding claim_queued claim_each sort_by Dict.values set_status Dict.get new_error restamped
    new_started new_completed insert_by Dict.put
polled_runs_move_example =
    polled_runs_move no_market (pos 1) (holding waiting)
      (record claimed { started_at = some 0 } ∷ []) holding-IsWellFormed refl
