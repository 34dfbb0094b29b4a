-- ===== src/Worker/Settles.antt =====
-- A whole execution of a run: `_execute` of backend/app/services/risk_run_worker.py with the
-- handlers of its exceptions.
use quantlineage.Prelude.{String, ◌≡◌, refl, false, none, some, arith, inl, inr, ◌⊎◌}
use quantlineage.Prelude.Text.{is_blank, is_empty, strip}
use quantlineage.Prelude.Text
use quantlineage.Prelude.Dict
use quantlineage.Prelude.Dict.{get-put_self}
use quantlineage.Prelude.Call.{Result, ok, err, Fault, run_not_found}
use quantlineage.RiskRun.{RiskRun, RiskRunStatus, queued, running, completed, failed}
use quantlineage.RiskRun.Repo.{is_terminal, RiskRunRepo}
use quantlineage.RiskRun.Service
use quantlineage.RiskRun.Service.{is_set, same_id}
use quantlineage.Worker.{Environment, Worker}
use quantlineage.Worker.Execute
use quantlineage.Worker.Execute.{
  persist_market, public_failure_message, portfolio_missing, snapshot_missing, remember,
}
use quantlineage.Worker.Standing.{
  is_running, Stands, Outcome, settled, broken, fail_settles, start_runs,
}
use quantlineage.Worker.Branches.{OutcomeOf, at_Outcome, with_portfolio-Outcome}

module _ (e : Environment) where
  begun_running :
      (k : String) (w : Worker e) (row : RiskRun)
      → Dict.get k w.repo.runs ≡ some row
      → row.status ≡ running
      → Execute.execute_body e k w ≡ Execute.with_portfolio e k row w
  unfolding Execute.execute_body Execute.begin_run Service.require
  begun_running k w row h q = ground arith

  begun_queued :
      (k : String) (w : Worker e) (row r : RiskRun)
      → Dict.get k w.repo.runs ≡ some row
      → row.status ≡ queued
      → let (res, t) = Service.start e.clock k w.repo in
        res ≡ ok r
        → Execute.execute_body e k w ≡ Execute.with_portfolio e k row (record w { repo = t })
  unfolding Execute.execute_body Execute.begin_run Service.require
  begun_queued k w row r h q c = ground arith

  unended : (st : RiskRunStatus) → is_terminal st ≡ false → (st ≡ queued) ⊎ (st ≡ running)
  unended queued h = inl refl
  unended running h = inr refl
  unended completed h = cc h
  unended failed h = cc h

  execute_body-Outcome :
      (k : String) (w : Worker e) (row : RiskRun)
      → Dict.get k w.repo.runs ≡ some row
      → is_terminal row.status ≡ false
      → OutcomeOf e k (Execute.execute_body e k w)
  execute_body-Outcome k w row stored q = elim (unended row.status q) [
    | inr r ↦
        at_Outcome e k (begun_running k w row stored r)
          (with_portfolio-Outcome e k row w (row, stored, rw r refl))
    | inl r ↦
        let (started, res, run) = start_runs e.clock k w.repo row stored r in
        at_Outcome e k (begun_queued k w row started stored r res)
          (with_portfolio-Outcome e k row _ run)
  ]

  -- The handler of `Exception` ends the run, and that of `RiskRunNotFound` leaves it.
  Settled : String → Result (Unit {0}) → RiskRunRepo → Type 0
  Settled k r s =
      Stands k is_terminal s
      ⊎ ((id : String) × (r ≡ err (run_not_found id)) × Stands k is_running s)

  settle_failed :
      (k : String) (f : Fault) (w : Worker e)
      → Stands k is_running w.repo
      → Settled k (err f) (Execute.settle e k (err f, w)).repo
  unfolding Execute.settle Settled
  settle_failed k (run_not_found id) w run = inr (id, refl, run)
  settle_failed k _ w run = inl (
      fail_settles e.clock k public_failure_message w.repo run
        (unfold strip Text.lstrip Text.rstrip Text.is_space in refl))

  settle-Stands :
      (k : String) (r : Result (Unit {0})) (w : Worker e)
      → Outcome k r w.repo
      → Settled k r (Execute.settle e k (r, w)).repo
  unfolding Execute.settle Settled
  settle-Stands k _ w (settled _ done) = inl done
  settle-Stands k _ w (broken _ f still) = settle_failed k f w still

  -- Executing a stored run that is QUEUED or RUNNING ends it, over repositories that do not fail:
  -- whatever the portfolio, market and pricing code returns or raises, the run is stored as COMPLETED
  -- or FAILED afterwards, except that it stays RUNNING if the exception is a `RiskRunNotFound`, which
  -- is only logged.
  pub execute_ends_run :
      (k : String) (w : Worker e) (row : RiskRun)
      → Dict.get k w.repo.runs ≡ some row
      → is_terminal row.status ≡ false
      → let s = (Execute.execute e k w).repo in
        Stands k is_terminal s
        ⊎ ((id : String) × ((Execute.execute_body e k w).0 ≡ err (run_not_found id))
            × Stands k is_running s)
  unfolding Execute.execute Execute.forget Settled
  execute_ends_run k w row stored q = settle-Stands k _ _ (execute_body-Outcome k w row stored q)

  -- Executing a run that is not stored or has ended changes no stored run and no snapshot: only the
  -- worker's portfolio and future of the run are dropped.
  pub execute_skips_ended :
      (k : String) (w : Worker e)
      → (Dict.get k w.repo.runs ≡ none) ⊎ Stands k is_terminal w.repo
      → Execute.execute e k w ≡ Execute.forget e k w
  unfolding Execute.execute Execute.settle Execute.execute_body Execute.begin_run Service.require
  execute_skips_ended k w (inl missing) = ground arith
  execute_skips_ended k w (inr (row, stored, q)) = ground arith
