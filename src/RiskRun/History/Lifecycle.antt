-- ===== src/RiskRun/History/Lifecycle.antt =====
-- The run repository under any sequence of calls.
use quantlineage.Prelude.{ℕ, ◌+◌, ◌≤◌, String, ◌≡◌, true, some, List}
use quantlineage.Prelude.Dict
use quantlineage.Wire.Payload.{Validator}
use quantlineage.RiskRun.{RiskRun, is_valid}
use quantlineage.RiskRun.Repo.{RiskRunRepo, is_terminal, new_repo}
use quantlineage.RiskRun.Service.{is_set}
use quantlineage.RiskRun.Invariant.{IsWellFormed, new_repo-IsWellFormed}
use quantlineage.RiskRun.History.{Command, serve, serve-Steps}
use quantlineage.RiskRun.History.Continues.{Forward, SameRequest, SameOutcome, Steps-Continues}
use quantlineage.RiskRun.History.Validity.{AllSound, Steps-AllSound}

module _ (clock : ℕ → ℕ) (validated : Validator) where
  pub run_persists :
      (calls : List Command) (s : RiskRunRepo) (k : String) (r : RiskRun)
      → IsWellFormed s
      → Dict.get k s.runs ≡ some r
      → (r' : RiskRun) × (Dict.get k (serve clock validated calls s).runs ≡ some r')
        × SameRequest r r'
        × Forward r.status r'.status
  run_persists calls s k r w e =
      let (r', e', c) = Steps-Continues clock k r (serve-Steps clock validated calls s w) e in
      (r', e', c.request, c.forward)

  -- In a repository whose runs stand under their own ids, each id once, a COMPLETED or FAILED run
  -- is final: whatever calls follow, its status, its times, its error, its result references and
  -- its stored payloads stay as they are.
  pub terminal_is_final :
      (calls : List Command) (s : RiskRunRepo) (k : String) (r : RiskRun)
      → IsWellFormed s
      → Dict.get k s.runs ≡ some r
      → is_terminal r.status ≡ true
      → let t = serve clock validated calls s in
        (r' : RiskRun) × (Dict.get k t.runs ≡ some r')
        × SameOutcome r r'
        × (Dict.get k t.payloads ≡ Dict.get k s.payloads)
  terminal_is_final calls s k r w e h =
      let (r', e', c) = Steps-Continues clock k r (serve-Steps clock validated calls s w) e in
      let (same, payload) = c.outcome h in (r', e', same, payload)

  -- In a repository whose runs stand under their own ids, each id once, a run's market snapshot id,
  -- once set to a non-empty text, is never changed by later calls.
  pub snapshot_bound_once :
      (calls : List Command) (s : RiskRunRepo) (k : String) (r : RiskRun)
      → IsWellFormed s
      → Dict.get k s.runs ≡ some r
      → is_set r.market_snapshot_id ≡ true
      → (r' : RiskRun) × (Dict.get k (serve clock validated calls s).runs ≡ some r')
        × (r'.market_snapshot_id ≡ r.market_snapshot_id)
  snapshot_bound_once calls s k r w e h =
      let (r', e', c) = Steps-Continues clock k r (serve-Steps clock validated calls s w) e in
      (r', e', c.snapshot h)

  -- With a clock that is never set back, every run that any calls on a new repository leave stored
  -- passes all the checks of `RiskRun`'s construction.
  pub stored_runs_valid :
      ((n : ℕ) → clock n ≤ clock (n + 1))
      → (calls : List Command) (k : String) (r : RiskRun)
      → Dict.get k (serve clock validated calls new_repo).runs ≡ some r
      → is_valid r ≡ true
  stored_runs_valid forth calls k r e =
      (Steps-AllSound clock forth (serve-Steps clock validated calls new_repo new_repo-IsWellFormed)
        nothing_stored k r e).valid
    where
      nothing_stored : AllSound clock new_repo
      nothing_stored j x h = unfold Dict.get in cc h
