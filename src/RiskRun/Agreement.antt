-- ===== src/RiskRun/Agreement.antt =====
-- The database repository against the one in memory (backend/app/persistence/sqlalchemy_repos.py and
-- backend/app/persistence/memory_repos.py), for one run and its row.
use quantlineage.Prelude.{
  ℕ, ◌+◌, some, arith, inl, inr, ◌⊎◌, String, true, Option, List, ◌≡◌, refl, ◌∙◌, ap,
}
use quantlineage.Prelude.Call.{ok, err, Fault, Result-cases}
use quantlineage.Prelude.Dict
use quantlineage.Prelude.Dict.{get-put_self}
use quantlineage.RiskRun.{RiskRun, RiskRunStatus, queued, running, completed, failed, is_valid}
use quantlineage.RiskRun.Repo.{
  restamped, new_started, new_completed, new_error, RiskRunRepo, set_status,
}
use quantlineage.RiskRun.Row.{Codec, RiskRunRow, RiskResultRow, refs_of, risk_run_to_row}
use quantlineage.RiskRun.Database.{
  flushed, with_message, row_started, row_finished, stamped_row, set_row_status,
}
use quantlineage.RiskRun.Stored.{ReadsAsOf, ReadsNumbers, is_config, stored_run_reads_back}

module _ (clock : ℕ → ℕ) where
  set_status_accepts :
      (k : String) (status : RiskRunStatus) (error message : Option String) (s : RiskRunRepo)
      (run : RiskRun)
      → Dict.get k s.runs ≡ some run
      → new_error status run.error error ≡ ok message
      → let new = restamped status message (clock s.reads) run in
        set_status clock k status error s
        ≡ (ok new, record s { reads = s.reads + 1; runs = Dict.put k new s.runs })
  unfolding set_status
  set_status_accepts k status error message s run found e = ground (arith, found, e)

  set_status_refuses :
      (k : String) (status : RiskRunStatus) (error : Option String) (s : RiskRunRepo)
      (run : RiskRun) (f : Fault)
      → Dict.get k s.runs ≡ some run
      → new_error status run.error error ≡ err f
      → set_status clock k status error s ≡ (err f, record s { reads = s.reads + 1 })
  unfolding set_status
  set_status_refuses k status error s run f found e = ground (arith, found, e)

module _ (codec : Codec) where
  -- The row of a run, with result rows.
  abbrev pub row_of : RiskRun → List RiskResultRow → RiskRunRow
  row_of run rs = record (risk_run_to_row codec run) { results = rs }

  abbrev pub with_refs : RiskRun → List RiskResultRow → RiskRun
  with_refs run rs = record run { result_refs = refs_of codec rs }

  written_lem :
      (status : RiskRunStatus) (e : Option String) (now : ℕ) (run : RiskRun)
      (rs : List RiskResultRow)
      → record (stamped_row status now (row_of run rs)) { error_message = e }
        ≡ row_of (restamped status e now run) rs
  unfolding stamped_row row_started row_finished risk_run_to_row restamped new_started new_completed
  written_lem queued e now run rs = refl
  written_lem running e now run rs = refl
  written_lem completed e now run rs = refl
  written_lem failed e now run rs = refl

  error_of_row :
      (run : RiskRun) (rs : List RiskResultRow) → (row_of run rs).error_message ≡ run.error
  unfolding risk_run_to_row
  error_of_row run rs = refl

  with_message_lem :
      (row : RiskRunRow) (message : Option String)
      → with_message codec row (ok message) ≡ flushed codec (record row { error_message = message })
  unfolding with_message
  with_message_lem row message = refl

  flushed_lem :
      (run : RiskRun) (rs : List RiskResultRow)
      → is_valid run ≡ true
      → ReadsAsOf codec run.as_of
      → ReadsNumbers codec
      → is_config run.calculation_config ≡ true
      → flushed codec (row_of run rs) ≡ (ok (with_refs run rs), row_of run rs)
  unfolding flushed
  flushed_lem run rs valid date numbers config =
      λ i. (stored_run_reads_back codec run rs valid date numbers config i, row_of run rs)

  reads_on :
      (status : RiskRunStatus) (message : Option String) (now : ℕ) (run : RiskRun)
      → ReadsAsOf codec run.as_of × (is_config run.calculation_config ≡ true)
      → ReadsAsOf codec (restamped status message now run).as_of
        × (is_config (restamped status message now run).calculation_config ≡ true)
  unfolding restamped
  reads_on status message now run h = h

  row_accepts :
      (status : RiskRunStatus) (error message : Option String) (now : ℕ) (run : RiskRun)
      (rs : List RiskResultRow)
      → new_error status run.error error ≡ ok message
      → is_valid (restamped status message now run) ≡ true
      → ReadsAsOf codec run.as_of
      → ReadsNumbers codec
      → is_config run.calculation_config ≡ true
      → set_row_status codec status error now (row_of run rs) ≡ (
        ok (with_refs (restamped status message now run) rs),
        row_of (restamped status message now run) rs,
      )
  unfolding set_row_status
  row_accepts status error message now run rs accepted valid date numbers config =
      let new = restamped status message now run in
      ap (with_message codec (stamped_row status now (row_of run rs)))
        (ap (λ o. new_error status o error) (error_of_row run rs) ∙ accepted)
      ∙ with_message_lem (stamped_row status now (row_of run rs)) message
      ∙ ap (flushed codec) (written_lem status message now run rs)
      ∙ (let on = reads_on status message now run (date, config) in
          flushed_lem new rs valid on.0 numbers on.1)

  row_refuses :
      (status : RiskRunStatus) (error : Option String) (now : ℕ) (run : RiskRun)
      (rs : List RiskResultRow) (f : Fault)
      → new_error status run.error error ≡ err f
      → set_row_status codec status error now (row_of run rs)
        ≡ (err f, stamped_row status now (row_of run rs))
  unfolding set_row_status with_message
  row_refuses status error now run rs f refused =
      ap (with_message codec (stamped_row status now (row_of run rs)))
        (ap (λ o. new_error status o error) (error_of_row run rs) ∙ refused)

  module _ (clock : ℕ → ℕ) where
    -- For a stored run and its row, whose date is read back and whose settings keep the constraints of
    -- their class, if every message that is accepted gives a valid new run: either both `set_status`
    -- return, the memory repository's with the new run, which it has stored, and the database
    -- repository's with the new run and the references to the row's results, and it leaves the new
    -- run's row; or both raise the same exception, and then the stored runs are unchanged while the
    -- database repository's row already has the new status and times.
    pub set_row_status_agrees :
        (k : String) (status : RiskRunStatus) (error : Option String) (s : RiskRunRepo)
        (run : RiskRun) (rs : List RiskResultRow)
        → Dict.get k s.runs ≡ some run
        → ((message : Option String)
            → new_error status run.error error ≡ ok message
            → is_valid (restamped status message (clock s.reads) run) ≡ true)
        → ReadsAsOf codec run.as_of
        → ReadsNumbers codec
        → is_config run.calculation_config ≡ true
        → let now = clock s.reads in
          let (res, t) = set_status clock k status error s in
          let database = set_row_status codec status error now (row_of run rs) in
          ((new : RiskRun) × (res ≡ ok new)
            × (Dict.get k t.runs ≡ some new)
            × (new.status ≡ status)
            × (database ≡ (ok (with_refs new rs), row_of new rs)))
          ⊎ ((f : Fault) × (res ≡ err f)
              × (t.runs ≡ s.runs)
              × (database ≡ (err f, stamped_row status now (row_of run rs))))
    set_row_status_agrees k status error s run rs found valid date numbers config =
        let now = clock s.reads in
        elim (Result-cases (new_error status run.error error)) [
          | inl (message, e) ↦
              let new = restamped status message now run in
              let is = set_status_accepts clock k status error message s run found e in
              inl (
                new,
                ap (λ x. x.0) is,
                ap (λ x. Dict.get k x.1.runs) is ∙ get-put_self k new s.runs,
                (unfold restamped in refl),
                row_accepts status error message now run rs e (valid message e) date numbers config,
              )
          | inr (f, e) ↦
              let is = set_status_refuses clock k status error s run f found e in
              inr (
                f,
                ap (λ x. x.0) is,
                ap (λ x. x.1.runs) is,
                row_refuses status error now run rs f e,
              )
        ]
