-- ===== src/RiskRun/Database.antt =====
-- The methods of `SqlAlchemyRiskRunRepository` (backend/app/persistence/sqlalchemy_repos.py) that write
-- a row, on the row that the session holds. An assignment to a row stays in the session when a later
-- line raises; what the session does then is up to the caller.
use quantlineage.Prelude.{ℕ, String, Option, some, if◌then◌else◌}
use quantlineage.Prelude.Call.{Result, ok, err, Call}
use quantlineage.RiskRun.{RiskRun, RiskRunStatus, queued, running, completed, failed}
use quantlineage.RiskRun.Repo.{is_terminal, or_else, new_error}
use quantlineage.RiskRun.Row.{Codec, RiskRunRow, row_to_risk_run, risk_run_to_row}

-- `created_at` is always set, so it needs no clock.
unfoldable pub row_started : RiskRunStatus → ℕ → RiskRunRow → Option ℕ
row_started queued now row = row.started_at
row_started running now row = some (or_else row.started_at now)
row_started completed now row = some (or_else row.started_at row.created_at)
row_started failed now row = some (or_else row.started_at row.created_at)

unfoldable pub row_finished : RiskRunStatus → ℕ → RiskRunRow → Option ℕ
row_finished status now row = if is_terminal status then some now else row.finished_at

unfoldable pub stamped_row : RiskRunStatus → ℕ → RiskRunRow → RiskRunRow
stamped_row status now row = record row {
  status = status;
  started_at = row_started status now row;
  finished_at = row_finished status now row;
}

module _ (codec : Codec) where
  -- The row is read back when it is written.
  unfoldable pub flushed : RiskRunRow → Result RiskRun × RiskRunRow
  flushed row = (row_to_risk_run codec row, row)

  unfoldable pub create_row : RiskRun → Result RiskRun × RiskRunRow
  create_row run = flushed (risk_run_to_row codec run)

  unfoldable pub with_message : RiskRunRow → Result (Option String) → Result RiskRun × RiskRunRow
  with_message row (err e) = (err e, row)
  with_message row (ok message) = flushed (record row { error_message = message })

  -- `set_status`; the tests of the message are those of the memory repository. `now` is the clock's.
  unfoldable pub set_row_status : RiskRunStatus → Option String → ℕ → Call RiskRunRow RiskRun
  set_row_status status error now row =
      with_message (stamped_row status now row) (new_error status row.error_message error)

  unfoldable pub bind_row_snapshot : String → Call RiskRunRow RiskRun
  bind_row_snapshot snapshot_id row = flushed (record row { market_snapshot_id = some snapshot_id })

  -- The body of the loop of `claim_queued`.
  unfoldable pub claim_row : ℕ → Call RiskRunRow RiskRun
  claim_row now row =
      flushed (record row { status = running; started_at = some (or_else row.started_at now) })
