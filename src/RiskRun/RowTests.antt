-- ===== src/RiskRun/RowTests.antt =====
-- A running run, its row, and its completion.
use quantlineage.Prelude.{String, Option, ◌⊎◌, true, none, some, List, [], ◌∷◌, ◌≡◌, refl}
use quantlineage.Prelude.Text.{strip, lstrip, rstrip, is_space}
use quantlineage.Prelude.Call.{ok, err, Fault, ok_inj}
use quantlineage.Prelude.Dict
use quantlineage.Prelude.Int.{ℤ, pos, negsuc}
use quantlineage.Wire.{Json, Double, finite, int, float, end}
use quantlineage.RiskRun.{
  RiskRun, running, completed, linear, day, is_valid, identity_ok, times_ok, lifecycle_ok,
}
use quantlineage.RiskRun.Repo.{
  restamped, new_started, new_completed, new_error, RiskRunRepo, set_status,
}
use quantlineage.RiskRun.Row.{Codec, RiskResultRow, refs_of, row_to_risk_run, risk_run_to_row}
use quantlineage.RiskRun.Database.{set_row_status, stamped_row}
use quantlineage.RiskRun.Stored.{ReadsDate, ReadsNumbers, stored_run_reads_back}
use quantlineage.RiskRun.Agreement.{row_of, with_refs, set_row_status_agrees}

abbrev read_int : Json → Option ℤ
read_int (int n) = some n
read_int _ = none

abbrev read_float : Json → Option Double
read_float (float x) = some x
read_float _ = none

abbrev codec : Codec
codec = record {
  lower = λ s. s;
  iso_format = λ d. "2026-01-02";
  from_iso = λ s. some 739618;
  as_int = read_int;
  as_float = read_float;
}

abbrev run : RiskRun
run = record {
  id = "b";
  portfolio_id = "global-macro";
  portfolio_version = some 1;
  owner = some "alice";
  market_snapshot_id = none;
  created_at = 10;
  started_at = some 20;
  completed_at = none;
  pricing_engine_version = none;
  methodology = some linear;
  scenario_set = [];
  historical_dataset_id = some "spx-2026";
  historical_dataset_version = none;
  as_of = some (day 739618);
  calculation_config = some (record {
    observations = some 500;
    seed = some (pos 7);
    confidence = some (finite (pos 3) (negsuc 1));
  });
  status = running;
  result_refs = [];
  error = none;
  run_type = "summary";
  request = end;
}

abbrev results : List RiskResultRow
results = record { id = 7; result_type = "summary"; payload = end } ∷ []

run_valid : is_valid run ≡ true
unfolding is_valid identity_ok times_ok lifecycle_ok strip lstrip rstrip is_space
run_valid = refl

ended_valid : is_valid (restamped completed none 30 run) ≡ true
unfolding is_valid identity_ok times_ok lifecycle_ok strip lstrip rstrip is_space restamped
    new_started new_completed
ended_valid = refl

reads_date : ReadsDate codec 739618
unfolding strip lstrip rstrip is_space
reads_date = record {
  written = refl;
  stripped = refl;
  not_current = refl;
  not_t0 = refl;
  read = refl;
}

reads_numbers : ReadsNumbers codec
reads_numbers = record { read_int = λ n. refl; read_float = λ x. refl }

-- A completed run, whose row has one result.
stored : RiskRunRepo
stored = record { runs = ("b", run) ∷ []; payloads = []; next_result_id = 8; reads = 30 }

accepts_valid :
    (message : Option String)
    → new_error completed run.error none ≡ ok message
    → is_valid (restamped completed message 30 run) ≡ true
unfolding new_error
accepts_valid none h = ended_valid
accepts_valid (some m) h = cc (ok_inj h)

stored_run_reads_back_example :
    row_to_risk_run codec (record (risk_run_to_row codec run) { results = results })
    ≡ ok (record run { result_refs = refs_of codec results })
stored_run_reads_back_example =
    stored_run_reads_back codec run results run_valid reads_date reads_numbers refl

set_row_status_agrees_example :
    let (res, t) = set_status (λ n. n) "b" completed none stored in
    let database = set_row_status codec completed none 30 (row_of codec run results) in
    ((new : RiskRun) × (res ≡ ok new)
      × (Dict.get "b" t.runs ≡ some new)
      × (new.status ≡ completed)
      × (database ≡ (ok (with_refs codec new results), row_of codec new results)))
    ⊎ ((f : Fault) × (res ≡ err f)
        × (t.runs ≡ stored.runs)
        × (database ≡ (err f, stamped_row completed 30 (row_of codec run results))))
unfolding stored Dict.get
set_row_status_agrees_example =
    set_row_status_agrees codec (λ n. n) "b" completed none stored run results refl accepts_valid
      reads_date reads_numbers refl
