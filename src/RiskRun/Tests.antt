-- ===== src/RiskRun/Tests.antt =====
-- Runs of the repository on concrete calls, and the theorems at inputs that meet their hypotheses.
use quantlineage.Prelude.{
  Each, ℕ, ◌*◌, ◌≤◌, String, ◌≡◌, refl, ◌≢◌, true, none, some, List, [], ◌∷◌, arith, All, length,
  is_some,
}
use quantlineage.Prelude.Int.{pos}
use quantlineage.Prelude.Dict
use quantlineage.Prelude.Sort
use quantlineage.Prelude.Text
use quantlineage.Wire.Payload
use quantlineage.Prelude.Text.{strip, is_blank, is_empty}
use quantlineage.Prelude.Call.{ok}
use quantlineage.Wire.{obj, end}
use quantlineage.Wire.Payload.{Validator, parse_result_payload}
use quantlineage.RiskRun.{
  RiskRun, queued, running, completed, failed, is_valid, identity_ok, times_ok, lifecycle_ok,
}
use quantlineage.RiskRun.Repo
use quantlineage.RiskRun.Repo.{
  RiskRunRepo, new_repo, is_terminal, or_else, list_by_status, claim_queued, fifo_le,
}
use quantlineage.RiskRun.Service.{RunSpec, queued_run, is_set}
use quantlineage.RiskRun.Service
use quantlineage.RiskRun.Invariant.{IsWellFormed, Steps-IsWellFormed, new_repo-IsWellFormed}
use quantlineage.RiskRun.History.{Command, serve, handle, serve-Steps}
use quantlineage.RiskRun.History.Continues.{SameOutcome}
use quantlineage.RiskRun.History.Atomic.{Untouched, raises, raising_call_writes_nothing}
use quantlineage.RiskRun.Outcomes.{complete_stores_result, fail_marks_failed}
use quantlineage.RiskRun.Steps.Claim.{Claimed}
use quantlineage.RiskRun.Fifo.{ids}
use quantlineage.RiskRun.Claiming.{claim_takes_listed, claims_are_disjoint}
use quantlineage.RiskRun.History.Lifecycle.{
  terminal_is_final, snapshot_bound_once, stored_runs_valid,
}

abbrev ticking : ℕ → ℕ
ticking n = n * 10

abbrev accept_all : Validator
accept_all t j = some j

abbrev spec : String → RunSpec
spec k = record {
  run_id = k;
  portfolio_id = "global-macro";
  run_type = "summary";
  request = end;
  market_snapshot_id = none;
  portfolio_version = some 1;
  pricing_engine_version = none;
  methodology = none;
  scenario_set = [];
  historical_dataset_id = none;
  historical_dataset_version = none;
  as_of = none;
  calculation_config = none;
  owner = none;
}

abbrev calls : List Command
calls =
    Command.enqueue (spec "b")
    ∷ Command.enqueue (spec "a")
    ∷ Command.claim (pos 1)
    ∷ Command.bind_market_snapshot "b" " eod "
    ∷ Command.complete "b" (some "summary") (some (obj end))
    ∷ []

-- Two runs are queued; the older one is claimed, bound to a snapshot and completed.
reached : RiskRunRepo
unfolding serve handle Service.enqueue Service.bind_market_snapshot Service.complete Service.attach
    Service.transition Service.fail Service.start Repo.create Repo.new_error Repo.claim_queued
    Repo.claim_each Repo.set_status Repo.list_by_status Repo.restamped Repo.replace_ref
    Repo.new_started Repo.new_completed fifo_le Dict.get Dict.put Dict.values Sort.sort_by
    parse_result_payload Payload.known strip Text.le_text is_valid identity_ok times_ok lifecycle_ok
reached = serve ticking accept_all calls new_repo

abbrev done_b : RiskRun
done_b = record (queued_run (spec "b") 0) {
  market_snapshot_id = some "eod";
  started_at = some 20;
  completed_at = some 30;
  status = completed;
  result_refs = record { result_type = "summary"; result_id = some 1 } ∷ [];
}

reached-b : Dict.get "b" reached.runs ≡ some done_b
unfolding reached
reached-b = refl

reached-IsWellFormed : IsWellFormed reached
unfolding reached
reached-IsWellFormed =
    Steps-IsWellFormed ticking new_repo-IsWellFormed
      (serve-Steps ticking accept_all calls new_repo new_repo-IsWellFormed)

-- Later calls on the finished run, each of which raises.
abbrev late_calls : List Command
late_calls =
    Command.start "b"
    ∷ Command.fail "b" "late"
    ∷ Command.bind_market_snapshot "b" "other"
    ∷ Command.claim (pos 5)
    ∷ []

terminal_is_final_example :
    let t = serve ticking accept_all late_calls reached in
    (r' : RiskRun) × (Dict.get "b" t.runs ≡ some r')
    × SameOutcome done_b r'
    × (Dict.get "b" t.payloads ≡ Dict.get "b" reached.payloads)
terminal_is_final_example =
    terminal_is_final ticking accept_all late_calls reached "b" done_b reached-IsWellFormed
      reached-b refl

snapshot_bound_once_example :
    (r' : RiskRun) × (Dict.get "b" (serve ticking accept_all late_calls reached).runs ≡ some r')
    × (r'.market_snapshot_id ≡ some "eod")
snapshot_bound_once_example =
    snapshot_bound_once ticking accept_all late_calls reached "b" done_b reached-IsWellFormed
      reached-b refl

stored_runs_valid_example : is_valid done_b ≡ true
stored_runs_valid_example =
    stored_runs_valid ticking accept_all (λ n. omega arith) calls "b" done_b
      (unfold reached in reached-b)

raising_call_writes_nothing_example :
    Untouched reached (handle ticking accept_all (Command.fail "b" "late") reached)
unfolding reached raises
raising_call_writes_nothing_example =
    raising_call_writes_nothing ticking accept_all (Command.fail "b" "late") reached
      reached-IsWellFormed refl

claim_takes_listed_example :
    let l = list_by_status queued (pos 1) reached in
    let (res, t) = claim_queued ticking (pos 1) reached in
    (claimed : List RiskRun) × (res ≡ ok claimed)
    × (ids claimed ≡ ids l)
    × (length l ≤ 1)
    × Claimed ticking reached l t
claim_takes_listed_example = claim_takes_listed ticking (pos 1) reached reached-IsWellFormed

abbrev two_calls : List Command
two_calls = Command.enqueue (spec "b") ∷ Command.enqueue (spec "a") ∷ []

-- Both runs queued, before the claim of one of them.
two_queued : RiskRunRepo
unfolding reached
two_queued = serve ticking accept_all two_calls new_repo

two_queued-IsWellFormed : IsWellFormed two_queued
unfolding two_queued
two_queued-IsWellFormed =
    Steps-IsWellFormed ticking new_repo-IsWellFormed
      (serve-Steps ticking accept_all two_calls new_repo new_repo-IsWellFormed)

-- What the two claims return.
abbrev claimed_b : RiskRun
claimed_b = record (queued_run (spec "b") 0) { started_at = some 20; status = running }

abbrev claimed_a : RiskRun
claimed_a = record (queued_run (spec "a") 10) { started_at = some 30; status = running }

claims_are_disjoint_example :
    Each (λ (i j : String). i ≢ j) ("b" ∷ [])
    × All (λ (i : String). All (λ (j : String). i ≢ j) ("a" ∷ [])) ("b" ∷ [])
unfolding two_queued
claims_are_disjoint_example =
    claims_are_disjoint ticking accept_all (pos 1) (pos 1) [] two_queued (claimed_b ∷ [])
      (claimed_a ∷ []) two_queued-IsWellFormed refl refl

running_b : RiskRun
running_b = record (queued_run (spec "b") 0) { started_at = some 20; status = running }

one_running : RiskRunRepo
unfolding reached running_b
one_running =
    serve ticking accept_all
      (Command.enqueue (spec "b") ∷ Command.enqueue (spec "a") ∷ Command.claim (pos 1) ∷ [])
      new_repo

one_running-b : Dict.get "b" one_running.runs ≡ some running_b
unfolding one_running
one_running-b = refl

complete_stores_result_example :
    let (res, t) =
      Service.complete ticking accept_all "b" (some "summary") (some (obj end)) one_running in
    (r : RiskRun) × (res ≡ ok r)
    × (r.status ≡ completed)
    × (r.error ≡ none)
    × (Dict.get "b" t.runs ≡ some r)
    × (Dict.get "summary" (or_else (Dict.get "b" t.payloads) []) ≡ some end)
unfolding one_running
complete_stores_result_example =
    complete_stores_result ticking accept_all "b" "summary" (obj end) end one_running running_b
      one_running-b refl refl

fail_marks_failed_example :
    let (res, t) = Service.fail ticking "b" " disk full " one_running in
    (r : RiskRun) × (res ≡ ok r)
    × (Dict.get "b" t.runs ≡ some r)
    × (r.status ≡ failed)
    × (r.error ≡ some (strip " disk full "))
    × (is_some r.completed_at ≡ true)
unfolding one_running
fail_marks_failed_example =
    fail_marks_failed ticking "b" " disk full " one_running running_b one_running-b refl refl
