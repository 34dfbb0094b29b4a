-- ===== src/RiskRun/Outcomes.antt =====
-- What each call of the service (backend/app/services/risk_run_service.py) returns and writes.
use quantlineage.Prelude.{
  ℕ, String, ◌≡◌, refl, true, false, Option, none, some, [], arith, Bool-cases, Option-cases, inl,
  inr, is_some,
}
use quantlineage.Prelude.Text.{is_blank, strip, filled_strip}
use quantlineage.Prelude.Dict
use quantlineage.Prelude.Dict.{get-put_self}
use quantlineage.Prelude.Call.{ok, err, Fault, Result-cases}
use quantlineage.Wire.{Json, Fields}
use quantlineage.Wire.Payload.{Validator, parse_result_payload}
use quantlineage.RiskRun.{RiskRun, running, completed, failed}
use quantlineage.RiskRun.Repo
use quantlineage.RiskRun.Repo.{RiskRunRepo, restamped, or_else, replace_ref, is_terminal}
use quantlineage.RiskRun.Service
use quantlineage.RiskRun.Steps.{stamp}
use quantlineage.RiskRun.Steps.Methods.{
  transition_stamped, attach_recorded, recorded_runs, failed_error,
}
use quantlineage.RiskRun.Service.{can_transition, is_set, RunSpec, queued_run}

module _ (clock : ℕ → ℕ) where
  pub start_atomic :
      (k : String) (s : RiskRunRepo) {e : Fault}
      → (Service.start clock k s).0 ≡ err e
      → (Service.start clock k s).1 ≡ s
  unfolding Service.start Service.transition Repo.new_error
  start_atomic k s h = ground arith

  pub bind_atomic :
      (k snap : String) (s : RiskRunRepo) {e : Fault}
      → (Service.bind_market_snapshot k snap s).0 ≡ err e
      → (Service.bind_market_snapshot k snap s).1 ≡ s
  unfolding Service.bind_market_snapshot
  bind_atomic k snap s h = ground arith

  pub fail_atomic :
      (k message : String) (s : RiskRunRepo) {e : Fault}
      → (Service.fail clock k message s).0 ≡ err e
      → (Service.fail clock k message s).1 ≡ s
  unfolding Service.fail Service.transition Repo.new_error
  fail_atomic k message s h = ground (arith, filled_strip message)

  finish_atomic :
      (k : String) (s : RiskRunRepo) {e : Fault}
      → (Service.transition clock k completed none s).0 ≡ err e
      → (Service.transition clock k completed none s).1 ≡ s
  unfolding Service.transition Repo.new_error
  finish_atomic k s h = ground arith

  module _ (validated : Validator) where
    attach_atomic :
        (k rt : String) (payload : Option Json) (s : RiskRunRepo) {e : Fault}
        → (Service.attach clock validated k rt payload s).0 ≡ err e
        → (Service.attach clock validated k rt payload s).1 ≡ s
    unfolding Service.attach
    attach_atomic k rt none s h = refl
    attach_atomic k rt (some p) s h = ground arith

    -- The run that `attach` leaves, and the run that `complete` leaves.
    abbrev with_result : String → RiskRunRepo → RiskRun → RiskRun
    with_result rt s row = record row {
      result_refs = replace_ref rt s.next_result_id row.result_refs;
    }

    abbrev pub completed_run : String → RiskRunRepo → RiskRun → RiskRun
    completed_run rt s row = restamped completed none (clock s.reads) (with_result rt s row)

    finish_recorded :
        (k rt : String) (typed : Fields) (s : RiskRunRepo) (row : RiskRun)
        → can_transition row.status completed ≡ true
        → let u = recorded_runs clock validated k rt typed s row in
          Service.transition clock k completed none u
          ≡ (ok (completed_run rt s row), stamp clock u k completed none (with_result rt s row))
    unfolding recorded_runs Repo.new_error
    finish_recorded k rt typed s row allowed =
        transition_stamped clock k completed none none _ (with_result rt s row)
          (get-put_self k _ s.runs) allowed refl

    complete_recorded :
        (k rt : String) (p : Json) (typed : Fields) (s : RiskRunRepo) (row : RiskRun)
        → Dict.get k s.runs ≡ some row
        → can_transition row.status completed ≡ true
        → parse_result_payload validated rt p ≡ ok typed
        → let u = recorded_runs clock validated k rt typed s row in
          Service.complete clock validated k (some rt) (some p) s
          ≡ (ok (completed_run rt s row), stamp clock u k completed none (with_result rt s row))
    unfolding Service.complete
    complete_recorded k rt p typed s row found allowed parsed = ground (
      arith,
      attach_recorded clock validated k rt p typed s row found allowed parsed,
      finish_recorded k rt typed s row allowed,
    )

    pub complete_atomic :
        (k : String) (rt : Option String) (payload : Option Json) (s : RiskRunRepo) {e : Fault}
        → (Service.complete clock validated k rt payload s).0 ≡ err e
        → (Service.complete clock validated k rt payload s).1 ≡ s
    unfolding Service.complete
    complete_atomic k none payload s h = finish_atomic k s h
    complete_atomic k (some rt) none s h = unfold Service.attach in refl
    complete_atomic k (some rt) (some p) s h = elim (Option-cases (Dict.get k s.runs)) [
      | inl missing ↦ unfold Service.attach in ground arith
      | inr (row, found) ↦ elim (Bool-cases (can_transition row.status completed)) [
        | inr refused ↦ unfold Service.attach in ground arith
        | inl allowed ↦ elim (Result-cases (parse_result_payload validated rt p)) [
          | inr (e, bad) ↦ unfold Service.attach in ground arith
          | inl (typed, good) ↦
              ground (arith, complete_recorded k rt p typed s row found allowed good)
        ]
      ]
    ]

    -- Completing a RUNNING run with a result that its schema accepts returns the COMPLETED run
    -- without an error; that run is stored, and the accepted payload is stored under the result
    -- type.
    pub complete_stores_result :
        (k rt : String) (p : Json) (typed : Fields) (s : RiskRunRepo) (row : RiskRun)
        → Dict.get k s.runs ≡ some row
        → row.status ≡ running
        → parse_result_payload validated rt p ≡ ok typed
        → let (res, t) = Service.complete clock validated k (some rt) (some p) s in
          (r : RiskRun) × (res ≡ ok r)
          × (r.status ≡ completed)
          × (r.error ≡ none)
          × (Dict.get k t.runs ≡ some r)
          × (Dict.get rt (or_else (Dict.get k t.payloads) []) ≡ some typed)
    complete_stores_result k rt p typed s row found q parsed =
        rw (complete_recorded k rt p typed s row found (rw q) parsed) (
          unfold recorded_runs restamped in
          (
            completed_run rt s row,
            refl,
            refl,
            refl,
            get-put_self k _ _,
            rw get-put_self (get-put_self rt typed _),
          ))

  pub fail_stamped :
      (k message : String) (s : RiskRunRepo) (row : RiskRun)
      → Dict.get k s.runs ≡ some row
      → row.status ≡ running
      → is_blank message ≡ false
      → Service.fail clock k message s ≡ (
        ok (restamped failed (some (strip message)) (clock s.reads) row),
        stamp clock s k failed (some (strip message)) row,
      )
  unfolding Service.fail
  fail_stamped k message s row found q filled = ground (
    arith,
    transition_stamped clock k failed (some (strip message)) (some (strip message)) s row found
        (rw q) (failed_error clock row.error (strip message) (filled_strip message filled)),
  )

  -- Failing a RUNNING run with a text that is not blank always succeeds: the run becomes FAILED,
  -- its error is the stripped text, and it has a completion time.
  pub fail_marks_failed :
      (k message : String) (s : RiskRunRepo) (row : RiskRun)
      → Dict.get k s.runs ≡ some row
      → row.status ≡ running
      → is_blank message ≡ false
      → let (res, t) = Service.fail clock k message s in
        (r : RiskRun) × (res ≡ ok r)
        × (Dict.get k t.runs ≡ some r)
        × (r.status ≡ failed)
        × (r.error ≡ some (strip message))
        × (is_some r.completed_at ≡ true)
  fail_marks_failed k message s row found q filled =
      rw (fail_stamped k message s row found q filled) (
        unfold restamped Repo.new_completed in (_, refl, get-put_self k _ s.runs, refl, refl, refl))
