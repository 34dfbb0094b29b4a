-- ===== src/RiskRun/Steps/Methods.antt =====
-- The methods of `RiskRunService` taken apart into steps, on every way they return or raise.
use quantlineage.Prelude.{
  ℕ, ◌+◌, String, ◌≡◌, refl, true, false, Option, none, some, [], arith, Bool-cases, Option-cases,
  inl, inr, ◌||◌, if◌then◌else◌,
}
use quantlineage.Prelude.Text.{is_blank, is_empty, strip, filled_strip}
use quantlineage.Prelude.Dict
use quantlineage.Prelude.Call.{
  Result, ok, err, run_not_found, invalid_transition, Fault, Call, lift, ◌>>=◌, Result-cases,
}
use quantlineage.Wire.{Json, Fields}
use quantlineage.Wire.Payload.{Validator, parse_result_payload}
use quantlineage.RiskRun.{RiskRun, RiskRunStatus, queued, running, completed, failed, is_valid}
use quantlineage.RiskRun.Repo
use quantlineage.RiskRun.Repo.{RiskRunRepo, restamped, or_else, replace_ref}
use quantlineage.RiskRun.Service
use quantlineage.RiskRun.Service.{can_transition, is_set, RunSpec, queued_run}
use quantlineage.RiskRun.Steps.{
  stamp, Step, ticked, enqueued, started, finished, broken, bound, recorded, Steps, here, one,
  Steps-append,
}

module _ (clock : ℕ → ℕ) {A B : Type 0} (f : A → Call RiskRunRepo B) where
  continue-Steps :
      (r : Result A) {s t : RiskRunRepo}
      → Steps clock s t
      → ((a : A) (u : RiskRunRepo) → Steps clock u (f a u).1)
      → Steps clock s ((lift r >>= f) t).1
  continue-Steps (ok a) {s} {t} p q = Steps-append clock p (q a t)
  continue-Steps (err e) p q = p

  -- Two calls in a row are the steps of both.
  pub then-Steps :
      (m : Call RiskRunRepo A) (s : RiskRunRepo)
      → Steps clock s (m s).1
      → ((a : A) (u : RiskRunRepo) → Steps clock u (f a u).1)
      → Steps clock s ((m >>= f) s).1
  then-Steps m s p q = continue-Steps (m s).0 p q

module _ (clock : ℕ → ℕ) where
  pub enqueue-Steps :
      (spec : RunSpec) (s : RiskRunRepo) → Steps clock s (Service.enqueue clock spec s).1
  unfolding Service.enqueue
  enqueue-Steps spec s = elim (Bool-cases (is_valid (queued_run spec (clock s.reads)))) [
    | inr bad ↦ rw (bad) (one clock (ticked s))
    | inl good ↦ elim (Option-cases (Dict.get spec.run_id s.runs)) [
      | inl new ↦ rw (good, new) (one clock (enqueued s spec new good))
      | inr (r, old) ↦ rw (good, old) (one clock (ticked s))
    ]
  ]

  pub transition_missing :
      (k : String) (t : RiskRunStatus) (e : Option String) (s : RiskRunRepo)
      → Dict.get k s.runs ≡ none
      → Service.transition clock k t e s ≡ (err (run_not_found k), s)
  unfolding Service.transition
  transition_missing k t e s h = ground arith

  pub transition_refused :
      (k : String) (t : RiskRunStatus) (e : Option String) (s : RiskRunRepo) (row : RiskRun)
      → Dict.get k s.runs ≡ some row
      → can_transition row.status t ≡ false
      → Service.transition clock k t e s ≡ (err (invalid_transition k), s)
  unfolding Service.transition
  transition_refused k t e s row h c = ground arith

  pub transition_stamped :
      (k : String) (t : RiskRunStatus) (e e' : Option String) (s : RiskRunRepo) (row : RiskRun)
      → Dict.get k s.runs ≡ some row
      → can_transition row.status t ≡ true
      → Repo.new_error t row.error e ≡ ok e'
      → Service.transition clock k t e s
        ≡ (ok (restamped t e' (clock s.reads) row), stamp clock s k t e' row)
  unfolding Service.transition
  transition_stamped k t e e' s row h c n = ground arith

  -- A transition whose error is accepted is one step, or writes nothing.
  transition-Steps :
      (k : String) (t : RiskRunStatus) (e : Option String) (e' : RiskRun → Option String)
      (s : RiskRunRepo)
      → ((row : RiskRun) → Repo.new_error t row.error e ≡ ok (e' row))
      → ((row : RiskRun)
          → Dict.get k s.runs ≡ some row
          → can_transition row.status t ≡ true
          → Step clock s (stamp clock s k t (e' row) row))
      → Steps clock s (Service.transition clock k t e s).1
  transition-Steps k t e e' s accepted step = elim (Option-cases (Dict.get k s.runs)) [
    | inl missing ↦ rw (transition_missing k t e s missing) here
    | inr (row, found) ↦ elim (Bool-cases (can_transition row.status t)) [
      | inl allowed ↦
          rw (transition_stamped k t e (e' row) s row found allowed (accepted row))
            (one clock (step row found allowed))
      | inr refused ↦ rw (transition_refused k t e s row found refused) here
    ]
  ]

  to_running : (st : RiskRunStatus) → can_transition st running ≡ true → st ≡ queued
  to_running st h = ground arith

  pub to_completed : (st : RiskRunStatus) → can_transition st completed ≡ true → st ≡ running
  to_completed st h = ground arith

  to_failed : (st : RiskRunStatus) → can_transition st failed ≡ true → st ≡ running
  to_failed st h = ground arith

  pub start-Steps : (k : String) (s : RiskRunRepo) → Steps clock s (Service.start clock k s).1
  unfolding Service.start Repo.new_error
  start-Steps k s =
      transition-Steps k running none (λ row. row.error) s (λ row. refl)
        λ row found c. started s k row found (to_running row.status c)

  finish-Steps :
      (k : String) (s : RiskRunRepo) → Steps clock s (Service.transition clock k completed none s).1
  unfolding Repo.new_error
  finish-Steps k s =
      transition-Steps k completed none (λ row. none) s (λ row. refl)
        λ row found c. finished s k row found (to_completed row.status c)

  pub failed_error :
      (old : Option String) (message : String)
      → is_blank message ≡ false
      → Repo.new_error failed old (some message) ≡ ok (some message)
  unfolding Repo.new_error
  failed_error old message h = rw h

  pub fail-Steps :
      (k message : String) (s : RiskRunRepo) → Steps clock s (Service.fail clock k message s).1
  unfolding Service.fail
  fail-Steps k message s = elim (Bool-cases (is_empty (strip message))) [
    | inl blank ↦ rw blank here
    | inr filled ↦
        let f = filled_strip message filled in
        rw filled (
          transition-Steps k failed (some (strip message)) (λ row. some (strip message)) s
            (λ row. failed_error row.error (strip message) f)
            (λ row found c. broken s k row (strip message) found (to_failed row.status c) f))
  ]

  -- What `bind_market_snapshot` leaves behind.
  after_bind : String → RiskRun → RiskRunRepo → String → RiskRunRepo
  after_bind k row s snap =
      if is_empty snap || is_set row.market_snapshot_id
      then s
      else record s { runs = Dict.put k (record row { market_snapshot_id = some snap }) s.runs }

  bind_missing :
      (k snapshot_id : String) (s : RiskRunRepo)
      → Dict.get k s.runs ≡ none
      → (Service.bind_market_snapshot k snapshot_id s).1 ≡ s
  unfolding Service.bind_market_snapshot
  bind_missing k snapshot_id s h = ground arith

  bind_found :
      (k snapshot_id : String) (s : RiskRunRepo) (row : RiskRun)
      → Dict.get k s.runs ≡ some row
      → (Service.bind_market_snapshot k snapshot_id s).1 ≡ after_bind k row s (strip snapshot_id)
  unfolding Service.bind_market_snapshot after_bind
  bind_found k snapshot_id s row h = ground arith

  pub bind-Steps :
      (k snapshot_id : String) (s : RiskRunRepo)
      → Steps clock s (Service.bind_market_snapshot k snapshot_id s).1
  unfolding after_bind
  bind-Steps k snapshot_id s = elim (Option-cases (Dict.get k s.runs)) [
    | inl missing ↦ rw (bind_missing k snapshot_id s missing) here
    | inr (row, found) ↦
        rw (bind_found k snapshot_id s row found)
          (elim (Bool-cases (is_empty (strip snapshot_id))) [
            | inl e ↦ rw e here
            | inr f ↦ elim (Bool-cases (is_set row.market_snapshot_id)) [
              | inl e ↦ rw (f, e) here
              | inr u ↦ rw (f, u) (one clock (bound s k row (strip snapshot_id) found u f))
            ]
          ])
  ]

  module _ (validated : Validator) where
    -- Attaching a result writes nothing, or records the accepted payload of a running run.
    pub attach_missing :
        (k result_type : String) (payload : Json) (s : RiskRunRepo)
        → Dict.get k s.runs ≡ none
        → (Service.attach clock validated k result_type (some payload) s).1 ≡ s
    unfolding Service.attach
    attach_missing k result_type payload s h = ground arith

    pub attach_refused :
        (k result_type : String) (payload : Json) (s : RiskRunRepo) (row : RiskRun)
        → Dict.get k s.runs ≡ some row
        → can_transition row.status completed ≡ false
        → (Service.attach clock validated k result_type (some payload) s).1 ≡ s
    unfolding Service.attach
    attach_refused k result_type payload s row h c = ground arith

    unfoldable pub recorded_runs : String → String → Fields → RiskRunRepo → RiskRun → RiskRunRepo
    recorded_runs k result_type payload s row = record s {
      runs =
          Dict.put k
            (record row { result_refs = replace_ref result_type s.next_result_id row.result_refs })
            s.runs;
      payloads =
          Dict.put k (Dict.put result_type payload (or_else (Dict.get k s.payloads) [])) s.payloads;
      next_result_id = s.next_result_id + 1;
    }

    pub attach_unparsed :
        (k result_type : String) (payload : Json) (s : RiskRunRepo) (row : RiskRun) {e : Fault}
        → Dict.get k s.runs ≡ some row
        → parse_result_payload validated result_type payload ≡ err e
        → (Service.attach clock validated k result_type (some payload) s).1 ≡ s
    unfolding Service.attach
    attach_unparsed k result_type payload s row h c = ground arith

    pub attach_recorded :
        (k result_type : String) (payload : Json) (typed : Fields) (s : RiskRunRepo) (row : RiskRun)
        → Dict.get k s.runs ≡ some row
        → can_transition row.status completed ≡ true
        → parse_result_payload validated result_type payload ≡ ok typed
        → Service.attach clock validated k result_type (some payload) s
          ≡ (ok tt, recorded_runs k result_type typed s row)
    unfolding Service.attach recorded_runs
    attach_recorded k result_type payload typed s row h c p = ground arith

    attach-Steps :
        (k result_type : String) (payload : Option Json) (s : RiskRunRepo)
        → Steps clock s (Service.attach clock validated k result_type payload s).1
    unfolding recorded_runs
    attach-Steps k result_type none s = unfold Service.attach in here
    attach-Steps k result_type (some payload) s = elim (Option-cases (Dict.get k s.runs)) [
      | inl missing ↦ rw (attach_missing k result_type payload s missing) here
      | inr (row, found) ↦ elim (Bool-cases (can_transition row.status completed)) [
        | inr refused ↦ rw (attach_refused k result_type payload s row found refused) here
        | inl allowed ↦ elim (Result-cases (parse_result_payload validated result_type payload)) [
          | inr (e, bad) ↦ rw (attach_unparsed k result_type payload s row found bad) here
          | inl (typed, good) ↦
              rw (attach_recorded k result_type payload typed s row found allowed good) (
                one clock
                  (recorded s k row result_type typed found (to_completed row.status allowed)))
        ]
      ]
    ]

    pub complete-Steps :
        (k : String) (result_type : Option String) (payload : Option Json) (s : RiskRunRepo)
        → Steps clock s (Service.complete clock validated k result_type payload s).1
    unfolding Service.complete
    complete-Steps k none payload s = finish-Steps k s
    complete-Steps k (some result_type) payload s =
        then-Steps clock (λ _. Service.transition clock k completed none)
          (Service.attach clock validated k result_type payload) s
          (attach-Steps k result_type payload s) (λ _. finish-Steps k)
