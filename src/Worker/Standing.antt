-- ===== src/Worker/Standing.antt =====
-- The calls that the worker makes on the run service (backend/app/services/risk_run_worker.py,
-- backend/app/services/risk_run_service.py), for a run that is RUNNING.
use quantlineage.Prelude.{
  ℕ, ◌≢◌, ◌==◌, eq_iff, String, ◌≡◌, refl, Bool, true, false, none, some, arith, Bool-cases, inl,
  inr, ◌⊎◌,
}
use quantlineage.Prelude.Text.{is_blank, is_empty, strip}
use quantlineage.Prelude.Dict
use quantlineage.Prelude.Dict.{get-put_self, get-put_ne}
use quantlineage.Prelude.Call.{Result, ok, err, Fault, Result-cases, value_error}
use quantlineage.Wire.{Json}
use quantlineage.Wire.Payload.{Validator, parse_result_payload}
use quantlineage.RiskRun.{RiskRun, RiskRunStatus, queued, running}
use quantlineage.RiskRun.Repo
use quantlineage.RiskRun.Repo.{RiskRunRepo, is_terminal}
use quantlineage.RiskRun.Service
use quantlineage.RiskRun.Service.{is_set, same_id}
use quantlineage.RiskRun.Steps.Methods.{transition_stamped}
use quantlineage.RiskRun.Outcomes.{complete_stores_result, fail_marks_failed, fail_stamped}

-- A run that is stored with a status that passes the test.
abbrev pub Stands : String → (RiskRunStatus → Bool) → RiskRunRepo → Type 0
Stands k test s = (r : RiskRun) × (Dict.get k s.runs ≡ some r) × (test r.status ≡ true)

abbrev pub is_running : RiskRunStatus → Bool
is_running running = true
is_running _ = false

-- A call returns with the run settled, or raises and leaves it RUNNING.
pub data Outcome (k : String) : Result (Unit {0}) → RiskRunRepo → Type 0 where
  settled : (s : RiskRunRepo) → Stands k is_terminal s → Outcome k (ok tt) s
  broken : (s : RiskRunRepo) (f : Fault) → Stands k is_running s → Outcome k (err f) s

pub running_eq : (st : RiskRunStatus) → is_running st ≡ true → st ≡ running
running_eq st h = ground arith

module _ (clock : ℕ → ℕ) where
  pub fail_settles :
      (k message : String) (s : RiskRunRepo)
      → Stands k is_running s
      → is_blank message ≡ false
      → Stands k is_terminal (Service.fail clock k message s).1
  fail_settles k message s (row, found, q) filled =
      let (r, _, at, st, _, _) =
        fail_marks_failed clock k message s row found (running_eq _ q) filled in
      (r, at, rw st refl)

  pub fail_returns :
      (k message : String) (s : RiskRunRepo)
      → Stands k is_running s
      → is_blank message ≡ false
      → (r : RiskRun) × ((Service.fail clock k message s).0 ≡ ok r)
  fail_returns k message s (row, found, q) filled =
      let (r, res, _, _, _, _) =
        fail_marks_failed clock k message s row found (running_eq _ q) filled in
      (r, res)

  pub fail_others :
      (k j message : String) (s : RiskRunRepo)
      → Stands k is_running s
      → is_blank message ≡ false
      → k ≢ j
      → Dict.get j (Service.fail clock k message s).1.runs ≡ Dict.get j s.runs
  fail_others k j message s (row, found, q) filled o =
      let other : (k == j) ≡ false = ground (arith, eq_iff k j) in
      rw (fail_stamped clock k message s row found (running_eq _ q) filled)
        (get-put_ne k j _ s.runs other)

  pub start_runs :
      (k : String) (s : RiskRunRepo) (row : RiskRun)
      → Dict.get k s.runs ≡ some row
      → row.status ≡ queued
      → let (res, t) = Service.start clock k s in
        (r : RiskRun) × (res ≡ ok r) × Stands k is_running t
  unfolding Service.start Repo.new_error
  start_runs k s row found q =
      rw (transition_stamped clock k running none row.error s row found (rw q) refl)
        (unfold Repo.restamped in (_, refl, (_, get-put_self k _ s.runs, refl)))

  module _ (v : Validator) where
    complete_unparsed :
        (k rt : String) (p : Json) (s : RiskRunRepo) (row : RiskRun) (f : Fault)
        → Dict.get k s.runs ≡ some row
        → row.status ≡ running
        → parse_result_payload v rt p ≡ err f
        → Service.complete clock v k (some rt) (some p) s ≡ (err f, s)
    unfolding Service.complete Service.attach
    complete_unparsed k rt p s row f found q bad = ground arith

    pub complete-Outcome :
        (k rt : String) (p : Json) (s : RiskRunRepo)
        → Stands k is_running s
        → let (res, t) = Service.complete clock v k (some rt) (some p) s in
          ((r : RiskRun) × (res ≡ ok r) × Stands k is_terminal t)
          ⊎ ((f : Fault) × (res ≡ err f) × Stands k is_running t)
    complete-Outcome k rt p s (row, found, q) = elim (Result-cases (parse_result_payload v rt p)) [
      | inl (typed, good) ↦
          let (r, res, st, _, at, _) =
            complete_stores_result clock v k rt p typed s row found (running_eq _ q) good in
          inl (r, res, (r, at, rw st refl))
      | inr (f, bad) ↦
          rw (complete_unparsed k rt p s row f found (running_eq _ q) bad)
            (inr (f, refl, (row, found, q)))
    ]

module _ (k snap : String) (s : RiskRunRepo) (row : RiskRun)
    (found : Dict.get k s.runs ≡ some row) where
  bind_blank :
      is_empty (strip snap) ≡ true → Service.bind_market_snapshot k snap s ≡ (err value_error, s)
  unfolding Service.bind_market_snapshot
  bind_blank h = ground arith

  bind_same :
      is_empty (strip snap) ≡ false
      → is_set row.market_snapshot_id ≡ true
      → same_id row.market_snapshot_id (strip snap) ≡ true
      → Service.bind_market_snapshot k snap s ≡ (ok row, s)
  unfolding Service.bind_market_snapshot
  bind_same h j l = ground arith

  bind_other :
      is_empty (strip snap) ≡ false
      → is_set row.market_snapshot_id ≡ true
      → same_id row.market_snapshot_id (strip snap) ≡ false
      → Service.bind_market_snapshot k snap s ≡ (err value_error, s)
  unfolding Service.bind_market_snapshot
  bind_other h j l = ground arith

  bind_new :
      is_empty (strip snap) ≡ false
      → is_set row.market_snapshot_id ≡ false
      → let updated = record row { market_snapshot_id = some (strip snap) } in
        Service.bind_market_snapshot k snap s
        ≡ (ok updated, record s { runs = Dict.put k updated s.runs })
  unfolding Service.bind_market_snapshot
  bind_new h j = ground arith

-- Binding a snapshot leaves the run RUNNING, and raises at most a ValueError.
pub bind_keeps :
    (k snap : String) (s : RiskRunRepo)
    → Stands k is_running s
    → let (res, t) = Service.bind_market_snapshot k snap s in
      Stands k is_running t × (((r : RiskRun) × (res ≡ ok r)) ⊎ (res ≡ err value_error))
bind_keeps k snap s (row, found, q) = elim (Bool-cases (is_empty (strip snap))) [
  | inl blank ↦ rw (bind_blank k snap s row found blank) ((row, found, q), inr refl)
  | inr filled ↦ elim (Bool-cases (is_set row.market_snapshot_id)) [
    | inl old ↦ elim (Bool-cases (same_id row.market_snapshot_id (strip snap))) [
      | inl same ↦
          rw (bind_same k snap s row found filled old same) ((row, found, q), inl (row, refl))
      | inr other ↦ rw (bind_other k snap s row found filled old other) ((row, found, q), inr refl)
    ]
    | inr new ↦
        rw (bind_new k snap s row found filled new) ((_, get-put_self k _ s.runs, q), inl (_, refl))
  ]
]
