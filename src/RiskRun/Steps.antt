-- ===== src/RiskRun/Steps.antt =====
-- What a run repository can undergo: one step for each kind of write. The service's methods and the
-- claim of queued runs are taken apart into these steps, and an invariant is an induction on a
-- sequence of them.
pub mod Methods
pub mod Claim
use quantlineage.Prelude.{
  ℕ, ◌+◌, String, ◌≡◌, refl, Bool, true, false, not, Option, none, some, List, [], ◌∷◌, arith,
  Bool-cases, Option-cases, inl, inr, ◌||◌, if◌then◌else◌,
}
use quantlineage.Prelude.Text.{is_blank, is_empty, strip, filled_strip}
use quantlineage.Prelude.Int.{ℤ, pos_part}
use quantlineage.Prelude.Dict
use quantlineage.Prelude.Dict.{Dict}
use quantlineage.Prelude.Call.{Result, ok, err, run_not_found, invalid_transition}
use quantlineage.Wire.{Json, Fields}
use quantlineage.Wire.Payload.{Validator, parse_result_payload}
use quantlineage.RiskRun.{
  RiskRun, RiskRunStatus, queued, running, completed, failed, is_valid, construct,
}
use quantlineage.RiskRun.Repo
use quantlineage.RiskRun.Repo.{RiskRunRepo, restamped, or_else, replace_ref}
use quantlineage.RiskRun.Service
use quantlineage.RiskRun.Service.{can_transition, is_set, RunSpec, queued_run}

module _ (clock : ℕ → ℕ) where
  abbrev pub stamp : RiskRunRepo → String → RiskRunStatus → Option String → RiskRun → RiskRunRepo
  stamp s k status error row = record s {
    reads = s.reads + 1;
    runs = Dict.put k (restamped status error (clock s.reads) row) s.runs;
  }

  pub data Step : RiskRunRepo → RiskRunRepo → Type 0 where
    ticked : (s : RiskRunRepo) → Step s (record s { reads = s.reads + 1 })
    enqueued :
        (s : RiskRunRepo) (spec : RunSpec)
        → Dict.get spec.run_id s.runs ≡ none
        → is_valid (queued_run spec (clock s.reads)) ≡ true
        → Step s (record s {
          reads = s.reads + 1;
          runs = Dict.put spec.run_id (queued_run spec (clock s.reads)) s.runs;
          payloads = Dict.put spec.run_id [] s.payloads;
        })
    started :
        (s : RiskRunRepo) (k : String) (row : RiskRun)
        → Dict.get k s.runs ≡ some row
        → row.status ≡ queued
        → Step s (stamp s k running row.error row)
    finished :
        (s : RiskRunRepo) (k : String) (row : RiskRun)
        → Dict.get k s.runs ≡ some row
        → row.status ≡ running
        → Step s (stamp s k completed none row)
    broken :
        (s : RiskRunRepo) (k : String) (row : RiskRun) (message : String)
        → Dict.get k s.runs ≡ some row
        → row.status ≡ running
        → is_blank message ≡ false
        → Step s (stamp s k failed (some message) row)
    bound :
        (s : RiskRunRepo) (k : String) (row : RiskRun) (snapshot_id : String)
        → Dict.get k s.runs ≡ some row
        → is_set row.market_snapshot_id ≡ false
        → is_empty snapshot_id ≡ false
        → Step s (record s {
          runs = Dict.put k (record row { market_snapshot_id = some snapshot_id }) s.runs;
        })
    recorded :
        (s : RiskRunRepo) (k : String) (row : RiskRun) (result_type : String) (payload : Fields)
        → Dict.get k s.runs ≡ some row
        → row.status ≡ running
        → Step s (record s {
          runs =
              Dict.put k
                (record row {
                  result_refs = replace_ref result_type s.next_result_id row.result_refs;
                })
                s.runs;
          payloads =
              Dict.put k
                (Dict.put result_type payload (or_else (Dict.get k s.payloads) []))
                s.payloads;
          next_result_id = s.next_result_id + 1;
        })

  pub data Steps (s : RiskRunRepo) : RiskRunRepo → Type 0 where
    here : Steps s s
    next : {t u : RiskRunRepo} → Steps s t → Step t u → Steps s u

  pub Steps-append : {s t u : RiskRunRepo} → Steps s t → Steps t u → Steps s u
  Steps-append a here = a
  Steps-append a (next b x) = next (Steps-append a b) x

  pub one : {s t : RiskRunRepo} → Step s t → Steps s t
  one x = next here x
