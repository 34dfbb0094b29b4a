-- ===== src/RiskRun/Repo.antt =====
-- `InMemoryRiskRunRepository` of backend/app/persistence/memory_repos.py. Every method holds the
-- repository's lock, so each is one step; a deep copy of a value that nothing mutates is the value.
-- `clock i` is what the i-th call of `_utcnow` returns, and `reads` counts those calls.
use quantlineage.Prelude.{
  ℕ, ◌+◌, String, Bool, true, false, not, ◌&&◌, ◌||◌, ◌==◌, eqb, ltb, Option, none, some, List, [],
  ◌∷◌, ◌++◌, select, take, if◌then◌else◌,
}
use quantlineage.Prelude.Int.{ℤ, pos_part}
use quantlineage.Prelude.Text.{is_blank, le_text}
use quantlineage.Prelude.Sort.{sort_by}
use quantlineage.Prelude.Dict
use quantlineage.Prelude.Dict.{Dict}
use quantlineage.Prelude.Call.{Result, ok, err, Call, pure, value_error, key_error, ◌>>=◌}
use quantlineage.Wire.{Json, Fields}
use quantlineage.Wire.Payload.{Validator, parse_result_payload}
use quantlineage.RiskRun.{RiskRun, RiskRunStatus, queued, running, completed, failed, RiskResultRef}

pub record RiskRunRepo : Type 0 where
  pub runs : Dict RiskRun
  pub payloads : Dict (Dict Fields)
  pub next_result_id : ℕ
  pub reads : ℕ

abbrev pub new_repo : RiskRunRepo
new_repo = record { runs = []; payloads = []; next_result_id = 1; reads = 0 }

abbrev pub status_eq : RiskRunStatus → RiskRunStatus → Bool
status_eq queued queued = true
status_eq running running = true
status_eq completed completed = true
status_eq failed failed = true
status_eq _ _ = false

abbrev pub is_terminal : RiskRunStatus → Bool
is_terminal completed = true
is_terminal failed = true
is_terminal _ = false

abbrev pub or_else {ℓ} : {A : Type ℓ} → Option A → A → A
or_else none d = d
or_else (some a) d = a

abbrev pub blank_error : Option String → Bool
blank_error none = true
blank_error (some e) = is_blank e

unfoldable pub create : RiskRun → Call RiskRunRepo RiskRun
create run s = if Dict.contains run.id s.runs then (err value_error, s) else (
  ok run,
  record s { runs = Dict.put run.id run s.runs; payloads = Dict.put run.id [] s.payloads },
)

-- The times that `set_status` writes. `created_at` is always set, so it needs no clock.
unfoldable pub new_started : RiskRunStatus → ℕ → RiskRun → Option ℕ
new_started queued now row = row.started_at
new_started running now row = some (or_else row.started_at now)
new_started completed now row = some (or_else row.started_at row.created_at)
new_started failed now row = some (or_else row.started_at row.created_at)

unfoldable pub new_completed : RiskRunStatus → ℕ → RiskRun → Option ℕ
new_completed status now row = if is_terminal status then some now else row.completed_at

unfoldable pub new_error : RiskRunStatus → Option String → Option String → Result (Option String)
new_error failed old error = if blank_error error then err value_error else ok error
new_error completed old error = ok none
new_error _ old none = ok old
new_error _ old (some e) = ok (some e)

unfoldable pub restamped : RiskRunStatus → Option String → ℕ → RiskRun → RiskRun
restamped status error now row = record row {
  started_at = new_started status now row;
  completed_at = new_completed status now row;
  status = status;
  error = error;
}

module _ (clock : ℕ → ℕ) where
  unfoldable pub set_status : String → RiskRunStatus → Option String → Call RiskRunRepo RiskRun
  set_status run_id status error s = elim (Dict.get run_id s.runs) [
    | none ↦ (err (key_error run_id), s)
    | some row ↦
        let now = clock s.reads in
        let s' = record s { reads = s.reads + 1 } in
        elim (new_error status row.error error) [
          | err e ↦ (err e, s')
          | ok e ↦
              let updated = restamped status e now row in
              (ok updated, record s' { runs = Dict.put run_id updated s.runs })
        ]
  ]

unfoldable pub bind_market_snapshot : String → String → Call RiskRunRepo RiskRun
bind_market_snapshot run_id snapshot_id s = elim (Dict.get run_id s.runs) [
  | none ↦ (err (key_error run_id), s)
  | some row ↦
      let updated = record row { market_snapshot_id = some snapshot_id } in
      (ok updated, record s { runs = Dict.put run_id updated s.runs })
]

-- `refs` without the result type, and a new reference behind them.
unfoldable pub replace_ref : String → ℕ → List RiskResultRef → List RiskResultRef
replace_ref result_type next refs =
    select (λ (r : RiskResultRef). not (r.result_type == result_type)) refs
    ++ record { result_type = result_type; result_id = some next } ∷ []

unfoldable pub add_result : Validator → String → String → Json → Call RiskRunRepo (Unit {0})
add_result validated run_id result_type payload s = elim (Dict.get run_id s.runs) [
  | none ↦ (err (key_error run_id), s)
  | some row ↦ elim (parse_result_payload validated result_type payload) [
    | err e ↦ (err e, s)
    | ok typed ↦
        let stored = or_else (Dict.get run_id s.payloads) [] in
        let refs = replace_ref result_type s.next_result_id row.result_refs in
        (
          ok tt,
          record s {
            runs = Dict.put run_id (record row { result_refs = refs }) s.runs;
            payloads = Dict.put run_id (Dict.put result_type typed stored) s.payloads;
            next_result_id = s.next_result_id + 1;
          },
        )
  ]
]

unfoldable pub get_result_payloads : String → RiskRunRepo → Option (Dict Fields)
get_result_payloads run_id s =
    if Dict.contains run_id s.runs then some (or_else (Dict.get run_id s.payloads) []) else none

-- The sort key `(created_at, id)`.
unfoldable pub fifo_le : RiskRun → RiskRun → Bool
fifo_le a b = ltb a.created_at b.created_at || (eqb a.created_at b.created_at && le_text a.id b.id)

abbrev pub has_status : RiskRunStatus → RiskRun → Bool
has_status status r = status_eq r.status status

-- The first `limit` runs of a status, the oldest first.
unfoldable pub list_by_status : RiskRunStatus → ℤ → RiskRunRepo → List RiskRun
list_by_status status limit s =
    take (pos_part limit) (sort_by fifo_le (select (has_status status) (Dict.values s.runs)))

module _ (clock : ℕ → ℕ) where
  unfoldable pub claim_each : List RiskRun → Call RiskRunRepo (List RiskRun)
  claim_each [] = pure []
  claim_each (run ∷ rest) = do
    claimed ← set_status clock run.id running none
    others ← claim_each rest
    pure (claimed ∷ others)

  unfoldable pub claim_queued : ℤ → Call RiskRunRepo (List RiskRun)
  claim_queued limit s =
      if eqb (pos_part limit) 0
      then (ok [], s)
      else claim_each
          (take (pos_part limit)
            (sort_by fifo_le (select (has_status queued) (Dict.values s.runs))))
          s
