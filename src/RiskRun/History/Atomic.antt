-- ===== src/RiskRun/History/Atomic.antt =====
-- Calls on the service that raise (backend/app/services/risk_run_service.py).
use quantlineage.Prelude.{ℕ, ◌≡◌, refl, Bool, true, false, arith, ap}
use quantlineage.Prelude.Call.{Result, ok, err, Fault}
use quantlineage.Wire.Payload.{Validator}
use quantlineage.RiskRun.Repo.{RiskRunRepo, claim_queued}
use quantlineage.RiskRun.Service
use quantlineage.RiskRun.Invariant.{IsWellFormed}
use quantlineage.RiskRun.Outcomes.{start_atomic, bind_atomic, fail_atomic, complete_atomic}
use quantlineage.RiskRun.History.{
  Command, enqueue, start, bind_market_snapshot, complete, fail, claim, handle, claim_queued_lem,
}

abbrev pub is_err {ℓ} : {A : Type ℓ} → Result A → Bool
is_err (ok _) = false
is_err (err _) = true

err_of {ℓ} : {A : Type ℓ} (r : Result A) → is_err r ≡ true → (e : Fault) × (r ≡ err e)
err_of (ok a) h = cc h
err_of (err e) h = (e, refl)

-- Everything but the count of clock readings.
abbrev pub Untouched : RiskRunRepo → RiskRunRepo → Type 0
Untouched s t =
    (t.runs ≡ s.runs) × (t.payloads ≡ s.payloads) × (t.next_result_id ≡ s.next_result_id)

untouched : {s t : RiskRunRepo} → t ≡ s → Untouched s t
untouched e = (
  ap (λ (r : RiskRunRepo). r.runs) e,
  ap (λ (r : RiskRunRepo). r.payloads) e,
  ap (λ (r : RiskRunRepo). r.next_result_id) e,
)

module _ (clock : ℕ → ℕ) (validated : Validator) where
  -- Whether the call raises.
  unfoldable pub raises : Command → RiskRunRepo → Bool
  raises (enqueue spec) s = is_err (Service.enqueue clock spec s).0
  raises (start k) s = is_err (Service.start clock k s).0
  raises (bind_market_snapshot k snap) s = is_err (Service.bind_market_snapshot k snap s).0
  raises (complete k rt payload) s = is_err (Service.complete clock validated k rt payload s).0
  raises (fail k message) s = is_err (Service.fail clock k message s).0
  raises (claim limit) s = is_err (claim_queued clock limit s).0

  enqueue_atomic :
      (spec : Service.RunSpec) (s : RiskRunRepo)
      → is_err (Service.enqueue clock spec s).0 ≡ true
      → Untouched s (Service.enqueue clock spec s).1
  unfolding Service.enqueue
  enqueue_atomic spec s h = ground arith

  -- A call on the service that raises leaves every run, every payload and the next result id as
  -- they were; this is for a repository whose runs stand under their own ids, each id once, where
  -- the claim of queued runs does not raise at all.
  pub raising_call_writes_nothing :
      (c : Command) (s : RiskRunRepo)
      → IsWellFormed s
      → raises c s ≡ true
      → Untouched s (handle clock validated c s)
  unfolding raises handle
  raising_call_writes_nothing (enqueue spec) s w h = enqueue_atomic spec s h
  raising_call_writes_nothing (start k) s w h = untouched (start_atomic clock k s (err_of _ h).1)
  raising_call_writes_nothing (bind_market_snapshot k snap) s w h =
      untouched (bind_atomic clock k snap s (err_of _ h).1)
  raising_call_writes_nothing (complete k rt payload) s w h =
      untouched (complete_atomic clock validated k rt payload s (err_of _ h).1)
  raising_call_writes_nothing (fail k message) s w h =
      untouched (fail_atomic clock k message s (err_of _ h).1)
  raising_call_writes_nothing (claim limit) s w h =
      cc
        (ap is_err (ap (λ (p : Result _ × RiskRunRepo). p.0) (claim_queued_lem clock limit s w)), h)
