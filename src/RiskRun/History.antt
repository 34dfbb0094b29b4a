-- ===== src/RiskRun/History.antt =====
-- Any sequence of calls on the repository: the service's methods and the worker's claim.
pub mod Continues
pub mod Validity
pub mod Lifecycle
pub mod Atomic
use quantlineage.Prelude.{
  ℕ, zero, suc, ◌+◌, String, ◌≡◌, refl, Option, List, [], ◌∷◌, arith, eqb, eqb→eq, Bool-cases, inl,
  inr, take,
}
use quantlineage.Prelude.Int.{ℤ, pos_part}
use quantlineage.Prelude.Call.{Result, ok}
use quantlineage.Wire.{Json}
use quantlineage.Wire.Payload.{Validator}
use quantlineage.RiskRun.{RiskRun, queued}
use quantlineage.RiskRun.Repo
use quantlineage.RiskRun.Repo.{RiskRunRepo, claim_queued, claim_each, list_by_status}
use quantlineage.RiskRun.Service
use quantlineage.RiskRun.Service.{RunSpec}
use quantlineage.RiskRun.Steps.{Steps, here, Steps-append}
use quantlineage.RiskRun.Steps.Methods.{
  enqueue-Steps, start-Steps, fail-Steps, bind-Steps, complete-Steps,
}
use quantlineage.RiskRun.Steps.Claim.{
  claimed_runs, claimed_repo, claim_each_lem, claim_each-Steps, queue-IsClaimable,
}
use quantlineage.RiskRun.Invariant.{IsWellFormed, Steps-IsWellFormed}

pub data Command : Type 0 where
  enqueue : RunSpec → Command
  start : String → Command
  bind_market_snapshot : String → String → Command
  complete : String → Option String → Option Json → Command
  fail : String → String → Command
  claim : ℤ → Command

module _ (clock : ℕ → ℕ) where
  -- A claim is the service's list of queued runs, set to RUNNING one after the other.
  pub claim_queued_lem :
      (limit : ℤ) (s : RiskRunRepo)
      → IsWellFormed s
      → let l = list_by_status queued limit s in
        claim_queued clock limit s ≡ (ok (claimed_runs clock s l), claimed_repo clock s l)
  unfolding claim_queued list_by_status
  claim_queued_lem limit s w = elim (Bool-cases (eqb (pos_part limit) 0)) [
    | inl z ↦ rw (z, eqb→eq (pos_part limit) 0 z) (unfold claimed_runs claimed_repo in refl)
    | inr n ↦ rw n (claim_each_lem clock _ s (queue-IsClaimable (pos_part limit) w))
  ]

  pub claim-Steps :
      (limit : ℤ) (s : RiskRunRepo) → IsWellFormed s → Steps clock s (claim_queued clock limit s).1
  claim-Steps limit s w =
      rw (claim_queued_lem limit s w)
        (claim_each-Steps clock _ s (unfold list_by_status in queue-IsClaimable (pos_part limit) w))

  module _ (validated : Validator) where
    -- The repository behind a call, whether it returned or raised.
    unfoldable pub handle : Command → RiskRunRepo → RiskRunRepo
    handle (enqueue spec) s = (Service.enqueue clock spec s).1
    handle (start k) s = (Service.start clock k s).1
    handle (bind_market_snapshot k snap) s = (Service.bind_market_snapshot k snap s).1
    handle (complete k result_type payload) s =
        (Service.complete clock validated k result_type payload s).1
    handle (fail k message) s = (Service.fail clock k message s).1
    handle (claim limit) s = (claim_queued clock limit s).1

    unfoldable pub serve : List Command → RiskRunRepo → RiskRunRepo
    serve [] s = s
    serve (c ∷ rest) s = serve rest (handle c s)

    pub handle-Steps : (c : Command) (s : RiskRunRepo) → IsWellFormed s → Steps clock s (handle c s)
    unfolding handle
    handle-Steps (enqueue spec) s w = enqueue-Steps clock spec s
    handle-Steps (start k) s w = start-Steps clock k s
    handle-Steps (bind_market_snapshot k snap) s w = bind-Steps clock k snap s
    handle-Steps (complete k result_type payload) s w =
        complete-Steps clock validated k result_type payload s
    handle-Steps (fail k message) s w = fail-Steps clock k message s
    handle-Steps (claim limit) s w = claim-Steps limit s w

    pub serve-Steps :
        (calls : List Command) (s : RiskRunRepo) → IsWellFormed s → Steps clock s (serve calls s)
    unfolding serve
    serve-Steps [] s w = here
    serve-Steps (c ∷ rest) s w =
        let first = handle-Steps c s w in
        Steps-append clock first (serve-Steps rest (handle c s) (Steps-IsWellFormed clock w first))
