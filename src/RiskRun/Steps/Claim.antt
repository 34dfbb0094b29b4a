-- ===== src/RiskRun/Steps/Claim.antt =====
-- `claim_queued` of the in-memory repository: what it returns and what it leaves behind.
use quantlineage.Prelude.{
  ℕ, zero, suc, ◌+◌, ◌≤◌, String, ◌≡◌, refl, ◌≢◌, Bool, true, false, Option, none, some, List, [],
  ◌∷◌, ◌++◌, arith, sym, ◌∙◌, ap, ◌==◌, eqb, eq_iff, Bool-cases, inl, inr, if◌then◌else◌, All, Each,
  select, take, drop, length,
}
use quantlineage.Prelude.Sort.{sort_by}
use quantlineage.Prelude.Dict
use quantlineage.Prelude.Dict.{get-put}
use quantlineage.Prelude.Call.{ok}
use quantlineage.Prelude
use quantlineage.Prelude.Sort
use quantlineage.RiskRun.{RiskRun, RiskRunStatus, queued, running}
use quantlineage.RiskRun.Repo
use quantlineage.RiskRun.Repo.{
  RiskRunRepo, restamped, list_by_status, claim_each, claim_queued, fifo_le, has_status,
}
use quantlineage.RiskRun.Steps.{stamp, started, Steps, here, one, Steps-append}
use quantlineage.RiskRun.Invariant.{IsWellFormed, values_apart, values_found}

abbrev pub OtherId : RiskRun → RiskRun → Type 0
OtherId a b = a.id ≢ b.id

-- Stored, queued, and no two under one id.
pub record IsClaimable (s : RiskRunRepo) (l : List RiskRun) : Type 0 where
  pub stored : All (λ (r : RiskRun). Dict.get r.id s.runs ≡ some r) l
  pub waiting : All (λ (r : RiskRun). r.status ≡ queued) l
  pub apart : Each OtherId l

module _ (clock : ℕ → ℕ) where
  abbrev pub claimed_run : RiskRunRepo → RiskRun → RiskRun
  claimed_run s r = restamped running r.error (clock s.reads) r

  abbrev pub claim_one : RiskRunRepo → RiskRun → RiskRunRepo
  claim_one s r = stamp clock s r.id running r.error r

  -- The runs that a claim returns, and the repository behind it.
  unfoldable pub claimed_runs : RiskRunRepo → List RiskRun → List RiskRun
  claimed_runs s [] = []
  claimed_runs s (r ∷ rest) = claimed_run s r ∷ claimed_runs (claim_one s r) rest

  unfoldable pub claimed_repo : RiskRunRepo → List RiskRun → RiskRunRepo
  claimed_repo s [] = s
  claimed_repo s (r ∷ rest) = claimed_repo (claim_one s r) rest

  set_running :
      (s : RiskRunRepo) (r : RiskRun)
      → Dict.get r.id s.runs ≡ some r
      → Repo.set_status clock r.id running none s ≡ (ok (claimed_run s r), claim_one s r)
  unfolding Repo.set_status Repo.new_error
  set_running s r h = ground arith

  still_stored :
      (s : RiskRunRepo) (r : RiskRun) (l : List RiskRun)
      → All (OtherId r) l
      → All (λ (y : RiskRun). Dict.get y.id s.runs ≡ some y) l
      → All (λ (y : RiskRun). Dict.get y.id (claim_one s r).runs ≡ some y) l
  still_stored s r [] o h = tt
  still_stored s r (y ∷ l) o h = (
    ground (arith, get-put r.id y.id (claimed_run s r) s.runs, eq_iff r.id y.id),
    still_stored s r l o.1 h.1,
  )

  claim_one-IsClaimable :
      (s : RiskRunRepo) (r : RiskRun) (l : List RiskRun)
      → IsClaimable s (r ∷ l)
      → IsClaimable (claim_one s r) l
  claim_one-IsClaimable s r l c = record {
    stored = still_stored s r l c.apart.0 c.stored.1;
    waiting = c.waiting.1;
    apart = c.apart.1;
  }

  pub claim_each_lem :
      (l : List RiskRun) (s : RiskRunRepo)
      → IsClaimable s l
      → claim_each clock l s ≡ (ok (claimed_runs s l), claimed_repo s l)
  unfolding claim_each claimed_runs claimed_repo
  claim_each_lem [] s c = refl
  claim_each_lem (r ∷ l) s c = ground (
    arith,
    set_running s r c.stored.0,
    claim_each_lem l (claim_one s r) (claim_one-IsClaimable s r l c),
  )

  pub claim_each-Steps :
      (l : List RiskRun) (s : RiskRunRepo) → IsClaimable s l → Steps clock s (claimed_repo s l)
  unfolding claimed_repo
  claim_each-Steps [] s c = here
  claim_each-Steps (r ∷ l) s c =
      Steps-append clock (one clock (started s r.id r c.stored.0 c.waiting.0))
        (claim_each-Steps l (claim_one s r) (claim_one-IsClaimable s r l c))

  -- What a key holds behind a claim of `l`.
  abbrev pub Claimed : RiskRunRepo → List RiskRun → RiskRunRepo → Type 0
  Claimed s l t =
      All
        (λ (r : RiskRun).
          (row : RiskRun) × (Dict.get r.id t.runs ≡ some row) × (row.status ≡ running))
        l
      × ((k : String) → All (λ (r : RiskRun). r.id ≢ k) l → Dict.get k t.runs ≡ Dict.get k s.runs)
      × (t.payloads ≡ s.payloads)
      × (t.next_result_id ≡ s.next_result_id)

  pub claimed_repo-Claimed :
      (l : List RiskRun) (s : RiskRunRepo) → IsClaimable s l → Claimed s l (claimed_repo s l)
  unfolding claimed_repo restamped
  claimed_repo-Claimed [] s c = (tt, (λ k h. refl), refl, refl)
  claimed_repo-Claimed (r ∷ l) s c =
      let s' = claim_one s r in
      let (rest, others, same_payloads, same_next) =
        claimed_repo-Claimed l s' (claim_one-IsClaimable s r l c) in
      (
        (
          (
            claimed_run s r,
            others r.id (Prelude.All-map (λ y o e. o (sym e)) l c.apart.0)
                ∙ ground (arith, get-put r.id r.id (claimed_run s r) s.runs, eq_iff r.id r.id),
            refl,
          ),
          rest,
        ),
        (λ k h.
            others k h.1
            ∙ ground (arith, get-put r.id k (claimed_run s r) s.runs, eq_iff r.id k, h.0)),
        same_payloads,
        same_next,
      )

-- The queued runs in the order of the claim.
abbrev pub queue : RiskRunRepo → List RiskRun
queue s = sort_by fifo_le (select (has_status queued) (Dict.values s.runs))

queued_status : (r : RiskRun) → has_status queued r ≡ true → r.status ≡ queued
queued_status r h = status_is_queued r.status h
  where
    status_is_queued : (st : RiskRunStatus) → Repo.status_eq st queued ≡ true → st ≡ queued
    status_is_queued st e = ground arith

pub queue-IsClaimable :
    (n : ℕ) {s : RiskRunRepo} → IsWellFormed s → IsClaimable s (take n (queue s))
queue-IsClaimable n {s} w = record {
  stored = Prelude.All-take _ n (queue s) (
      Sort.All-sort_by fifo_le _ _
        (Prelude.All-select _ (has_status queued) (Dict.values s.runs) (values_found w)));
  waiting = Prelude.All-take _ n (queue s) (
      Sort.All-sort_by fifo_le _ _ (
        Prelude.All-map queued_status _
          (Prelude.All-select_test (has_status queued) (Dict.values s.runs))));
  apart = Prelude.Each-take _ n (queue s) (
      Sort.Each-sort_by fifo_le OtherId (λ a b o e. o (sym e)) _
        (Prelude.Each-select _ (has_status queued) (Dict.values s.runs) (values_apart w)));
}
