-- ===== src/RiskRun/Claiming.antt =====
-- `claim_queued` (backend/app/persistence/memory_repos.py) as workers see it.
use quantlineage.Prelude.{
  ℕ, zero, suc, ◌+◌, ◌≤◌, String, ◌≡◌, refl, ◌≢◌, Bool, true, false, Option, none, some, List, [],
  ◌∷◌, ◌++◌, arith, ◌∙◌, ap, ◌⊎◌, eqb, ltb, ◌||◌, ◌&&◌, eq_iff, Bool-cases, inl, inr, if◌then◌else◌,
  All, Each, select, drop, length, map,
}
use quantlineage.Prelude
use quantlineage.Prelude.Int.{ℤ, pos_part}
use quantlineage.Prelude.Sort
use quantlineage.Prelude.Sort.{sort_by, IsOrder}
use quantlineage.Prelude.Dict
use quantlineage.Prelude.Call.{ok}
use quantlineage.RiskRun.{RiskRun, RiskRunStatus, queued, running, completed, failed}
use quantlineage.RiskRun.Repo
use quantlineage.RiskRun.Repo.{RiskRunRepo, list_by_status, claim_queued}
use quantlineage.RiskRun.Invariant.{IsWellFormed, Steps-IsWellFormed}
use quantlineage.RiskRun.Steps.Claim.{
  claimed_runs, Claimed, claimed_repo-Claimed, queue, queue-IsClaimable,
}
use quantlineage.RiskRun.History.{Command, claim_queued_lem, claim-Steps, serve, serve-Steps}
use quantlineage.RiskRun.History.Continues.{Forward, stay, move}
use quantlineage.RiskRun.History.Lifecycle.{run_persists}
use quantlineage.RiskRun.Service.{can_transition}
use quantlineage.Wire.Payload.{Validator}
use quantlineage.RiskRun.Fifo.{ids, ids-All, ids-Each, All-of-ids, Each-of-ids}

module _ (clock : ℕ → ℕ) where
  claimed_ids : (l : List RiskRun) (s : RiskRunRepo) → ids (claimed_runs clock s l) ≡ ids l
  unfolding claimed_runs Repo.restamped
  claimed_ids [] s = refl
  claimed_ids (r ∷ l) s = ap (λ t. r.id ∷ t) (claimed_ids l _)

  -- In a repository whose runs stand under their own ids, each id once, a claim returns the runs
  -- that `list_by_status` lists as QUEUED, at most `limit` of them and in its order. Behind it each
  -- of them is stored as RUNNING, and every other run, the payloads and the next result id are as
  -- before.
  pub claim_takes_listed :
      (limit : ℤ) (s : RiskRunRepo)
      → IsWellFormed s
      → let l = list_by_status queued limit s in
        let (res, t) = claim_queued clock limit s in
        (claimed : List RiskRun) × (res ≡ ok claimed)
        × (ids claimed ≡ ids l)
        × (length l ≤ pos_part limit)
        × Claimed clock s l t
  unfolding list_by_status
  claim_takes_listed limit s w = rw (claim_queued_lem clock limit s w) (
    claimed_runs clock s (list_by_status queued limit s),
    refl,
    claimed_ids _ s,
    omega (arith, Prelude.length-take (pos_part limit) (queue s)),
    claimed_repo-Claimed clock _ s (queue-IsClaimable (pos_part limit) w),
  )

module _ (clock : ℕ → ℕ) where
  returned :
      (limit : ℤ) (s : RiskRunRepo) (claimed : List RiskRun)
      → IsWellFormed s
      → (claim_queued clock limit s).0 ≡ ok claimed
      → claimed_runs clock s (list_by_status queued limit s) ≡ claimed
  unfolding list_by_status
  returned limit s claimed w e = ground (arith, claim_queued_lem clock limit s w)

  returned_ids :
      (limit : ℤ) (s : RiskRunRepo) (claimed : List RiskRun)
      → IsWellFormed s
      → (claim_queued clock limit s).0 ≡ ok claimed
      → ids claimed ≡ ids (list_by_status queued limit s)
  returned_ids limit s claimed w e = rw (← returned limit s claimed w e) (claimed_ids clock _ s)

module _ (clock : ℕ → ℕ) where
  -- The runs that a claim returns are stored as RUNNING, each under its own id.
  pub claimed_running :
      (limit : ℤ) (s : RiskRunRepo) (claimed : List RiskRun)
      → IsWellFormed s
      → (claim_queued clock limit s).0 ≡ ok claimed
      → All
          (λ (c : RiskRun).
            (row : RiskRun) × (Dict.get c.id (claim_queued clock limit s).1.runs ≡ some row)
            × (row.status ≡ running))
          claimed
        × Each (λ (a b : RiskRun). a.id ≢ b.id) claimed
  unfolding list_by_status
  claimed_running limit s claimed w e =
      let same = returned_ids clock limit s claimed w e in
      let (_, _, _, _, post) = claim_takes_listed clock limit s w in
      let Stored : String → Type 0 = λ i.
        (row : RiskRun) × (Dict.get i (claim_queued clock limit s).1.runs ≡ some row)
        × (row.status ≡ running) in
      (
        All-of-ids Stored claimed (rw same (ids-All Stored _ post.0)),
        Each-of-ids claimed (rw same (ids-Each _ (queue-IsClaimable (pos_part limit) w).apart)),
      )

-- A run that is not QUEUED is not QUEUED later.
never_queued_again : {a b : RiskRunStatus} → Forward a b → a ≢ queued → b ≢ queued
never_queued_again stay h = h
never_queued_again (move {u = queued} p e) h = λ _. edge _ e
  where
    edge : (x : RiskRunStatus) → can_transition x queued ≡ true → ⊥
    edge x y = ground arith
never_queued_again (move {u = running} p e) h = λ x. cc x
never_queued_again (move {u = completed} p e) h = λ x. cc x
never_queued_again (move {u = failed} p e) h = λ x. cc x

same_status :
    (i j : String) (r r' : RiskRun) (d : Dict.Dict RiskRun)
    → Dict.get i d ≡ some r
    → Dict.get j d ≡ some r'
    → i ≡ j
    → r.status ≡ r'.status
same_status i j r r' d e e' same = ground (arith, ap (λ (x : String). Dict.get x d) same)

module _ (clock : ℕ → ℕ) (validated : Validator) where
  -- What two claims list.
  listings_are_disjoint :
      (limit limit' : ℤ) (calls : List Command) (s : RiskRunRepo)
      → IsWellFormed s
      → let t = serve clock validated calls (claim_queued clock limit s).1 in
        All
          (λ (a : RiskRun). All (λ (b : RiskRun). a.id ≢ b.id) (list_by_status queued limit' t))
          (list_by_status queued limit s)
  unfolding list_by_status
  listings_are_disjoint limit limit' calls s w =
      let u = (claim_queued clock limit s).1 in
      let wu = Steps-IsWellFormed clock w (claim-Steps clock limit s w) in
      let wt = Steps-IsWellFormed clock wu (serve-Steps clock validated calls u wu) in
      let (claimed, res, same, short, post) = claim_takes_listed clock limit s w in
      let c = queue-IsClaimable (pos_part limit') wt in
      Prelude.All-map
        (λ a row_at.
          let (row, at_a, run) = row_at in
          let (r', at_t, _, forward) = run_persists clock validated calls u a.id row wu at_a in
          let not_queued = never_queued_again forward (λ q. cc (run, q)) in
          Prelude.All-map
            (λ b there same_id.
              not_queued (same_status a.id b.id r' b _ at_t there.0 same_id ∙ there.1))
            _ (Prelude.All-both _ _ _ c.stored c.waiting))
        _ post.0

  -- In a repository whose runs stand under their own ids, each id once, a claim returns no run
  -- twice, and a later claim returns none of its runs, whatever calls are made between them.
  pub claims_are_disjoint :
      (limit limit' : ℤ) (calls : List Command) (s : RiskRunRepo) (taken later : List RiskRun)
      → IsWellFormed s
      → (claim_queued clock limit s).0 ≡ ok taken
      → (claim_queued clock limit' (serve clock validated calls (claim_queued clock limit s).1)).0
        ≡ ok later
      → Each (λ (i j : String). i ≢ j) (ids taken)
        × All (λ i. All (λ j. i ≢ j) (ids later)) (ids taken)
  unfolding list_by_status
  claims_are_disjoint limit limit' calls s taken later w e e' =
      let u = (claim_queued clock limit s).1 in
      let t = serve clock validated calls u in
      let wu = Steps-IsWellFormed clock w (claim-Steps clock limit s w) in
      let wt = Steps-IsWellFormed clock wu (serve-Steps clock validated calls u wu) in
      let first = returned_ids clock limit s taken w e in
      let second = returned_ids clock limit' t later wt e' in
      rw (first, second)
        (
          ids-Each _ (queue-IsClaimable (pos_part limit) w).apart,
          ids-All (λ i. All (λ j. i ≢ j) (ids (list_by_status queued limit' t))) _
              (Prelude.All-map (λ a h. ids-All (λ j. a.id ≢ j) _ h) _
                (listings_are_disjoint limit limit' calls s w)),
        )
