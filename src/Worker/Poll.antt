-- ===== src/Worker/Poll.antt =====
-- `poll_once` of backend/app/services/risk_run_worker.py: what becomes of each claimed run.
use quantlineage.Prelude.{
  ℕ, ◌+◌, String, ◌≡◌, refl, ◌≢◌, Bool, true, false, Option, none, some, List, [], ◌∷◌, ◌++◌, arith,
  sym, ◌∙◌, subst, eq_iff, ◌==◌, Bool-cases, Option-cases, inl, inr, ◌⊎◌, length, All, Each,
}
use quantlineage.Prelude
use quantlineage.Prelude.Text.{is_blank}
use quantlineage.Prelude.Text
use quantlineage.Prelude.Dict
use quantlineage.RiskRun.{RiskRun, RiskRunStatus, running}
use quantlineage.RiskRun.Repo.{is_terminal, claim_queued}
use quantlineage.RiskRun.Invariant.{IsWellFormed}
use quantlineage.RiskRun.Claiming.{claimed_running}
use quantlineage.Prelude.Int.{ℤ}
use quantlineage.Prelude.Call.{Result, ok, err, Fault, Result-cases}
use quantlineage.RiskRun.Service
use quantlineage.Worker.{Environment, Worker, with_service}
use quantlineage.Worker.Execute
use quantlineage.Worker.Execute.{is_pending, portfolio_missing_for_queued, keep_portfolio}
use quantlineage.Worker.Standing.{Stands, is_running, fail_settles, fail_others, fail_returns}

-- A run that is not among the others.
abbrev pub Apart : String → RiskRun → Type 0
Apart k r = r.id ≢ k

module _ (e : Environment) where
  abbrev pub Pending : String → Worker e → Type 0
  Pending k w = is_pending e (Dict.get k w.futures) ≡ true

  -- Scheduled with a future that is not done, or ended.
  abbrev pub Moved : Worker e → RiskRun → Type 0
  Moved w r = Pending r.id w ⊎ Stands r.id is_terminal w.repo

  -- What a loop over runs leaves: each of them has moved, any other stored run is as it was, no future
  -- is dropped, and as many executions are handed to the pool as are counted.
  record Polled (rs : List RiskRun) (w : Worker e) (n : ℕ) (t : Worker e) : Type 0 where
    moved : All (Moved t) rs
    others : (k : String) → All (Apart k) rs → Dict.get k t.repo.runs ≡ Dict.get k w.repo.runs
    pending : (k : String) → Pending k w → Pending k t
    counted : length t.submitted ≡ length w.submitted + n

  abbrev Returned : List RiskRun → Worker e → Result ℕ × Worker e → Type 0
  Returned rs w x = (n : ℕ) × (t : Worker e) × (x ≡ (ok n, t)) × Polled rs w n t

  abbrev LoadRaised : Result ℕ × Worker e → Type 0
  LoadRaised x =
      (id : String) × (f : Fault) × (t : Worker e) × (e.load_portfolio id ≡ err f)
      × (x ≡ (err f, t))

  schedule_claimed_lem :
      (run : RiskRun) (w : Worker e) → Returned (run ∷ []) w (Execute.schedule_claimed e run.id w)
  unfolding Execute.schedule_claimed Execute.schedule is_pending
  schedule_claimed_lem run w = elim (Bool-cases (is_pending e (Dict.get run.id w.futures))) [
    | inl busy ↦ (
      0,
      w,
      ground arith,
      record {
        moved = (inl busy, tt);
        others = λ k h. refl;
        pending = λ k h. h;
        counted = omega arith;
      },
    )
    | inr free ↦ (
      1,
      Execute.schedule e run.id w,
      ground arith,
      record {
        moved = (inl (ground (arith, Dict.get-put_self run.id false w.futures)), tt);
        others = λ k h. ground arith;
        pending = λ k h. ground (arith, Dict.get-put run.id k false w.futures);
        counted = ground (arith, Prelude.length-append w.submitted (run.id ∷ []));
      },
    )
  ]

  kept_portfolio :
      (run : RiskRun) (p : e.Portfolio) (w : Worker e) (x : Result ℕ × Worker e)
      → Returned (run ∷ []) (keep_portfolio e run.id p w) x
      → Returned (run ∷ []) w x
  kept_portfolio run p w x (n, t, is, h) = (
    n,
    t,
    is,
    record { moved = h.moved; others = h.others; pending = h.pending; counted = h.counted },
  )

  queued_message_filled : (id : String) → is_blank (portfolio_missing_for_queued e id) ≡ false
  unfolding Text.is_space
  queued_message_filled id = Text.fills_append "p" "ortfolio " _ refl

  fail_claimed_lem :
      (run : RiskRun) (w : Worker e)
      → Stands run.id is_running w.repo
      → Returned (run ∷ []) w (Execute.fail_claimed e run w)
  unfolding Execute.fail_claimed
  fail_claimed_lem run w stands =
      let message = portfolio_missing_for_queued e run.portfolio_id in
      let filled = queued_message_filled run.portfolio_id in
      let (r, returned) = fail_returns e.clock run.id message w.repo stands filled in
      (
        0,
        (with_service e (Service.fail e.clock run.id message) w).1,
        ground (arith, returned),
        record {
          moved = (inr (fail_settles e.clock run.id message w.repo stands filled), tt);
          others = λ k h. fail_others e.clock run.id k message w.repo stands filled h.0;
          pending = λ k h. h;
          counted = omega arith;
        },
      )

  poll_run_lem :
      (run : RiskRun) (w : Worker e)
      → Stands run.id is_running w.repo
      → let x = Execute.poll_run e run w in Returned (run ∷ []) w x ⊎ LoadRaised x
  unfolding Execute.poll_run
  poll_run_lem run w stands = elim (Option-cases (Dict.get run.id w.portfolios)) [
    | inr (p, c) ↦ rw (c, Execute.poll_run) (inl (schedule_claimed_lem run w))
    | inl missed ↦ elim (Result-cases (e.load_portfolio run.portfolio_id)) [
      | inr (f, raised) ↦
          rw (missed, raised, Execute.poll_run) (inr (run.portfolio_id, f, w, raised, refl))
      | inl (none, lost) ↦ rw (missed, lost, Execute.poll_run) (inl (fail_claimed_lem run w stands))
      | inl (some p, c) ↦
          rw (missed, c, Execute.poll_run)
            (inl
              (kept_portfolio run p w _ (schedule_claimed_lem run (keep_portfolio e run.id p w))))
    ]
  ]

  still-Moved :
      (run : RiskRun) (rest : List RiskRun) (w t : Worker e) (m : ℕ)
      → Moved w run
      → All (λ (r : RiskRun). run.id ≢ r.id) rest
      → Polled rest w m t
      → Moved t run
  still-Moved run rest w t m (inl waits) o h = inl (h.pending run.id waits)
  still-Moved run rest w t m (inr (row, at_id, done)) o h =
      inr (row, h.others run.id (Prelude.All-map (λ r q s. q (sym s)) rest o) ∙ at_id, done)

  then-Polled :
      (run : RiskRun) (rest : List RiskRun) (w t u : Worker e) (n m : ℕ)
      → All (λ (r : RiskRun). run.id ≢ r.id) rest
      → Polled (run ∷ []) w n t
      → Polled rest t m u
      → Polled (run ∷ rest) w (n + m) u
  then-Polled run rest w t u n m o h g = record {
    moved = (still-Moved run rest t u m h.moved.0 o g, g.moved);
    others = λ k q. g.others k q.1 ∙ h.others k (q.0, tt);
    pending = λ k q. g.pending k (h.pending k q);
    counted = omega (arith, h.counted, g.counted);
  }

  still_standing :
      (run : RiskRun) (w t : Worker e) (n : ℕ)
      → Polled (run ∷ []) w n t
      → (rest : List RiskRun) → All (λ (r : RiskRun). run.id ≢ r.id) rest
      → All (λ (r : RiskRun). Stands r.id is_running w.repo) rest
      → All (λ (r : RiskRun). Stands r.id is_running t.repo) rest
  still_standing run w t n h [] o g = tt
  still_standing run w t n h (r ∷ rest) o g =
      let (row, at_id, q) = g.0 in
      ((row, h.others r.id (o.0, tt) ∙ at_id, q), still_standing run w t n h rest o.1 g.1)

  poll_runs_lem :
      (rs : List RiskRun) (w : Worker e)
      → Each (λ (a b : RiskRun). a.id ≢ b.id) rs
      → All (λ (r : RiskRun). Stands r.id is_running w.repo) rs
      → let x = Execute.poll_runs e rs w in Returned rs w x ⊎ LoadRaised x
  unfolding Execute.poll_runs
  poll_runs_lem [] w apart stand = inl (
    0,
    w,
    refl,
    record { moved = tt; others = λ k h. refl; pending = λ k h. h; counted = omega arith },
  )
  poll_runs_lem (run ∷ rest) w apart stand = elim (poll_run_lem run w stand.0) [
    | inr (id, f, t, raised, is) ↦ inr (id, f, t, raised, ground (arith, is))
    | inl (n, t, is, h) ↦
        elim (poll_runs_lem rest t apart.1 (still_standing run w t n h rest apart.0 stand.1)) [
          | inr (id, f, u, raised, then) ↦ inr (id, f, u, raised, ground (arith, is, then))
          | inl (m, u, then, g) ↦
              inl (n + m, u, ground (arith, is, then), then-Polled run rest w t u n m apart.0 h g)
        ]
  ]

  running_test : {s : RiskRunStatus} → s ≡ running → is_running s ≡ true
  running_test h = rw h refl

  poll_once_eq :
      (limit : ℤ) (w : Worker e) (claimed : List RiskRun)
      → (claim_queued e.clock limit w.repo).0 ≡ ok claimed
      → Execute.poll_once e limit w
        ≡ Execute.poll_runs e claimed (with_service e (claim_queued e.clock limit) w).1
  unfolding Execute.poll_once
  poll_once_eq limit w claimed h = ground (arith, h)

  -- A poll leaves no claimed run behind, in a repository whose runs stand under their own ids, each
  -- id once: it returns, and then each run that its claim returned has a future that is not done or
  -- has ended, and the number returned is the number of executions handed to the pool; or loading a
  -- portfolio raised, and the poll raises that exception.
  pub polled_runs_move :
      (limit : ℤ) (w : Worker e) (claimed : List RiskRun)
      → IsWellFormed w.repo
      → (claim_queued e.clock limit w.repo).0 ≡ ok claimed
      → ((n : ℕ) × (t : Worker e) × (Execute.poll_once e limit w ≡ (ok n, t))
          × All (Moved t) claimed
          × (length t.submitted ≡ length w.submitted + n))
        ⊎ ((id : String) × (f : Fault) × (t : Worker e) × (e.load_portfolio id ≡ err f)
            × (Execute.poll_once e limit w ≡ (err f, t)))
  polled_runs_move limit w claimed well h =
      let (stored, apart) = claimed_running e.clock limit w.repo claimed well h in
      let step = poll_once_eq limit w claimed h in
      let stand =
        Prelude.All-map (λ r (row, at_id, q). (row, at_id, running_test q)) claimed stored in
      elim (poll_runs_lem claimed (with_service e (claim_queued e.clock limit) w).1 apart stand) [
        | inr (id, f, t, raised, is) ↦ inr (id, f, t, raised, step ∙ is)
        | inl (n, t, is, p) ↦ inl (n, t, step ∙ is, p.moved, p.counted)
      ]
