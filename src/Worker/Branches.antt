-- ===== src/Worker/Branches.antt =====
-- The branches of `_execute` of backend/app/services/risk_run_worker.py, from a run that is RUNNING
-- to what each of them leaves to the handlers of its exceptions.
use quantlineage.Prelude.{
  String, ◌≡◌, refl, false, Option, none, some, arith, sym, subst, Option-cases, inl, inr, ◌⊎◌,
}
use quantlineage.Prelude.Text.{is_blank, is_empty, strip}
use quantlineage.Prelude.Text
use quantlineage.Prelude.Dict
use quantlineage.Prelude.Dict.{get-put_self}
use quantlineage.Prelude.Call.{Result-cases, Result, ok, err, Fault, value_error}
use quantlineage.Wire.{Json}
use quantlineage.RiskRun.{RiskRun}
use quantlineage.RiskRun.Service
use quantlineage.RiskRun.Service.{is_set, same_id}
use quantlineage.RiskRun.Outcomes.{fail_marks_failed}
use quantlineage.Worker.{Environment, Worker, with_service}
use quantlineage.Worker.Execute
use quantlineage.Worker.Execute.{
  persist_market, public_failure_message, portfolio_missing, snapshot_missing, remember,
}
use quantlineage.Worker.Standing.{
  Stands, is_running, Outcome, settled, broken, running_eq, complete-Outcome, bind_keeps,
}

module _ (e : Environment) where
  abbrev pub OutcomeOf : String → Result (Unit {0}) × Worker e → Type 0
  OutcomeOf k (r, w) = Outcome k r w.repo

  pub at_Outcome :
      (k : String) {x y : Result (Unit {0}) × Worker e} → x ≡ y → OutcomeOf k y → OutcomeOf k x
  at_Outcome k h o = subst (OutcomeOf k) (sym h) o

  gave_up :
      (k message : String) (w : Worker e) (r : RiskRun)
      → let (res, t) = Service.fail e.clock k message w.repo in
        res ≡ ok r → Execute.give_up e k message w ≡ (ok tt, record w { repo = t })
  unfolding Execute.give_up
  gave_up k message w r h = ground arith

  give_up-Outcome :
      (k message : String) (w : Worker e)
      → Stands k is_running w.repo
      → is_blank message ≡ false
      → OutcomeOf k (Execute.give_up e k message w)
  give_up-Outcome k message w (row, stored, q) filled =
      let (r, res, at, st, _, _) =
        fail_marks_failed e.clock k message w.repo row stored (running_eq _ q) filled in
      at_Outcome k (gave_up k message w r res) (settled _ (r, at, rw st refl))

  module _ (k : String) (header : RiskRun) (p : e.Portfolio) (spec : e.RunSpec)
      (m : e.MarketSnapshot) (w : Worker e) where
    compute_raised :
        (f : Fault)
        → e.calculate header p spec m ≡ err f
        → Execute.compute e k header p spec m w ≡ (err f, remember e k p m w)
    unfolding Execute.compute
    compute_raised f h = ground arith

    compute_done :
        (payload : Json) (r : RiskRun)
        → e.calculate header p spec m ≡ ok payload
        → let (res, t) =
            Service.complete e.clock e.validated k (some header.run_type) (some payload) w.repo in
          res ≡ ok r
          → Execute.compute e k header p spec m w
            ≡ (ok tt, record (remember e k p m w) { repo = t })
    unfolding Execute.compute
    compute_done payload r c h = ground arith

    compute_broken :
        (payload : Json) (f : Fault)
        → e.calculate header p spec m ≡ ok payload
        → let (res, t) =
            Service.complete e.clock e.validated k (some header.run_type) (some payload) w.repo in
          res ≡ err f
          → Execute.compute e k header p spec m w
            ≡ (err f, record (remember e k p m w) { repo = t })
    unfolding Execute.compute
    compute_broken payload f c h = ground arith

    compute-Outcome :
        Stands k is_running w.repo → OutcomeOf k (Execute.compute e k header p spec m w)
    compute-Outcome run = elim (Result-cases (e.calculate header p spec m)) [
      | inr (f, raised) ↦ at_Outcome k (compute_raised f raised) (broken _ f run)
      | inl (payload, c) ↦
          elim (complete-Outcome e.clock e.validated k header.run_type payload w.repo run) [
            | inl (r, res, done) ↦ at_Outcome k (compute_done payload r c res) (settled _ done)
            | inr (f, res, still) ↦ at_Outcome k (compute_broken payload f c res) (broken _ f still)
          ]
    ]

  -- What comes back with the run RUNNING: a value, or a raise that the handlers see.
  abbrev Keeps : {A : Type 0} → String → Result A × Worker e → Type 0
  Keeps {A} k (r, w) =
      Stands k is_running w.repo × (((a : A) × (r ≡ ok a)) ⊎ ((f : Fault) × (r ≡ err f)))

  stamp_execute_market-Keeps :
      (k : String) (m : e.MarketSnapshot) (w : Worker e)
      → Stands k is_running w.repo
      → Keeps k (Execute.stamp_execute_market e k m w)
  unfolding Execute.stamp_execute_market
  stamp_execute_market-Keeps k m w run =
      let same : (persist_market e m w).repo ≡ w.repo = unfold persist_market in ground arith in
      let (still, made) =
        bind_keeps k (e.snapshot_id m) (persist_market e m w).repo
          (subst (Stands k is_running) (sym same) run) in
      (still, elim made [ inl (r, res) ↦ inl (r, res) | inr res ↦ inr (value_error, res) ])

  fresh_raised :
      (k : String) (p : e.Portfolio) (w : Worker e) (f : Fault)
      → e.snapshot_of p ≡ err f
      → Execute.fresh_market e k p w ≡ (err f, w)
  unfolding Execute.fresh_market
  fresh_raised k p w f h = ground arith

  fresh_bound :
      (k : String) (p : e.Portfolio) (w : Worker e) (m : e.MarketSnapshot) (r : RiskRun)
      → e.snapshot_of p ≡ ok m
      → let (res, t) = Execute.stamp_execute_market e k m w in
        res ≡ ok r → Execute.fresh_market e k p w ≡ (ok m, t)
  unfolding Execute.fresh_market
  fresh_bound k p w m r c h = ground arith

  fresh_unbound :
      (k : String) (p : e.Portfolio) (w : Worker e) (m : e.MarketSnapshot) (f : Fault)
      → e.snapshot_of p ≡ ok m
      → let (res, t) = Execute.stamp_execute_market e k m w in
        res ≡ err f → Execute.fresh_market e k p w ≡ (err f, t)
  unfolding Execute.fresh_market
  fresh_unbound k p w m f c h = ground arith

  fresh_market-Keeps :
      (k : String) (p : e.Portfolio) (w : Worker e)
      → Stands k is_running w.repo
      → Keeps k (Execute.fresh_market e k p w)
  fresh_market-Keeps k p w run = elim (Result-cases (e.snapshot_of p)) [
    | inr (f, raised) ↦ subst (Keeps k) (sym (fresh_raised k p w f raised)) (run, inr (f, refl))
    | inl (m, c) ↦
        let (still, made) = stamp_execute_market-Keeps k m w run in
        elim made [
          | inl (r, res) ↦
              subst (Keeps k) (sym (fresh_bound k p w m r c res)) (still, inl (m, refl))
          | inr (f, res) ↦
              subst (Keeps k) (sym (fresh_unbound k p w m f c res)) (still, inr (f, refl))
        ]
  ]

  bound_fresh :
      (k : String) (header : RiskRun) (p : e.Portfolio) (spec : e.RunSpec) (w : Worker e)
      (m : e.MarketSnapshot)
      → let (res, t) = Execute.fresh_market e k p w in
        res ≡ ok m
        → Execute.with_bound_market e k header p spec none w ≡ Execute.compute e k header p spec m t
  unfolding Execute.with_bound_market
  bound_fresh k header p spec w m h = ground arith

  bound_broken :
      (k : String) (header : RiskRun) (p : e.Portfolio) (spec : e.RunSpec) (w : Worker e)
      (f : Fault)
      → let (res, t) = Execute.fresh_market e k p w in
        res ≡ err f → Execute.with_bound_market e k header p spec none w ≡ (err f, t)
  unfolding Execute.with_bound_market
  bound_broken k header p spec w f h = ground arith

  missing_snapshot_filled : (id : String) → is_blank (snapshot_missing e id) ≡ false
  unfolding Text.is_space
  missing_snapshot_filled id = Text.fills_append "m" "arket snapshot " _ refl

  with_bound_market-Outcome :
      (k : String) (header : RiskRun) (p : e.Portfolio) (spec : e.RunSpec) (id : Option String)
      (w : Worker e)
      → Stands k is_running w.repo
      → OutcomeOf k (Execute.with_bound_market e k header p spec id w)
  unfolding Execute.with_bound_market
  with_bound_market-Outcome k header p spec none w run =
      let (still, made) = fresh_market-Keeps k p w run in
      elim made [
        | inl (m, res) ↦
            at_Outcome k (bound_fresh k header p spec w m res)
              (compute-Outcome k header p spec m _ still)
        | inr (f, res) ↦ at_Outcome k (bound_broken k header p spec w f res) (broken _ f still)
      ]
  with_bound_market-Outcome k header p spec (some id) w run =
      elim (Option-cases (Dict.get id w.market_snapshots)) [
        | inl lost ↦
            rw (lost, Execute.with_bound_market)
              (give_up-Outcome k _ w run (missing_snapshot_filled id))
        | inr (m, c) ↦ rw (c, Execute.with_bound_market) (compute-Outcome k header p spec m w run)
      ]

  required :
      (k : String) (w : Worker e) (row : RiskRun)
      → Dict.get k w.repo.runs ≡ some row
      → with_service e (Service.require k) w ≡ (ok row, w)
  unfolding Service.require
  required k w row stored = rw (stored, Service.require) refl

  market_raised :
      (k : String) (p : e.Portfolio) (w : Worker e) (row : RiskRun) (f : Fault)
      → Dict.get k w.repo.runs ≡ some row
      → e.resolve_spec row ≡ err f
      → Execute.run_on_market e k p w ≡ (err f, w)
  unfolding Execute.run_on_market Service.require
  market_raised k p w row f h c = ground arith

  market_resolved :
      (k : String) (p : e.Portfolio) (w : Worker e) (row : RiskRun) (spec : e.RunSpec)
      → Dict.get k w.repo.runs ≡ some row
      → e.resolve_spec row ≡ ok spec
      → Execute.run_on_market e k p w
        ≡ Execute.with_bound_market e k row p spec (Execute.truthy row.market_snapshot_id) w
  unfolding Execute.run_on_market Service.require
  market_resolved k p w row spec h c = ground arith

  run_on_market-Outcome :
      (k : String) (p : e.Portfolio) (w : Worker e)
      → Stands k is_running w.repo
      → OutcomeOf k (Execute.run_on_market e k p w)
  run_on_market-Outcome k p w (row, stored, q) = elim (Result-cases (e.resolve_spec row)) [
    | inr (f, raised) ↦
        at_Outcome k (market_raised k p w row f stored raised) (broken _ f (row, stored, q))
    | inl (spec, c) ↦
        at_Outcome k (market_resolved k p w row spec stored c)
          (with_bound_market-Outcome k row p spec _ w (row, stored, q))
  ]

  pub with_portfolio-Outcome :
      (k : String) (header : RiskRun) (w : Worker e)
      → Stands k is_running w.repo
      → OutcomeOf k (Execute.with_portfolio e k header w)
  unfolding Execute.with_portfolio
  with_portfolio-Outcome k header w run = elim (Option-cases (Dict.get k w.portfolios)) [
    | inr (p, c) ↦ rw (c, Execute.with_portfolio) (run_on_market-Outcome k p w run)
    | inl missed ↦ elim (Result-cases (e.load_portfolio header.portfolio_id)) [
      | inr (f, raised) ↦ rw (missed, raised, Execute.with_portfolio) (broken _ f run)
      | inl (none, lost) ↦
          rw (missed, lost, Execute.with_portfolio)
            (give_up-Outcome k _ w run (unfold strip Text.lstrip Text.rstrip Text.is_space in refl))
      | inl (some p, c) ↦ rw (missed, c, Execute.with_portfolio) (run_on_market-Outcome k p w run)
    ]
  ]
