-- ===== src/RiskRun/History/Continues.antt =====
-- What a stored run keeps whatever is called later.
use quantlineage.Prelude.{
  ℕ, String, ◌≡◌, refl, true, false, Option, some, [], arith, ◌∙◌, ap, subst, eq_iff, ◌==◌,
  Bool-cases, inl, inr,
}
use quantlineage.Prelude.Dict
use quantlineage.Prelude.Dict.{get-put, get-put_ne}
use quantlineage.Wire.{Fields}
use quantlineage.RiskRun.{RiskRun, RiskRunStatus}
use quantlineage.RiskRun.Repo.{RiskRunRepo, restamped, is_terminal}
use quantlineage.RiskRun.Service.{can_transition, is_set}
use quantlineage.RiskRun.Steps.{
  Step, ticked, enqueued, started, finished, broken, bound, recorded, Steps, here, next,
}

-- A path along the edges of `ALLOWED_TRANSITIONS`.
pub data Forward (s : RiskRunStatus) : RiskRunStatus → Type 0 where
  stay : Forward s s
  move : {t u : RiskRunStatus} → Forward s t → can_transition t u ≡ true → Forward s u

Forward-trans : {s t u : RiskRunStatus} → Forward s t → Forward t u → Forward s u
Forward-trans p stay = p
Forward-trans p (move q e) = move (Forward-trans p q) e

-- What a terminal run shows of its outcome.
pub record SameOutcome (r r' : RiskRun) : Type 0 where
  pub status : r'.status ≡ r.status
  pub started_at : r'.started_at ≡ r.started_at
  pub completed_at : r'.completed_at ≡ r.completed_at
  pub error : r'.error ≡ r.error
  pub result_refs : r'.result_refs ≡ r.result_refs

-- What was asked for: the fields that `enqueue` fills and nothing else writes.
pub record SameRequest (r r' : RiskRun) : Type 0 where
  pub id : r'.id ≡ r.id
  pub portfolio_id : r'.portfolio_id ≡ r.portfolio_id
  pub portfolio_version : r'.portfolio_version ≡ r.portfolio_version
  pub owner : r'.owner ≡ r.owner
  pub created_at : r'.created_at ≡ r.created_at
  pub pricing_engine_version : r'.pricing_engine_version ≡ r.pricing_engine_version
  pub scenario_set : r'.scenario_set ≡ r.scenario_set
  pub methodology : r'.methodology ≡ r.methodology
  pub historical_dataset_id : r'.historical_dataset_id ≡ r.historical_dataset_id
  pub historical_dataset_version : r'.historical_dataset_version ≡ r.historical_dataset_version
  pub as_of : r'.as_of ≡ r.as_of
  pub calculation_config : r'.calculation_config ≡ r.calculation_config
  pub run_type : r'.run_type ≡ r.run_type
  pub request : r'.request ≡ r.request

-- A run and its payloads at one time and at a later one.
pub record Continues (r r' : RiskRun) (p p' : Option (Dict.Dict Fields)) : Type 0 where
  pub forward : Forward r.status r'.status
  pub request : SameRequest r r'
  pub snapshot : is_set r.market_snapshot_id ≡ true → r'.market_snapshot_id ≡ r.market_snapshot_id
  pub outcome : is_terminal r.status ≡ true → SameOutcome r r' × (p' ≡ p)

same_request : (r : RiskRun) → SameRequest r r
same_request r = ground arith

Continues-refl : (r : RiskRun) (p : Option (Dict.Dict Fields)) → Continues r r p p
Continues-refl r p = record {
  forward = stay;
  request = same_request r;
  snapshot = λ _. refl;
  outcome = λ _. (ground arith, refl);
}

SameRequest-trans : (r r' r'' : RiskRun) → SameRequest r r' → SameRequest r' r'' → SameRequest r r''
SameRequest-trans r r' r'' a b = ground arith

SameOutcome-trans : (r r' r'' : RiskRun) → SameOutcome r r' → SameOutcome r' r'' → SameOutcome r r''
SameOutcome-trans r r' r'' a b = ground arith

Continues-trans :
    (r r' r'' : RiskRun) (p p' p'' : Option (Dict.Dict Fields))
    → Continues r r' p p'
    → Continues r' r'' p' p''
    → Continues r r'' p p''
Continues-trans r r' r'' p p' p'' a b = record {
  forward = Forward-trans a.forward b.forward;
  request = SameRequest-trans r r' r'' a.request b.request;
  snapshot = λ h. let e = a.snapshot h in b.snapshot (rw e h) ∙ e;
  outcome = λ h.
      let (same, same_payload) = a.outcome h in
      let (later, later_payload) = b.outcome (rw same.status h) in
      (SameOutcome-trans r r' r'' same later, later_payload ∙ same_payload);
}

-- A write at one key, seen at another or at the same.
write_at_key :
    (j k : String) (row new r : RiskRun) (d : Dict.Dict RiskRun)
    (ps ps' : Dict.Dict (Dict.Dict Fields))
    → Dict.get j d ≡ some row
    → Dict.get k d ≡ some r
    → ((j == k) ≡ false → Dict.get k ps' ≡ Dict.get k ps)
    → Continues row new (Dict.get j ps) (Dict.get j ps')
    → (r' : RiskRun) × (Dict.get k (Dict.put j new d) ≡ some r')
      × Continues r r' (Dict.get k ps) (Dict.get k ps')
write_at_key j k row new r d ps ps' at_j at_k others c = elim (Bool-cases (j == k)) [
  | inl same ↦
      let e : j ≡ k = (eq_iff j k).0 same in
      let row_r : row ≡ r = ground arith in
      (
        new,
        ground (arith, get-put j k new d),
        rw (← e)
            (subst (λ (x : RiskRun). Continues x new (Dict.get j ps) (Dict.get j ps')) row_r c),
      )
  | inr other ↦
      (r, ground (arith, get-put j k new d), rw (others other) (Continues-refl r (Dict.get k ps)))
]

module _ (clock : ℕ → ℕ) where
  pub Step-Continues :
      {s t : RiskRunRepo} (k : String) (r : RiskRun)
      → Step clock s t
      → Dict.get k s.runs ≡ some r
      → (r' : RiskRun) × (Dict.get k t.runs ≡ some r')
        × Continues r r' (Dict.get k s.payloads) (Dict.get k t.payloads)
  unfolding restamped
  Step-Continues k r (ticked s) e = (r, e, Continues-refl r (Dict.get k s.payloads))
  Step-Continues k r (enqueued s spec new good) e =
      let other : (spec.run_id == k) ≡ false = ground (arith, eq_iff spec.run_id k) in
      (
        r,
        get-put_ne spec.run_id k _ s.runs other ∙ e,
        rw (get-put_ne spec.run_id k [] s.payloads other)
            (Continues-refl r (Dict.get k s.payloads)),
      )
  Step-Continues k r (started s j row found q) e =
      write_at_key j k row _ r s.runs s.payloads s.payloads found e (λ _. refl)
        (record {
          forward = rw q (move stay refl);
          request = ground arith;
          snapshot = λ _. refl;
          outcome = λ h. cc (ap is_terminal q, h);
        })
  Step-Continues k r (finished s j row found q) e =
      write_at_key j k row _ r s.runs s.payloads s.payloads found e (λ _. refl)
        (record {
          forward = rw q (move stay refl);
          request = ground arith;
          snapshot = λ _. refl;
          outcome = λ h. cc (ap is_terminal q, h);
        })
  Step-Continues k r (broken s j row m found q f) e =
      write_at_key j k row _ r s.runs s.payloads s.payloads found e (λ _. refl)
        (record {
          forward = rw q (move stay refl);
          request = ground arith;
          snapshot = λ _. refl;
          outcome = λ h. cc (ap is_terminal q, h);
        })
  Step-Continues k r (bound s j row snap found u f) e =
      write_at_key j k row _ r s.runs s.payloads s.payloads found e (λ _. refl)
        (record {
          forward = stay;
          request = ground arith;
          snapshot = λ h. cc (u, h);
          outcome = λ h. (ground arith, refl);
        })
  Step-Continues k r (recorded s j row t p found q) e =
      write_at_key j k row _ r s.runs s.payloads _ found e (get-put_ne j k _ s.payloads) (record {
        forward = stay;
        request = ground arith;
        snapshot = λ _. refl;
        outcome = λ h. cc (ap is_terminal q, h);
      })

  pub Steps-Continues :
      {s t : RiskRunRepo} (k : String) (r : RiskRun)
      → Steps clock s t
      → Dict.get k s.runs ≡ some r
      → (r' : RiskRun) × (Dict.get k t.runs ≡ some r')
        × Continues r r' (Dict.get k s.payloads) (Dict.get k t.payloads)
  Steps-Continues {s} k r here e = (r, e, Continues-refl r (Dict.get k s.payloads))
  Steps-Continues k r (next p x) e =
      let (r', e', c) = Steps-Continues k r p e in
      let (r'', e'', c') = Step-Continues k r' x e' in
      (r'', e'', Continues-trans r r' r'' _ _ _ c c')
