-- ===== src/RiskRun/Invariant.antt =====
-- The keys of the run repository's tables.
use quantlineage.Prelude.{
  ℕ, String, ◌≡◌, refl, ◌≢◌, some, [], ◌∷◌, arith, sym, subst, ◌∙◌, ap, eq_iff, All, Each,
}
use quantlineage.Prelude.Dict
use quantlineage.Prelude.Dict.{Dict, Distinct, get-put, Distinct-put}
use quantlineage.RiskRun.{RiskRun}
use quantlineage.RiskRun.Repo
use quantlineage.RiskRun.Repo.{RiskRunRepo}
use quantlineage.RiskRun.Steps.{
  Step, ticked, enqueued, started, finished, broken, bound, recorded, Steps, here, next,
}

abbrev pub IsKeyed : Dict RiskRun → Type 0
IsKeyed d = (k : String) (r : RiskRun) → Dict.get k d ≡ some r → r.id ≡ k

pub found_at_id :
    (d : Dict RiskRun) (k : String) (r : RiskRun)
    → IsKeyed d
    → Dict.get k d ≡ some r
    → Dict.get r.id d ≡ some r
found_at_id d k r h e = subst (λ i. Dict.get i d ≡ some r) (sym (h k r e)) e

pub record IsWellFormed (s : RiskRunRepo) : Type 0 where
  pub distinct : Distinct s.runs
  pub keyed : IsKeyed s.runs

pub put-IsKeyed :
    (k : String) (r : RiskRun) (d : Dict RiskRun) → IsKeyed d → r.id ≡ k → IsKeyed (Dict.put k r d)
put-IsKeyed k r d h e j x = rw (get-put k j r d) (ground (arith, h j x, eq_iff k j))

module _ (clock : ℕ → ℕ) where
  pub Step-IsWellFormed : {s t : RiskRunRepo} → Step clock s t → IsWellFormed s → IsWellFormed t
  unfolding Repo.restamped
  Step-IsWellFormed (ticked s) w = record { distinct = w.distinct; keyed = w.keyed }
  Step-IsWellFormed (enqueued s spec new good) w = record {
    distinct = Distinct-put _ _ s.runs w.distinct;
    keyed = put-IsKeyed spec.run_id _ s.runs w.keyed refl;
  }
  Step-IsWellFormed (started s k row found q) w = record {
    distinct = Distinct-put k _ s.runs w.distinct;
    keyed = put-IsKeyed k _ s.runs w.keyed (w.keyed k row found);
  }
  Step-IsWellFormed (finished s k row found q) w = record {
    distinct = Distinct-put k _ s.runs w.distinct;
    keyed = put-IsKeyed k _ s.runs w.keyed (w.keyed k row found);
  }
  Step-IsWellFormed (broken s k row m found q f) w = record {
    distinct = Distinct-put k _ s.runs w.distinct;
    keyed = put-IsKeyed k _ s.runs w.keyed (w.keyed k row found);
  }
  Step-IsWellFormed (bound s k row snap found u f) w = record {
    distinct = Distinct-put k _ s.runs w.distinct;
    keyed = put-IsKeyed k _ s.runs w.keyed (w.keyed k row found);
  }
  Step-IsWellFormed (recorded s k row t p found q) w = record {
    distinct = Distinct-put k _ s.runs w.distinct;
    keyed = put-IsKeyed k _ s.runs w.keyed (w.keyed k row found);
  }

  pub Steps-IsWellFormed : {s t : RiskRunRepo} → IsWellFormed s → Steps clock s t → IsWellFormed t
  Steps-IsWellFormed w here = w
  Steps-IsWellFormed w (next p x) = Step-IsWellFormed x (Steps-IsWellFormed w p)

pub new_repo-IsWellFormed : IsWellFormed Repo.new_repo
unfolding Dict.get
new_repo-IsWellFormed = record { distinct = tt; keyed = λ k r e. cc }

-- The ids of the stored runs differ from each other.
Each-values :
    (d : Dict RiskRun)
    → Distinct d
    → IsKeyed d
    → Each (λ (a b : RiskRun). a.id ≢ b.id) (Dict.values d)
unfolding Dict.values
Each-values [] h keyed = tt
Each-values ((k, v) ∷ d) h keyed =
    let tail : IsKeyed d = λ j r e. keyed j r (Dict.get-tail k j v r d h.0 e) in
    let v_at_k : v.id ≡ k = keyed k v (unfold Dict.get in ground (arith, eq_iff k k)) in
    (
      Dict.All-values (λ (y : RiskRun). v.id ≢ y.id) d h.1
          (λ j r e same.
            cc (found_at_id d j r tail e, ap (λ i. Dict.get i d) (sym same ∙ v_at_k), h.0)),
      Each-values d h.1 tail,
    )

pub values_apart :
    {s : RiskRunRepo} → IsWellFormed s → Each (λ (a b : RiskRun). a.id ≢ b.id) (Dict.values s.runs)
values_apart {s} w = Each-values s.runs w.distinct w.keyed

pub values_found :
    {s : RiskRunRepo}
    → IsWellFormed s
    → All (λ (r : RiskRun). Dict.get r.id s.runs ≡ some r) (Dict.values s.runs)
values_found {s} w =
    Dict.All-values (λ (r : RiskRun). Dict.get r.id s.runs ≡ some r) s.runs w.distinct
      (λ k r e. found_at_id s.runs k r w.keyed e)
