-- ===== src/RiskRun/Fifo.antt =====
-- The order of `claim_queued` (backend/app/persistence/memory_repos.py), and the ids of a list of runs.
use quantlineage.Prelude.{
  ℕ, zero, suc, ◌+◌, ◌≤◌, String, ◌≡◌, refl, ◌≢◌, Bool, true, false, Option, none, some, List, [],
  ◌∷◌, ◌++◌, arith, sym, ◌∙◌, ap, ◌⊎◌, eqb, ltb, ◌||◌, ◌&&◌, eq_iff, Bool-cases, inl, inr,
  if◌then◌else◌, All, Each, select, take, drop, length, map,
}
use quantlineage.Prelude
use quantlineage.Prelude.Text.{le_text-IsOrder}
use quantlineage.Prelude.Sort.{IsSorted, IsOrder}
use quantlineage.RiskRun.{RiskRun}
use quantlineage.RiskRun.Repo
use quantlineage.RiskRun.Repo.{RiskRunRepo, list_by_status, claim_queued, fifo_le, has_status}
use quantlineage.RiskRun.Steps.Claim.{claimed_runs}

-- By time of creation, then by id.
pub fifo_le-IsOrder : IsOrder fifo_le
unfolding fifo_le
fifo_le-IsOrder = record {
  total = λ x y h. ground (arith, le_text-IsOrder.total x.id y.id);
  trans = λ x y z h k. ground (arith, le_text-IsOrder.trans x.id y.id z.id);
}

-- In a sorted list, what is not among the first `n` stands behind each of them.
pub behind_first :
    (n : ℕ) (l : List RiskRun)
    → IsSorted fifo_le l
    → All
        (λ (r : RiskRun).
          All (λ (c : RiskRun). c.id ≢ r.id) (take n l)
          → All (λ (c : RiskRun). fifo_le c r ≡ true) (take n l))
        l
behind_first n [] h = tt
behind_first zero (x ∷ l) h = ((λ _. tt), Prelude.All-map (λ r _ _. tt) l (behind_first zero l h.1))
behind_first (suc n) (x ∷ l) h = (
  (λ o. absurd (o.0 refl)),
  Prelude.All-map (λ r p o. (p.0, p.1 o.1)) l (Prelude.All-both _ _ l h.0 (behind_first n l h.1)),
)

pub IsSorted-take : (n : ℕ) (l : List RiskRun) → IsSorted fifo_le l → IsSorted fifo_le (take n l)
IsSorted-take zero l h = tt
IsSorted-take (suc n) [] h = tt
IsSorted-take (suc n) (x ∷ l) h = (Prelude.All-take _ n l h.0, IsSorted-take n l h.1)

-- A claimed run keeps its time of creation and its id, so it keeps its place.
module _ (clock : ℕ → ℕ) where
  pub before_run :
      (r : RiskRun) (l : List RiskRun) (s : RiskRunRepo)
      → All (λ (c : RiskRun). fifo_le c r ≡ true) l
      → All (λ (c : RiskRun). fifo_le c r ≡ true) (claimed_runs clock s l)
  unfolding claimed_runs Repo.restamped fifo_le
  before_run r [] s h = tt
  before_run r (c ∷ l) s h = (h.0, before_run r l _ h.1)

  pub behind_run :
      (r : RiskRun) (l : List RiskRun) (s : RiskRunRepo)
      → All (λ (c : RiskRun). fifo_le r c ≡ true) l
      → All (λ (c : RiskRun). fifo_le r c ≡ true) (claimed_runs clock s l)
  unfolding claimed_runs Repo.restamped fifo_le
  behind_run r [] s h = tt
  behind_run r (c ∷ l) s h = (h.0, behind_run r l _ h.1)

  pub claimed_runs-IsSorted :
      (l : List RiskRun) (s : RiskRunRepo)
      → IsSorted fifo_le l
      → IsSorted fifo_le (claimed_runs clock s l)
  unfolding claimed_runs Repo.restamped fifo_le
  claimed_runs-IsSorted [] s h = tt
  claimed_runs-IsSorted (c ∷ l) s h = (behind_run c l _ h.0, claimed_runs-IsSorted l _ h.1)

abbrev pub ids : List RiskRun → List String
ids l = map (λ (r : RiskRun). r.id) l

pub ids-All :
    (P : String → Type 0) (l : List RiskRun) → All (λ (r : RiskRun). P r.id) l → All P (ids l)
ids-All P [] h = tt
ids-All P (r ∷ l) h = (h.0, ids-All P l h.1)

pub ids-Each :
    (l : List RiskRun)
    → Each (λ (a b : RiskRun). a.id ≢ b.id) l
    → Each (λ (i j : String). i ≢ j) (ids l)
ids-Each [] h = tt
ids-Each (r ∷ l) h = (ids-All (λ j. r.id ≢ j) l h.0, ids-Each l h.1)

pub All-of-ids :
    (P : String → Type 0) (l : List RiskRun) → All P (ids l) → All (λ (r : RiskRun). P r.id) l
All-of-ids P [] h = tt
All-of-ids P (r ∷ l) h = (h.0, All-of-ids P l h.1)

pub Each-of-ids :
    (l : List RiskRun)
    → Each (λ (i j : String). i ≢ j) (ids l)
    → Each (λ (a b : RiskRun). a.id ≢ b.id) l
Each-of-ids [] h = tt
Each-of-ids (r ∷ l) h = (All-of-ids (λ j. r.id ≢ j) l h.0, Each-of-ids l h.1)
