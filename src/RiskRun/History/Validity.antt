-- ===== src/RiskRun/History/Validity.antt =====
-- The checks of `RiskRun`'s construction and the stored runs, which `model_copy` updates without
-- making them again. The clock must not be set back between two readings.
use quantlineage.Prelude.{
  ℕ, ◌+◌, ◌≤◌, String, ◌≡◌, refl, true, false, Option, none, some, List, arith, sym, ◌∙◌, subst,
  ◌==◌, is_some, Bool-cases, inl, inr,
}
use native.Mathlib.Nat.{le_refl}
use quantlineage.Prelude.Text.{is_blank}
use quantlineage.Prelude.Dict
use quantlineage.Prelude.Dict.{get-put, get-put_ne, get-put_self}
use quantlineage.RiskRun.{
  RiskRun, RiskRunStatus, queued, running, completed, failed, is_valid, identity_ok, times_ok,
  lifecycle_ok, RiskResultRef,
}
use quantlineage.RiskRun.Repo.{RiskRunRepo, restamped, new_started, new_completed}
use quantlineage.RiskRun.Steps.{
  Step, ticked, enqueued, started, finished, broken, bound, recorded, Steps, here, next,
}

abbrev pub NotAfter : Option ℕ → ℕ → Type 0
NotAfter none n = Unit
NotAfter (some t) n = t ≤ n

-- A valid run whose times are past.
pub record IsSound (now : ℕ) (r : RiskRun) : Type 0 where
  pub valid : is_valid r ≡ true
  pub created : r.created_at ≤ now
  pub begun : NotAfter r.started_at now

NotAfter-mono : (o : Option ℕ) (m n : ℕ) → m ≤ n → NotAfter o m → NotAfter o n
NotAfter-mono none m n h k = tt
NotAfter-mono (some t) m n h k = omega arith

later : {m n : ℕ} {r : RiskRun} → m ≤ n → IsSound m r → IsSound n r
later {m} {n} {r} h s = record {
  valid = s.valid;
  created = omega (arith, s.created);
  begun = NotAfter-mono r.started_at m n h s.begun;
}

identity_ok-restamped :
    (t : RiskRunStatus) (e : Option String) (now : ℕ) (r : RiskRun)
    → identity_ok (restamped t e now r) ≡ identity_ok r
unfolding identity_ok restamped
identity_ok-restamped t e now r = refl

-- The three conditions of a valid run, one by one.
pub record HasParts (r : RiskRun) : Type 0 where
  pub identity : identity_ok r ≡ true
  pub times : times_ok r.started_at r.completed_at ≡ true
  pub lifecycle : lifecycle_ok r.status r.started_at r.completed_at r.error ≡ true

parts : (r : RiskRun) → is_valid r ≡ true → HasParts r
unfolding is_valid
parts r h = ground arith

whole : (r : RiskRun) → HasParts r → is_valid r ≡ true
unfolding is_valid
whole r h = ground arith

-- What the lifecycle check says of a queued and of a running run.
queued_fields :
    (b c : Option ℕ) (e : Option String)
    → lifecycle_ok queued b c e ≡ true
    → (b ≡ none) × (c ≡ none) × (e ≡ none)
unfolding lifecycle_ok
queued_fields b c e h = ground arith

running_fields :
    (b c : Option ℕ) (e : Option String)
    → lifecycle_ok running b c e ≡ true
    → (is_some b ≡ true) × (c ≡ none) × (e ≡ none)
unfolding lifecycle_ok
running_fields b c e h = ground arith

lifecycle_at :
    (r : RiskRun) (st : RiskRunStatus)
    → r.status ≡ st
    → is_valid r ≡ true
    → lifecycle_ok st r.started_at r.completed_at r.error ≡ true
lifecycle_at r st q v =
    subst (λ x. lifecycle_ok x r.started_at r.completed_at r.error ≡ true) q (parts r v).lifecycle

started-IsSound :
    (now : ℕ) (r : RiskRun)
    → r.status ≡ queued
    → IsSound now r
    → IsSound now (restamped running r.error now r)
unfolding restamped times_ok lifecycle_ok new_started new_completed
started-IsSound now r q s =
    let (no_start, no_end, no_error) = queued_fields _ _ _ (lifecycle_at r queued q s.valid) in
    record {
      valid = whole _ (record {
        identity = identity_ok-restamped running r.error now r ∙ (parts r s.valid).identity;
        times = ground arith;
        lifecycle = ground arith;
      });
      created = s.created;
      begun = rw no_start (omega arith);
    }

finished-IsSound :
    (now : ℕ) (r : RiskRun)
    → r.status ≡ running
    → IsSound now r
    → IsSound now (restamped completed none now r)
unfolding restamped times_ok lifecycle_ok new_started new_completed
finished-IsSound now r q s =
    let (start, no_end, no_error) = running_fields _ _ _ (lifecycle_at r running q s.valid) in
    record {
      valid = whole _ (record {
        identity = identity_ok-restamped completed none now r ∙ (parts r s.valid).identity;
        times = ground (arith, s.begun);
        lifecycle = ground arith;
      });
      created = s.created;
      begun = ground (arith, s.begun);
    }

broken-IsSound :
    (now : ℕ) (r : RiskRun) (message : String)
    → r.status ≡ running
    → is_blank message ≡ false
    → IsSound now r
    → IsSound now (restamped failed (some message) now r)
unfolding restamped times_ok lifecycle_ok new_started new_completed
broken-IsSound now r message q f s =
    let (start, no_end, no_error) = running_fields _ _ _ (lifecycle_at r running q s.valid) in
    record {
      valid = whole _ (record {
        identity = identity_ok-restamped failed (some message) now r ∙ (parts r s.valid).identity;
        times = ground (arith, s.begun);
        lifecycle = rw f (ground arith);
      });
      created = s.created;
      begun = ground (arith, s.begun);
    }

bound-IsSound :
    (now : ℕ) (r : RiskRun) (o : Option String)
    → IsSound now r
    → IsSound now (record r { market_snapshot_id = o })
unfolding is_valid identity_ok
bound-IsSound now r o s = record { valid = s.valid; created = s.created; begun = s.begun }

recorded-IsSound :
    (now : ℕ) (r : RiskRun) (refs : List RiskResultRef)
    → IsSound now r
    → IsSound now (record r { result_refs = refs })
unfolding is_valid identity_ok
recorded-IsSound now r refs s = record { valid = s.valid; created = s.created; begun = s.begun }

-- Every stored run is sound at the next reading of the clock.
abbrev pub AllSound : (ℕ → ℕ) → RiskRunRepo → Type 0
AllSound clock s =
    (k : String) (r : RiskRun) → Dict.get k s.runs ≡ some r → IsSound (clock s.reads) r

put-IsSound :
    (now : ℕ) (j : String) (new : RiskRun) (d : Dict.Dict RiskRun)
    → ((k : String) (r : RiskRun) → Dict.get k d ≡ some r → IsSound now r)
    → IsSound now new
    → (k : String) (r : RiskRun) → Dict.get k (Dict.put j new d) ≡ some r
    → IsSound now r
put-IsSound now j new d all sound k r e = elim (Bool-cases (j == k)) [
  | inl same ↦ let e' : new ≡ r = ground (arith, get-put j k new d) in subst (IsSound now) e' sound
  | inr other ↦ all k r (sym (get-put_ne j k new d other) ∙ e)
]

module _ (clock : ℕ → ℕ) (forth : (n : ℕ) → clock n ≤ clock (n + 1)) where
  pub Step-AllSound : {s t : RiskRunRepo} → Step clock s t → AllSound clock s → AllSound clock t
  Step-AllSound (ticked s) all k r e = later (forth s.reads) (all k r e)
  Step-AllSound (enqueued s spec new good) all k r e = later (forth s.reads) (
      put-IsSound (clock s.reads) spec.run_id _ s.runs all
        (record { valid = good; created = le_refl _; begun = tt }) k r e)
  Step-AllSound (started s j row found q) all k r e =
      let at_row = started-IsSound (clock s.reads) row q (all j row found) in
      later (forth s.reads) (put-IsSound (clock s.reads) j _ s.runs all at_row k r e)
  Step-AllSound (finished s j row found q) all k r e =
      let at_row = finished-IsSound (clock s.reads) row q (all j row found) in
      later (forth s.reads) (put-IsSound (clock s.reads) j _ s.runs all at_row k r e)
  Step-AllSound (broken s j row m found q f) all k r e =
      let at_row = broken-IsSound (clock s.reads) row m q f (all j row found) in
      later (forth s.reads) (put-IsSound (clock s.reads) j _ s.runs all at_row k r e)
  Step-AllSound (bound s j row snap found u f) all k r e =
      put-IsSound (clock s.reads) j _ s.runs all (bound-IsSound _ row (some snap) (all j row found))
        k r e
  Step-AllSound (recorded s j row t p found q) all k r e =
      put-IsSound (clock s.reads) j _ s.runs all (recorded-IsSound _ row _ (all j row found)) k r e

  pub Steps-AllSound : {s t : RiskRunRepo} → Steps clock s t → AllSound clock s → AllSound clock t
  Steps-AllSound here all = all
  Steps-AllSound (next p x) all = Step-AllSound x (Steps-AllSound p all)
