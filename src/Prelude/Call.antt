-- ===== src/Prelude/Call.antt =====
-- A Python method: explicit state, and an exception as a value. The state comes back after a raise
-- too, since what was written before it stays written.
use mathlib.Core.Path.{◌≡◌, refl, ap}
use mathlib.Core.Logic.{◌⊎◌, inl, inr}
use mathlib.Core.Bool.{Bool, true, false}
use Prim.Native.String.{String}

-- The exceptions of the modelled code, by class. A message is not modelled.
pub data Fault : Type 0 where
  value_error : Fault
  key_error : String → Fault
  type_error : Fault
  attribute_error : Fault
  run_not_found : String → Fault
  invalid_transition : String → Fault
  portfolio_exists : String → Fault
  portfolio_not_found : String → Fault
  version_conflict : String → Fault
  access_denied : String → Fault
  foreign : Fault

pub data Result {ℓ} (A : Type ℓ) : Type ℓ where
  ok : A → Result A
  err : Fault → Result A

abbrev pub bind_result {ℓ κ} : {A : Type ℓ} {B : Type κ} → Result A → (A → Result B) → Result B
bind_result (ok a) f = f a
bind_result (err e) f = err e

abbrev pub Call : Type 0 → Type 0 → Type 0
Call S A = S → Result A × S

module _ {S A : Type 0} where
  abbrev pub pure : A → Call S A
  pure a s = (ok a, s)

  abbrev pub raise : Fault → Call S A
  raise e s = (err e, s)

  abbrev pub lift : Result A → Call S A
  lift r s = (r, s)

  abbrev pub gets : (S → A) → Call S A
  gets f s = (ok (f s), s)

abbrev pub raise_if : {S : Type 0} → Bool → Fault → Call S (Unit {0})
raise_if true e s = (err e, s)
raise_if false e s = (ok tt, s)

infixl 5 ◌>>=◌ ◌>>◌
abbrev pub ◌>>=◌ : {S A B : Type 0} → Call S A → (A → Call S B) → Call S B
◌>>=◌ m f s = let (r, s') = m s in elim r [ ok a ↦ f a s' | err e ↦ (err e, s') ]

abbrev pub ◌>>◌ : {S A B : Type 0} → Call S A → Call S B → Call S B
m >> k = m >>= λ _. k

pub Result-cases {ℓ} :
    {A : Type ℓ} (r : Result A) → ((a : A) × (r ≡ ok a)) ⊎ ((e : Fault) × (r ≡ err e))
Result-cases (ok a) = inl (a, refl)
Result-cases (err e) = inr (e, refl)

pub ok_inj {ℓ} : {A : Type ℓ} {a b : A} → ◌≡◌ {A = Result A} (ok a) (ok b) → a ≡ b
ok_inj h = cc h

-- A chain that returns: both of its parts return.
pub bind_result-ok {ℓ κ} :
    {A : Type ℓ} {B : Type κ} (r : Result A) (f : A → Result B) (b : B)
    → bind_result r f ≡ ok b
    → (a : A) × (r ≡ ok a) × (f a ≡ ok b)
bind_result-ok (ok a) f b h = (a, refl, h)
bind_result-ok (err e) f b h = cc h

chained_ok :
    {S A B : Type 0} (f : A → Call S B) (b : B) (u t : S) (r : Result A)
    → elim r [ ok a ↦ f a u | err e ↦ (err e, u) ] ≡ (ok b, t)
    → (a : A) × (r ≡ ok a) × (f a u ≡ (ok b, t))
chained_ok f b u t (ok a) h = (a, refl, h)
chained_ok f b u t (err e) h = cc (ap (λ p. p.0) h)

pub bind-ok :
    {S A B : Type 0} (m : Call S A) (f : A → Call S B) (b : B) (s t : S)
    → (m >>= f) s ≡ (ok b, t)
    → (a : A) × (u : S) × (m s ≡ (ok a, u)) × (f a u ≡ (ok b, t))
bind-ok m f b s t h =
    let (a, e, k) = chained_ok f b (m s).1 t (m s).0 h in (a, (m s).1, λ i. (e i, (m s).1), k)
