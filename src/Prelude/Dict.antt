-- ===== src/Prelude/Dict.antt =====
-- A Python `dict` with text keys: entries in insertion order, and a write to a present key keeps
-- its place. `move_to_end` and `popitem(last=False)` are those of `OrderedDict`.
use Prim.Native.String.{String}
use mathlib.Core.Path.{◌≡◌, refl, subst, sym}
use mathlib.Core.Logic.{inl, inr}
use mathlib.Core.Bool.{Bool, false}
use mathlib.Core.Option.{Option, none, some}
use mathlib.Core.List.{List, [], ◌∷◌, ◌++◌}
use native.Mathlib.Omega.{arith}
use text.Mathlib.Text.{◌==◌}
use text.Mathlib.TextEquality.{eq_iff}
use text.Mathlib.TextPositions.{eq_refl}
use quantlineage.Prelude.Tests.{if◌then◌else◌, is_some, Bool-cases}
use quantlineage.Prelude.Lists.{All}

abbrev pub Dict {ℓ} : Type ℓ → Type ℓ
Dict V = List (String × V)

module _ {ℓ} {V : Type ℓ} where
  -- d.get(k)
  unfoldable pub get : String → Dict V → Option V
  get k [] = none
  get k ((j, v) ∷ d) = if j == k then some v else get k d

  -- d[k] = v
  unfoldable pub put : String → V → Dict V → Dict V
  put k v [] = (k, v) ∷ []
  put k v ((j, w) ∷ d) = if j == k then (j, v) ∷ d else (j, w) ∷ put k v d

  -- del d[k]
  unfoldable pub remove : String → Dict V → Dict V
  remove k [] = []
  remove k ((j, v) ∷ d) = if j == k then d else (j, v) ∷ remove k d

  -- k in d
  abbrev pub contains : String → Dict V → Bool
  contains k d = is_some (get k d)

  -- list(d.values())
  unfoldable pub values : Dict V → List V
  values [] = []
  values ((k, v) ∷ d) = v ∷ values d

  -- No key stands twice: what a `dict` keeps by itself, and an entry list must be shown to keep.
  abbrev pub Distinct : Dict V → Type ℓ
  Distinct [] = Unit
  Distinct ((k, v) ∷ d) = (get k d ≡ none) × Distinct d

module _ {ℓ} {V : Type ℓ} where
  pub get-put :
      (k j : String) (v : V) (d : Dict V) → get j (put k v d) ≡ (if k == j then some v else get j d)
  unfolding get put
  get-put k j v [] = refl
  get-put k j v ((i, w) ∷ d) = ground (arith, eq_iff k j, eq_iff i k, eq_iff i j, get-put k j v d)

  pub get-put_ne :
      (k j : String) (v : V) (d : Dict V) → (k == j) ≡ false → get j (put k v d) ≡ get j d
  get-put_ne k j v d h = rw get-put (rw h)

  pub get-put_self : (k : String) (v : V) (d : Dict V) → get k (put k v d) ≡ some v
  get-put_self k v d = rw (get-put, eq_refl)

  pub Distinct-put : (k : String) (v : V) (d : Dict V) → Distinct d → Distinct (put k v d)
  unfolding get put
  Distinct-put k v [] h = (refl, tt)
  Distinct-put k v ((i, w) ∷ d) h =
      ground (arith, eq_iff i k, eq_iff k i, get-put k i v d, Distinct-put k v d h.1)

  pub get-remove :
      (k j : String) (d : Dict V)
      → Distinct d
      → get j (remove k d) ≡ (if k == j then none else get j d)
  unfolding get remove
  get-remove k j [] h = ground arith
  get-remove k j ((i, w) ∷ d) h =
      ground (arith, eq_iff k j, eq_iff i k, eq_iff i j, get-remove k j d h.1)

  pub Distinct-remove : (k : String) (d : Dict V) → Distinct d → Distinct (remove k d)
  unfolding remove
  Distinct-remove k [] h = tt
  Distinct-remove k ((i, w) ∷ d) h =
      ground (arith, eq_iff k i, get-remove k i d h.1, Distinct-remove k d h.1)

  pub get_new : (k : String) (v : V) (d : Dict V) → get k d ≡ none → put k v d ≡ d ++ (k, v) ∷ []
  unfolding get put
  get_new k v [] h = refl
  get_new k v ((i, w) ∷ d) h = ground (arith, get_new k v d)

  -- Over a dict whose keys are distinct, the values and the entries that `get` finds agree.
  pub get-tail :
      (k j : String) (v w : V) (d : Dict V)
      → get k d ≡ none
      → get j d ≡ some w
      → get j ((k, v) ∷ d) ≡ some w
  unfolding get
  get-tail k j v w d new h = ground (arith, eq_iff k j)

  pub All-values {κ} :
      (P : V → Type κ) (d : Dict V)
      → Distinct d
      → ((k : String) (v : V) → get k d ≡ some v → P v)
      → All P (values d)
  unfolding values
  All-values P [] h all = tt
  All-values P ((k, v) ∷ d) h all = (
    all k v (unfold get in ground (arith, eq_iff k k)),
    All-values P d h.1 (λ j w e. all j w (get-tail k j v w d h.0 e)),
  )

  pub All-get {κ} :
      (P : V → Type κ) (d : Dict V) (k : String) (v : V) → All P (values d) → get k d ≡ some v → P v
  unfolding values get
  All-get P [] k v h e = cc
  All-get P ((j, w) ∷ d) k v h e = elim (Bool-cases (j == k)) [
    | inl same ↦ let e' : w ≡ v = ground arith in subst P e' h.0
    | inr other ↦ All-get P d k v h.1 (rw other at e)
  ]

-- A property of each entry.
module _ {ℓ κ} {V : Type ℓ} (P : String × V → Type κ) where
  pub All-remove : (k : String) (d : Dict V) → All P d → All P (remove k d)
  unfolding remove
  All-remove k [] h = tt
  All-remove k ((j, v) ∷ d) h = elim (Bool-cases (j == k)) [
    | inl e ↦ rw e h.1
    | inr e ↦ rw e (h.0, All-remove k d h.1)
  ]

  pub All-put : (k : String) (v : V) (d : Dict V) → P (k, v) → All P d → All P (put k v d)
  unfolding put
  All-put k v [] p h = (p, tt)
  All-put k v ((j, w) ∷ d) p h = elim (Bool-cases (j == k)) [
    | inl same ↦ rw same (subst (λ x. P (x, v)) (sym ((eq_iff j k).0 same)) p, h.1)
    | inr other ↦ rw other (h.0, All-put k v d p h.1)
  ]

  -- An entry that is found is an entry.
  pub All-found : (k : String) (v : V) (d : Dict V) → All P d → get k d ≡ some v → P (k, v)
  unfolding get
  All-found k v [] h e = cc
  All-found k v ((j, w) ∷ d) h e = elim (Bool-cases (j == k)) [
    | inl same ↦
        let at_k : j ≡ k = (eq_iff j k).0 same in
        let at_v : w ≡ v = ground arith in
        subst (λ x. P (x, v)) at_k (subst (λ x. P (j, x)) at_v h.0)
    | inr other ↦ All-found k v d h.1 (rw other at e)
  ]
