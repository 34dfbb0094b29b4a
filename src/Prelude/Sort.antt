-- ===== src/Prelude/Sort.antt =====
-- `sorted` and `list.sort`: a stable insertion sort by a total preorder.
use Prim.Native.Nat.{suc}
use mathlib.Core.Path.{◌≡◌, refl}
use mathlib.Core.Logic.{inl, inr}
use mathlib.Core.Bool.{Bool, true, false}
use mathlib.Core.List.{List, [], ◌∷◌}
use native.Mathlib.Omega.{arith}
use quantlineage.Prelude.Tests.{if◌then◌else◌, Bool-cases}
use quantlineage.Prelude.Lists.{length, All, All-map, Each}

module _ {ℓ} {A : Type ℓ} (le : A → A → Bool) where
  unfoldable pub insert_by : A → List A → List A
  insert_by x [] = x ∷ []
  insert_by x (y ∷ ys) = if le x y then x ∷ y ∷ ys else y ∷ insert_by x ys

  unfoldable pub sort_by : List A → List A
  unfolding insert_by
  sort_by [] = []
  sort_by (x ∷ xs) = insert_by x (sort_by xs)

  -- Every element may stand before all that follow it.
  abbrev pub IsSorted : List A → Type 0
  IsSorted [] = Unit
  IsSorted (x ∷ xs) = All (λ y. le x y ≡ true) xs × IsSorted xs

module _ {ℓ} {A : Type ℓ} (le : A → A → Bool) where
  pub All-insert_by {κ} :
      (P : A → Type κ) (x : A) (xs : List A) → P x → All P xs → All P (insert_by le x xs)
  unfolding insert_by
  All-insert_by P x [] p h = (p, tt)
  All-insert_by P x (y ∷ ys) p h = elim (Bool-cases (le x y)) [
    | inl e ↦ rw e (p, h)
    | inr e ↦ rw e (h.0, All-insert_by P x ys p h.1)
  ]

  pub All-sort_by {κ} : (P : A → Type κ) (xs : List A) → All P xs → All P (sort_by le xs)
  unfolding sort_by
  All-sort_by P [] h = tt
  All-sort_by P (x ∷ xs) h = All-insert_by P x (sort_by le xs) h.0 (All-sort_by P xs h.1)

  pub length-sort_by : (xs : List A) → length (sort_by le xs) ≡ length xs
  unfolding sort_by
  length-sort_by [] = refl
  length-sort_by (x ∷ xs) = omega (arith, insert_length (sort_by le xs), length-sort_by xs)
    where
      insert_length : (ys : List A) → length (insert_by le x ys) ≡ suc (length ys)
      insert_length [] = refl
      insert_length (y ∷ ys) = ground (arith, insert_length ys)

module _ {ℓ κ} {A : Type ℓ} (le : A → A → Bool) (P : A → Type κ) where
  All-of-insert_by : (x : A) (xs : List A) → All P (insert_by le x xs) → P x × All P xs
  unfolding insert_by
  All-of-insert_by x [] h = h
  All-of-insert_by x (y ∷ ys) h = elim (Bool-cases (le x y)) [
    | inl b ↦ rw b at h
    | inr b ↦
        let h' : P y × All P (insert_by le x ys) = rw b at h in
        let r = All-of-insert_by x ys h'.1 in (r.0, (h'.0, r.1))
  ]

  -- What holds of the sorted list holds of the list.
  pub All-of-sort_by : (xs : List A) → All P (sort_by le xs) → All P xs
  unfolding sort_by
  All-of-sort_by [] h = tt
  All-of-sort_by (x ∷ xs) h =
      let r = All-of-insert_by x (sort_by le xs) h in (r.0, All-of-sort_by xs r.1)

-- Sorting keeps a symmetric relation between all elements.
module _ {ℓ κ} {A : Type ℓ} (le : A → A → Bool) (R : A → A → Type κ)
    (flip : (x y : A) → R x y → R y x) where
  Each-insert_by : (x : A) (xs : List A) → All (R x) xs → Each R xs → Each R (insert_by le x xs)
  unfolding insert_by
  Each-insert_by x [] h e = (tt, tt)
  Each-insert_by x (y ∷ ys) h e = elim (Bool-cases (le x y)) [
    | inl b ↦ rw b (h, e)
    | inr b ↦ rw b (All-insert_by le (R y) x ys (flip x y h.0) e.0, Each-insert_by x ys h.1 e.1)
  ]

  pub Each-sort_by : (xs : List A) → Each R xs → Each R (sort_by le xs)
  unfolding sort_by
  Each-sort_by [] e = tt
  Each-sort_by (x ∷ xs) e =
      Each-insert_by x (sort_by le xs) (All-sort_by le (R x) xs e.0) (Each-sort_by xs e.1)

-- What `sort_by` needs of the order.
pub record IsOrder {ℓ} {A : Type ℓ} (le : A → A → Bool) : Type ℓ where
  pub total : (x y : A) → le x y ≡ false → le y x ≡ true
  pub trans : (x y z : A) → le x y ≡ true → le y z ≡ true → le x z ≡ true

module _ {ℓ} {A : Type ℓ} (le : A → A → Bool) (o : IsOrder le) where
  insert_by-IsSorted : (x : A) (xs : List A) → IsSorted le xs → IsSorted le (insert_by le x xs)
  unfolding insert_by
  insert_by-IsSorted x [] h = (tt, tt)
  insert_by-IsSorted x (y ∷ ys) h = elim (Bool-cases (le x y)) [
    | inl e ↦ rw e ((e, All-map (λ z q. o.trans x y z e q) ys h.0), h)
    | inr e ↦ rw e (
      All-insert_by le (λ z. le y z ≡ true) x ys (o.total x y e) h.0,
      insert_by-IsSorted x ys h.1,
    )
  ]

  pub sort_by-IsSorted : (xs : List A) → IsSorted le (sort_by le xs)
  unfolding sort_by
  sort_by-IsSorted [] = tt
  sort_by-IsSorted (x ∷ xs) = insert_by-IsSorted x (sort_by le xs) (sort_by-IsSorted xs)
