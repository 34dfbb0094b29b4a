-- ===== src/Lru/Recency.antt =====
-- The keys of a bounded cache and the order of their last use.
use quantlineage.Prelude.{
  ℕ, suc, ◌≤◌, String, ◌≡◌, refl, inl, inr, Bool, true, false, none, List, [], ◌∷◌, ◌++◌, arith, ap,
  ◌==◌, eq_iff, length, if◌then◌else◌, Bool-cases, is_some,
}
use quantlineage.Prelude.Dict
use quantlineage.Prelude.Dict.{Dict}
use quantlineage.Lru.{evict}

-- list(d.keys())
abbrev pub keys : {V : Type 0} → Dict V → List String
keys [] = []
keys ((k, v) ∷ d) = k ∷ keys d

-- The list without the key's first occurrence.
abbrev pub without : String → List String → List String
without k [] = []
without k (j ∷ l) = if j == k then l else j ∷ without k l

-- Using a key moves it to the end: the keys in the order of their last use, with no bound.
abbrev pub use_key : List String → String → List String
use_key l k = without k l ++ k ∷ []

unfoldable pub last_used : List String → List String → List String
last_used l [] = l
last_used l (k ∷ ks) = last_used (use_key l k) ks

abbrev pub mem : String → List String → Bool
mem k [] = false
mem k (j ∷ l) = if j == k then true else mem k l

-- No key stands twice.
abbrev pub Unique : List String → Type 0
Unique [] = Unit
Unique (k ∷ l) = (mem k l ≡ false) × Unique l

pub without-append_left :
    (k : String) (xs ys : List String) → mem k xs ≡ true → without k (xs ++ ys) ≡ without k xs ++ ys
without-append_left k [] ys h = cc
without-append_left k (x ∷ xs) ys h = ground (arith, without-append_left k xs ys)

pub without-append_right :
    (k : String) (xs ys : List String)
    → mem k xs ≡ false
    → without k (xs ++ ys) ≡ xs ++ without k ys
without-append_right k [] ys h = refl
without-append_right k (x ∷ xs) ys h = ground (arith, without-append_right k xs ys)

pub without_absent : (k : String) (xs : List String) → mem k xs ≡ false → without k xs ≡ xs
without_absent k [] h = refl
without_absent k (x ∷ xs) h = ground (arith, without_absent k xs)

pub mem-append :
    (k : String) (xs ys : List String) → mem k (xs ++ ys) ≡ (if mem k xs then true else mem k ys)
mem-append k [] ys = refl
mem-append k (x ∷ xs) ys = ground (arith, mem-append k xs ys)

-- In a list without repetition a key of the right part is not in the left one.
pub mem_left :
    (k : String) (xs ys : List String) → Unique (xs ++ ys) → mem k ys ≡ true → mem k xs ≡ false
mem_left k [] ys u h = refl
mem_left k (x ∷ xs) ys u h = ground (arith, mem_left k xs ys u.1, mem-append x xs ys, eq_iff x k)

mem-without :
    (k j : String) (l : List String)
    → Unique l
    → mem j (without k l) ≡ (if k == j then false else mem j l)
mem-without k j [] u = ground arith
mem-without k j (x ∷ l) u =
    ground (arith, mem-without k j l u.1, eq_iff x k, eq_iff k j, eq_iff x j)

Unique-without : (k : String) (l : List String) → Unique l → Unique (without k l)
Unique-without k [] u = tt
Unique-without k (x ∷ l) u =
    ground (arith, Unique-without k l u.1, mem-without k x l u.1, eq_iff k x)

Unique-snoc : (k : String) (l : List String) → Unique l → mem k l ≡ false → Unique (l ++ k ∷ [])
Unique-snoc k [] u h = (refl, tt)
Unique-snoc k (x ∷ l) u h =
    ground (arith, Unique-snoc k l u.1, mem-append x l (k ∷ []), eq_iff x k, eq_iff k x)

pub Unique-use_key : (k : String) (l : List String) → Unique l → Unique (use_key l k)
Unique-use_key k l u =
    Unique-snoc k (without k l) (Unique-without k l u)
      (ground (arith, mem-without k k l u, eq_iff k k))

pub length-without :
    (k : String) (l : List String) → mem k l ≡ true → suc (length (without k l)) ≡ length l
length-without k [] h = cc
length-without k (x ∷ l) h = ground (arith, length-without k l)

pub without_before :
    (k : String) (xs ys : List String)
    → mem k ys ≡ false
    → without k (xs ++ ys) ≡ without k xs ++ ys
without_before k xs ys h = elim (Bool-cases (mem k xs)) [
  | inl there ↦ without-append_left k xs ys there
  | inr absent ↦
      rw (without-append_right k xs ys absent)
        (rw (without_absent k ys h, without_absent k xs absent))
]

module _ {V : Type 0} where
  pub keys-append : (d e : Dict V) → keys (d ++ e) ≡ keys d ++ keys e
  keys-append [] e = refl
  keys-append ((k, v) ∷ d) e = ap (λ l. k ∷ l) (keys-append d e)

  pub keys-remove : (k : String) (d : Dict V) → keys (Dict.remove k d) ≡ without k (keys d)
  unfolding Dict.remove
  keys-remove k [] = refl
  keys-remove k ((j, v) ∷ d) = ground (arith, keys-remove k d)

  pub mem-keys : (k : String) (d : Dict V) → mem k (keys d) ≡ is_some (Dict.get k d)
  unfolding Dict.get
  mem-keys k [] = refl
  mem-keys k ((j, v) ∷ d) = ground (arith, mem-keys k d)

  pub remove_last :
      (k : String) (v : V) (d : Dict V) → Dict.get k d ≡ none → Dict.remove k (d ++ (k, v) ∷ []) ≡ d
  unfolding Dict.get Dict.remove
  remove_last k v [] h = ground (arith, eq_iff k k)
  remove_last k v ((j, w) ∷ d) h = ground (arith, remove_last k v d)

  pub length-keys : (d : Dict V) → length (keys d) ≡ length d
  length-keys [] = refl
  length-keys ((k, v) ∷ d) = ap suc (length-keys d)

  pub evict_fits : (m : ℕ) (d : Dict V) → length d ≤ m → evict m d ≡ d
  unfolding evict
  evict_fits m [] h = refl
  evict_fits m (e ∷ d) h = ground arith

  -- One entry too many: the oldest goes.
  pub evict_one :
      (m : ℕ) (d : Dict V)
      → length d ≡ suc m
      → (k : String) × (keys d ≡ k ∷ keys (evict m d)) × (length (evict m d) ≡ m)
  unfolding evict
  evict_one m [] h = absurd (omega (arith, h))
  evict_one m ((k, v) ∷ d) h = (k, ground (arith, evict_fits m d), ground (arith, evict_fits m d))
