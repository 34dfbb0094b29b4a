-- ===== src/Prelude/Text.antt =====
-- Texts: `str.strip`, and the order by code points that Python sorts texts by.
use Prim.Native.Char.{Char, code}
use Prim.Native.Nat.{ℕ, suc}
use Prim.Native.String.append
use Prim.Native.String.{String, ◌++◌}
use mathlib.Core.Path.{◌≡◌, refl}
use mathlib.Core.Logic.{inl, inr}
use mathlib.Core.Bool.{Bool, true, false, ◌&&◌, ◌||◌}
use mathlib.Core.List.{List, [], ◌∷◌}
use native.Mathlib.Omega.{arith}
use quantlineage.Prelude.Sort.{IsOrder}
use quantlineage.Prelude.Tests.{leb, ltb, eqb, if◌then◌else◌, Bool-cases}

-- The characters that `str.isspace` accepts.
unfoldable pub is_space : ℕ → Bool
is_space c =
    (leb 9 c && leb c 13)
    || (leb 28 c && leb c 32)
    || eqb c 0x85
    || eqb c 0xa0
    || eqb c 0x1680
    || (leb 0x2000 c && leb c 0x200a)
    || (leb 0x2028 c && leb c 0x2029)
    || eqb c 0x202f
    || eqb c 0x205f
    || eqb c 0x3000

unfoldable pub lstrip : String → String
lstrip String.[] = String.[]
lstrip (String.◌∷◌ c s) = if is_space (code c) then lstrip s else String.◌∷◌ c s

abbrev pub is_empty : String → Bool
is_empty String.[] = true
is_empty (String.◌∷◌ _ _) = false

unfoldable pub rstrip : String → String
rstrip String.[] = String.[]
rstrip (String.◌∷◌ c s) =
    let r = rstrip s in if is_space (code c) && is_empty r then String.[] else String.◌∷◌ c r

unfoldable pub strip : String → String
unfolding lstrip rstrip is_space
strip s = rstrip (lstrip s)

-- `not s.strip()`
abbrev pub is_blank : String → Bool
is_blank s = is_empty (strip s)

-- Stripping what has no blanks at its ends changes nothing.
rstrip-rstrip : (s : String) → rstrip (rstrip s) ≡ rstrip s
unfolding rstrip
rstrip-rstrip String.[] = refl
rstrip-rstrip (String.◌∷◌ c s) = elim (Bool-cases (is_space (code c) && is_empty (rstrip s))) [
  | inl b ↦ rw b
  | inr b ↦ rw (b, rstrip) (rw (rstrip-rstrip s, b))
]

data Kept : String → Type 0 where
  none_left : Kept String.[]
  some_left : (c : Char) (s : String) → is_space (code c) ≡ false → Kept (String.◌∷◌ c s)

lstrip-Kept : (s : String) → Kept (lstrip s)
unfolding lstrip
lstrip-Kept String.[] = none_left
lstrip-Kept (String.◌∷◌ c s) = elim (Bool-cases (is_space (code c))) [
  | inl b ↦ rw b (lstrip-Kept s)
  | inr b ↦ rw b (some_left c s b)
]

lstrip-rstrip : {s : String} → Kept s → lstrip (rstrip s) ≡ rstrip s
unfolding lstrip rstrip
lstrip-rstrip none_left = refl
lstrip-rstrip (some_left c s h) = rw (h, h)

pub strip-strip : (s : String) → strip (strip s) ≡ strip s
unfolding strip
strip-strip s = rw (lstrip-rstrip (lstrip-Kept s)) (rstrip-rstrip (lstrip s))

pub filled_strip : (s : String) → is_empty (strip s) ≡ false → is_blank (strip s) ≡ false
filled_strip s h = rw strip-strip h

-- `s + t`
abbrev pub concat : String → String → String
concat s t = s ++ t

pub fills_append :
    (c : Char) (s t : String)
    → is_space (code c) ≡ false
    → is_blank (concat (String.◌∷◌ c s) t) ≡ false
unfolding strip lstrip rstrip
fills_append c s t h = rw (append.cons c s t, h, h) refl

-- `text.startswith(prefix)`, and `part in text`.
unfoldable pub starts_with : String → String → Bool
starts_with String.[] s = true
starts_with (String.◌∷◌ c p) String.[] = false
starts_with (String.◌∷◌ c p) (String.◌∷◌ d s) = eqb (code c) (code d) && starts_with p s

unfoldable pub is_in : String → String → Bool
is_in part String.[] = is_empty part
is_in part (String.◌∷◌ c s) = starts_with part (String.◌∷◌ c s) || is_in part s

abbrev pub text_length : String → ℕ
text_length String.[] = 0
text_length (String.◌∷◌ c s) = suc (text_length s)

-- Every run of blanks becomes one space: `" ".join(s.split())` for a stripped text.
unfoldable pub joined_words : String → String
joined_words String.[] = String.[]
joined_words (String.◌∷◌ c s) =
    let rest = joined_words s in
    if is_space (code c)
    then (if starts_with " " rest then rest else " " ++ rest)
    else String.◌∷◌ c rest

-- The order of `sorted` on texts.
abbrev pub codes : String → List ℕ
codes String.[] = []
codes (String.◌∷◌ c s) = code c ∷ codes s

abbrev pub le_codes : List ℕ → List ℕ → Bool
le_codes [] ys = true
le_codes (x ∷ xs) [] = false
le_codes (x ∷ xs) (y ∷ ys) = ltb x y || (eqb x y && le_codes xs ys)

unfoldable pub le_text : String → String → Bool
le_text s t = le_codes (codes s) (codes t)

le_codes_total : (xs ys : List ℕ) → le_codes xs ys ≡ false → le_codes ys xs ≡ true
le_codes_total [] ys h = cc
le_codes_total (x ∷ xs) [] h = refl
le_codes_total (x ∷ xs) (y ∷ ys) h = ground (arith, le_codes_total xs ys)

le_codes_trans :
    (xs ys zs : List ℕ) → le_codes xs ys ≡ true → le_codes ys zs ≡ true → le_codes xs zs ≡ true
le_codes_trans [] ys zs h k = refl
le_codes_trans (x ∷ xs) [] zs h k = cc
le_codes_trans (x ∷ xs) (y ∷ ys) [] h k = cc
le_codes_trans (x ∷ xs) (y ∷ ys) (z ∷ zs) h k = ground (arith, le_codes_trans xs ys zs)

pub le_text-IsOrder : IsOrder le_text
unfolding le_text
le_text-IsOrder = record {
  total = λ s t. le_codes_total (codes s) (codes t);
  trans = λ s t u. le_codes_trans (codes s) (codes t) (codes u);
}
