-- ===== src/Access/Unique.antt =====
-- The configured principals (backend/app/api/auth.py): one principal for a token.
use quantlineage.Prelude.{
  String, true, false, ◌||◌, ◌==◌, Option, none, some, List, [], ◌∷◌, ◌++◌, ◌≡◌, refl, ◌⊎◌, inl,
  inr, arith, eq_iff, Bool-cases, subst, sym, ◌∙◌,
}
use quantlineage.Wire.Payload.{member}
use quantlineage.Access.{Environ}
use quantlineage.Access.Bearer.{
  Pair, tokens_of, add_pair, pair_of, mapped_pairs, single_pair, configured_principals,
}

-- The pair is one of the pairs.
abbrev pub Listed : String → String → List Pair → Type 0
Listed p t [] = ⊥
Listed p t ((name, token) ∷ pairs) = ((name ≡ p) × (token ≡ t)) ⊎ Listed p t pairs

abbrev Unique : List Pair → Type 0
Unique [] = Unit
Unique ((_, token) ∷ pairs) = (member token (tokens_of pairs) ≡ false) × Unique pairs

member-tokens_append :
    (k : String) (pairs : List Pair) (name token : String)
    → member k (tokens_of (pairs ++ (name, token) ∷ []))
      ≡ (member k (tokens_of pairs) || token == k)
member-tokens_append k [] name token = ground arith
member-tokens_append k ((n, t) ∷ pairs) name token =
    ground (arith, member-tokens_append k pairs name token)

Unique-append :
    (pairs : List Pair) (name token : String)
    → Unique pairs
    → member token (tokens_of pairs) ≡ false
    → Unique (pairs ++ (name, token) ∷ [])
Unique-append [] name token u h = (refl, tt)
Unique-append ((n, t) ∷ pairs) name token u h = (
  ground (arith, u.0, eq_iff t token, eq_iff token t, member-tokens_append t pairs name token),
  Unique-append pairs name token u.1 (ground arith),
)

add_pair-Unique : (pairs : List Pair) (o : Option Pair) → Unique pairs → Unique (add_pair pairs o)
unfolding add_pair
add_pair-Unique pairs none u = u
add_pair-Unique pairs (some (name, token)) u = elim (Bool-cases (member token (tokens_of pairs))) [
  | inl seen ↦ rw seen u
  | inr new ↦ rw new (Unique-append pairs name token u new)
]

mapped_pairs-Unique :
    (parts : List String) (pairs : List Pair) → Unique pairs → Unique (mapped_pairs pairs parts)
unfolding mapped_pairs
mapped_pairs-Unique [] pairs u = u
mapped_pairs-Unique (part ∷ parts) pairs u =
    mapped_pairs-Unique parts _ (add_pair-Unique pairs (pair_of part) u)

configured-Unique : (environ : Environ) → Unique (configured_principals environ)
unfolding configured_principals
configured-Unique environ = add_pair-Unique _ (single_pair environ) (mapped_pairs-Unique _ [] tt)

Listed-member :
    (p t : String) (pairs : List Pair) → Listed p t pairs → member t (tokens_of pairs) ≡ true
Listed-member p t [] h = absurd h
Listed-member p t ((name, token) ∷ pairs) (inl same) = ground (arith, same.1, eq_iff token t)
Listed-member p t ((name, token) ∷ pairs) (inr later) =
    ground (arith, Listed-member p t pairs later)

Unique-lem :
    (p q t : String) (pairs : List Pair)
    → Unique pairs
    → Listed p t pairs
    → Listed q t pairs
    → q ≡ p
Unique-lem p q t [] u a b = absurd a
Unique-lem p q t ((name, token) ∷ pairs) u (inl a) (inl b) = sym b.0 ∙ a.0
Unique-lem p q t ((name, token) ∷ pairs) u (inl a) (inr b) =
    let h = Listed-member q t pairs b in
    cc (sym (subst (λ x. member x (tokens_of pairs) ≡ false) a.1 u.0) ∙ h)
Unique-lem p q t ((name, token) ∷ pairs) u (inr a) (inl b) =
    let h = Listed-member p t pairs a in
    cc (sym (subst (λ x. member x (tokens_of pairs) ≡ false) b.1 u.0) ∙ h)
Unique-lem p q t ((name, token) ∷ pairs) u (inr a) (inr b) = Unique-lem p q t pairs u.1 a b

-- No two principals are configured with one token.
pub one_principal :
    (environ : Environ) (p q t : String)
    → Listed p t (configured_principals environ)
    → Listed q t (configured_principals environ)
    → q ≡ p
one_principal environ p q t a b =
    Unique-lem p q t (configured_principals environ) (configured-Unique environ) a b
