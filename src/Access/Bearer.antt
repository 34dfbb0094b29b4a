-- ===== src/Access/Bearer.antt =====
-- The configured principals and the bearer token of a request (backend/app/api/auth.py).
use quantlineage.Prelude.{
  String, Bool, false, not, ◌||◌, ◌==◌, eqb, Option, none, some, List, [], ◌∷◌, ◌++◌, if◌then◌else◌,
}
use Prim.Native.Char.{code}
use quantlineage.Prelude.Text.{strip, lstrip, is_space, is_empty, is_in, text_length}
use quantlineage.Prelude.Call.{Result, ok, bind_result}
use quantlineage.Wire.Payload.{member}
use quantlineage.Access.{Python, Environ, env_or, before_mark, after_mark, colon, comma}

abbrev pub Pair : Type 0
Pair = String × String

abbrev pub tokens_of : List Pair → List String
tokens_of [] = []
tokens_of ((_, token) ∷ pairs) = token ∷ tokens_of pairs

-- `raw.split(",")`: the first part, and the rest.
abbrev pub with_char : (String → String) → List String → List String
with_char f [] = f "" ∷ []
with_char f (s ∷ rest) = f s ∷ rest

unfoldable pub split_commas : String → List String
split_commas String.[] = "" ∷ []
split_commas (String.◌∷◌ c s) =
    let rest = split_commas s in
    if eqb (code c) comma then "" ∷ rest else with_char (λ t. String.◌∷◌ c t) rest

abbrev pub non_empty : String → Option String
non_empty s = if is_empty s then none else some s

unfoldable pub api_token : Environ → Option String
api_token environ = elim (environ "QUANTLINEAGE_API_TOKEN") [
  | none ↦ none
  | some raw ↦ non_empty (strip raw)
]

-- The pair of one part, where both of its sides are filled.
unfoldable pub pair_of : String → Option Pair
pair_of part =
    let item = strip part in
    if is_empty item || not (is_in ":" item)
    then none
    else let name = strip (before_mark colon item) in
      let token = strip (after_mark colon item) in
      if is_empty name || is_empty token then none else some (name, token)

-- `if … token not in seen_tokens`. The seen tokens are those of the pairs so far.
unfoldable pub add_pair : List Pair → Option Pair → List Pair
add_pair pairs none = pairs
add_pair pairs (some (name, token)) =
    if member token (tokens_of pairs) then pairs else pairs ++ (name, token) ∷ []

unfoldable pub mapped_pairs : List Pair → List String → List Pair
mapped_pairs pairs [] = pairs
mapped_pairs pairs (part ∷ parts) = mapped_pairs (add_pair pairs (pair_of part)) parts

abbrev pub default_principal : String
default_principal = "shared"

abbrev pub or_default : String → String
or_default s = if is_empty s then default_principal else s

abbrev pub single_pair : Environ → Option Pair
single_pair environ = elim (api_token environ) [
  | none ↦ none
  | some single ↦
      some
        (or_default (strip (env_or environ "QUANTLINEAGE_API_PRINCIPAL" default_principal)), single)
]

unfoldable pub configured_principals : Environ → List Pair
configured_principals environ =
    add_pair (mapped_pairs [] (split_commas (env_or environ "QUANTLINEAGE_API_TOKENS" "")))
      (single_pair environ)

unfoldable pub token_matches : Python → String → String → Result Bool
token_matches py presented expected =
    if not (eqb (text_length presented) (text_length expected))
    then ok false
    else py.compare_digest presented expected

-- `header.split(None, 1)` of a text without blanks at its start.
unfoldable pub first_word : String → String
first_word String.[] = String.[]
first_word (String.◌∷◌ c s) =
    let rest = first_word s in if is_space (code c) then String.[] else String.◌∷◌ c rest

unfoldable pub after_word : String → String
after_word String.[] = String.[]
after_word (String.◌∷◌ c s) = if is_space (code c) then lstrip (String.◌∷◌ c s) else after_word s

unfoldable pub extract_bearer : Python → Option String → Option String
extract_bearer py none = none
extract_bearer py (some header) =
    let s = lstrip header in
    let rest = after_word s in
    if is_empty rest || not (py.lower (first_word s) == "bearer")
    then none
    else non_empty (strip rest)

unfoldable pub principal_among : Python → String → List Pair → Result (Option String)
principal_among py presented [] = ok none
principal_among py presented ((name, token) ∷ pairs) =
    let later = principal_among py presented pairs in
    bind_result (token_matches py presented token)
      (λ matches. if matches then ok (some name) else later)

unfoldable pub principal_for_bearer : Python → Environ → Option String → Result (Option String)
principal_for_bearer py environ header = elim (extract_bearer py header) [
  | none ↦ ok none
  | some presented ↦ principal_among py presented (configured_principals environ)
]
