-- ===== src/Query/Extract.antt =====
-- What a question names: the `_extract_…` functions of backend/app/risk/query.py.
use quantlineage.Prelude.{
  ℕ, zero, suc, ◌+◌, ◌-◌, String, Bool, ◌&&◌, ◌||◌, leb, eqb, Option, none, some, List, [], ◌∷◌,
  ◌++◌, if◌then◌else◌,
}
use Prim.Native.Char.{code}
use quantlineage.Prelude.Text.{is_in, is_empty, starts_with, text_length, strip, concat}
use quantlineage.Wire.Payload.{member}
use quantlineage.Query.{Language}

-- Each match once, in the order of the first.
abbrev pub distinct : List String → List String → List String
distinct seen [] = seen
distinct seen (x ∷ xs) = if member x seen then distinct seen xs else distinct (seen ++ x ∷ []) xs

unfoldable pub extract_run_ids : Language → String → List String
extract_run_ids py question = distinct [] (py.run_ids question)

unfoldable pub extract_iso_dates : Language → String → List String
extract_iso_dates py question = distinct [] (py.iso_dates question)

abbrev pub instrument_token : Language → List String → List String → List String → Option String
instrument_token py stopwords dates [] = none
instrument_token py stopwords dates (token ∷ rest) =
    let later = instrument_token py stopwords dates rest in
    if member (py.lower token) stopwords || member token dates
    then later
    else if py.is_run_id token
    then later
    else if py.is_alpha token && leb 2 (text_length token) && leb (text_length token) 6
    then some (py.upper token)
    else if is_in ":" token
    then some token
    else later

unfoldable pub extract_instrument_id : Language → List String → String → Option String
extract_instrument_id py stopwords question = elim (py.catalog_ids question) [
  | catalog ∷ _ ↦ some catalog
  | [] ↦ instrument_token py stopwords (extract_iso_dates py question) (py.tokens question)
]

abbrev pub tenor_among : String → List String → Option String
tenor_among upper [] = none
tenor_among upper (tenor ∷ rest) = if is_in tenor upper then some tenor else tenor_among upper rest

unfoldable pub extract_showcase_tenor : Language → String → Option String
extract_showcase_tenor py question = tenor_among (py.upper question) ("10Y" ∷ "5Y" ∷ "2Y" ∷ [])

-- `text[n:]`
unfoldable pub from_index : ℕ → String → String
from_index zero s = s
from_index (suc n) String.[] = String.[]
from_index (suc n) (String.◌∷◌ c s) = from_index n s

-- `text.find(part)` of a part that is not empty, with `none` for -1.
unfoldable pub index_of : String → String → Option ℕ
index_of part String.[] = none
index_of part (String.◌∷◌ c s) =
    let later = index_of part s in
    if starts_with part (String.◌∷◌ c s)
    then some 0
    else elim later [ none ↦ none | some i ↦ some (suc i) ]

-- `text.strip(" ?.")`
abbrev pub is_edge : ℕ → Bool
is_edge c = eqb c 32 || eqb c 63 || eqb c 46

unfoldable pub left_trimmed : String → String
left_trimmed String.[] = String.[]
left_trimmed (String.◌∷◌ c s) = if is_edge (code c) then left_trimmed s else String.◌∷◌ c s

unfoldable pub right_trimmed : String → String
right_trimmed String.[] = String.[]
right_trimmed (String.◌∷◌ c s) =
    let r = right_trimmed s in if is_edge (code c) && is_empty r then String.[] else String.◌∷◌ c r

abbrev pub trimmed : String → String
trimmed s = right_trimmed (left_trimmed s)

abbrev pub search_prefixes : List String
search_prefixes =
    "search instruments for" ∷ "search instrument" ∷ "search for" ∷ "find instrument" ∷ "look up"
    ∷ "lookup" ∷ "search" ∷ []

abbrev pub slice_start : Option ℕ → ℕ → ℕ
slice_start none n = n - 1
slice_start (some i) n = i + n

abbrev pub after_prefix : String → String → List String → Option String
after_prefix original lowered [] = none
after_prefix original lowered (p ∷ ps) =
    if starts_with p lowered || is_in (concat " " (concat p " ")) (concat " " (concat lowered " "))
    then some (trimmed (from_index (slice_start (index_of p lowered) (text_length p)) original))
    else after_prefix original lowered ps

-- `rest or None`
abbrev pub non_empty : String → Option String
non_empty s = if is_empty s then none else some s

unfoldable pub extract_search_query : Language → String → Option String
extract_search_query py question =
    let original = strip question in
    elim (after_prefix original (py.lower original) search_prefixes) [
      | none ↦ none
      | some rest ↦ non_empty (trimmed (py.before_and (py.drop_lead_word rest)))
    ]
