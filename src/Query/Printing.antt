-- ===== src/Query/Printing.antt =====
-- How a value is printed into an answer (backend/app/risk/query.py). `Printing` is what Python's
-- `str`, `float` and format specifications give for a JSON value.
use quantlineage.Prelude.{
  ℕ, suc, String, Bool, true, false, ◌==◌, none, some, List, [], ◌∷◌, if◌then◌else◌,
}
use quantlineage.Prelude.Dict.{get}
use quantlineage.Prelude.Text.{concat, rstrip, is_empty}
use quantlineage.Prelude.Call.{Result, ok, err, bind_result, type_error, attribute_error}
use quantlineage.Wire.{
  Json, null, bool, int, float, text, list, obj, Items, nil, cons, Fields, end, field, find,
}
use quantlineage.Query.Service.{falsy}
use quantlineage.Query.Texts.{missing_on_payload}
use quantlineage.Query.Card.{Card, present}

pub record Printing : Type 0 where
  -- `str(value)`, which an f-string puts in.
  pub shown : Json → String
  -- `f"{float(value):,.0f}"`, `f"{float(value) * 100:.0f}"` and `f"{float(value):.1f}"`.
  pub grouped : Json → Result String
  pub whole_percent : Json → Result String
  pub one_digit : Json → Result String

-- `payload.get(key)`
abbrev pub got : String → Fields → Json
got key fs = elim (find key fs) [ none ↦ null | some v ↦ v ]

-- `separator.join(parts)`
abbrev pub joined : String → List String → String
joined separator [] = ""
joined separator (s ∷ []) = s
joined separator (s ∷ t ∷ rest) = concat s (concat separator (joined separator (t ∷ rest)))

abbrev pub sentence : List String → String
sentence parts = joined "" parts

-- The elements that a `for` takes from `value or []`.
abbrev pub chars_of : String → List Json
chars_of String.[] = []
chars_of (String.◌∷◌ c s) = text (String.◌∷◌ c "") ∷ chars_of s

abbrev pub keys_of : Fields → List Json
keys_of end = []
keys_of (field k _ fs) = text k ∷ keys_of fs

abbrev pub items_of : Items → List Json
items_of nil = []
items_of (cons x xs) = x ∷ items_of xs

unfoldable pub iterated : Json → Result (List Json)
iterated null = ok []
iterated (bool b) = if falsy (bool b) then ok [] else err type_error
iterated (int n) = if falsy (int n) then ok [] else err type_error
iterated (float x) = if falsy (float x) then ok [] else err type_error
iterated (text s) = ok (chars_of s)
iterated (list xs) = ok (items_of xs)
iterated (obj fs) = ok (keys_of fs)

abbrev pub count : List Json → ℕ
count [] = 0
count (x ∷ xs) = suc (count xs)

-- Every item must have `get`.
abbrev pub dicts : List Json → Result (List Fields)
dicts [] = ok []
dicts (obj fs ∷ xs) = bind_result (dicts xs) (λ rest. ok (fs ∷ rest))
dicts (_ ∷ xs) = err attribute_error

module _ (print : Printing) where
  unfoldable pub fmt : Json → Result String
  fmt (int n) = print.grouped (int n)
  fmt (float x) = print.grouped (float x)
  fmt (bool b) = print.grouped (bool b)
  fmt v = ok (print.shown v)

  unfoldable pub format_card_value : Json → Result String
  format_card_value (int n) = fmt (int n)
  format_card_value (float x) = fmt (float x)
  format_card_value v = ok (print.shown v)

  abbrev pub labelled : String → Json → Result String
  labelled label v = bind_result (format_card_value v) (λ s. ok (concat label (concat " " s)))

  abbrev pub is_container : Json → Bool
  is_container (list _) = true
  is_container (obj _) = true
  is_container _ = false

  abbrev pub card_labels : List (String × String)
  card_labels =
      ("metric", "metric")
      ∷ ("value", "value")
      ∷ ("unit", "unit")
      ∷ ("sign_convention", "sign")
      ∷ ("risk_run_id", "run")
      ∷ ("as_of", "as_of")
      ∷ ("methodology", "methodology")
      ∷ ("market_snapshot_id", "market_snapshot_id")
      ∷ ("historical_dataset_id", "historical_dataset_id")
      ∷ ("historical_dataset_version", "historical_dataset_version")
      ∷ []

  abbrev pub card_parts : Card → List (String × String) → Result (List String)
  card_parts card [] = ok []
  card_parts card ((key, label) ∷ rest) = elim (get key card) [
    | none ↦ card_parts card rest
    | some v ↦
        if is_container v
        then card_parts card rest
        else bind_result (labelled label v)
            (λ part. bind_result (card_parts card rest) (λ parts. ok (part ∷ parts)))
  ]

  unfoldable pub format_card_text : Card → Result String
  format_card_text card =
      bind_result (card_parts card card_labels) (λ parts. ok (joined "; " parts))

  unfoldable pub label_payload : Fields → String → String → Result String
  label_payload payload key label = elim (present (find key payload)) [
    | none ↦ ok (concat label (concat " " missing_on_payload))
    | some v ↦ labelled label v
  ]

  abbrev pub ends_with_stop : String → Bool
  ends_with_stop String.[] = false
  ends_with_stop (String.◌∷◌ c String.[]) = String.◌∷◌ c "" == "."
  ends_with_stop (String.◌∷◌ c (String.◌∷◌ d s)) = ends_with_stop (String.◌∷◌ d s)

  abbrev pub with_extra : String → String → String
  with_extra s extra =
      if is_empty extra
      then s
      else let base = rstrip s in
        sentence ((if ends_with_stop base then base else concat base ".") ∷ " " ∷ extra ∷ "." ∷ [])

  unfoldable pub join_grounding : String → Card → Result String
  join_grounding s card = bind_result (format_card_text card) (λ extra. ok (with_extra s extra))
