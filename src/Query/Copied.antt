-- ===== src/Query/Copied.antt =====
-- Where the values of a card come from (backend/app/risk/query.py).
use quantlineage.Prelude.{
  String, ◌≡◌, refl, Option, none, some, List, [], ◌∷◌, ◌⊎◌, inl, inr, Bool-cases, All, subst,
}
use quantlineage.Prelude.Dict.{contains, All-put}
use quantlineage.Prelude.Call.{ok, bind_result-ok, ok_inj}
use quantlineage.Wire.{Json, text, Fields, find}
use quantlineage.Query.Texts.{missing_on_payload}
use quantlineage.Query.Card.{
  Card, present, payload_field, payload_run_id, with_value, copy_present, set_default,
  fill_missing_identity, default_run_id, with_id, with_run_id,
}
use quantlineage.Query.Sources.{payload_run_id-IsRunId, field-Occurs, IsRunId, Occurs}

-- An entry: the first value that the payload's dicts give for its key, the run id of the payload, or
-- the mark.
abbrev pub Copied : Fields → String × Json → Type 0
Copied payload (k, v) =
    Occurs payload k v ⊎ ((k ≡ "risk_run_id") × IsRunId payload v) ⊎ (v ≡ text missing_on_payload)

module _ (payload : Fields) where
  abbrev pub IsCopy : Card → Type 0
  IsCopy card = All (Copied payload) card

  with_value-IsCopy :
      (k : String) (value : Option Json) (card : Card)
      → payload_field payload k ≡ ok value
      → IsCopy card
      → IsCopy (with_value k value card)
  with_value-IsCopy k none card e h = h
  with_value-IsCopy k (some v) card e h =
      All-put (Copied payload) k v card (inl (field-Occurs k payload v e)) h

  pub copy_present-IsCopy :
      (keys : List String) (card card' : Card)
      → IsCopy card
      → copy_present payload keys card ≡ ok card'
      → IsCopy card'
  unfolding copy_present
  copy_present-IsCopy [] card card' h e = subst IsCopy (ok_inj e) h
  copy_present-IsCopy (key ∷ keys) card card' h e =
      let (value, found, rest) = bind_result-ok (payload_field payload key) _ card' e in
      copy_present-IsCopy keys (with_value key value card) card'
        (with_value-IsCopy key value card found h) rest

  set_default-IsCopy :
      (k : String) (v : Json) (card : Card)
      → Copied payload (k, v)
      → IsCopy card
      → IsCopy (set_default k v card)
  unfolding set_default
  set_default-IsCopy k v card e h = elim (Bool-cases (contains k card)) [
    | inl there ↦ rw there h
    | inr new ↦ rw new (All-put (Copied payload) k v card e h)
  ]

  pub fill-IsCopy :
      (keys : List String) (card : Card) → IsCopy card → IsCopy (fill_missing_identity card keys)
  unfolding fill_missing_identity
  fill-IsCopy [] card h = h
  fill-IsCopy (key ∷ keys) card h =
      fill-IsCopy keys _ (set_default-IsCopy key (text missing_on_payload) card (inr (inr refl)) h)

  pub default_run_id-IsCopy :
      (run_id : Option Json) (card : Card)
      → payload_run_id payload ≡ ok run_id
      → IsCopy card
      → IsCopy (default_run_id run_id card)
  default_run_id-IsCopy none card e h = h
  default_run_id-IsCopy (some v) card e h =
      set_default-IsCopy "risk_run_id" v card (inr (inl (refl, payload_run_id-IsRunId payload v e)))
        h

  top_field :
      (k : String) (v : Json)
      → present (find k payload) ≡ some v
      → payload_field payload k ≡ ok (some v)
  unfolding payload_field
  top_field k v e = rw (e, payload_field) refl

  with_id-IsCopy :
      (value : Option Json) (card : Card)
      → present (find "id" payload) ≡ value
      → IsCopy card
      → IsCopy (with_id value card)
  with_id-IsCopy none card e h = h
  with_id-IsCopy (some v) card e h =
      set_default-IsCopy "id" v card (inl (field-Occurs "id" payload v (top_field "id" v e))) h

  pub with_run_id-IsCopy :
      (run_id : Option Json) (card : Card)
      → payload_run_id payload ≡ ok run_id
      → IsCopy card
      → IsCopy (with_run_id payload run_id card)
  with_run_id-IsCopy none card e h = h
  with_run_id-IsCopy (some v) card e h = with_id-IsCopy (present (find "id" payload)) _ refl (
      All-put (Copied payload) "risk_run_id" v card
        (inr (inl (refl, payload_run_id-IsRunId payload v e))) h)
