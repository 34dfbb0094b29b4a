-- ===== src/Query/Sources.antt =====
-- The dicts that a card's values are looked up in (backend/app/risk/query.py), in their order.
use quantlineage.Prelude.{
  String, ◌≡◌, refl, ◌≢◌, Option, none, some, List, [], ◌∷◌, ◌++◌, ◌⊎◌, inl, inr, All, All-append,
  arith, ap, ◌∙◌, Option-cases, subst,
}
use quantlineage.Prelude.Call.{ok, bind_result-ok, ok_inj}
use quantlineage.Wire.{
  Json, null, bool, int, float, text, list, obj, Items, nil, cons, Fields, find,
}
use quantlineage.Query.Card.{
  present, nested_rows, nested_result_payloads, first_present, request_field, payload_field,
  payload_run_id, first_field,
}

abbrev dict_of : Option Json → List Fields
dict_of (some (obj fs)) = fs ∷ []
dict_of _ = []

abbrev payload_dicts : Json → List Fields
payload_dicts (obj item) = dict_of (find "payload" item)
payload_dicts _ = []

abbrev payloads : Items → List Fields
payloads nil = []
payloads (cons x xs) = payload_dicts x ++ payloads xs

abbrev result_payloads : Option Json → List Fields
result_payloads (some (list xs)) = payloads xs
result_payloads _ = []

-- The payload, the payloads of the items of its `results`, and its `request`.
abbrev pub sources : Fields → List Fields
sources payload =
    payload ∷ result_payloads (find "results" payload) ++ dict_of (find "request" payload)

abbrev Gives : String → Json → Fields → Type 0
Gives k v fs = (find k fs ≡ some v) × (v ≢ null)

abbrev pub Lacks : String → Fields → Type 0
Lacks k fs = (find k fs ≡ none) ⊎ (find k fs ≡ some null)

-- The value of the first dict that gives the key one that is not `None`.
pub data First (k : String) (v : Json) : List Fields → Type 0 where
  here : {fs : Fields} {l : List Fields} → Gives k v fs → First k v (fs ∷ l)
  there : {fs : Fields} {l : List Fields} → Lacks k fs → First k v l → First k v (fs ∷ l)

abbrev pub Occurs : Fields → String → Json → Type 0
Occurs payload k v = First k v (sources payload)

abbrev pub Absent : Fields → String → Type 0
Absent payload k = All (Lacks k) (sources payload)

-- The run id: that of the first of three keys which is not absent.
abbrev pub IsRunId : Fields → Json → Type 0
IsRunId payload v =
    Occurs payload "risk_run_id" v
    ⊎ (Absent payload "risk_run_id" × Occurs payload "id" v)
    ⊎ (Absent payload "risk_run_id" × Absent payload "id" × Occurs payload "run_id" v)

present_gives : (o : Option Json) (v : Json) → present o ≡ some v → (o ≡ some v) × (v ≢ null)
present_gives none v h = cc h
present_gives (some null) v h = cc h
present_gives (some (bool b)) v h = (h, λ e. cc (h, e))
present_gives (some (int n)) v h = (h, λ e. cc (h, e))
present_gives (some (float x)) v h = (h, λ e. cc (h, e))
present_gives (some (text s)) v h = (h, λ e. cc (h, e))
present_gives (some (list xs)) v h = (h, λ e. cc (h, e))
present_gives (some (obj fs)) v h = (h, λ e. cc (h, e))

present_lacks : (o : Option Json) → present o ≡ none → (o ≡ none) ⊎ (o ≡ some null)
present_lacks none h = inl refl
present_lacks (some null) h = inr refl
present_lacks (some (bool b)) h = cc h
present_lacks (some (int n)) h = cc h
present_lacks (some (float x)) h = cc h
present_lacks (some (text s)) h = cc h
present_lacks (some (list xs)) h = cc h
present_lacks (some (obj fs)) h = cc h

nested_rows_lem : (xs : Items) → nested_rows xs ≡ payloads xs
nested_rows_lem nil = refl
nested_rows_lem (cons (obj item) xs) = ground (arith, nested_rows_lem xs)
nested_rows_lem (cons null xs) = nested_rows_lem xs
nested_rows_lem (cons (bool _) xs) = nested_rows_lem xs
nested_rows_lem (cons (int _) xs) = nested_rows_lem xs
nested_rows_lem (cons (float _) xs) = nested_rows_lem xs
nested_rows_lem (cons (text _) xs) = nested_rows_lem xs
nested_rows_lem (cons (list _) xs) = nested_rows_lem xs

nested_lem :
    (payload : Fields) (rows : List Fields)
    → nested_result_payloads payload ≡ ok rows
    → rows ≡ result_payloads (find "results" payload)
unfolding nested_result_payloads
nested_lem payload rows h = grind (arith, nested_rows_lem)

module _ (k : String) where
  rows-First :
      (v : Json) (rows rest : List Fields)
      → first_present k rows ≡ some v
      → First k v (rows ++ rest)
  unfolding first_present
  rows-First v [] rest h = cc h
  rows-First v (fs ∷ rows) rest h = elim (Option-cases (present (find k fs))) [
    | inr (w, e) ↦
        let same : w ≡ v = ground arith in here (present_gives (find k fs) v (e ∙ ap some same))
    | inl e ↦
        there (present_lacks (find k fs) e) (rows-First v rows rest (rw (e, first_present) at h))
  ]

  rows_lack : (rows : List Fields) → first_present k rows ≡ none → All (Lacks k) rows
  unfolding first_present
  rows_lack [] h = tt
  rows_lack (fs ∷ rows) h = elim (Option-cases (present (find k fs))) [
    | inr (w, e) ↦ absurd (ground arith)
    | inl e ↦ (present_lacks (find k fs) e, rows_lack rows (rw (e, first_present) at h))
  ]

  skip_rows :
      (v : Json) (rows rest : List Fields)
      → All (Lacks k) rows
      → First k v rest
      → First k v (rows ++ rest)
  skip_rows v [] rest h f = f
  skip_rows v (fs ∷ rows) rest h f = there h.0 (skip_rows v rows rest h.1 f)

  requested :
      (payload : Fields) (v : Json)
      → request_field payload k ≡ some v
      → First k v (dict_of (find "request" payload))
  requested payload v h = elim (Option-cases (find "request" payload)) [
    | inl missing ↦ cc (rw (missing, request_field) at h)
    | inr (obj request, e) ↦
        rw e (here (present_gives (find k request) v (rw (e, request_field) at h)))
    | inr (null, e) ↦ cc (rw (e, request_field) at h)
    | inr (bool b, e) ↦ cc (rw (e, request_field) at h)
    | inr (int n, e) ↦ cc (rw (e, request_field) at h)
    | inr (float x, e) ↦ cc (rw (e, request_field) at h)
    | inr (text s, e) ↦ cc (rw (e, request_field) at h)
    | inr (list xs, e) ↦ cc (rw (e, request_field) at h)
  ]

  request-Lacks :
      (payload : Fields)
      → request_field payload k ≡ none
      → All (Lacks k) (dict_of (find "request" payload))
  request-Lacks payload h = elim (Option-cases (find "request" payload)) [
    | inl missing ↦ rw missing tt
    | inr (obj request, e) ↦ rw e (present_lacks (find k request) (rw (e, request_field) at h), tt)
    | inr (null, e) ↦ rw e tt
    | inr (bool b, e) ↦ rw e tt
    | inr (int n, e) ↦ rw e tt
    | inr (float x, e) ↦ rw e tt
    | inr (text s, e) ↦ rw e tt
    | inr (list xs, e) ↦ rw e tt
  ]

  -- A field that is found is the first one, and one that is not is absent.
  Answers : Fields → Option Json → Type 0
  Answers payload none = Absent payload k
  Answers payload (some v) = Occurs payload k v

  request_answer :
      (payload : Fields) (o : Option Json)
      → Lacks k payload
      → All (Lacks k) (result_payloads (find "results" payload))
      → request_field payload k ≡ o
      → Answers payload o
  unfolding Answers
  request_answer payload none own rows h =
      (own, All-append (Lacks k) _ _ rows (request-Lacks payload h))
  request_answer payload (some v) own rows h =
      there own (skip_rows v _ _ rows (requested payload v h))

  rows_answer :
      (payload : Fields) (rows : List Fields) (o : Option Json)
      → Lacks k payload
      → rows ≡ result_payloads (find "results" payload)
      → (elim (first_present k rows) [ some v ↦ ok (some v) | none ↦ ok (request_field payload k) ])
        ≡ ok o
      → Answers payload o
  unfolding Answers
  rows_answer payload rows o own same h = elim (Option-cases (first_present k rows)) [
    | inr (v, e) ↦
        let got : ok (some v) ≡ ok o = rw e at h in
        let found = rows-First v rows (dict_of (find "request" payload)) e in
        subst (Answers payload) (ok_inj got)
          (there own (subst (λ l. First k v (l ++ dict_of (find "request" payload))) same found))
    | inl e ↦
        let got : ok (request_field payload k) ≡ ok o = rw e at h in
        request_answer payload o own (subst (All (Lacks k)) same (rows_lack rows e)) (ok_inj got)
  ]

  field_answer :
      (payload : Fields) (o : Option Json) → payload_field payload k ≡ ok o → Answers payload o
  unfolding payload_field Answers
  field_answer payload o h = elim (Option-cases (present (find k payload))) [
    | inr (w, e) ↦
        let got : ok (some w) ≡ ok o = rw (e, payload_field) at h in
        subst (Answers payload) (ok_inj got) (here (present_gives (find k payload) w e))
    | inl e ↦
        let (rows, found, rest) =
          bind_result-ok (nested_result_payloads payload) _ o (rw (e, payload_field) at h) in
        rows_answer payload rows o (present_lacks (find k payload) e)
          (nested_lem payload rows found) rest
  ]

  pub field-Occurs :
      (payload : Fields) (v : Json) → payload_field payload k ≡ ok (some v) → Occurs payload k v
  unfolding Answers
  field-Occurs payload v h = field_answer payload (some v) h

  pub field-Absent : (payload : Fields) → payload_field payload k ≡ ok none → Absent payload k
  unfolding Answers
  field-Absent payload h = field_answer payload none h

-- The run id of a payload.
first_field_cases :
    (payload : Fields) (key : String) (keys : List String) (v : Json)
    → first_field payload (key ∷ keys) ≡ ok (some v)
    → Occurs payload key v ⊎ (Absent payload key × (first_field payload keys ≡ ok (some v)))
first_field_cases payload key keys v h =
    let (o, found, rest) = bind_result-ok (payload_field payload key) _ (some v) h in
    split o found rest
  where
    split :
        (o : Option Json)
        → payload_field payload key ≡ ok o
        → (elim o [ some w ↦ ok (some w) | none ↦ first_field payload keys ]) ≡ ok (some v)
        → Occurs payload key v ⊎ (Absent payload key × (first_field payload keys ≡ ok (some v)))
    split none found rest = inr (field-Absent key payload found, rest)
    split (some w) found rest =
        inl (field-Occurs key payload v (subst (λ x. payload_field payload key ≡ x) rest found))

pub payload_run_id-IsRunId :
    (payload : Fields) (v : Json) → payload_run_id payload ≡ ok (some v) → IsRunId payload v
unfolding payload_run_id
payload_run_id-IsRunId payload v h =
    elim (first_field_cases payload "risk_run_id" ("id" ∷ "run_id" ∷ []) v h) [
      | inl a ↦ inl a
      | inr (first_lacks, g) ↦ elim (first_field_cases payload "id" ("run_id" ∷ []) v g) [
        | inl a ↦ inr (inl (first_lacks, a))
        | inr (second_lacks, f) ↦ elim (first_field_cases payload "run_id" [] v f) [
          | inl a ↦ inr (inr (first_lacks, second_lacks, a))
          | inr (_, e) ↦ cc e
        ]
      ]
    ]
