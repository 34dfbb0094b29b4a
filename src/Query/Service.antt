-- ===== src/Query/Service.antt =====
-- What `execute_allowlisted_tool` works with (backend/app/risk/tool_contracts.py). The service is an
-- object that the caller passes: what it has as methods, and what Python finds when it takes their
-- results apart, is the record `Service`.
use quantlineage.Prelude.{
  zero, String, Bool, true, false, ◌==◌, Option, none, some, List, [], ◌∷◌, if◌then◌else◌,
}
use quantlineage.Prelude.Dict.{Dict, get}
use quantlineage.Prelude.Text.{is_empty}
use quantlineage.Prelude.Call.{
  Result, ok, err, Call, bind_result, key_error, type_error, attribute_error,
}
use quantlineage.Wire.{
  Json, null, bool, int, float, text, list, obj, Items, nil, cons, Fields, end, field, find, finite,
}
use quantlineage.Prelude.Int.{pos}
use quantlineage.Hierarchy.{Portfolio}
use quantlineage.Query.Args.{Arg, absent, words}

-- What a method is called with.
pub data Value : Type 0 where
  arg : Arg → Value
  book : Portfolio → Value
  blob : Dict Arg → Value

abbrev pub Keywords : Type 0
Keywords = Dict Value

-- A method declares its keywords: `inspect.signature(fn).parameters`, all of them for `**kwargs`.
pub record Method (S O : Type 0) : Type 0 where
  pub declares : String → Bool
  pub run : List Value → Keywords → Call S O

pub record Service (S O : Type 0) : Type 0 where
  -- `getattr(service, name, None)`, of what can be called.
  pub attribute : String → Option (Method S O)
  -- `search_catalog` of backend/app/market/catalog/service.py.
  pub search_catalog : Value → Call S O
  -- `value.model_dump()` where the value has it and it gives a dict, and else `dict(value)`.
  pub model_dump : O → Option Fields
  pub as_dict : O → Result Fields
  -- `result.hits`, or `result["hits"]` of a dict that has it.
  pub hits : O → Option O
  -- The objects that a `for` takes from it.
  pub elements : O → Result (List O)

-- `_supported_kwargs`
unfoldable pub supported_kwargs : (String → Bool) → Keywords → Keywords
supported_kwargs declares [] = []
supported_kwargs declares ((k, v) ∷ rest) =
    let later = supported_kwargs declares rest in if declares k then (k, v) ∷ later else later

abbrev pub owner_of : Option String → Value
owner_of none = arg absent
owner_of (some s) = arg (words s)

-- `args[k]`, and `args.get(k, default)`.
abbrev pub required_arg : Dict Arg → String → Result Arg
required_arg args k = elim (get k args) [ none ↦ err (key_error k) | some a ↦ ok a ]

abbrev pub argument : Dict Arg → String → Result Value
argument args k = bind_result (required_arg args k) (λ a. ok (arg a))

abbrev pub argument_or : Dict Arg → String → Arg → Value
argument_or args k default = elim (get k args) [ none ↦ arg default | some a ↦ arg a ]

-- `not value` of a JSON value.
abbrev pub falsy : Json → Bool
falsy null = true
falsy (bool false) = true
falsy (int (pos zero)) = true
falsy (float (finite (pos zero) _)) = true
falsy (text s) = is_empty s
falsy (list nil) = true
falsy (obj end) = true
falsy _ = false

abbrev pub tenor_is : String → Fields → Bool
tenor_is tenor row = elim (find "tenor" row) [ some (text t) ↦ t == tenor | _ ↦ false ]

-- The comprehension over `key_rate_dv01`: `row.get` is an error on what is no dict.
unfoldable pub tenor_rows : String → Items → Result Items
tenor_rows tenor nil = ok nil
tenor_rows tenor (cons (obj row) rows) =
    let later = tenor_rows tenor rows in
    bind_result later (λ kept. ok (if tenor_is tenor row then cons (obj row) kept else kept))
tenor_rows tenor (cons _ rows) = err attribute_error

unfoldable pub key_rate_rows : String → Option Json → Result Items
key_rate_rows tenor none = ok nil
key_rate_rows tenor (some (list rows)) = tenor_rows tenor rows
key_rate_rows tenor (some (text s)) = if is_empty s then ok nil else err attribute_error
key_rate_rows tenor (some (obj end)) = ok nil
key_rate_rows tenor (some (obj (field _ _ _))) = err attribute_error
key_rate_rows tenor (some v) = if falsy v then ok nil else err type_error

-- `{**fields, key: value}`
unfoldable pub with_field : String → Json → Fields → Fields
with_field k v end = field k v end
with_field k v (field j w fs) =
    let rest = with_field k v fs in if j == k then field j v fs else field j w rest

unfoldable pub for_tenor : Option Arg → Fields → Result Fields
for_tenor (some (words tenor)) payload =
    if is_empty tenor
    then ok payload
    else bind_result (key_rate_rows tenor (find "key_rate_dv01" payload))
        (λ rows. ok (with_field "key_rate_dv01" (list rows) payload))
for_tenor _ payload = ok payload
