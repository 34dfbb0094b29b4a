-- ===== src/Query/Grounding.antt =====
-- What stands behind an answer of `answer_with_model` and `answer` (backend/app/risk/query.py).
use quantlineage.Prelude.{
  String, ◌≡◌, refl, Bool, true, false, Option, none, some, ◌⊎◌, inl, inr, Bool-cases, Option-cases,
  subst,
}
use quantlineage.Prelude.Dict.{Dict}
use quantlineage.Prelude.Text.{is_empty}
use quantlineage.Prelude.Call.{Fault, Result, ok, err, bind_result-ok, ok_inj}
use quantlineage.Wire.{Fields}
use quantlineage.Query.{Language}
use quantlineage.Query.Tools.{RiskToolName, tool_value, parse_tool}
use quantlineage.Query.Texts.{tool_failure_answer}
use quantlineage.Query.Args.{Arg, validated_args}
use quantlineage.Query.Validate.{
  ToolCallValidation, validate_tool_call, validate_args, tool_args_oversized,
}
use quantlineage.Query.Card.{Card, grounded_card}
use quantlineage.Query.Safe.{Outside, contains_ungrounded_number}
use quantlineage.Query.Response.{
  RiskAssistantModelResponse, RiskQueryResponse, refused_response, settled, grounded_response,
  is_caught, clarified,
}
use quantlineage.Query.Plain.{plain_no_number, safe_ungrounded_text-no_number}
use quantlineage.Query.Sentences.{format_answer}

-- An answer that asks for clarification: no tool, no payload, and no digit.
pub record IsRefusal (py : Language) (r : RiskQueryResponse) : Type 0 where
  pub no_tool : r.tool_name ≡ none
  pub no_result : r.tool_result ≡ none
  pub no_card : r.card ≡ none
  pub asks : r.requires_clarification ≡ true
  pub no_number : contains_ungrounded_number py r.answer ≡ false

-- A response made of the payload that the tool returned.
pub record Quotes (out : Outside) (tool : RiskToolName) (payload : Fields) (r : RiskQueryResponse)
    : Type 0 where
  pub named : r.tool_name ≡ some (tool_value tool)
  pub result : r.tool_result ≡ some payload
  pub settled_now : r.requires_clarification ≡ false
  pub card : Card
  pub carded : grounded_card tool payload ≡ ok card
  pub shown : r.card ≡ some card
  pub printed : format_answer out.printing tool payload card ≡ ok r.answer

-- The call that a text and arguments stand for, once they are checked.
pub record IsAllowed (out : Outside) (raw : String) (fs : Fields) (tool : RiskToolName)
    (args : Dict Arg) : Type 0 where
  pub known : parse_tool raw ≡ some tool
  pub small : tool_args_oversized fs ≡ some false
  pub typed : validated_args out.date tool fs ≡ some args

abbrev pub allowed_call : RiskToolName → Dict Arg → ToolCallValidation
allowed_call tool args = record {
  allowed = true;
  tool_name = some tool;
  args = args;
  refusal = none;
}

validate_args-cases :
    (out : Outside) (tool : RiskToolName) (fs : Fields) (big : Option Bool)
    → ((validate_args out.date tool fs big).allowed ≡ false)
      ⊎ ((args : Dict Arg) × (big ≡ some false)
          × (validated_args out.date tool fs ≡ some args)
          × (validate_args out.date tool fs big ≡ allowed_call tool args))
unfolding validate_args
validate_args-cases out tool fs none = inl refl
validate_args-cases out tool fs (some true) = inl refl
validate_args-cases out tool fs (some false) =
    elim (Option-cases (validated_args out.date tool fs)) [
      | inl e ↦ inl (rw (e, validate_args) refl)
      | inr (args, e) ↦ inr (args, refl, e, rw (e, validate_args) refl)
    ]

pub validate_tool_call-cases :
    (out : Outside) (raw : String) (fs : Fields)
    → ((validate_tool_call out.date (some raw) fs).allowed ≡ false)
      ⊎ ((tool : RiskToolName) × (args : Dict Arg) × IsAllowed out raw fs tool args
          × (validate_tool_call out.date (some raw) fs ≡ allowed_call tool args))
unfolding validate_tool_call
validate_tool_call-cases out raw fs = elim (Bool-cases (is_empty raw)) [
  | inl e ↦ inl (rw e refl)
  | inr e ↦ elim (Option-cases (parse_tool raw)) [
    | inl p ↦ inl (rw (e, p) refl)
    | inr (tool, p) ↦ elim (validate_args-cases out tool fs (tool_args_oversized fs)) [
      | inl refused ↦ inl (rw (e, p) refused)
      | inr (args, small, typed, same) ↦
          inr (tool, args, record { known = p; small = small; typed = typed }, rw (e, p) same)
    ]
  ]
]

module _ (py : Language) (out : Outside) where
  pub refused_response-IsRefusal :
      (intent answer : String) (model : Option RiskAssistantModelResponse)
      → contains_ungrounded_number py answer ≡ false
      → IsRefusal py (refused_response py out intent answer model)
  unfolding refused_response
  refused_response-IsRefusal intent answer model h = record {
    no_tool = refl;
    no_result = refl;
    no_card = refl;
    asks = refl;
    no_number = h;
  }

  pub clarified-IsRefusal :
      (reply : RiskAssistantModelResponse) → IsRefusal py (clarified py out reply)
  unfolding clarified
  clarified-IsRefusal reply =
      refused_response-IsRefusal _ _ (some reply) (safe_ungrounded_text-no_number py out _ _)

  grounded_response-Quotes :
      (intent : String) (tool : RiskToolName) (payload : Fields)
      (model : Option RiskAssistantModelResponse) (r : RiskQueryResponse)
      → grounded_response py out intent tool payload model ≡ ok r
      → Quotes out tool payload r
  unfolding grounded_response
  grounded_response-Quotes intent tool payload model r h =
      let (card, carded, h') = bind_result-ok (grounded_card tool payload) _ r h in
      let (answer, printed, h'') =
        bind_result-ok (format_answer out.printing tool payload card) _ r h' in
      subst (Quotes out tool payload) (ok_inj h'') (record {
        named = refl;
        result = refl;
        settled_now = refl;
        card = card;
        carded = carded;
        shown = refl;
        printed = printed;
      })

  pub settled-cases :
      (intent : String) (tool : RiskToolName) (model : Option RiskAssistantModelResponse)
      (result : Result Fields) (r : RiskQueryResponse)
      → settled py out intent tool model result ≡ ok r
      → (IsRefusal py r × (e : Fault) × (result ≡ err e) × (is_caught e ≡ true))
        ⊎ ((payload : Fields) × (result ≡ ok payload) × Quotes out tool payload r)
  unfolding settled
  settled-cases intent tool model (ok payload) r h =
      inr (payload, refl, grounded_response-Quotes intent tool payload model r h)
  settled-cases intent tool model (err e) r h = elim (Bool-cases (is_caught e)) [
    | inl caught ↦ inl (
      subst (IsRefusal py) (ok_inj (rw (caught, settled) at h)) (
          refused_response-IsRefusal intent tool_failure_answer model
            (plain_no_number py tool_failure_answer refl)),
      e,
      refl,
      caught,
    )
    | inr other ↦ cc (rw (other, settled) at h)
  ]
