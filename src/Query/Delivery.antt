-- ===== src/Query/Delivery.antt =====
-- The two answering methods of `RiskQueryEngine` (backend/app/risk/query.py) over all their branches.
use quantlineage.Prelude.{
  String, ◌≡◌, refl, true, false, Option, some, [], ◌∷◌, ◌⊎◌, inl, inr, subst, ap, sym, ◌∙◌,
}
use quantlineage.Prelude.Dict.{Dict}
use quantlineage.Prelude.Call.{Fault, Result, ok, err, ok_inj}
use quantlineage.Wire.{Fields}
use quantlineage.Hierarchy.{Portfolio}
use quantlineage.Query.{Language}
use quantlineage.Query.Tools.{RiskToolName}
use quantlineage.Query.Texts.{safe_ungrounded_answer}
use quantlineage.Query.Args.{Arg}
use quantlineage.Query.Validate.{ToolCallValidation, validate_tool_call}
use quantlineage.Query.Service.{Service}
use quantlineage.Query.Execute.{execute_tool}
use quantlineage.Query.Safe.{Outside, safe_ungrounded_text}
use quantlineage.Query.Response.{
  RiskAssistantModelResponse, RiskQueryResponse, refused_response, settled, is_caught,
}
use quantlineage.Query.Answer.{grounded_tool_response, checked_response}
use quantlineage.Query.Plain.{safe_ungrounded_text-no_number}
use quantlineage.Query.Grounding.{
  IsRefusal, Quotes, IsAllowed, allowed_call, validate_tool_call-cases, refused_response-IsRefusal,
  settled-cases,
}

module _ (py : Language) (out : Outside) {S O : Type 0} (service : Service S O)
    (portfolio : Portfolio) (principal : Option String) where
  -- The response quotes what the service returned for the call, run in the state before it.
  pub record IsGrounded (raw : String) (fs : Fields) (s t : S) (r : RiskQueryResponse)
      : Type 0 where
    pub tool : RiskToolName
    pub args : Dict Arg
    pub allowed : IsAllowed out raw fs tool args
    pub payload : Fields
    pub executed : execute_tool service tool portfolio args principal s ≡ (ok payload, t)
    pub quoted : Quotes out tool payload r

  -- Why a checked call gives no payload: it is not allowed, or the service raised.
  pub data WhyNot (raw : String) (fs : Fields) (s t : S) : Type 0 where
    not_allowed : (validate_tool_call out.date (some raw) fs).allowed ≡ false → WhyNot raw fs s t
    failed :
        (tool : RiskToolName) (args : Dict Arg) (e : Fault)
        → IsAllowed out raw fs tool args
        → execute_tool service tool portfolio args principal s ≡ (err e, t)
        → is_caught e ≡ true
        → WhyNot raw fs s t

  abbrev pub Checked : String → Fields → S → S → RiskQueryResponse → Type 0
  Checked raw fs s t r = (IsRefusal py r × WhyNot raw fs s t) ⊎ IsGrounded raw fs s t r

  tool_response-Checked :
      (intent raw : String) (fs : Fields) (tool : RiskToolName) (args : Dict Arg)
      (model : Option RiskAssistantModelResponse) (s t : S) (r : RiskQueryResponse)
      → IsAllowed out raw fs tool args
      → grounded_tool_response py out service intent tool portfolio args principal model s
        ≡ (ok r, t)
      → Checked raw fs s t r
  unfolding grounded_tool_response
  tool_response-Checked intent raw fs tool args model s t r allowed h =
      let run = execute_tool service tool portfolio args principal s in
      let same : run.1 ≡ t = ap (λ p. p.1) h in
      let settles : settled py out intent tool model run.0 ≡ ok r = ap (λ p. p.0) h in
      elim (settled-cases py out intent tool model run.0 r settles) [
        | inl (refusal, e, raised, caught) ↦
            inl (refusal, failed tool args e allowed (λ i. (raised i, same i)) caught)
        | inr (payload, returned, quoted) ↦ inr (record {
          tool = tool;
          args = args;
          allowed = allowed;
          payload = payload;
          executed = λ i. (returned i, same i);
          quoted = quoted;
        })
      ]

  abbrev refusal_text : ToolCallValidation → String
  refusal_text checked = safe_ungrounded_text py out (checked.refusal ∷ []) safe_ungrounded_answer

  not_allowed_response :
      (intent : RiskToolName → String) (model : Option RiskAssistantModelResponse)
      (checked : ToolCallValidation) (s : S)
      → checked.allowed ≡ false
      → checked_response py out service intent portfolio principal model checked s
        ≡ (ok (refused_response py out "unsupported" (refusal_text checked) model), s)
  unfolding checked_response
  not_allowed_response intent model checked s h = rw h refl

  allowed_response :
      (intent : RiskToolName → String) (model : Option RiskAssistantModelResponse)
      (tool : RiskToolName) (args : Dict Arg)
      → checked_response py out service intent portfolio principal model (allowed_call tool args)
        ≡ grounded_tool_response py out service (intent tool) tool portfolio args principal model
  unfolding checked_response
  allowed_response intent model tool args = refl

  allowed_run :
      (intent : RiskToolName → String) (model : Option RiskAssistantModelResponse)
      (tool : RiskToolName) (args : Dict Arg) (s : S) {checked : ToolCallValidation}
      {end : Result RiskQueryResponse × S}
      → checked ≡ allowed_call tool args
      → checked_response py out service intent portfolio principal model checked s ≡ end
      → grounded_tool_response py out service (intent tool) tool portfolio args principal model s
        ≡ end
  allowed_run intent model tool args s {checked} {end} same h =
      sym (ap (λ f. f s) (allowed_response intent model tool args))
      ∙ sym (ap (λ c. checked_response py out service intent portfolio principal model c s) same)
      ∙ h

  pub checked_response-Checked :
      (intent : RiskToolName → String) (raw : String) (fs : Fields)
      (model : Option RiskAssistantModelResponse) (s t : S) (r : RiskQueryResponse)
      → checked_response py out service intent portfolio principal model
          (validate_tool_call out.date (some raw) fs)
          s
        ≡ (ok r, t)
      → Checked raw fs s t r
  checked_response-Checked intent raw fs model s t r h =
      elim (validate_tool_call-cases out raw fs) [
        | inr (tool, args, allowed, same) ↦
            tool_response-Checked (intent tool) raw fs tool args model s t r allowed
              (allowed_run intent model tool args s same h)
        | inl refused ↦
            let checked = validate_tool_call out.date (some raw) fs in
            let e = sym (not_allowed_response intent model checked s refused) ∙ h in
            let same : s ≡ t = ap (λ p. p.1) e in
            inl (
              subst (IsRefusal py) (ok_inj (ap (λ p. p.0) e)) (
                  refused_response-IsRefusal py out "unsupported" (refusal_text checked) model
                    (safe_ungrounded_text-no_number py out _ _)),
              subst (WhyNot raw fs s) same (not_allowed refused),
            )
      ]
