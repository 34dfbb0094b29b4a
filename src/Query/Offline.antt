-- ===== src/Query/Offline.antt =====
-- `DeterministicRiskAssistantModel` of backend/app/risk/query.py: the router as a model.
use quantlineage.Prelude.{
  String, ◌≡◌, refl, true, false, Option, none, some, inl, inr, Bool-cases, Option-cases, sym, ◌∙◌,
  subst,
}
use quantlineage.Prelude.Dict.{Dict}
use quantlineage.Prelude.Text.{strip, joined_words, is_empty}
use quantlineage.Prelude.Call.{Result, ok, err, Call, pure, Result-cases}
use quantlineage.Wire.{Fields}
use quantlineage.Hierarchy.{Portfolio}
use quantlineage.Query.{Language}
use quantlineage.Query.Tools.{RiskToolName, tool_value}
use quantlineage.Query.Marks.{is_secret_request, is_prompt_injection, is_fake_tool_request}
use quantlineage.Query.Plan.{RiskQueryPlan, clarification_plan, when◌then◌else◌}
use quantlineage.Query.Route.{route}
use quantlineage.Query.Args.{Arg}
use quantlineage.Query.Validate.{ToolCallValidation, validate_tool_call}
use quantlineage.Query.Service.{Service}
use quantlineage.Query.Execute.{execute_tool}
use quantlineage.Query.Card.{grounded_card}
use quantlineage.Query.Safe.{Outside}
use quantlineage.Query.Response.{
  RiskAssistantModelRequest, RiskAssistantModelResponse, RiskQueryResponse, refused_response,
  grounded_response, settled, is_caught, text_or,
}
use quantlineage.Query.Answer.{
  grounded_tool_response, checked_response, answer_named, answer_plan, answer, answer_with_model,
}
use quantlineage.Query.Bound.{BindsOrAsks}
use quantlineage.Query.Bindings.{route-BindsOrAsks}
use quantlineage.Query.Sentences.{format_answer}

abbrev pub tool_text : Option RiskToolName → Option String
tool_text none = none
tool_text (some tool) = some (tool_value tool)

abbrev pub offline_reply : RiskQueryPlan → RiskAssistantModelResponse
offline_reply plan = record {
  tool_name = tool_text plan.tool_name;
  tool_args = plan.tool_args;
  intent = some plan.intent;
  requires_clarification = plan.needs_clarification;
  clarification = plan.clarification;
  refusal = none;
  rationale = some "deterministic offline router";
  proposed_answer = none;
}

unfoldable pub complete_offline :
    {S : Type 0} → Language → RiskAssistantModelRequest → Call S RiskAssistantModelResponse
complete_offline py request = pure (offline_reply (route py request.question))

-- The same response with the model's data in it.
abbrev pub attributed :
    RiskAssistantModelResponse → Result RiskQueryResponse → Result RiskQueryResponse
attributed reply (ok r) = ok (record r { model = some reply })
attributed reply (err e) = err e

module _ (py : Language) (out : Outside) where
  settled-attributed :
      (intent : String) (tool : RiskToolName) (reply : RiskAssistantModelResponse)
      (result : Result Fields)
      → settled py out intent tool (some reply) result
        ≡ attributed reply (settled py out intent tool none result)
  unfolding settled refused_response grounded_response
  settled-attributed intent tool reply (err e) = elim (Bool-cases (is_caught e)) [
    | inl caught ↦ rw caught refl
    | inr other ↦ rw other refl
  ]
  settled-attributed intent tool reply (ok payload) =
      elim (Result-cases (grounded_card tool payload)) [
        | inr (e, bad) ↦ rw bad refl
        | inl (card, good) ↦ elim (Result-cases (format_answer out.printing tool payload card)) [
          | inr (e, bad) ↦ rw (good, bad) refl
          | inl (shown, printed) ↦ rw (good, printed) refl
        ]
      ]

  module _ {S O : Type 0} (service : Service S O) (portfolio : Portfolio)
      (principal : Option String) (s : S) where
    abbrev Run : Type 0
    Run = Result RiskQueryResponse × S

    abbrev pub with_model : RiskAssistantModelResponse → Run → Run
    with_model reply run = (attributed reply run.0, run.1)

    tool_response-attributed :
        (intent : String) (tool : RiskToolName) (args : Dict Arg)
        (reply : RiskAssistantModelResponse)
        → grounded_tool_response py out service intent tool portfolio args principal (some reply) s
          ≡ with_model reply
              (grounded_tool_response py out service intent tool portfolio args principal none s)
    unfolding grounded_tool_response
    tool_response-attributed intent tool args reply =
        let run = execute_tool service tool portfolio args principal s in
        λ i. (settled-attributed intent tool reply run.0 i, run.1)

    checked_response-attributed :
        (f g : RiskToolName → String) (reply : RiskAssistantModelResponse)
        (checked : ToolCallValidation)
        → ((name : RiskToolName) → f name ≡ g name)
        → checked_response py out service f portfolio principal (some reply) checked s
          ≡ with_model reply (checked_response py out service g portfolio principal none checked s)
    unfolding checked_response refused_response
    checked_response-attributed f g reply checked same = elim (Bool-cases checked.allowed) [
      | inr refused ↦ rw refused refl
      | inl allowed ↦ elim (Option-cases checked.tool_name) [
        | inl no_tool ↦ rw (allowed, no_tool) refl
        | inr (tool, named) ↦
            rw (allowed, named)
              (rw (same tool) (tool_response-attributed (g tool) tool checked.args reply))
      ]
    ]

    -- The plan of a question that asks for a secret asks for clarification.
    secret_asks :
        (question : String)
        → is_secret_request (py.lower (joined_words (strip question))) ≡ true
        → (route py question).needs_clarification ≡ true
    unfolding route when◌then◌else◌ clarification_plan
    secret_asks question h =
        let q = py.lower (joined_words (strip question)) in
        elim (Bool-cases (is_empty q)) [
          | inl e ↦ rw e refl
          | inr e ↦ elim (Bool-cases (is_prompt_injection q)) [
            | inl i ↦ rw (e, i) refl
            | inr i ↦ elim (Bool-cases (is_fake_tool_request q)) [
              | inl f ↦ rw (e, i, f) refl
              | inr f ↦ rw (e, i, f, h) refl
            ]
          ]
        ]

    abbrev Agrees : RiskQueryPlan → Type 0
    Agrees plan =
        answer_named py out service (tool_text plan.tool_name) (offline_reply plan) portfolio
          principal s
        ≡ with_model (offline_reply plan) (answer_plan py out service plan portfolio principal s)

    abbrev ready_plan : String → RiskToolName → Option String → Fields → RiskQueryPlan
    ready_plan intent tool clarification args = record {
      intent = intent;
      tool_name = some tool;
      needs_clarification = false;
      clarification = clarification;
      tool_args = args;
    }

    ready_plan-Agrees :
        (intent : String) (tool : RiskToolName) (clarification : Option String) (args : Fields)
        → is_empty intent ≡ false
        → Agrees (ready_plan intent tool clarification args)
    unfolding answer_named answer_plan text_or
    ready_plan-Agrees intent tool clarification args spoken =
        checked_response-attributed _ (λ _. intent)
          (offline_reply (ready_plan intent tool clarification args))
          (validate_tool_call out.date (some (tool_value tool)) args) (λ _. rw spoken refl)

    plan-Agrees :
        (plan : RiskQueryPlan)
        → plan.needs_clarification ≡ false
        → BindsOrAsks py plan
        → Agrees plan
    unfolding BindsOrAsks
    plan-Agrees plan ready (inl asking) = cc (sym asking.asks ∙ ready)
    plan-Agrees plan ready (inr binds) =
        let same : ready_plan plan.intent binds.tool plan.clarification plan.tool_args ≡ plan = λ i.
          record {
            intent = plan.intent;
            tool_name = sym binds.named i;
            needs_clarification = sym ready i;
            clarification = plan.clarification;
            tool_args = plan.tool_args;
          } in
        subst Agrees same (ready_plan-Agrees plan.intent binds.tool _ _ binds.spoken)

    -- If the plan of the question asks for no clarification, then answering with the offline model
    -- gives what answering without a model gives, state and exceptions included, but that a
    -- response has the model's data in it.
    pub offline_model_agrees :
        (question : String)
        → (route py question).needs_clarification ≡ false
        → answer_with_model py out service (complete_offline py) question portfolio principal s
          ≡ with_model
              (offline_reply (route py question))
              (answer py out service question portfolio principal s)
    unfolding answer_with_model answer complete_offline
    offline_model_agrees question ready =
        elim (Bool-cases (is_secret_request (py.lower (joined_words (strip question))))) [
          | inl asks ↦ cc (sym (secret_asks question asks) ∙ ready)
          | inr other ↦
              rw other (plan-Agrees (route py question) ready (route-BindsOrAsks py question))
        ]
