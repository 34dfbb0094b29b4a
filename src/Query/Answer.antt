-- ===== src/Query/Answer.antt =====
-- `answer`, `answer_with_model` and `_grounded_tool_response` of `RiskQueryEngine`, and the offline
-- model (backend/app/risk/query.py). The language model and the service act on one outside state.
use quantlineage.Prelude.{String, ◌||◌, Option, none, some, [], ◌∷◌, if◌then◌else◌}
use quantlineage.Prelude.Dict.{Dict}
use quantlineage.Prelude.Text.{strip, joined_words}
use quantlineage.Prelude.Call.{Call, pure, ◌>>=◌}
use quantlineage.Hierarchy.{Portfolio}
use quantlineage.Query.{Language}
use quantlineage.Query.Tools.{RiskToolName, tool_value}
use quantlineage.Query.Texts.{safe_ungrounded_answer, secret_refusal_answer}
use quantlineage.Query.Marks.{is_secret_request}
use quantlineage.Query.Plan.{RiskQueryPlan}
use quantlineage.Query.Route.{route}
use quantlineage.Query.Args.{Arg}
use quantlineage.Query.Validate.{ToolCallValidation, validate_tool_call}
use quantlineage.Query.Service.{Service}
use quantlineage.Query.Execute.{execute_tool}
use quantlineage.Query.Safe.{Outside, safe_ungrounded_text}
use quantlineage.Query.Response.{
  RiskAssistantModelResponse, RiskAssistantModelRequest, RiskQueryResponse, intent_for_tool,
  text_or, is_truthy, request_of, refused_response, clarified, settled,
}

module _ (py : Language) (out : Outside) where
  module _ {S O : Type 0} (service : Service S O) where
    unfoldable pub grounded_tool_response :
        String
        → RiskToolName
        → Portfolio
        → Dict Arg
        → Option String
        → Option RiskAssistantModelResponse
        → Call S RiskQueryResponse
    grounded_tool_response intent tool portfolio args principal model s =
        let (r, t) = execute_tool service tool portfolio args principal s in
        (settled py out intent tool model r, t)

    -- From `checked = validate_tool_call(…)` on: the same in both methods but for the model's data.
    unfoldable pub checked_response :
        (RiskToolName → String)
        → Portfolio
        → Option String
        → Option RiskAssistantModelResponse
        → ToolCallValidation
        → Call S RiskQueryResponse
    checked_response intent portfolio principal model checked =
        if checked.allowed
        then elim checked.tool_name [
          | none ↦ pure (
              refused_response py out "unsupported"
                (safe_ungrounded_text py out (checked.refusal ∷ []) safe_ungrounded_answer) model)
          | some tool ↦
              grounded_tool_response (intent tool) tool portfolio checked.args principal model
        ]
        else pure (
            refused_response py out "unsupported"
              (safe_ungrounded_text py out (checked.refusal ∷ []) safe_ungrounded_answer) model)

    unfoldable pub answer_plan :
        RiskQueryPlan → Portfolio → Option String → Call S RiskQueryResponse
    answer_plan plan portfolio principal = elim plan.tool_name [
      | none ↦ pure (refused_response py out plan.intent (text_or plan.clarification "") none)
      | some tool ↦
          if plan.needs_clarification
          then pure (refused_response py out plan.intent (text_or plan.clarification "") none)
          else checked_response (λ _. plan.intent) portfolio principal none
              (validate_tool_call out.date (some (tool_value tool)) plan.tool_args)
    ]

    unfoldable pub answer : String → Portfolio → Option String → Call S RiskQueryResponse
    answer question portfolio principal = answer_plan (route py question) portfolio principal

    -- What `answer_with_model` does with the model's response; the first argument is its tool name.
    unfoldable pub answer_named :
        Option String
        → RiskAssistantModelResponse
        → Portfolio
        → Option String
        → Call S RiskQueryResponse
    answer_named none reply portfolio principal = pure (clarified py out reply)
    answer_named (some tool) reply portfolio principal =
        if is_truthy reply.refusal || reply.requires_clarification
        then pure (clarified py out reply)
        else checked_response (λ name. text_or reply.intent (intent_for_tool name)) portfolio
            principal (some reply) (validate_tool_call out.date (some tool) reply.tool_args)

    abbrev pub answer_response :
        RiskAssistantModelResponse → Portfolio → Option String → Call S RiskQueryResponse
    answer_response reply portfolio principal =
        answer_named reply.tool_name reply portfolio principal

    unfoldable pub answer_with_model :
        (RiskAssistantModelRequest → Call S RiskAssistantModelResponse)
        → String
        → Portfolio
        → Option String
        → Call S RiskQueryResponse
    answer_with_model complete question portfolio principal =
        if is_secret_request (py.lower (joined_words (strip question)))
        then pure (refused_response py out "unsupported" secret_refusal_answer none)
        else (complete (request_of py out question)
            >>= (λ reply. answer_response reply portfolio principal))
