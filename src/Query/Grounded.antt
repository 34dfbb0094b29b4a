-- ===== src/Query/Grounded.antt =====
-- `answer_with_model` (backend/app/risk/query.py) for every model and every service: a response
-- without a payload has no number in it, and a response with one quotes the service.
use quantlineage.Prelude.{
  String, ◌≡◌, refl, Bool, true, ◌||◌, Option, none, some, ◌⊎◌, inl, inr, Bool-cases, subst, ap,
  ◌∙◌,
}
use quantlineage.Prelude.Text.{strip, joined_words}
use quantlineage.Prelude.Call.{ok, Call, bind-ok, ok_inj}
use quantlineage.Hierarchy.{Portfolio}
use quantlineage.Query.{Language}
use quantlineage.Query.Texts.{secret_refusal_answer}
use quantlineage.Query.Marks.{is_secret_request}
use quantlineage.Query.Service.{Service}
use quantlineage.Query.Safe.{Outside}
use quantlineage.Query.Response.{
  RiskAssistantModelRequest, RiskAssistantModelResponse, RiskQueryResponse, is_truthy, request_of,
  intent_for_tool, text_or,
}
use quantlineage.Query.Answer.{answer_named, answer_response, answer_with_model}
use quantlineage.Query.Plain.{plain_no_number}
use quantlineage.Query.Grounding.{IsRefusal, refused_response-IsRefusal, clarified-IsRefusal}
use quantlineage.Query.Delivery.{IsGrounded, WhyNot, Checked, checked_response-Checked}

-- The model asks or refuses, or names no tool.
abbrev pub asks_instead : Option String → RiskAssistantModelResponse → Bool
asks_instead none reply = true
asks_instead (some _) reply = is_truthy reply.refusal || reply.requires_clarification

module _ (py : Language) (out : Outside) {S O : Type 0} (service : Service S O)
    (portfolio : Portfolio) (principal : Option String) where
  abbrev Named : Option String → RiskAssistantModelResponse → S → S → RiskQueryResponse → Type 0
  Named name reply s t r =
      (IsRefusal py r × (asks_instead name reply ≡ true) × (s ≡ t))
      ⊎ ((raw : String) × (name ≡ some raw)
          × Checked py out service portfolio principal raw reply.tool_args s t r)

  answer_named-Named :
      (name : Option String) (reply : RiskAssistantModelResponse) (s t : S) (r : RiskQueryResponse)
      → answer_named py out service name reply portfolio principal s ≡ (ok r, t)
      → Named name reply s t r
  unfolding answer_named
  answer_named-Named none reply s t r h = inl (
    subst (IsRefusal py) (ok_inj (ap (λ p. p.0) h)) (clarified-IsRefusal py out reply),
    refl,
    ap (λ p. p.1) h,
  )
  answer_named-Named (some raw) reply s t r h =
      elim (Bool-cases (is_truthy reply.refusal || reply.requires_clarification)) [
        | inl asks ↦
            let e = rw asks at h in
            inl (
              subst (IsRefusal py) (ok_inj (ap (λ p. p.0) e)) (clarified-IsRefusal py out reply),
              asks,
              ap (λ p. p.1) e,
            )
        | inr calls ↦ inr (
          raw,
          refl,
          checked_response-Checked py out service portfolio principal
              (λ name. text_or reply.intent (intent_for_tool name)) raw reply.tool_args (some reply)
              s t r (rw calls at h),
        )
      ]

  -- Why a response has no payload: the question asks for a secret, the model asks instead, or the
  -- call that it names is not allowed or raises.
  pub data WhyRefused (complete : RiskAssistantModelRequest → Call S RiskAssistantModelResponse)
      (question : String) (s t : S) : Type 0 where
    secret :
        is_secret_request (py.lower (joined_words (strip question))) ≡ true
        → s ≡ t
        → WhyRefused complete question s t
    asked :
        (reply : RiskAssistantModelResponse)
        → complete (request_of py out question) s ≡ (ok reply, t)
        → asks_instead reply.tool_name reply ≡ true
        → WhyRefused complete question s t
    not_called :
        (reply : RiskAssistantModelResponse) (raw : String) (u : S)
        → complete (request_of py out question) s ≡ (ok reply, u)
        → reply.tool_name ≡ some raw
        → WhyNot py out service portfolio principal raw reply.tool_args u t
        → WhyRefused complete question s t

  -- A refusal with its reason, or a payload that the service returned for the call of the model.
  abbrev pub Answered :
      (RiskAssistantModelRequest → Call S RiskAssistantModelResponse)
      → String
      → S
      → S
      → RiskQueryResponse
      → Type 0
  Answered complete question s t r =
      (IsRefusal py r × WhyRefused complete question s t)
      ⊎ ((reply : RiskAssistantModelResponse) × (raw : String) × (u : S) × (complete
              (request_of py out question) s
            ≡ (ok reply, u))
          × (reply.tool_name ≡ some raw)
          × IsGrounded py out service portfolio principal raw reply.tool_args u t r)

  after_reply :
      (complete : RiskAssistantModelRequest → Call S RiskAssistantModelResponse) (question : String)
      (s u t : S) (reply : RiskAssistantModelResponse) (r : RiskQueryResponse)
      → complete (request_of py out question) s ≡ (ok reply, u)
      → Named reply.tool_name reply u t r
      → Answered complete question s t r
  after_reply complete question s u t reply r said (inl (refusal, asks, same)) =
      inl (refusal, asked reply (said ∙ ap (λ x. (ok reply, x)) same) asks)
  after_reply complete question s u t reply r said (inr (raw, named, inl (refusal, why))) =
      inl (refusal, not_called reply raw u said named why)
  after_reply complete question s u t reply r said (inr (raw, named, inr grounded)) =
      inr (reply, raw, u, said, named, grounded)

  -- Whatever the language model and the service do: if a question is answered, then either the
  -- response names no tool, has no payload and no card, asks for clarification and has no digit in
  -- its text, and this is because the question asks for a secret, the model asks or refuses, or the
  -- call that it names is not allowed or ends in one of the caught exceptions; or the model named a
  -- tool of the list with arguments that its argument model accepts, the service ran it in the state
  -- that the model left, and the response has the payload that the service returned, its card and
  -- the sentence printed of the two.
  pub answers_are_grounded :
      (complete : RiskAssistantModelRequest → Call S RiskAssistantModelResponse) (question : String)
      (s t : S) (r : RiskQueryResponse)
      → answer_with_model py out service complete question portfolio principal s ≡ (ok r, t)
      → Answered complete question s t r
  unfolding answer_with_model answer_named
  answers_are_grounded complete question s t r h =
      elim (Bool-cases (is_secret_request (py.lower (joined_words (strip question))))) [
        | inl asks ↦
            let e = rw asks at h in
            inl (
              subst (IsRefusal py) (ok_inj (ap (λ p. p.0) e)) (
                  refused_response-IsRefusal py out "unsupported" secret_refusal_answer none
                    (plain_no_number py secret_refusal_answer refl)),
              secret asks (ap (λ p. p.1) e),
            )
        | inr other ↦
            let (reply, u, said, rest) =
              bind-ok (complete (request_of py out question))
                (λ reply. answer_response py out service reply portfolio principal) r s t
                (rw other at h) in
            after_reply complete question s u t reply r said
              (answer_named-Named reply.tool_name reply u t r rest)
      ]
