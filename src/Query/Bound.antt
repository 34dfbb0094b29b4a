-- ===== src/Query/Bound.antt =====
-- What the router's plans ask of a tool (backend/app/risk/query.py), against the tool's contract and
-- its argument model.
use quantlineage.Prelude.{
  String, ◌≡◌, refl, Bool, true, false, ◌&&◌, ◌||◌, ◌==◌, Option, none, some, List, [], ◌∷◌, ◌⊎◌,
  inl, inr, if◌then◌else◌, is_some, arith,
}
use quantlineage.Prelude.Text.{is_empty}
use quantlineage.Wire.{Json, text, Fields, find}
use quantlineage.Query.{Language}
use quantlineage.Query.Tools.{RiskToolName}
use quantlineage.Query.Contracts.{tool_contract}
use quantlineage.Query.Args.{
  Kind, literal, optional_literal, Slot, arg_slots, only_slots, among, or_none,
}
use quantlineage.Query.Plan.{RiskQueryPlan, when◌then◌else◌, clarification_plan, tool_plan}
use quantlineage.Query.Safe.{contains_ungrounded_number}
use quantlineage.Query.Response.{text_or}
use quantlineage.Query.Plain.{is_plain, plain_no_number}

-- Every input but the portfolio, which the server binds, is there.
unfoldable pub inputs_given : List String → Fields → Bool
inputs_given [] fs = true
inputs_given (k ∷ ks) fs = (k == "portfolio" || is_some (find k fs)) && inputs_given ks fs

-- One of the values where the model lists them, any text elsewhere: a date or a length is not tested.
unfoldable pub fits_kind : Kind → Json → Bool
fits_kind (literal values) v = is_some (among values v)
fits_kind (optional_literal values) v = is_some (or_none (among values) v)
fits_kind _ (text _) = true
fits_kind _ _ = false

unfoldable pub fits : List Slot → Fields → Bool
fits [] fs = true
fits (slot ∷ slots) fs =
    elim (find slot.name fs) [ none ↦ is_some slot.default | some v ↦ fits_kind slot.kind v ]
    && fits slots fs

pub both : {a b : Bool} → (a && b) ≡ true → (a ≡ true) × (b ≡ true)
both h = (ground arith, ground arith)

pub some_inj : {a b : String} → ◌≡◌ {A = Option String} (some a) (some b) → a ≡ b
some_inj h = cc h

pub record Asks (py : Language) (plan : RiskQueryPlan) : Type 0 where
  pub asks : plan.needs_clarification ≡ true
  pub no_number : contains_ungrounded_number py (text_or plan.clarification "") ≡ false

pub record Binds (plan : RiskQueryPlan) : Type 0 where
  pub tool : RiskToolName
  pub named : plan.tool_name ≡ some tool
  pub ready : plan.needs_clarification ≡ false
  pub spoken : is_empty plan.intent ≡ false
  pub given : inputs_given (tool_contract tool).required_inputs plan.tool_args ≡ true
  pub listed : only_slots (arg_slots tool) plan.tool_args ≡ true
  pub fitting : fits (arg_slots tool) plan.tool_args ≡ true

module _ (py : Language) where
  unfoldable pub BindsOrAsks : RiskQueryPlan → Type 0
  BindsOrAsks plan = Asks py plan ⊎ Binds plan

  pub BindsOrAsks-when :
      (b : Bool) (p q : RiskQueryPlan)
      → BindsOrAsks p
      → BindsOrAsks q
      → BindsOrAsks (when b then p else q)
  unfolding when◌then◌else◌
  BindsOrAsks-when true p q h k = h
  BindsOrAsks-when false p q h k = k

  pub asking :
      (intent message : String) (tool : Option RiskToolName)
      → is_empty message ≡ false
      → is_plain message ≡ true
      → BindsOrAsks (clarification_plan intent message tool)
  unfolding clarification_plan text_or BindsOrAsks
  asking intent message tool said plain =
      inl (record { asks = refl; no_number = rw said (plain_no_number py message plain) })

  pub binding :
      (intent : String) (tool : RiskToolName) (args : Fields)
      → is_empty intent ≡ false
      → inputs_given (tool_contract tool).required_inputs args ≡ true
      → only_slots (arg_slots tool) args ≡ true
      → fits (arg_slots tool) args ≡ true
      → BindsOrAsks (tool_plan intent tool args)
  unfolding tool_plan BindsOrAsks
  binding intent tool args spoken given listed fitting = inr (record {
    tool = tool;
    named = refl;
    ready = refl;
    spoken = spoken;
    given = given;
    listed = listed;
    fitting = fitting;
  })
