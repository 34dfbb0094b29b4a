-- ===== src/Query/Safe.antt =====
-- The texts that may stand without a tool's payload behind them (backend/app/risk/query.py).
--
-- `Outside` is what the assistant takes from elsewhere: `os.environ.get`, Pydantic's reading of a
-- `date` (as its `toordinal()`), a model's JSON schema, and how values
-- are printed.
use quantlineage.Prelude.{
  ℕ, String, Bool, false, not, ◌&&◌, ◌||◌, Option, none, some, List, [], ◌∷◌, if◌then◌else◌,
}
use Prim.Native.Char.{code}
use quantlineage.Prelude.Text.{is_in, is_empty}
use quantlineage.Wire.{Json}
use quantlineage.Query.{Language}
use quantlineage.Query.Tools.{RiskToolName}
use quantlineage.Query.Marks.{is_secret_request}
use quantlineage.Query.Texts.{safe_ungrounded_answer, secret_env_names}
use quantlineage.Query.Printing.{Printing}

pub record Outside : Type 0 where
  pub environ : String → Option String
  pub date : Json → Option ℕ
  pub json_schema : RiskToolName → Json
  pub printing : Printing

unfoldable pub contains_ungrounded_number : Language → String → Bool
contains_ungrounded_number py String.[] = false
contains_ungrounded_number py (String.◌∷◌ c s) =
    py.is_digit (code c) || contains_ungrounded_number py s

abbrev pub leaks_value : Option String → String → Bool
leaks_value none s = false
leaks_value (some value) s = not (is_empty value) && is_in value s

unfoldable pub leaks_any : (String → Option String) → List String → String → Bool
leaks_any environ [] s = false
leaks_any environ (name ∷ names) s = leaks_value (environ name) s || leaks_any environ names s

unfoldable pub contains_secret_leak : Language → Outside → String → Bool
contains_secret_leak py out s =
    is_secret_request (py.lower s) || leaks_any out.environ secret_env_names s

abbrev pub is_safe : Language → Outside → String → Bool
is_safe py out s =
    not (is_empty s) && not (contains_ungrounded_number py s) && not (contains_secret_leak py out s)

unfoldable pub safe_ungrounded_text : Language → Outside → List (Option String) → String → String
safe_ungrounded_text py out [] fallback =
    if is_safe py out fallback then fallback else safe_ungrounded_answer
safe_ungrounded_text py out (none ∷ candidates) fallback =
    safe_ungrounded_text py out candidates fallback
safe_ungrounded_text py out (some s ∷ candidates) fallback =
    let rest = safe_ungrounded_text py out candidates fallback in
    if is_safe py out s then s else rest
