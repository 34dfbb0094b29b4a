-- ===== src/Query.antt =====
-- The risk assistant of backend/app/risk/query.py. A question is routed to one deterministic tool, or a
-- language model picks one; the call is checked against the tool's argument model
-- (backend/app/risk/tool_contracts.py) and executed, and the answer is made of the payload.
--
-- `Language` is what Python gives for texts: `str.lower`, `str.upper`, `str.isalpha`, `str.isdigit` of one
-- character, and the searches of the module's regular expressions.
pub mod Tools
pub mod Contracts
pub mod Texts
pub mod Marks
pub mod Extract
pub mod Plan
pub mod Route
pub mod Args
pub mod Validate
pub mod Oversized
pub mod Service
pub mod Execute
pub mod Card
pub mod Printing
pub mod Format
pub mod Calls
pub mod Sentences
pub mod Safe
pub mod Response
pub mod Answer
pub mod Plain
pub mod Grounding
pub mod Delivery
pub mod Grounded
pub mod Bound
pub mod Routed
pub mod Bindings
mod Sources
pub mod Copied
pub mod Identity
pub mod Offline
mod Tests
use quantlineage.Prelude.{ℕ, ◌<◌, String, ◌≡◌, Bool, ◌&&◌, leb, List, Option}

pub record Language : Type 0 where
  pub lower : String → String
  pub upper : String → String
  pub is_alpha : String → Bool
  pub is_digit : ℕ → Bool
  -- `re.search(r"\bword\b", text)`
  pub has_word : String → String → Bool
  -- `findall` of the expressions for run ids, dates, catalog ids and tokens, and `fullmatch` of the first.
  pub run_ids : String → List String
  pub iso_dates : String → List String
  pub catalog_ids : String → List String
  pub tokens : String → List String
  pub is_run_id : String → Bool
  -- The two substitutions of `_extract_search_query`.
  pub drop_lead_word : String → String
  pub before_and : String → String
  -- `str.isdigit` on ASCII.
  pub ascii_digits : (c : ℕ) → c < 128 → is_digit c ≡ (leb 48 c && leb c 57)
