-- ===== src/Workload.antt =====
-- The caps on requests of backend/app/api/workload.py: how they are read from the environment, and
-- what a request that exceeds one is answered.
pub mod Walk
mod Caps
pub mod Fits
pub mod Body
pub mod Stream
mod Tests
use quantlineage.Prelude.{ℕ, String, Option, none, some, ◌==◌, if◌then◌else◌, eqb}
use quantlineage.Prelude.Int.{ℤ, pos_part}
use quantlineage.Prelude.Text.{strip, is_blank}

abbrev pub default_max_positions : ℕ
default_max_positions = 500

abbrev pub default_max_scenarios : ℕ
default_max_scenarios = 50

abbrev pub default_max_request_bytes : ℕ
default_max_request_bytes = 1_048_576

abbrev pub max_json_depth : ℕ
max_json_depth = 64

-- `WorkloadLimitExceeded`, which is `details` too.
pub record WorkloadLimitExceeded : Type 0 where
  pub field : String
  pub actual : ℕ
  pub limit : ℕ

abbrev pub message : WorkloadLimitExceeded → String
message e =
    if e.field == "positions"
    then "Request exceeds maximum positions"
    else if e.field == "scenarios"
    then "Request exceeds maximum scenarios"
    else if e.field == "nesting"
    then "Request JSON exceeds maximum nesting depth"
    else "Request body exceeds maximum size"

abbrev positive_or : ℕ → Option ℤ → ℕ
positive_or default none = default
positive_or default (some value) = if eqb (pos_part value) 0 then default else pos_part value

-- `parse_int` is Python's `int`, `none` where it raises.
unfoldable pub positive_int : (String → Option ℤ) → Option String → ℕ → ℕ
positive_int parse_int none default = default
positive_int parse_int (some raw) default =
    if is_blank raw then default else positive_or default (parse_int (strip raw))
