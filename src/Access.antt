-- ===== src/Access.antt =====
-- The token gate and the ownership checks of a shared deployment: backend/app/api/auth.py and
-- backend/app/api/acl.py. `environ` is `os.environ.get`.
pub mod Bearer
pub mod Gate
pub mod Unique
pub mod Admission
mod Tests
use quantlineage.Prelude.{
  ℕ, suc, String, Bool, true, false, not, ◌&&◌, ◌||◌, ◌==◌, eqb, Option, none, some, List, [], ◌∷◌,
  ◌≡◌, if◌then◌else◌,
}
use Prim.Native.Char.{code}
use quantlineage.Prelude.Text.{strip, is_blank, is_empty, starts_with, is_in}
use quantlineage.Prelude.Call.{Result, ok}
use quantlineage.Wire.Payload.{member}

-- What Python gives: `str.lower`, `str.upper`, `str.isdigit`, and `hmac.compare_digest`, which raises
-- on texts that are not ASCII.
pub record Python : Type 0 where
  pub lower : String → String
  pub upper : String → String
  pub is_digits : String → Bool
  pub compare_digest : String → String → Result Bool
  pub compares : (a b : String) (r : Bool) → compare_digest a b ≡ ok r → r ≡ (a == b)

abbrev pub Environ : Type 0
Environ = String → Option String

-- `os.environ.get(name, default)`
abbrev pub env_or : Environ → String → String → String
env_or environ name default = elim (environ name) [ none ↦ default | some raw ↦ raw ]

abbrev pub loopback_hosts : List String
loopback_hosts = "127.0.0.1" ∷ "localhost" ∷ "::1" ∷ []

abbrev pub truthy : List String
truthy = "1" ∷ "true" ∷ "yes" ∷ "on" ∷ []

abbrev pub public_exact : List String
public_exact =
    "/health" ∷ "/api/v1/health" ∷ "/openapi.json" ∷ "/docs" ∷ "/docs/" ∷ "/redoc" ∷ "/redoc/"
    ∷ "/docs/oauth2-redirect" ∷ []

unfoldable pub env_flag : Python → Environ → String → Bool
env_flag py environ name = member (py.lower (strip (env_or environ name ""))) truthy

-- The text before and after the first character with the code.
unfoldable pub before_mark : ℕ → String → String
before_mark mark String.[] = String.[]
before_mark mark (String.◌∷◌ c s) =
    let rest = before_mark mark s in if eqb (code c) mark then String.[] else String.◌∷◌ c rest

unfoldable pub after_mark : ℕ → String → String
after_mark mark String.[] = String.[]
after_mark mark (String.◌∷◌ c s) = if eqb (code c) mark then s else after_mark mark s

unfoldable pub count_mark : ℕ → String → ℕ
count_mark mark String.[] = 0
count_mark mark (String.◌∷◌ c s) =
    let n = count_mark mark s in if eqb (code c) mark then suc n else n

abbrev pub tail_of : String → String
tail_of String.[] = String.[]
tail_of (String.◌∷◌ _ s) = s

-- The codes of ":", "]" and ",".
abbrev pub colon : ℕ
colon = 58

abbrev pub bracket : ℕ
bracket = 93

abbrev pub comma : ℕ
comma = 44

unfoldable pub normalize_bind_host : Python → String → String
normalize_bind_host py raw =
    let s = strip raw in
    if starts_with "[" s && is_in "]" s
    then before_mark bracket (tail_of s)
    else if eqb (count_mark colon s) 1
        && not (starts_with ":" s)
        && py.is_digits (after_mark colon s)
    then before_mark colon s
    else s

unfoldable pub is_loopback_bind : Python → String → Bool
is_loopback_bind py raw =
    if is_blank raw
    then true
    else member (py.lower (strip (normalize_bind_host py raw))) loopback_hosts

abbrev pub configured_bind : Environ → String
configured_bind environ = strip (env_or environ "QUANTLINEAGE_BIND" "")

unfoldable pub is_shared_deployment : Python → Environ → Bool
is_shared_deployment py environ =
    if env_flag py environ "QUANTLINEAGE_SHARED_DEPLOYMENT"
    then true
    else not (is_empty (configured_bind environ))
      && not (is_loopback_bind py (configured_bind environ))

abbrev pub starts_with_any : List String → String → Bool
starts_with_any [] path = false
starts_with_any (p ∷ ps) path = starts_with p path || starts_with_any ps path

unfoldable pub is_public_path : String → Bool
is_public_path path =
    if member path public_exact then true else starts_with_any ("/docs/" ∷ "/redoc/" ∷ []) path

-- backend/app/api/acl.py. The first argument is `is_shared_deployment()`.
unfoldable pub allow_read : Bool → Option String → Option String → Bool
allow_read false owner principal = true
allow_read true owner none = false
allow_read true none (some p) = false
allow_read true (some o) (some p) = if o == "demo" then true else o == p

unfoldable pub allow_write : Bool → Option String → Option String → Bool
allow_write false owner principal = true
allow_write true owner none = false
allow_write true none (some p) = false
allow_write true (some o) (some p) = o == p

unfoldable pub allow_run_read : Bool → Option String → Option String → Bool
allow_run_read false owner principal = true
allow_run_read true owner none = false
allow_run_read true none (some p) = false
allow_run_read true (some o) (some p) = o == p
