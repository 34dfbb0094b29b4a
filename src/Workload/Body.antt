-- ===== src/Workload/Body.antt =====
-- `WorkloadBodyLimitMiddleware`, `_cache_body_capped`, `_replay_receive`, `_read_body_capped` and
-- `enforce_workload_limits` (backend/app/api/workload.py). What the client sends is a list of ASGI
-- messages; a call of `receive` takes the first one, and waits for ever where the list has ended.
use quantlineage.Prelude.{
  ℕ, ◌+◌, String, Bool, false, not, ◌⊎◌, inl, inr, ◌==◌, ◌||◌, ltb, Option, none, some, List, [],
  ◌∷◌, ◌++◌, length, if◌then◌else◌,
}
use quantlineage.Prelude.Int.{ℤ, pos_part}
use quantlineage.Wire.{Json}
use quantlineage.Workload.{WorkloadLimitExceeded}
use quantlineage.Workload.Walk.{
  Caps, Verdict, accepted, rejected, out_of_fuel, enforce_parsed_payload,
}

abbrev pub Bytes : Type 0
Bytes = List ℕ

pub data Message : Type 0 where
  disconnect : Message
  request : Bytes → Bool → Message
  other : Message

-- A body with the messages behind it, the total that was too large, or a wait without an end.
pub data Received : Type 0 where
  cached : Bytes → List Message → Received
  overflow : ℕ → Received
  waiting : Received

-- The loop of `_cache_body_capped`; the chunks are joined as they come.
unfoldable pub cache_chunks : ℕ → Bytes → ℕ → List Message → Received
cache_chunks limit chunks total [] = waiting
cache_chunks limit chunks total (disconnect ∷ rest) = cached chunks rest
cache_chunks limit chunks total (other ∷ rest) = cache_chunks limit chunks total rest
cache_chunks limit chunks total (request body more ∷ rest) =
    let next_total = total + length body in
    let continued = cache_chunks limit (chunks ++ body) next_total rest in
    if ltb limit next_total
    then overflow next_total
    else if more
    then continued
    else cached (chunks ++ body) rest

unfoldable pub cache_body_capped : ℕ → List Message → Received
cache_body_capped limit messages = cache_chunks limit [] 0 messages

abbrev pub replay_receive : Bytes → List Message → List Message
replay_receive body rest = request body false ∷ rest

-- The parts of the ASGI scope that the middleware reads. `declared` is the `Content-Length` header
-- as an integer, if there is one and it is an integer.
pub record Scope : Type 0 where
  pub is_http : Bool
  pub method : String
  pub declared : Option ℤ

abbrev pub has_body : String → Bool
has_body m = m == "POST" || m == "PUT" || m == "PATCH"

-- What the middleware does: it runs the application on a stream of messages, or answers 413.
pub data Handled : Type 0 where
  passed : List Message → Handled
  refused : ℕ → Handled
  blocked : Handled

abbrev pub too_long : ℕ → Option ℤ → Bool
too_long limit none = false
too_long limit (some n) = ltb limit (pos_part n)

unfoldable pub handle_received : Received → Handled
handle_received (cached body rest) = passed (replay_receive body rest)
handle_received (overflow n) = refused n
handle_received waiting = blocked

abbrev pub declared_size : Option ℤ → ℕ
declared_size none = 0
declared_size (some n) = pos_part n

unfoldable pub middleware : ℕ → Scope → List Message → Handled
middleware limit scope messages =
    if not scope.is_http
    then passed messages
    else if too_long limit scope.declared
    then refused (declared_size scope.declared)
    else if not (has_body scope.method)
    then passed messages
    else handle_received (cache_body_capped limit messages)

-- The dependency's answer: the request goes on, or 413 with its details.
pub data Answer : Type 0 where
  accept : Answer
  too_large : WorkloadLimitExceeded → Answer
  unfinished : Answer

abbrev pub body_exceeded : ℕ → ℕ → Answer
body_exceeded limit actual = too_large (record { field = "body"; actual = actual; limit = limit })

abbrev pub as_answer : Verdict → Answer
as_answer accepted = accept
as_answer (rejected e) = too_large e
as_answer out_of_fuel = unfinished

-- `_read_body_capped` over the chunks of `request.stream()`: the body, or the total that was too
-- large.
unfoldable pub read_body_capped : ℕ → Bytes → ℕ → List Bytes → Bytes ⊎ ℕ
read_body_capped limit chunks total [] = inl chunks
read_body_capped limit chunks total (chunk ∷ rest) =
    let next_total = total + length chunk in
    let continued = read_body_capped limit (chunks ++ chunk) next_total rest in
    if ltb limit next_total then inr next_total else continued

-- `enforce_workload_limits`; `loads` is `json.loads`, and `none` where it raises.
module _ (loads : Bytes → Option Json) where
  abbrev pub check_body : Caps → Bytes → Answer
  check_body caps [] = accept
  check_body caps (b ∷ bs) = elim (loads (b ∷ bs)) [
    | none ↦ accept
    | some payload ↦ as_answer (enforce_parsed_payload caps payload)
  ]

  unfoldable pub enforce_workload_limits : ℕ → Caps → Scope → List Bytes → Answer
  enforce_workload_limits limit caps scope chunks =
      if too_long limit scope.declared
      then body_exceeded limit (declared_size scope.declared)
      else if not (has_body scope.method)
      then accept
      else elim (read_body_capped limit [] 0 chunks) [
        | inr total ↦ body_exceeded limit total
        | inl body ↦ check_body caps body
      ]
