-- ===== src/Workload/Stream.antt =====
-- The body cap (backend/app/api/workload.py) against the body that the client sends.
use quantlineage.Prelude.{
  ℕ, ◌+◌, ◌≤◌, ◌<◌, String, ◌≡◌, refl, Bool, true, false, not, ltb, Option, none, some, List, [],
  ◌∷◌, ◌++◌, arith, ◌⊎◌, inl, inr, length, Bool-cases, Option-cases, ◌∙◌, sym, ap, subst,
  if◌then◌else◌,
}
use quantlineage.Prelude
use quantlineage.Workload.Body
use quantlineage.Workload.Body.{
  Bytes, Message, disconnect, request, other, Received, cached, overflow, waiting, Scope, Handled,
  passed, refused, blocked, too_long, has_body, check_body, declared_size,
}

-- The whole body and the messages behind it, without a cap: the bodies up to the message that says
-- no more comes, or up to a disconnect. `none` if the stream ends before.
unfoldable pub whole_body : List Message → Option (Bytes × List Message)
whole_body [] = none
whole_body (disconnect ∷ rest) = some ([], rest)
whole_body (other ∷ rest) = whole_body rest
whole_body (request body more ∷ rest) =
    let later = whole_body rest in
    if not more
    then some (body, rest)
    else elim later [ none ↦ none | some (b, r) ↦ some (body ++ b, r) ]

append_assoc : (xs ys zs : Bytes) → (xs ++ ys) ++ zs ≡ xs ++ (ys ++ zs)
append_assoc [] ys zs = refl
append_assoc (x ∷ xs) ys zs = ap (λ l. x ∷ l) (append_assoc xs ys zs)

append_nil : (xs : Bytes) → xs ++ [] ≡ xs
append_nil [] = refl
append_nil (x ∷ xs) = ap (λ l. x ∷ l) (append_nil xs)

-- The loop's result for a body that ends: the body if the total stays within the limit, and else a
-- running total over the limit.
abbrev pub Capped : ℕ → Bytes → List Message → ℕ → Received → Type 0
Capped limit body rest total r =
    ((total ≤ limit) × (r ≡ cached body rest))
    ⊎ ((n : ℕ) × (r ≡ overflow n) × (limit < n) × (n ≤ total))

at_body :
    (limit : ℕ) {b b' : Bytes} {r r' : List Message} (t t' : ℕ) {v : Received}
    → b ≡ b'
    → r ≡ r'
    → t ≡ t'
    → Capped limit b r t v
    → Capped limit b' r' t' v
at_body limit {b} {b'} {r} {r'} t t' {v} p q s h =
    subst (λ x. Capped limit x r' t' v) p
      (subst (λ x. Capped limit b x t' v) q (subst (λ x. Capped limit b r x v) s h))

pair_eq :
    {b b' : Bytes} {r r' : List Message}
    → ◌≡◌ {A = Option (Bytes × List Message)} (some (b, r)) (some (b', r'))
    → (b ≡ b') × (r ≡ r')
pair_eq h = (cc h, cc h)

cache_chunks-Capped :
    (limit : ℕ) (chunks : Bytes) (total : ℕ) (messages : List Message) (body : Bytes)
    (rest : List Message)
    → total ≤ limit
    → whole_body messages ≡ some (body, rest)
    → Capped limit
        (chunks ++ body)
        rest
        (total + length body)
        (Body.cache_chunks limit chunks total messages)
unfolding whole_body Body.cache_chunks
cache_chunks-Capped limit chunks total [] body rest fit h = cc h
cache_chunks-Capped limit chunks total (disconnect ∷ ms) body rest fit h =
    let (p, q) = pair_eq h in
    at_body limit total _ (sym (append_nil chunks) ∙ ap (λ b. chunks ++ b) p) q
      (omega (arith, ap length p)) (inl (fit, refl))
cache_chunks-Capped limit chunks total (other ∷ ms) body rest fit h =
    cache_chunks-Capped limit chunks total ms body rest fit h
cache_chunks-Capped limit chunks total (request b false ∷ ms) body rest fit h =
    let (p, q) = pair_eq h in
    at_body limit (total + length b) _ (ap (λ x. chunks ++ x) p) q (omega (arith, ap length p))
      (elim (Bool-cases (ltb limit (total + length b))) [
        | inl over ↦ rw over (inr (total + length b, refl, ground arith, omega arith))
        | inr fits ↦ rw fits (inl (ground arith, refl))
      ])
cache_chunks-Capped limit chunks total (request b true ∷ ms) body rest fit h =
    elim (Option-cases (whole_body ms)) [
      | inl none_left ↦ cc (rw none_left at h)
      | inr ((later, r), found) ↦
          let (p, q) = pair_eq (rw found at h) in
          at_body limit (total + length (b ++ later)) _ (ap (λ x. chunks ++ x) p) q
            (omega (arith, ap length p))
            (elim (Bool-cases (ltb limit (total + length b))) [
              | inl over ↦ rw over (
                  inr (
                    total + length b,
                    refl,
                    ground arith,
                    omega (arith, Prelude.length-append b later),
                  ))
              | inr fits ↦ rw fits (
                  at_body limit (total + length b + length later) _ (append_assoc chunks b later)
                    refl (omega (arith, Prelude.length-append b later))
                    (cache_chunks-Capped limit (chunks ++ b) (total + length b) ms later r
                      (ground arith) found))
            ])
    ]

-- For a client that sends its body to the end, the middleware's buffer holds exactly that body if
-- it is within the limit, with the messages behind it untouched; and else it reports a size that is
-- over the limit and that the body really has.
pub cache_body_exact :
    (limit : ℕ) (messages : List Message) (body : Bytes) (rest : List Message)
    → whole_body messages ≡ some (body, rest)
    → Capped limit body rest (length body) (Body.cache_body_capped limit messages)
unfolding Body.cache_body_capped
cache_body_exact limit messages body rest h =
    at_body limit (0 + length body) _ refl refl (omega arith)
      (cache_chunks-Capped limit [] 0 messages body rest (omega arith) h)

middleware_long :
    (limit : ℕ) (scope : Scope) (messages : List Message)
    → scope.is_http ≡ true
    → too_long limit scope.declared ≡ true
    → Body.middleware limit scope messages ≡ refused (declared_size scope.declared)
unfolding Body.middleware
middleware_long limit scope messages http long = ground arith

middleware_short :
    (limit : ℕ) (scope : Scope) (messages : List Message) (v : Received)
    → scope.is_http ≡ true
    → has_body scope.method ≡ true
    → too_long limit scope.declared ≡ false
    → Body.cache_body_capped limit messages ≡ v
    → Body.middleware limit scope messages ≡ Body.handle_received v
unfolding Body.middleware
middleware_short limit scope messages v http method short h = rw (http, short, method, h) refl

passed_eq : {s t : List Message} → passed s ≡ passed t → s ≡ t
passed_eq h = cc h

-- What the application behind the middleware gets of a POST, PUT or PATCH whose body comes to its
-- end: a stream with the same body, within the limit and in one message, and with the same messages
-- behind it.
pub passed_stream_same :
    (limit : ℕ) (scope : Scope) (messages seen : List Message) (body : Bytes) (rest : List Message)
    → scope.is_http ≡ true
    → has_body scope.method ≡ true
    → whole_body messages ≡ some (body, rest)
    → Body.middleware limit scope messages ≡ passed seen
    → (length body ≤ limit)
      × (seen ≡ request body false ∷ rest)
      × (whole_body seen ≡ some (body, rest))
unfolding whole_body Body.handle_received
passed_stream_same limit scope messages seen body rest http method whole h =
    elim (Bool-cases (too_long limit scope.declared)) [
      | inl long ↦ cc (h, middleware_long limit scope messages http long)
      | inr short ↦ elim (cache_body_exact limit messages body rest whole) [
        | inl (fit, kept) ↦
            let same : request body false ∷ rest ≡ seen =
              passed_eq
                (sym (middleware_short limit scope messages _ http method short kept) ∙ h) in
            (fit, sym same, subst (λ s. whole_body s ≡ some (body, rest)) same refl)
        | inr (n, over, _, _) ↦
            cc (h, middleware_short limit scope messages _ http method short over)
      ]
    ]
