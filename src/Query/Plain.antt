-- ===== src/Query/Plain.antt =====
-- Texts without a digit, for the answers of backend/app/risk/query.py that no payload stands behind.
use quantlineage.Prelude.{
  String, ◌≡◌, refl, Bool, true, false, not, ◌&&◌, ltb, leb, ltb→lt, Option, none, some, List, [],
  ◌∷◌, arith, inl, inr, Bool-cases,
}
use Prim.Native.Char.{code}
use quantlineage.Query.{Language}
use quantlineage.Query.Texts.{safe_ungrounded_answer}
use quantlineage.Query.Safe.{Outside, contains_ungrounded_number, is_safe, safe_ungrounded_text}

-- ASCII, and no digit.
abbrev pub is_plain : String → Bool
is_plain String.[] = true
is_plain (String.◌∷◌ c s) =
    ltb (code c) 128 && not (leb 48 (code c) && leb (code c) 57) && is_plain s

pub plain_no_number :
    (py : Language) (s : String) → is_plain s ≡ true → contains_ungrounded_number py s ≡ false
unfolding contains_ungrounded_number
plain_no_number py String.[] h = refl
plain_no_number py (String.◌∷◌ c s) h =
    let small : ltb (code c) 128 ≡ true = ground arith in
    let digit = py.ascii_digits (code c) (ltb→lt (code c) 128 small) in
    ground (arith, digit, plain_no_number py s (ground arith))

is_safe-no_number :
    (py : Language) (out : Outside) (s : String)
    → is_safe py out s ≡ true
    → contains_ungrounded_number py s ≡ false
is_safe-no_number py out s h = ground arith

pub safe_ungrounded_text-no_number :
    (py : Language) (out : Outside) (candidates : List (Option String)) (fallback : String)
    → contains_ungrounded_number py (safe_ungrounded_text py out candidates fallback) ≡ false
unfolding safe_ungrounded_text
safe_ungrounded_text-no_number py out [] fallback = elim (Bool-cases (is_safe py out fallback)) [
  | inl safe ↦ rw safe (is_safe-no_number py out fallback safe)
  | inr unsafe ↦ rw unsafe (plain_no_number py safe_ungrounded_answer refl)
]
safe_ungrounded_text-no_number py out (none ∷ candidates) fallback =
    safe_ungrounded_text-no_number py out candidates fallback
safe_ungrounded_text-no_number py out (some s ∷ candidates) fallback =
    elim (Bool-cases (is_safe py out s)) [
      | inl safe ↦ rw safe (is_safe-no_number py out s safe)
      | inr unsafe ↦ rw unsafe (safe_ungrounded_text-no_number py out candidates fallback)
    ]
