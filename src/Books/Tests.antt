-- ===== src/Books/Tests.antt =====
-- A stored book, with a dump of positions as lists.
use quantlineage.Prelude.{◌≡◌, refl, String, Option, none, some, [], ◌∷◌}
use quantlineage.Prelude.Dict
use quantlineage.Prelude.Sort.{sort_by}
use quantlineage.Prelude.Text.{le_text}
use quantlineage.Prelude.Call.{ok, err, version_conflict}
use quantlineage.Wire.{Json, text, null, list, nil, cons}
use quantlineage.Hierarchy.{Position, Portfolio}
use quantlineage.Books
use quantlineage.Books.{PortfolioRow, written_row}
use quantlineage.Books.Versions.{
  stale_update_refused, versions_identify, Later, apply_all, save, update,
}
use quantlineage.Books.Reading.{in_order, written_book_reads_back}

abbrev of_label : Option String → Json
of_label none = null
of_label (some s) = text s

abbrev to_label : Json → Option String
to_label (text s) = some s
to_label _ = none

abbrev dump : Position → Json
dump x = list (
    cons (text x.id)
      (cons (of_label x.desk) (cons (of_label x.strategy) (cons (text x.book) (cons x.terms nil)))))

abbrev validate : Json → Option Position
validate (list (cons (text i) (cons d (cons s (cons (text b) (cons t nil)))))) =
    some (record { id = i; desk = to_label d; strategy = to_label s; book = b; terms = t })
validate _ = none

label_back : (o : Option String) → to_label (of_label o) ≡ o
label_back none = refl
label_back (some s) = refl

faithful : (x : Position) → validate (dump x) ≡ some x
faithful x = rw (label_back x.desk, label_back x.strategy) refl

abbrev empty : Portfolio
empty = record {
  id = "macro";
  name = "Macro";
  positions = [];
  firm = "QuantLineage";
  desk = "Global Macro";
  strategy = "Multi-Asset";
  version = 1;
}

abbrev stored : PortfolioRow
stored = written_row dump empty 1 (some "alice")

abbrev renamed : Portfolio
renamed = record empty { name = "Macro 2"; version = 1 }

stale_update_refused_example :
    let t =
      apply_all dump (save renamed ∷ []) (Books.update dump empty (("macro", stored) ∷ [])).1 in
    Books.update dump renamed t ≡ (err (version_conflict "macro"), t)
unfolding Books.update Books.write Dict.get
stale_update_refused_example =
    stale_update_refused dump (save renamed ∷ []) empty renamed (record empty { version = 2 })
      (("macro", stored) ∷ []) refl refl refl

versions_identify_example : Later dump stored (
    Dict.get "macro" (apply_all dump (save renamed ∷ update renamed ∷ []) (("macro", stored) ∷ [])))
unfolding Dict.get
versions_identify_example =
    versions_identify dump (save renamed ∷ update renamed ∷ []) "macro" stored
      (("macro", stored) ∷ []) refl

abbrev spot : String → Position
spot i = record { id = i; desk = none; strategy = some "Carry"; book = "FX"; terms = null }

abbrev two : Portfolio
two = record empty { positions = spot "b" ∷ spot "a" ∷ [] }

written_book_reads_back_example :
    Books.get validate le_text "macro" (Books.write dump two 3 none []).1
    ≡ ok (
        some (record two {
          version = 3;
          positions = sort_by (in_order le_text) (spot "b" ∷ spot "a" ∷ []);
        }))
written_book_reads_back_example =
    written_book_reads_back dump le_text validate faithful two 3 none [] refl
