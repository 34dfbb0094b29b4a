-- ===== src/Books/Reading.antt =====
-- What is read back of a written book (backend/app/persistence/sqlalchemy_repos.py).
use quantlineage.Prelude.{
  ℕ, String, ◌≡◌, refl, Bool, true, not, ◌&&◌, ◌==◌, Option, some, List, [], ◌∷◌, arith, map, all,
  ap, Bool-cases, inl, inr, eq_iff,
}
use quantlineage.Prelude.Sort.{sort_by, insert_by}
use quantlineage.Prelude.Dict
use quantlineage.Prelude.Call.{ok}
use quantlineage.Wire.{Json}
use quantlineage.Hierarchy.{Position, Portfolio, unique_ids}
use quantlineage.Books
use quantlineage.Books.{PortfolioRow, TradeRow, by_id, trade_row, written_row}

pub in_order : (String → String → Bool) → Position → Position → Bool
in_order before a b = before a.id b.id

module _ (dump : Position → Json) (before : String → String → Bool) where
  insert_trades :
      (x : Position) (ps : List Position)
      → insert_by (by_id before) (trade_row dump x) (map (trade_row dump) ps)
        ≡ map (trade_row dump) (insert_by (in_order before) x ps)
  unfolding insert_by in_order
  insert_trades x [] = refl
  insert_trades x (y ∷ ps) = elim (Bool-cases (before x.id y.id)) [
    | inl a ↦ rw a refl
    | inr a ↦ rw a (ap (λ l. trade_row dump y ∷ l) (insert_trades x ps))
  ]

  sort_trades :
      (ps : List Position)
      → sort_by (by_id before) (map (trade_row dump) ps)
        ≡ map (trade_row dump) (sort_by (in_order before) ps)
  unfolding sort_by
  sort_trades [] = refl
  sort_trades (x ∷ ps) = rw (sort_trades ps) (insert_trades x (sort_by (in_order before) ps))

  all_insert :
      (test : Position → Bool) (x : Position) (ps : List Position)
      → all test (insert_by (in_order before) x ps) ≡ (test x && all test ps)
  unfolding insert_by
  all_insert test x [] = refl
  all_insert test x (y ∷ ps) = elim (Bool-cases (in_order before x y)) [
    | inl a ↦ rw a refl
    | inr a ↦ rw a (ground (arith, all_insert test x ps))
  ]

  eq_comm : (a b : String) → (a == b) ≡ (b == a)
  eq_comm a b = ground (arith, eq_iff a b, eq_iff b a)

  unique_insert :
      (x : Position) (ps : List Position)
      → unique_ids (insert_by (in_order before) x ps)
        ≡ (all (λ (y : Position). not (y.id == x.id)) ps && unique_ids ps)
  unfolding insert_by
  unique_insert x [] = refl
  unique_insert x (y ∷ ps) = elim (Bool-cases (in_order before x y)) [
    | inl a ↦ rw a refl
    | inr a ↦ rw a (
        ground (
          arith,
          eq_comm x.id y.id,
          all_insert (λ (z : Position). not (z.id == y.id)) x ps,
          unique_insert x ps,
        ))
  ]

  all_sort :
      (test : Position → Bool) (ps : List Position)
      → all test (sort_by (in_order before) ps) ≡ all test ps
  unfolding sort_by
  all_sort test [] = refl
  all_sort test (x ∷ ps) =
      ground (arith, all_insert test x (sort_by (in_order before) ps), all_sort test ps)

  unique_sort : (ps : List Position) → unique_ids (sort_by (in_order before) ps) ≡ unique_ids ps
  unfolding sort_by
  unique_sort [] = refl
  unique_sort (x ∷ ps) = ground (
    arith,
    unique_insert x (sort_by (in_order before) ps),
    all_sort (λ (y : Position). not (y.id == x.id)) ps,
    unique_sort ps,
  )

  module _ (validate : Json → Option Position)
      (faithful : (x : Position) → validate (dump x) ≡ some x) where
    validate_dumps :
        (ps : List Position) → Books.validate_all validate before (map (trade_row dump) ps) ≡ ok ps
    unfolding Books.validate_all
    validate_dumps [] = refl
    validate_dumps (x ∷ ps) = rw (faithful x, validate_dumps ps) refl

    -- If pydantic reads back every position that it has dumped, then a written book with unique
    -- position ids is read back in full: the same labels, the version that was written, and the
    -- same positions, which come in the order of their ids instead of the order in which they were
    -- written.
    pub written_book_reads_back :
        (p : Portfolio) (version : ℕ) (owner : Option String) (s : Books.Books)
        → unique_ids p.positions ≡ true
        → Books.get validate before p.id (Books.write dump p version owner s).1
          ≡ ok (
              some
                (record p { version = version; positions = sort_by (in_order before) p.positions }))
    unfolding Books.get Books.write
    written_book_reads_back p version owner s unique = ground (
      arith,
      Dict.get-put_self p.id (written_row dump p version owner) s,
      sort_trades p.positions,
      validate_dumps (sort_by (in_order before) p.positions),
      unique_sort p.positions,
    )
