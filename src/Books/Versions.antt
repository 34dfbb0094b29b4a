-- ===== src/Books/Versions.antt =====
-- Optimistic locking of stored books (backend/app/persistence/sqlalchemy_repos.py).
use quantlineage.Prelude.{
  ◌+◌, String, ◌≡◌, refl, false, eqb, Option, none, some, List, [], ◌∷◌, arith, Bool-cases,
  Option-cases, inl, inr, ◌==◌, eq_iff, ◌⊎◌, subst, sym, ap, ◌∙◌, ◌<◌,
}
use quantlineage.Prelude.Dict
use quantlineage.Prelude.Call.{ok, err, version_conflict}
use quantlineage.Wire.{Json}
use quantlineage.Hierarchy.{Position, Portfolio}
use quantlineage.Books
use quantlineage.Books.{PortfolioRow, Books, written_row}

module _ (dump : Position → Json) where
  updated :
      (p r : Portfolio) (s : Books.Books)
      → (Books.update dump p s).0 ≡ ok r
      → (row : PortfolioRow) × (Dict.get p.id s ≡ some row)
        × (row.version ≡ p.version)
        × ((Books.update dump p s).1
            ≡ Dict.put p.id (written_row dump p (row.version + 1) row.owner) s)
  unfolding Books.update Books.write
  updated p r s h = elim (Option-cases (Dict.get p.id s)) [
    | inl missing ↦ absurd (ground arith)
    | inr (row, found) ↦ (row, found, ground arith, ground arith)
  ]

  conflict :
      (q : Portfolio) (t : Books.Books) (row : PortfolioRow)
      → Dict.get q.id t ≡ some row
      → eqb row.version q.version ≡ false
      → Books.update dump q t ≡ (err (version_conflict q.id), t)
  unfolding Books.update
  conflict q t row h d = ground arith

  -- The writes of a book, as a caller may mix them.
  pub data Write : Type 0 where
    create : Portfolio → Option String → Write
    update : Portfolio → Write
    save : Portfolio → Write

  unfoldable pub apply : Write → Books.Books → Books.Books
  apply (create p owner) s = (Books.create dump p owner s).1
  apply (update p) s = (Books.update dump p s).1
  apply (save p) s = (Books.save dump p s).1

  unfoldable pub apply_all : List Write → Books.Books → Books.Books
  apply_all [] s = s
  apply_all (w ∷ ws) s = apply_all ws (apply w s)

  -- A book's row is as it was, or has a greater version; its owner is the same.
  abbrev pub Later : PortfolioRow → Option PortfolioRow → Type 0
  Later row o =
      (r : PortfolioRow) × (o ≡ some r)
      × (r.owner ≡ row.owner)
      × ((r ≡ row) ⊎ (row.version < r.version))

  Later-trans :
      (row : PortfolioRow) (o o' : Option PortfolioRow)
      → Later row o
      → ((r : PortfolioRow) → o ≡ some r → Later r o')
      → Later row o'
  Later-trans row o o' (r, at, w, c) f =
      let (r', at', w', c') = f r at in (r', at', w' ∙ w, later_both row r r' c c')
    where
      later_both :
          (a b c : PortfolioRow)
          → (b ≡ a) ⊎ (a.version < b.version)
          → (c ≡ b) ⊎ (b.version < c.version)
          → (c ≡ a) ⊎ (a.version < c.version)
      later_both a b c (inl e) (inl e') = inl (e' ∙ e)
      later_both a b c (inl e) (inr l) = inr (subst (λ x. x.version < c.version) e l)
      later_both a b c (inr l) (inl e) = inr (subst (λ x. a.version < x.version) (sym e) l)
      later_both a b c (inr l) (inr m) = inr (omega arith)

  put-Later :
      (k i : String) (row row' new : PortfolioRow) (s : Books.Books)
      → Dict.get k s ≡ some row
      → Dict.get i s ≡ some row'
      → new.version ≡ row'.version + 1
      → new.owner ≡ row'.owner
      → Later row (Dict.get k (Dict.put i new s))
  put-Later k i row row' new s at at' v o = elim (Bool-cases (i == k)) [
    | inr other ↦ rw (Dict.get-put_ne i k new s other) (row, at, refl, inl refl)
    | inl same ↦
        let here : some row' ≡ some row =
          sym at' ∙ ap (λ x. Dict.get x s) ((eq_iff i k).0 same) ∙ at in
        let stored : Dict.get k (Dict.put i new s) ≡ some new = rw (Dict.get-put, same) refl in
        (new, stored, ground arith, inr (ground arith))
  ]

  unchanged :
      (k : String) (row : PortfolioRow) (s : Books.Books)
      → Dict.get k s ≡ some row
      → Later row (Dict.get k s)
  unchanged k row s at = (row, at, refl, inl refl)

  put_new :
      (k i : String) (row new : PortfolioRow) (s : Books.Books)
      → Dict.get k s ≡ some row
      → Dict.get i s ≡ none
      → Later row (Dict.get k (Dict.put i new s))
  put_new k i row new s at free = elim (Bool-cases (i == k)) [
    | inr other ↦ rw (Dict.get-put_ne i k new s other) (row, at, refl, inl refl)
    | inl same ↦ absurd (ground (arith, ap (λ x. Dict.get x s) ((eq_iff i k).0 same)))
  ]

  apply-Later :
      (w : Write) (k : String) (row : PortfolioRow) (s : Books.Books)
      → Dict.get k s ≡ some row
      → Later row (Dict.get k (apply w s))
  unfolding apply Books.create Books.update Books.save Books.write
  apply-Later (create p owner) k row s at = elim (Option-cases (Dict.get p.id s)) [
    | inl free ↦ rw (free, apply, Books.create) (put_new k p.id row _ s at free)
    | inr (row', found) ↦ rw (found, apply, Books.create) (unchanged k row s at)
  ]
  apply-Later (save p) k row s at = elim (Option-cases (Dict.get p.id s)) [
    | inl free ↦ rw (free, apply, Books.save) (put_new k p.id row _ s at free)
    | inr (row', found) ↦
        rw (found, apply, Books.save) (put-Later k p.id row row' _ s at found refl refl)
  ]
  apply-Later (update p) k row s at = elim (Option-cases (Dict.get p.id s)) [
    | inl free ↦ rw (free, apply, Books.update) (unchanged k row s at)
    | inr (row', found) ↦ elim (Bool-cases (eqb row'.version p.version)) [
      | inl current ↦
          rw (found, current, apply, Books.update)
            (put-Later k p.id row row' _ s at found refl refl)
      | inr stale ↦ rw (found, stale, apply, Books.update) (unchanged k row s at)
    ]
  ]

  -- Over any sequence of creates, updates and saves a stored book keeps its owner, and its row is
  -- the same or has a greater version: no two contents of a book have the same version.
  pub versions_identify :
      (ws : List Write) (k : String) (row : PortfolioRow) (s : Books.Books)
      → Dict.get k s ≡ some row
      → Later row (Dict.get k (apply_all ws s))
  unfolding apply_all
  versions_identify [] k row s at = unchanged k row s at
  versions_identify (w ∷ ws) k row s at =
      Later-trans row _ _ (apply-Later w k row s at)
        (λ r at'. versions_identify ws k r (apply w s) at')

  -- Once an update of a book from a version has succeeded, then after any sequence of creates, updates
  -- and saves, each of them one step, an update of that book from the same version is refused with a
  -- version conflict and writes nothing.
  pub stale_update_refused :
      (ws : List Write) (p q r : Portfolio) (s : Books.Books)
      → (Books.update dump p s).0 ≡ ok r
      → q.id ≡ p.id
      → q.version ≡ p.version
      → let t = apply_all ws (Books.update dump p s).1 in
        Books.update dump q t ≡ (err (version_conflict q.id), t)
  stale_update_refused ws p q r s h same v =
      let (row, found, at, e) = updated p r s h in
      let new = written_row dump p (row.version + 1) row.owner in
      let stored : Dict.get q.id (Books.update dump p s).1 ≡ some new =
        subst (λ k. Dict.get k (Books.update dump p s).1 ≡ some new) (sym same)
          (subst (λ t. Dict.get p.id t ≡ some new) (sym e) (Dict.get-put_self p.id new s)) in
      let (later, at_q, _, either) = versions_identify ws q.id new _ stored in
      conflict q _ later at_q (passed row new later either at v refl)
    where
      passed :
          (row new later : PortfolioRow)
          → (later ≡ new) ⊎ (new.version < later.version)
          → row.version ≡ p.version
          → q.version ≡ p.version
          → new.version ≡ row.version + 1
          → eqb later.version q.version ≡ false
      passed row new later (inl e) a b c =
          let d : later.version ≡ new.version = ap (λ (x : PortfolioRow). x.version) e in
          ground arith
      passed row new later (inr l) a b c = ground arith
