-- ===== src/Durable/Refinement/Cells.antt =====
-- The residuals and the suppressions that `PostgresReservationUnitOfWork`
-- (src/der_flex/reservations/postgres.py) returns after a write.
use der_flex.Prelude.{
  ◌≡◌, inl, inr, Bool, true, false, none, some, List, [], ◌∷◌, arith, any, Bool-cases, Option-cases,
  nat_eq, string_eq, ◌==◌, ==_iff, refl, if◌then◌else◌, ◌||◌,
}
use mathlib.Core.Path.{subst, sym, ◌∙◌}
use der_flex.Prelude.Tables.{find, find-append, find-update_where, All-find, All-each, any-find}
use der_flex.Domain.Models.{ProductCell}
use der_flex.Domain.Equality.{cell_eq}
use der_flex.Reservations.Records.{Residual}
use der_flex.Durable.Tables.{Database, ResidualRow}
use der_flex.Durable.UnitOfWork.{
  published_residual, set_published_residual, suppress_public_cell, public_cell_is_suppressed,
  is_cell,
}

module _ {ℓ} {A : Type ℓ} where
  any-found : (p : A → Bool) (xs : List A) → find p xs ≡ none → any p xs ≡ false
  any-found p [] h = refl
  any-found p (x ∷ xs) h = ground (arith, h, any-found p xs)

cell_of_found :
    (cell : ProductCell) (rows : List ResidualRow) (row : ResidualRow)
    → find (is_cell cell) rows ≡ some row
    → row.cell ≡ cell
cell_of_found cell rows row f =
    (==_iff row.cell cell).0
      (All-find (λ x. Unit {0}) (is_cell cell) rows row (All-each _ _ (λ x. tt)) f).1

-- A test of a found row for another cell is a test of the cells.
same_cell :
    (cell other : ProductCell) (rows : List ResidualRow) (row : ResidualRow)
    → find (is_cell other) rows ≡ some row
    → is_cell cell row ≡ (cell == other)
same_cell cell other rows row f =
    let own = cell_of_found other rows row f in
    elim (Bool-cases (cell == other)) [
      | inl e ↦ (==_iff row.cell cell).1 (own ∙ sym ((==_iff cell other).0 e)) ∙ sym e
      | inr e ↦ elim (Bool-cases (is_cell cell row)) [
        | inr n ↦ n ∙ sym e
        | inl y ↦ absurd (cc ((==_iff cell other).1 (sym ((==_iff row.cell cell).0 y) ∙ own), e))
      ]
    ]

found-set :
    (cell other : ProductCell) (residual : Residual) (db : Database)
    → find (is_cell other) (set_published_residual cell residual db).residuals
      ≡ elim (find (is_cell other) db.residuals) [
        | none ↦
            if cell == other
            then some (record { cell = cell; residual = residual; suppressed = false })
            else none
        | some row ↦ some (if cell == other then record row { residual = residual } else row)
      ]
unfolding set_published_residual
found-set cell other residual db =
    let fresh : ResidualRow = record { cell = cell; residual = residual; suppressed = false } in
    let split = find-append (is_cell other) db.residuals (fresh ∷ []) in
    let moved =
      find-update_where (is_cell other) (is_cell cell) (λ row. record row { residual = residual })
        db.residuals (λ row. refl) in
    elim (Option-cases (find (is_cell other) db.residuals)) [
      | inr (row, f) ↦
          let test = same_cell cell other db.residuals row f in
          elim (Bool-cases (any (is_cell cell) db.residuals)) [
            | inl known ↦ ground (arith, known, moved, f, test)
            | inr new ↦ elim (Bool-cases (cell == other)) [
              | inl e ↦
                  absurd (
                    cc (any-find (is_cell cell) (is_cell other) db.residuals row f (test ∙ e), new))
              | inr e ↦ ground (arith, new, split, f, e)
            ]
          ]
      | inl n ↦
          let gone = any-found (is_cell other) db.residuals n in
          elim (Bool-cases (cell == other)) [
            | inl e ↦
                let same = sym ((==_iff cell other).0 e) in
                let new =
                  subst {A = ProductCell} (λ c. any (is_cell c) db.residuals ≡ false) same gone in
                ground (arith, new, split, n, e)
            | inr e ↦ ground (arith, split, moved, n, e)
          ]
    ]

pub published_residual-set :
    (cell other : ProductCell) (residual : Residual) (db : Database)
    → published_residual (set_published_residual cell residual db) other
      ≡ (if cell == other then some residual else published_residual db other)
unfolding published_residual
published_residual-set cell other residual db =
    let found = found-set cell other residual db in
    elim (Option-cases (find (is_cell other) db.residuals)) [
      | inl n ↦ ground (arith, found, n)
      | inr (row, f) ↦ ground (arith, found, f)
    ]

pub suppressed-set :
    (cell other : ProductCell) (residual : Residual) (db : Database)
    → public_cell_is_suppressed (set_published_residual cell residual db) other
      ≡ public_cell_is_suppressed db other
unfolding public_cell_is_suppressed
suppressed-set cell other residual db =
    let found = found-set cell other residual db in
    elim (Option-cases (find (is_cell other) db.residuals)) [
      | inl n ↦ ground (arith, found, n)
      | inr (row, f) ↦ ground (arith, found, f)
    ]

found-suppress :
    (cell other : ProductCell) (db : Database)
    → find (is_cell other) (suppress_public_cell cell db).residuals
      ≡ elim (find (is_cell other) db.residuals) [
        | none ↦ none
        | some row ↦ some (if is_cell cell row then record row { suppressed = true } else row)
      ]
unfolding suppress_public_cell
found-suppress cell other db =
    find-update_where (is_cell other) (is_cell cell) (λ row. record row { suppressed = true })
      db.residuals (λ row. refl)

pub published_residual-suppress :
    (cell other : ProductCell) (db : Database)
    → published_residual (suppress_public_cell cell db) other ≡ published_residual db other
unfolding published_residual
published_residual-suppress cell other db =
    let found = found-suppress cell other db in
    elim (Option-cases (find (is_cell other) db.residuals)) [
      | inl n ↦ ground (arith, found, n)
      | inr (row, f) ↦ ground (arith, found, f)
    ]

-- A cell that was published is marked.
pub suppressed-suppress :
    (cell other : ProductCell) (residual : Residual) (db : Database)
    → published_residual db cell ≡ some residual
    → public_cell_is_suppressed (suppress_public_cell cell db) other
      ≡ (cell == other || public_cell_is_suppressed db other)
unfolding public_cell_is_suppressed published_residual
suppressed-suppress cell other residual db h =
    let found = found-suppress cell other db in
    elim (Option-cases (find (is_cell other) db.residuals)) [
      | inr (row, f) ↦ ground (arith, found, f, same_cell cell other db.residuals row f)
      | inl n ↦ elim (Bool-cases (cell == other)) [
        | inr e ↦ ground (arith, found, n, e)
        | inl e ↦
            let same = sym ((==_iff cell other).0 e) in
            let gone = subst {A = ProductCell} (λ c. find (is_cell c) db.residuals ≡ none) same n in
            absurd (ground (arith, h, gone))
      ]
    ]
