-- ===== src/Durable/Publish.antt =====
-- `public_residual_capacity` (src/der_flex/reservations/service.py) over the durable backend: one
-- transaction.
use der_flex.Prelude.{Bool, List, [], ◌∷◌, if◌then◌else◌, false, true}
use der_flex.Domain.Models.{Instant, FlexibilityAggregate}
use der_flex.Reservations.Service.Residual.{apply_residual, differs, cell_of, residual_of}
use der_flex.Durable.Tables.{Database}
use der_flex.Durable.UnitOfWork.{
  expire, active_reservations, published_residual, set_published_residual, suppress_public_cell,
  public_cell_is_suppressed,
}

-- One round of `public_residual_capacity` over the durable backend.
unfoldable pub note_durable : FlexibilityAggregate → Database → Database
note_durable a db =
    if differs (published_residual db (cell_of a)) (residual_of a)
    then suppress_public_cell (cell_of a) db
    else db

unfoldable pub publish_durable : FlexibilityAggregate → Database → Bool × Database
unfolding note_durable
publish_durable a db =
    let noted = note_durable a db in
    if public_cell_is_suppressed noted (cell_of a)
    then (false, noted)
    else (true, set_published_residual (cell_of a) (residual_of a) noted)

unfoldable pub publish_all_durable :
    List FlexibilityAggregate → Database → List FlexibilityAggregate × Database
unfolding publish_durable
publish_all_durable [] db = ([], db)
publish_all_durable (a ∷ rest) db =
    let (published, db') = publish_durable a db in
    let (later, db'') = publish_all_durable rest db' in
    (if published then a ∷ later else later, db'')

unfoldable pub residual_capacity_durable :
    List FlexibilityAggregate → Instant → Database → List FlexibilityAggregate × Database
unfolding publish_all_durable
residual_capacity_durable aggregates now db =
    let current = expire now db in
    publish_all_durable (apply_residual aggregates (active_reservations current)) current
