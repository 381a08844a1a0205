-- ===== src/Durable/Refinement/Starts.antt =====
-- `save_activation` of the durable backend (src/der_flex/reservations/postgres.py) beside that of the
-- in-memory one (src/der_flex/reservations/backend.py).
use der_flex.Prelude.Dict
use der_flex.Prelude.{refl, ◌≡◌, false, some, List, [], ◌∷◌, ◌++◌, arith, ok, any, nat_eq}
use mathlib.Core.Path.{subst, ◌∙◌}
use der_flex.Prelude.Dict.{get-set}
use der_flex.Domain.Models.{Uuid, Power, Activation, Reservation, ReservationStatus}
use der_flex.Reservations.Records.{Allocation, PebcInstruction}
use der_flex.Reservations.Backend
use der_flex.Durable.Tables.{Database}
use der_flex.Durable.UnitOfWork
use der_flex.Durable.Steps.Outcomes.{bind-ok}
use der_flex.Durable.Refinement.{Refines, with_outcome}
use der_flex.Durable.Refinement.Kept.{get_allocations-replace}
use der_flex.Durable.Refinement.Simulation.{
  update-Refines, found-id, published-along, suppressed-along,
}
use der_flex.Durable.Refinement.Activations.{agree-along, clashes, inserted, inserted-Agrees}

-- A replacement of allocations writes nothing else.
replace-tables :
    (id : Uuid) (items : List Allocation) (db db' : Database)
    → UnitOfWork.replace_allocations id items db ≡ ok db'
    → (db'.reservations ≡ db.reservations)
      × (db'.residuals ≡ db.residuals)
      × (db'.activations ≡ db.activations)
unfolding UnitOfWork.replace_allocations
replace-tables id items db db' h = (ground (arith, h), ground (arith, h), ground (arith, h))

replace-Refines :
    (id : Uuid) (items : List Allocation) {db db' : Database} {b : Backend.Backend}
    → UnitOfWork.replace_allocations id items db ≡ ok db'
    → Refines db b
    → Refines db' (record b { allocations = Dict.set id items b.allocations })
unfolding UnitOfWork.get_reservation UnitOfWork.get_idempotency Backend.get_reservation
    Backend.get_idempotency Backend.get_allocations Backend.published_residual
    Backend.public_cell_is_suppressed
replace-Refines id items {db} {db'} {b} h same =
    let (rows, cells, acts) = replace-tables id items db db' h in
    record {
      reservations = λ other. rw rows (same.reservations other);
      idempotency = λ key. rw rows (same.idempotency key);
      allocations = λ other found f. ground (
        arith,
        get_allocations-replace id other items db db' h,
        f,
        same.allocations other found,
        get-set id other items b.allocations,
      );
      residuals = λ cell. published-along cell db db' cells ∙ same.residuals cell;
      suppressed = λ cell. suppressed-along cell db db' cells ∙ same.suppressed cell;
      started = agree-along same.started acts refl refl;
    }

insert-tables :
    (a : Activation) (instructions : List PebcInstruction) (db db' : Database)
    → UnitOfWork.insert_activation a instructions db ≡ ok db'
    → (db'.activations ≡ db.activations ++ a ∷ [])
      × (any (clashes a) db.activations ≡ false)
      × (db'.reservations ≡ db.reservations)
      × (db'.residuals ≡ db.residuals)
      × (db'.allocations ≡ db.allocations)
unfolding UnitOfWork.insert_activation
insert-tables a instructions db db' h =
    (ground (arith, h), ground (arith, h), ground (arith, h), ground (arith, h), ground (arith, h))

insert-Refines :
    (a : Activation) (instructions : List PebcInstruction) {db db' : Database} {b : Backend.Backend}
    → UnitOfWork.insert_activation a instructions db ≡ ok db'
    → Refines db b
    → Refines db' (inserted a instructions b)
unfolding UnitOfWork.get_reservation UnitOfWork.get_idempotency UnitOfWork.get_allocations
    Backend.get_reservation Backend.get_idempotency Backend.get_allocations
    Backend.published_residual Backend.public_cell_is_suppressed
insert-Refines a instructions {db} {db'} {b} h same =
    let (acts, unique, rows, cells, items) = insert-tables a instructions db db' h in
    record {
      reservations = λ id. rw rows (same.reservations id);
      idempotency = λ key. rw rows (same.idempotency key);
      allocations = λ id found f. rw items (same.allocations id found f);
      residuals = λ cell. published-along cell db db' cells ∙ same.residuals cell;
      suppressed = λ cell. suppressed-along cell db db' cells ∙ same.suppressed cell;
      started = inserted-Agrees a instructions db db' b same.started acts unique;
    }

-- The three writes in memory, one after the other.
saved-eq :
    (a : Activation) (r : Reservation) (items : List Allocation)
    (instructions : List PebcInstruction) (b : Backend.Backend)
    → r.reservation_id ≡ a.reservation_id
    → inserted a instructions (
        Backend.update_reservation r
          (record b { allocations = Dict.set r.reservation_id items b.allocations }))
      ≡ Backend.save_activation a r items instructions b
unfolding Backend.update_reservation Backend.save_activation
saved-eq a r items instructions b own = rw own refl

pub start-Refines :
    (a : Activation) (status : ReservationStatus) (power : Power) (r : Reservation)
    (items : List Allocation) (instructions : List PebcInstruction) {db db' : Database}
    {b : Backend.Backend}
    → UnitOfWork.get_reservation db a.reservation_id ≡ some r
    → UnitOfWork.save_activation a (with_outcome status power r) items instructions db ≡ ok db'
    → Refines db b
    → Refines db' (Backend.save_activation a (with_outcome status power r) items instructions b)
unfolding UnitOfWork.save_activation UnitOfWork.get_reservation
start-Refines a status power r items instructions {db} {db'} {b} found h same =
    let r' = with_outcome status power r in
    let own = found-id db a.reservation_id r found in
    let (d, e, f) = bind-ok (UnitOfWork.replace_allocations r.reservation_id items db) _ db' h in
    let (d', e', f') = bind-ok (UnitOfWork.update_reservation r' d) _ db' f in
    let rows = (replace-tables r.reservation_id items db d e).0 in
    let still : UnitOfWork.get_reservation d a.reservation_id ≡ some r = rw rows found in
    subst {A = Backend.Backend} (Refines db') (saved-eq a r' items instructions b own) (
      insert-Refines a instructions f' (
        update-Refines a.reservation_id status power r still e'
          (replace-Refines r.reservation_id items e same)))
