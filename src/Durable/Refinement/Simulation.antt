-- ===== src/Durable/Refinement/Simulation.antt =====
-- Each write of the durable backend (src/der_flex/reservations/postgres.py) keeps the agreement with
-- the in-memory one (src/der_flex/reservations/backend.py).
use der_flex.Prelude.{
  String, ◌≡◌, inl, inr, false, Option, some, List, arith, ok, Bool-cases, Option-cases, nat_eq,
  string_eq, ◌==◌, ==_iff, refl, contains, add, contains-add_self, contains-add_ne, any,
}
use mathlib.Core.Option
use der_flex.Prelude.Tables.{find, All-find, All-each}
use mathlib.Core.Path.{subst, sym, ap, ◌∙◌}
use der_flex.Prelude.Dict.{get-set, get-map_values}
use der_flex.Domain.Models.{Uuid, Instant, Power, Reservation, ReservationStatus, ProductCell}
use der_flex.Domain.Equality.{cell_eq}
use der_flex.Reservations.Records.{Allocation, Residual}
use der_flex.Reservations.Backend
use der_flex.Durable.Tables.{Database}
use der_flex.Durable.UnitOfWork
use der_flex.Durable.Refinement.{Refines, with_outcome}
use der_flex.Durable.Refinement.Reads.{
  get_reservation-expire, get_idempotency-expire, get_reservation-save, get_idempotency-save,
  get_reservation-update, get_idempotency-update,
}
use der_flex.Durable.Refinement.Activations.{agree-along}
use der_flex.Durable.Refinement.Kept.{get_allocations-save}
use der_flex.Durable.Refinement.Cells.{
  published_residual-set, suppressed-set, published_residual-suppress, suppressed-suppress,
}

pub expire-Refines :
    (now : Instant) {db : Database} {b : Backend.Backend}
    → Refines db b
    → Refines (UnitOfWork.expire now db) (Backend.expire now b)
unfolding Backend.get_reservation Backend.get_idempotency Backend.get_allocations Backend.expire
    Backend.published_residual Backend.public_cell_is_suppressed UnitOfWork.expire
    UnitOfWork.get_allocations UnitOfWork.published_residual UnitOfWork.public_cell_is_suppressed
expire-Refines now {db} {b} same = record {
  reservations = λ id. ground (
    arith,
    get_reservation-expire now db id,
    same.reservations id,
    get-map_values (Backend.expire_one now) id b.reservations,
  );
  idempotency = λ key. get_idempotency-expire now db key ∙ same.idempotency key;
  allocations = same.allocations;
  residuals = same.residuals;
  suppressed = same.suppressed;
  started = agree-along same.started refl refl refl;
}

pub published-along :
    (cell : ProductCell) (db db' : Database)
    → db'.residuals ≡ db.residuals
    → UnitOfWork.published_residual db' cell ≡ UnitOfWork.published_residual db cell
unfolding UnitOfWork.published_residual
published-along cell db db' h =
    ap (λ rows. Option.map (λ row. row.residual) (find (UnitOfWork.is_cell cell) rows)) h

pub suppressed-along :
    (cell : ProductCell) (db db' : Database)
    → db'.residuals ≡ db.residuals
    → UnitOfWork.public_cell_is_suppressed db' cell ≡ UnitOfWork.public_cell_is_suppressed db cell
unfolding UnitOfWork.public_cell_is_suppressed
suppressed-along cell db db' h =
    ap (λ rows. UnitOfWork.marked (find (UnitOfWork.is_cell cell) rows)) h

save-residuals :
    (r : Reservation) (items : List Allocation) (key fingerprint : String) (url : Option String)
    (db db' : Database)
    → UnitOfWork.save_reservation r items key fingerprint url db ≡ ok db'
    → db'.residuals ≡ db.residuals
unfolding UnitOfWork.save_reservation UnitOfWork.replace_allocations
save-residuals r items key fingerprint url db db' h = ground (arith, h)

save-activations :
    (r : Reservation) (items : List Allocation) (key fingerprint : String) (url : Option String)
    (db db' : Database)
    → UnitOfWork.save_reservation r items key fingerprint url db ≡ ok db'
    → db'.activations ≡ db.activations
unfolding UnitOfWork.save_reservation UnitOfWork.replace_allocations
save-activations r items key fingerprint url db db' h = ground (arith, h)

pub save-Refines :
    (r : Reservation) (items : List Allocation) (key fingerprint : String) (url : Option String)
    {db db' : Database} {b : Backend.Backend}
    → UnitOfWork.save_reservation r items key fingerprint url db ≡ ok db'
    → Refines db b
    → Refines db' (Backend.save_reservation r items key fingerprint url b)
unfolding Backend.get_reservation Backend.get_idempotency Backend.get_allocations
    Backend.save_reservation Backend.published_residual Backend.public_cell_is_suppressed
save-Refines r items key fingerprint url {db} {db'} {b} h same = record {
  reservations = λ id. ground (
    arith,
    get_reservation-save r items key fingerprint url db db' id h,
    same.reservations id,
    get-set r.reservation_id id r b.reservations,
  );
  idempotency = λ other. ground (
    arith,
    get_idempotency-save r items key fingerprint url db db' other h,
    same.idempotency other,
    get-set key other (fingerprint, r.reservation_id) b.idempotency,
  );
  allocations = λ id found f. ground (
    arith,
    get_allocations-save r items key fingerprint url db db' id h,
    f,
    same.allocations id found,
    get-set r.reservation_id id items b.allocations,
  );
  residuals = λ cell.
      published-along cell db db' (save-residuals r items key fingerprint url db db' h)
      ∙ same.residuals cell;
  suppressed = λ cell.
      suppressed-along cell db db' (save-residuals r items key fingerprint url db db' h)
      ∙ same.suppressed cell;
  started =
      agree-along same.started (save-activations r items key fingerprint url db db' h) refl refl;
}

update-tables :
    (r : Reservation) (db db' : Database)
    → UnitOfWork.update_reservation r db ≡ ok db'
    → (db'.residuals ≡ db.residuals)
      × (db'.allocations ≡ db.allocations)
      × (db'.activations ≡ db.activations)
unfolding UnitOfWork.update_reservation
update-tables r db db' h = (ground (arith, h), ground (arith, h), ground (arith, h))

pub found-id :
    (db : Database) (id : Uuid) (r : Reservation)
    → UnitOfWork.get_reservation db id ≡ some r
    → r.reservation_id ≡ id
unfolding UnitOfWork.get_reservation
found-id db id r h = elim (Option-cases (find (UnitOfWork.is_reservation id) db.reservations)) [
  | inl n ↦ absurd (ground (arith, h, n))
  | inr (row, f) ↦
      let own =
        (All-find (λ x. Unit {0}) (UnitOfWork.is_reservation id) db.reservations row
          (All-each _ _ (λ x. tt)) f).1 in
      ground (arith, h, f, own, ==_iff row.reservation.reservation_id id)
]

pub update-Refines :
    (id : Uuid) (status : ReservationStatus) (power : Power) (r : Reservation) {db db' : Database}
    {b : Backend.Backend}
    → UnitOfWork.get_reservation db id ≡ some r
    → UnitOfWork.update_reservation (with_outcome status power r) db ≡ ok db'
    → Refines db b
    → Refines db' (Backend.update_reservation (with_outcome status power r) b)
unfolding Backend.get_reservation Backend.get_idempotency Backend.get_allocations
    Backend.update_reservation UnitOfWork.get_allocations Backend.published_residual
    Backend.public_cell_is_suppressed
update-Refines id status power r {db} {db'} {b} f h same =
    let (cells, items, rows) = update-tables (with_outcome status power r) db db' h in
    record {
      reservations = λ other.
          let after = get_reservation-update (with_outcome status power r) db db' other h in
          let set = get-set r.reservation_id other (with_outcome status power r) b.reservations in
          elim (Bool-cases (r.reservation_id == other)) [
            | inl e ↦
                let own = sym (found-id db id r f) ∙ (==_iff r.reservation_id other).0 e in
                let here = subst {A = Uuid} (λ x. UnitOfWork.get_reservation db x ≡ some r) own f in
                ground (arith, after, here, set, e, ==_iff r.reservation_id r.reservation_id)
            | inr e ↦ elim (Option-cases (UnitOfWork.get_reservation db other)) [
              | inl n ↦ ground (arith, after, n, set, e, same.reservations other)
              | inr (x, found) ↦ ground (
                arith,
                after,
                found,
                set,
                e,
                same.reservations other,
                found-id db other x found,
                ==_iff x.reservation_id r.reservation_id,
                ==_iff r.reservation_id other,
              )
            ]
          ];
      idempotency = λ key.
          get_idempotency-update (with_outcome status power r) db db' key h ∙ same.idempotency key;
      allocations = λ other found k. ground (arith, items, same.allocations other found k);
      residuals = λ cell. published-along cell db db' cells ∙ same.residuals cell;
      suppressed = λ cell. suppressed-along cell db db' cells ∙ same.suppressed cell;
      started = agree-along same.started rows refl refl;
    }

pub suppress-Refines :
    (cell : ProductCell) (residual : Residual) {db : Database} {b : Backend.Backend}
    → UnitOfWork.published_residual db cell ≡ some residual
    → Refines db b
    → Refines (UnitOfWork.suppress_public_cell cell db) (Backend.suppress_public_cell cell b)
unfolding Backend.get_reservation Backend.get_idempotency Backend.get_allocations
    Backend.suppress_public_cell UnitOfWork.suppress_public_cell UnitOfWork.get_reservation
    UnitOfWork.get_idempotency UnitOfWork.get_allocations Backend.published_residual
    Backend.public_cell_is_suppressed
suppress-Refines cell residual {db} {b} h same = record {
  reservations = same.reservations;
  idempotency = same.idempotency;
  allocations = same.allocations;
  residuals = λ other. published_residual-suppress cell other db ∙ same.residuals other;
  suppressed = λ other.
      let after = suppressed-suppress cell other residual db h in
      elim (Bool-cases (other == cell)) [
        | inl e ↦
            let is = (==_iff other cell).0 e in
            subst {A = ProductCell}
              (λ c.
                UnitOfWork.public_cell_is_suppressed (UnitOfWork.suppress_public_cell cell db) c
                ≡ contains c (add cell b.suppressed_public_cells))
              (sym is)
              (ground (
                arith,
                suppressed-suppress cell cell residual db h,
                ==_iff cell cell,
                contains-add_self cell b.suppressed_public_cells,
              ))
        | inr e ↦
            let differs : (cell == other) ≡ false = elim (Bool-cases (cell == other)) [
              | inr n ↦ n
              | inl y ↦ absurd (cc ((==_iff other cell).1 (sym ((==_iff cell other).0 y)), e))
            ] in
            ground (
              arith,
              after,
              differs,
              same.suppressed other,
              contains-add_ne other cell b.suppressed_public_cells e,
            )
      ];
  started = agree-along same.started refl refl refl;
}

set-tables :
    (cell : ProductCell) (residual : Residual) (db : Database)
    → ((id : Uuid)
        → UnitOfWork.get_reservation (UnitOfWork.set_published_residual cell residual db) id
          ≡ UnitOfWork.get_reservation db id)
      × ((id : Uuid)
          → UnitOfWork.get_allocations (UnitOfWork.set_published_residual cell residual db) id
            ≡ UnitOfWork.get_allocations db id)
      × ((key : String)
          → UnitOfWork.get_idempotency (UnitOfWork.set_published_residual cell residual db) key
            ≡ UnitOfWork.get_idempotency db key)
unfolding UnitOfWork.set_published_residual UnitOfWork.get_reservation UnitOfWork.get_allocations
    UnitOfWork.get_idempotency
set-tables cell residual db = elim (Bool-cases (any (UnitOfWork.is_cell cell) db.residuals)) [
  | inl e ↦ rw e (λ id. refl, λ id. refl, λ key. refl)
  | inr e ↦ rw e (λ id. refl, λ id. refl, λ key. refl)
]

set-activations :
    (cell : ProductCell) (residual : Residual) (db : Database)
    → (UnitOfWork.set_published_residual cell residual db).activations ≡ db.activations
unfolding UnitOfWork.set_published_residual
set-activations cell residual db = ground (arith)

pub set-Refines :
    (cell : ProductCell) (residual : Residual) {db : Database} {b : Backend.Backend}
    → Refines db b
    → Refines
        (UnitOfWork.set_published_residual cell residual db)
        (Backend.set_published_residual cell residual b)
unfolding Backend.get_reservation Backend.get_idempotency Backend.get_allocations
    Backend.set_published_residual Backend.published_residual Backend.public_cell_is_suppressed
set-Refines cell residual {db} {b} same =
    let (rows, items, keys) = set-tables cell residual db in
    record {
      reservations = λ id. rows id ∙ same.reservations id;
      idempotency = λ key. keys key ∙ same.idempotency key;
      allocations = λ id found f. items id ∙ same.allocations id found f;
      residuals = λ other. ground (
        arith,
        published_residual-set cell other residual db,
        same.residuals other,
        get-set cell other residual b.published_residuals,
      );
      suppressed = λ other. suppressed-set cell other residual db ∙ same.suppressed other;
      started = agree-along same.started (set-activations cell residual db) refl refl;
    }
