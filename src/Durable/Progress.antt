-- ===== src/Durable/Progress.antt =====
-- The resource tasks of an activation that is pending (src/der_flex/reservations/postgres.py).
pub mod Closing
pub mod Resolving
pub mod Starting
pub mod Activating
pub mod Forever
use der_flex.Prelude.{
  ℕ, ltb, ◌+◌, String, ◌≡◌, Bool, true, false, ◌&&◌, ◌||◌, not, none, some, List, [], ◌∷◌, ◌++◌,
  arith, ok, any, any-append, map, Bool-cases, nat_eq, ◌==◌, ==_iff, refl, Option,
}
use mathlib.Core.Path.{subst, sym, ◌∙◌}
use der_flex.Prelude.Tables.{find, update_where, any-update_where, find-update_where}
use der_flex.Domain.Models.{Uuid, Instant, Reservation, Activation, FlexibilityAggregate}
use der_flex.Reservations.Records.{Allocation}
use der_flex.Reservations.Backend.{expire_one}
use der_flex.Outbox.{OutboxTask}
use der_flex.Durable.Tables.{OutboxRow, Database, ReservationRow, is_pending}
use der_flex.Durable.UnitOfWork.{
  is_reservation, is_event, new_row, expire, expire_row, save_reservation, replace_allocations,
  update_reservation, set_outcome, get_activation, enqueue_outbox, active_reservations,
  set_published_residual, suppress_public_cell,
}
use der_flex.Reservations.Service.Residual.{apply_residual}
use der_flex.Durable.Publish.{
  note_durable, publish_durable, publish_all_durable, residual_capacity_durable,
}
use der_flex.Durable.Outbox.{
  is_task_of, is_over, is_candidate, claimed_row, candidates, claim_outbox, claim_rows,
}

-- A resource task of the activation that is not over.
abbrev pub is_open : Uuid → OutboxRow → Bool
is_open id row = is_task_of id row && not (is_over row.status)

-- An activation has its reservation and, while it is pending with instructions, an open task.
pub record IsAlive (db : Database) (id : Uuid) (a : Activation) : Type 0 where
  pub linked : any (is_reservation a.reservation_id) db.reservations ≡ true
  pub has_open :
      is_pending a.status ≡ true
      → ltb 0 a.instruction_count ≡ true
      → any (is_open id) db.outbox ≡ true

abbrev pub AreAlive : Database → Type 0
AreAlive db = (id : Uuid) (a : Activation) → get_activation db id ≡ some a → IsAlive db id a

-- The activations stay, no reservation is lost, and no open task is closed.
pub record Grows (db db' : Database) : Type 0 where
  pub same : db'.activations ≡ db.activations
  pub reservations :
      (id : Uuid)
      → any (is_reservation id) db.reservations ≡ true
      → any (is_reservation id) db'.reservations ≡ true
  pub tasks : (id : Uuid) → any (is_open id) db.outbox ≡ true → any (is_open id) db'.outbox ≡ true

pub Grows-AreAlive : {db db' : Database} → Grows db db' → AreAlive db → AreAlive db'
unfolding get_activation
Grows-AreAlive {db} {db'} g alive id a found =
    let before = alive id a (ground (arith, found, g.same)) in
    record {
      linked = g.reservations a.reservation_id before.linked;
      has_open = λ p n. g.tasks id (before.has_open p n);
    }

any-map_rows :
    (now : Instant) (id : Uuid) (rows : List ReservationRow)
    → any (is_reservation id) (map (expire_row now) rows) ≡ any (is_reservation id) rows
unfolding expire_row expire_one
any-map_rows now id [] = refl
any-map_rows now id (row ∷ rows) = ground (arith, any-map_rows now id rows)

pub expire-Grows : (now : Instant) (db : Database) → Grows db (expire now db)
unfolding expire
expire-Grows now db = record {
  same = refl;
  reservations = λ id h. ground (arith, h, any-map_rows now id db.reservations);
  tasks = λ id h. h;
}

pub claim-Grows :
    (now : Instant) (limit lease_seconds : ℕ) (db : Database)
    → Grows db (claim_outbox now limit lease_seconds db).1
unfolding claim_outbox claim_rows
claim-Grows now limit lease_seconds db = record {
  same = refl;
  reservations = λ id h. h;
  tasks = λ id h.
      any-update_where (is_open id) (is_candidate (candidates now limit db)) _ db.outbox
        (λ row c o. ground (arith, o)) h;
}

pub enqueue-Grows :
    (task : OutboxTask) (available_at stamp : Instant) (db db' : Database)
    → enqueue_outbox task available_at stamp db ≡ ok db'
    → Grows db db'
unfolding enqueue_outbox
enqueue-Grows task available_at stamp db db' h = record {
  same = ground (arith, h);
  reservations = λ id k. ground (arith, h, k);
  tasks = λ id k.
      ground
        (arith, h, k, any-append (is_open id) db.outbox (new_row task available_at stamp ∷ []));
}

pub save_reservation-Grows :
    (r : Reservation) (items : List Allocation) (key fingerprint : String)
    (callback : Option String) (db db' : Database)
    → save_reservation r items key fingerprint callback db ≡ ok db'
    → Grows db db'
unfolding save_reservation replace_allocations
save_reservation-Grows r items key fingerprint callback db db' h =
    let added : ReservationRow = record {
      reservation = r;
      idempotency_key = key;
      request_fingerprint = fingerprint;
      callback_url = callback;
    } in
    record {
      same = ground (arith, h);
      reservations =
          λ id k. ground (arith, h, k, any-append (is_reservation id) db.reservations (added ∷ []));
      tasks = λ id k. ground (arith, h, k);
    }

pub update_reservation-Grows :
    (r : Reservation) (db db' : Database) → update_reservation r db ≡ ok db' → Grows db db'
unfolding update_reservation
update_reservation-Grows r db db' h = record {
  same = ground (arith, h);
  reservations = λ id k. ground (
    arith,
    h,
    any-update_where (is_reservation id) (is_reservation r.reservation_id) (set_outcome r)
        db.reservations (λ row c o. o) k,
  );
  tasks = λ id k. ground (arith, h, k);
}

publish_all-frame :
    (aggregates : List FlexibilityAggregate) (db : Database)
    → let db' = (publish_all_durable aggregates db).1 in
      (db'.activations ≡ db.activations)
      × (db'.reservations ≡ db.reservations)
      × (db'.outbox ≡ db.outbox)
unfolding publish_all_durable publish_durable note_durable set_published_residual
    suppress_public_cell
publish_all-frame [] db = (refl, refl, refl)
publish_all-frame (a ∷ rest) db =
    let (x, y, z) = publish_all-frame rest (publish_durable a db).1 in
    (x ∙ ground (arith), y ∙ ground (arith), z ∙ ground (arith))

pub residual_capacity-Grows :
    (aggregates : List FlexibilityAggregate) (now : Instant) (db : Database)
    → Grows db (residual_capacity_durable aggregates now db).1
unfolding residual_capacity_durable
residual_capacity-Grows aggregates now db =
    let current = expire now db in
    let (x, y, z) =
      publish_all-frame (apply_residual aggregates (active_reservations current)) current in
    let before = expire-Grows now db in
    record {
      same = x ∙ before.same;
      reservations = λ id h.
          subst (λ rows. any (is_reservation id) rows ≡ true) (sym y) (before.reservations id h);
      tasks = λ id h. subst (λ rows. any (is_open id) rows ≡ true) (sym z) (before.tasks id h);
    }
