-- ===== src/Durable/Steps/Outcomes.antt =====
-- What the transactions of src/der_flex/reservations/postgres.py do when they succeed: the cases of a
-- resolution and of the finalization, and the writes that leave the outbox.
use der_flex.Prelude.{
  [], ◌∷◌, ℕ, ◌+◌, ◌*◌, String, ◌≡◌, ◌⊎◌, inl, inr, refl, Bool, true, false, Option, some, List,
  arith, Result, ok, err, ◌>>=◌, any, Bool-cases, Option-cases, not, filter, ◌==◌, nat_eq, length,
  ◌&&◌, ltb, ◌||◌,
}
use mathlib.Core.Path.{subst, sym, ◌∙◌, ap}
use der_flex.Prelude.Tables.{find, update_where}
use der_flex.Domain.Models.{second, Uuid, Instant, Reservation, Activation, FlexibilityAggregate}
use der_flex.Reservations.Records.{Allocation, PebcInstruction}
use der_flex.Outbox.{OutboxTask, Resolution, is_webhook}
use der_flex.Durable.Tables.{SqlError, OutboxRow, Database, is_pending}
use der_flex.Durable.UnitOfWork.{
  guard, is_event, expire, save_reservation, replace_allocations, update_reservation,
  save_activation, insert_activation, get_activation, is_reservation, set_published_residual,
  suppress_public_cell, active_reservations,
}
use der_flex.Durable.Outbox.{
  candidates, is_candidate, claimed_row, claim_rows, claim_outbox, resolved_row, is_current,
  resolve_outbox, finalize_activation, close_activation, is_task_of, is_over, resolved_status,
}
use der_flex.Durable.Activate.{of_sql}
use der_flex.Reservations.Service.Residual.{apply_residual}
use der_flex.Durable.Publish.{
  note_durable, publish_durable, publish_all_durable, residual_capacity_durable,
}

-- A chain that succeeds has gone through its first step.
pub bind-ok {ℓ κ} :
    {E : Type 0} {A : Type ℓ} {B : Type κ} (m : Result E A) (f : A → Result E B) (b : B)
    → (m >>= f) ≡ ok b
    → (a : A) × (m ≡ ok a) × (f a ≡ ok b)
bind-ok (ok a) f b h = (a, refl, h)
bind-ok (err e) f b h = absurd (cc h)

pub of_sql-ok {ℓ} : {A : Type ℓ} (m : Result SqlError A) (a : A) → of_sql m ≡ ok a → m ≡ ok a
of_sql-ok (ok x) a h = ground (arith)
of_sql-ok (err e) a h = absurd (cc h)

pub guard-ok {ℓ} :
    {A : Type ℓ} (b : Bool) (e : SqlError) (r : Result SqlError A) (a : A)
    → guard b e r ≡ ok a
    → (b ≡ true) × (r ≡ ok a)
guard-ok true e r a h = (refl, h)
guard-ok false e r a h = absurd (cc h)

pub save_reservation-outbox :
    (r : Reservation) (items : List Allocation) (key fingerprint : String)
    (callback : Option String) (db db' : Database)
    → save_reservation r items key fingerprint callback db ≡ ok db'
    → db'.outbox ≡ db.outbox
unfolding save_reservation replace_allocations
save_reservation-outbox r items key fingerprint callback db db' h = ground (arith, h)

publish_durable-outbox :
    (a : FlexibilityAggregate) (db : Database) → (publish_durable a db).1.outbox ≡ db.outbox
unfolding publish_durable note_durable set_published_residual suppress_public_cell
publish_durable-outbox a db = ground (arith)

publish_all-outbox :
    (aggregates : List FlexibilityAggregate) (db : Database)
    → (publish_all_durable aggregates db).1.outbox ≡ db.outbox
unfolding publish_all_durable
publish_all-outbox [] db = refl
publish_all-outbox (a ∷ rest) db =
    publish_all-outbox rest (publish_durable a db).1 ∙ publish_durable-outbox a db

pub residual_capacity-outbox :
    (aggregates : List FlexibilityAggregate) (now : Instant) (db db' : Database)
    → db' ≡ (residual_capacity_durable aggregates now db).1
    → db'.outbox ≡ db.outbox
unfolding residual_capacity_durable expire
residual_capacity-outbox aggregates now db db' h =
    ap (λ (d : Database). d.outbox) h
    ∙ publish_all-outbox (apply_residual aggregates (active_reservations (expire now db)))
        (expire now db)

pub update_reservation-outbox :
    (r : Reservation) (db db' : Database)
    → update_reservation r db ≡ ok db'
    → db'.outbox ≡ db.outbox
unfolding update_reservation
update_reservation-outbox r db db' h = ground (arith, h)

replace_allocations-outbox :
    (id : Uuid) (items : List Allocation) (db db' : Database)
    → replace_allocations id items db ≡ ok db'
    → db'.outbox ≡ db.outbox
unfolding replace_allocations
replace_allocations-outbox id items db db' h = ground (arith, h)

insert_activation-outbox :
    (a : Activation) (items : List PebcInstruction) (db db' : Database)
    → insert_activation a items db ≡ ok db'
    → db'.outbox ≡ db.outbox
unfolding insert_activation
insert_activation-outbox a items db db' h = ground (arith, h)

pub save_activation-outbox :
    (a : Activation) (r : Reservation) (items : List Allocation)
    (instructions : List PebcInstruction) (db db' : Database)
    → save_activation a r items instructions db ≡ ok db'
    → db'.outbox ≡ db.outbox
unfolding save_activation
save_activation-outbox a r items instructions db db' h =
    let (d, e, f) = bind-ok (replace_allocations r.reservation_id items db) _ db' h in
    let (d', e', f') = bind-ok (update_reservation r d) _ db' f in
    insert_activation-outbox a instructions d' db' f'
    ∙ update_reservation-outbox r d d' e'
    ∙ replace_allocations-outbox r.reservation_id items db d e

pub expires-outbox :
    (db : Database) {db' : Database} (now : Instant) → db' ≡ expire now db → db'.outbox ≡ db.outbox
unfolding expire
expires-outbox db now h = subst {A = Database} (λ d. d.outbox ≡ db.outbox) (sym h) refl

pub claims-outbox :
    (db : Database) {db' : Database} (now : Instant) (limit lease_seconds : ℕ)
    → db' ≡ (claim_outbox now limit lease_seconds db).1
    → db'.outbox
      ≡ update_where
          (is_candidate (candidates now limit db))
          (claimed_row (now + lease_seconds * second))
          db.outbox
unfolding claim_outbox claim_rows
claims-outbox db now limit lease_seconds h = ap (λ (d : Database). d.outbox) h

-- The finalization leaves the tables, because there is no such activation, it is not pending, its
-- reservation is gone or a task is open, or closes the activation.
pub finalize_activation-cases :
    (e : Uuid → String → Uuid) (id : Uuid) (now stamp : Instant) (db : Database)
    → (finalize_activation e id now stamp db ≡ ok db)
      ⊎ ((a : Activation) × (get_activation db id ≡ some a)
          × (finalize_activation e id now stamp db
              ≡ close_activation e now stamp (filter (is_task_of a.activation_id) db.outbox) a db))
unfolding finalize_activation get_activation
finalize_activation-cases e id now stamp db =
    elim (Option-cases (find (λ a. a.activation_id == id) db.activations)) [
      | inl n ↦ inl (ground (arith, n))
      | inr (a, f) ↦
          elim (Bool-cases
            (any (is_reservation a.reservation_id) db.reservations && is_pending a.status)) [
              | inr skip ↦ inl (ground (arith, f, skip))
              | inl on ↦
                  let tasks = filter (is_task_of a.activation_id) db.outbox in
                  elim (Bool-cases
                    (not (ltb 0 (length tasks)) || any (λ row. not (is_over row.status)) tasks)) [
                      | inl wait ↦ inl (ground (arith, f, on, wait))
                      | inr close ↦ inr (a, f, ground (arith, f, on, close))
                    ]
            ]
    ]

-- A resolution changes nothing, or writes the row of a lease that is held, and may finalize.
pub resolve_outbox-cases :
    (e : Uuid → String → Uuid) (task : OutboxTask) (r : Resolution) (now stamp : Instant)
    (max_attempts : ℕ) (db : Database)
    → let written : Database = record db {
      outbox = update_where (is_event task.event_id) (resolved_row r now max_attempts) db.outbox;
    } in
      (resolve_outbox e task r now stamp max_attempts db ≡ ok db)
      ⊎ ((row : OutboxRow) × (find (is_event task.event_id) db.outbox ≡ some row)
          × (is_current task row ≡ true)
          × (((resolve_outbox e task r now stamp max_attempts db ≡ ok written)
                × ((not (is_webhook task.kind)
                      && is_over (resolved_status r row.task.attempts max_attempts))
                    ≡ false))
              ⊎ ((resolve_outbox e task r now stamp max_attempts db
                    ≡ finalize_activation e task.activation_id now stamp written)
                  × (is_webhook task.kind ≡ false))))
unfolding resolve_outbox
resolve_outbox-cases e task r now stamp max_attempts db =
    elim (Option-cases (find (is_event task.event_id) db.outbox)) [
      | inl n ↦ inl (ground (arith, n))
      | inr (row, f) ↦ elim (Bool-cases (is_current task row)) [
        | inr stale ↦ inl (ground (arith, f, stale))
        | inl current ↦ inr (
          row,
          f,
          current,
          elim (Bool-cases (
              not (is_webhook task.kind)
              && is_over (resolved_status r row.task.attempts max_attempts))) [
                | inl final ↦ inr (ground (arith, f, current, final), ground (arith, final))
                | inr plain ↦ inl (ground (arith, f, current, plain), plain)
              ],
        )
      ]
    ]
