-- ===== src/Durable/Steps.antt =====
-- The runs of the durable backend (src/der_flex/reservations/postgres.py): what the transactions of the
-- service and of any number of outbox workers write, one after the other, with the limit
-- `max_attempts` of the workers. The transaction of `create` is an expiry and a saved reservation,
-- that of `cancel` an expiry and an update, and those of `activate` and of a publication are one step
-- each. What a step writes to the outbox is one of three changes.
pub mod Outcomes
pub mod Keeping
use der_flex.Prelude.{
  ℕ, ◌+◌, ◌*◌, String, ◌≡◌, ◌⊎◌, inl, inr, refl, Bool, true, false, Option, none, some, List, [],
  ◌∷◌, ◌++◌, arith, Result, ok, err, ◌>>=◌, any, Bool-cases, Option-cases, not, filter, ◌==◌,
  nat_eq, length, ◌&&◌, ltb, ◌||◌,
}
use mathlib.Core.Path.{subst, sym, ◌∙◌, ap}
use der_flex.Prelude.Tables.{find, update_where}
use der_flex.Domain.Models.{
  second, Uuid, Instant, Reservation, Activation, FlexibilityAggregate, ReservationStatus,
  is_confirmed,
}
use der_flex.Reservations.Records.{Allocation, PebcInstruction}
use der_flex.Outbox.{OutboxTask, Resolution, is_webhook}
use der_flex.Durable.Tables.{SqlError, OutboxRow, Database, is_pending}
use der_flex.Durable.UnitOfWork.{
  guard, is_event, new_row, enqueue_outbox, expire, save_reservation, replace_allocations,
  update_reservation, save_activation, insert_activation, activation_for_reservation,
  get_activation, get_reservation, callback_url, get_allocations, is_reservation,
}
use der_flex.Durable.Outbox.{
  candidates, is_candidate, claimed_row, claim_rows, claim_outbox, resolved_row, is_current,
  resolve_outbox, finalize_activation, close_activation, announce, closed_activation,
  completion_task, is_task_of, is_over, resolved_status,
}
use der_flex.Durable.Publish.{residual_capacity_durable}
use der_flex.Durable.Activate.{
  DurableContext, of_sql, of_service, activate_durable, start_activation, enqueue_events,
  enqueue_resources, event_task, resource_task, build_instructions, pending_activation,
}

-- `Q` holds of the outbox through every change, when the claims and the resolutions are among those
-- that may happen.
pub record KeepsOutbox (max_attempts : ℕ) (may_claim : Instant → Type 0)
    (may_resolve : OutboxTask → Type 0) (Q : List OutboxRow → Type 0) : Type 0 where
  pub at_claim :
      (now locked_until : Instant) (limit : ℕ) (db : Database)
      → may_claim now
      → Q db.outbox
      → Q (
          update_where
            (is_candidate (candidates now limit db))
            (claimed_row locked_until)
            db.outbox)
  pub at_resolve :
      (task : OutboxTask) (r : Resolution) (now : Instant) (row : OutboxRow) (rows : List OutboxRow)
      → may_resolve task
      → find (is_event task.event_id) rows ≡ some row
      → is_current task row ≡ true
      → Q rows
      → Q (update_where (is_event task.event_id) (resolved_row r now max_attempts) rows)
  pub at_enqueue :
      (task : OutboxTask) (available_at stamp : Instant) (rows : List OutboxRow)
      → any (is_event task.event_id) rows ≡ false
      → Q rows
      → Q (rows ++ new_row task available_at stamp ∷ [])

module _ (event_id_of : Uuid → String → Uuid) (max_attempts : ℕ) where
  -- One transaction that is committed, from `db` to `db'`.
  pub data Step (db db' : Database) : Type 0 where
    expires : (now : Instant) → db' ≡ expire now db → Step db db'
    saves :
        (r : Reservation) (items : List Allocation) (key fingerprint : String)
        (callback : Option String)
        → save_reservation r items key fingerprint callback db ≡ ok db'
        → Step db db'
    updates : (r : Reservation) → update_reservation r db ≡ ok db' → Step db db'
    publishes :
        (aggregates : List FlexibilityAggregate) (now : Instant)
        → db' ≡ (residual_capacity_durable aggregates now db).1
        → Step db db'
    activates :
        (c : DurableContext) (id activation_id : Uuid)
        → activate_durable c id db ≡ ok (activation_id, db')
        → Step db db'
    claims :
        (now : Instant) (limit lease_seconds : ℕ)
        → db' ≡ (claim_outbox now limit lease_seconds db).1
        → Step db db'
    resolves :
        (task : OutboxTask) (r : Resolution) (now stamp : Instant)
        → resolve_outbox event_id_of task r now stamp max_attempts db ≡ ok db'
        → Step db db'

  pub data Reach (db : Database) : Database → Type 0 where
    here : Reach db db
    next : {d e : Database} → Reach db d → Step d e → Reach db e

  -- The step is no claim and no resolution but those that may happen.
  abbrev pub IsAllowed :
      (Instant → Type 0) → (OutboxTask → Type 0) → {db db' : Database} → Step db db' → Type 0
  IsAllowed may_claim may_resolve (expires now h) = Unit {0}
  IsAllowed may_claim may_resolve (saves r items key fingerprint callback h) = Unit {0}
  IsAllowed may_claim may_resolve (updates r h) = Unit {0}
  IsAllowed may_claim may_resolve (publishes aggregates now h) = Unit {0}
  IsAllowed may_claim may_resolve (activates c id a h) = Unit {0}
  IsAllowed may_claim may_resolve (claims now limit lease_seconds h) = may_claim now
  IsAllowed may_claim may_resolve (resolves task r now stamp h) = may_resolve task
