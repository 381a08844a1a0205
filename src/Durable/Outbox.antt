-- ===== src/Durable/Outbox.antt =====
-- The outbox of `PostgresReservationBackend`: `claim_outbox`, `resolve_outbox` and
-- `_finalize_activation` (src/der_flex/reservations/postgres.py). Each is one transaction.
--
-- `uuid5` is not part of the repository: `event_id_of` stands for it on the text
-- "der-flex:<activation>:<suffix>". `stamp` is the clock of the database. The claimed tasks are
-- returned in the order of the table, which the code leaves open.
pub mod Lease
pub mod Final
pub mod Rows
use der_flex.Prelude.{
  ℕ, ◌+◌, ◌-◌, ◌*◌, String, Bool, true, false, ◌&&◌, ◌||◌, not, Option, none, some, List, leb, ltb,
  ◌==◌, nat_eq, string_eq, if◌then◌else◌, Result, ok, any, all, filter, map, sum_of, length,
  contains, min,
}
use Prim.Native.Nat.{◌^◌}
use Prim.Native.String.{◌++◌}
use text.Mathlib.TextBridge.{to_list, of_list}
use der_flex.Prelude.Sorting.{sorted}
use der_flex.Prelude.Tables.{find, take, update_where}
use der_flex.Domain.Models.{
  Uuid, Instant, Power, second, Activation, ActivationStatus, ReservationStatus,
}
use der_flex.Adapters.Webhooks.{of_activation}
use der_flex.Outbox.{
  OutboxTask, TaskKind, Resolution, TaskError, raised, delivery_rejected, is_webhook,
}
use der_flex.Durable.Tables.{
  SqlError, check_violation, ReservationRow, AllocationRow, OutboxRow, OutboxStatus, Database,
  is_pending, activation_check, reservation_check,
}
use der_flex.Durable.UnitOfWork.{
  guard, is_reservation, is_event, of_reservation_id, callback_url, enqueue_outbox,
}

-- The order of delivery within one instant.
unfoldable pub event_rank : String → ℕ
event_rank event_type =
    if event_type == "activation.accepted"
    then 0
    else if event_type == "activation.started"
    then 1
    else if event_type == "pebc.instruction"
    then 2
    else 3

abbrev pub not_after : Option Instant → Instant → Bool
not_after none now = false
not_after (some t) now = leb t now

-- A task that waits and is due, or whose lease has run out.
abbrev pub is_due : OutboxStatus → OutboxRow → Instant → Bool
is_due OutboxStatus.pending row now = leb row.available_at now
is_due OutboxStatus.retry row now = leb row.available_at now
is_due OutboxStatus.processing row now = not_after row.locked_until now
is_due OutboxStatus.delivered row now = false
is_due OutboxStatus.dead row now = false

abbrev pub is_claimable : Instant → OutboxRow → Bool
is_claimable now row = is_due row.status row now

abbrev pub before : OutboxRow → OutboxRow → Bool
before a b =
    ltb a.created_at b.created_at
    || (a.created_at == b.created_at
        && (ltb (event_rank a.task.event_type) (event_rank b.task.event_type)
            || (event_rank a.task.event_type == event_rank b.task.event_type
                && leb a.task.event_id b.task.event_id)))

-- The common table expression `candidates`.
unfoldable pub candidates : Instant → ℕ → Database → List Uuid
unfolding sorted
candidates now limit db =
    map (λ row. row.task.event_id)
      (take limit (sorted before (filter (is_claimable now) db.outbox)))

abbrev pub claimed_row : Instant → OutboxRow → OutboxRow
claimed_row locked_until row = record row {
  status = OutboxStatus.processing;
  task = record row.task { attempts = row.task.attempts + 1 };
  locked_until = some locked_until;
}

abbrev pub is_candidate : List Uuid → OutboxRow → Bool
is_candidate ids row = contains row.task.event_id ids

-- The update of the candidates and what it returns.
unfoldable pub claim_rows : List Uuid → Instant → Database → List OutboxTask × Database
claim_rows ids locked_until db =
    let rows = update_where (is_candidate ids) (claimed_row locked_until) db.outbox in
    (map (λ row. row.task) (filter (is_candidate ids) rows), record db { outbox = rows })

unfoldable pub claim_outbox : Instant → ℕ → ℕ → Database → List OutboxTask × Database
claim_outbox now limit lease_seconds db =
    claim_rows (candidates now limit db) (now + lease_seconds * second) db

-- The wait before the next attempt: it doubles, up to five minutes.
unfoldable pub delay_seconds : ℕ → ℕ
delay_seconds attempts = min 300 (2 ^ (attempts - 1))

unfoldable pub resolved_status : Resolution → ℕ → ℕ → OutboxStatus
resolved_status r attempts max_attempts =
    if r.delivered
    then OutboxStatus.delivered
    else if not r.retryable || leb max_attempts attempts
    then OutboxStatus.dead
    else OutboxStatus.retry

abbrev pub is_over : OutboxStatus → Bool
is_over OutboxStatus.delivered = true
is_over OutboxStatus.dead = true
is_over s = false

abbrev pub is_processing : OutboxStatus → Bool
is_processing OutboxStatus.processing = true
is_processing s = false

abbrev pub is_delivered : OutboxStatus → Bool
is_delivered OutboxStatus.delivered = true
is_delivered s = false

-- `(error or "delivery rejected")[:1000]`: the text of an exception is the one part without a bound.
abbrev pub reported : TaskError → TaskError
reported (raised text) =
    if text == "" then delivery_rejected else raised (of_list (take 1000 (to_list text)))
reported e = e

abbrev pub error_of : Resolution → Option TaskError
error_of r =
    if r.delivered
    then none
    else elim r.error [ none ↦ some delivery_rejected | some e ↦ some (reported e) ]

unfoldable pub resolved_row : Resolution → Instant → ℕ → OutboxRow → OutboxRow
resolved_row r now max_attempts row = record row {
  status = resolved_status r row.task.attempts max_attempts;
  available_at =
      if is_over (resolved_status r row.task.attempts max_attempts)
      then now
      else now + delay_seconds row.task.attempts * second;
  locked_until = none;
  delivered_at = if r.delivered then some now else none;
  last_error = error_of r;
}

abbrev pub is_task_of : Uuid → OutboxRow → Bool
is_task_of id row = row.task.activation_id == id && not (is_webhook row.task.kind)

abbrev index_is : ℕ → Option ℕ → Bool
index_is i none = false
index_is i (some j) = i == j

-- Whether the allocation is the one of a task that was delivered.
abbrev pub is_accepted_index : List OutboxRow → AllocationRow → Bool
is_accepted_index accepted a =
    any (λ row. index_is a.allocation_index row.task.allocation_index) accepted

-- The end of `_finalize_activation`: the activation, the reservation, the allocations, and the event.
abbrev pub closed_activation : Instant → List OutboxRow → Activation → Activation
closed_activation now tasks a =
    let accepted = length (filter (λ row. is_delivered row.status) tasks) in
    record a {
      status =
          if ltb 0 (length tasks - accepted)
          then ActivationStatus.failed
          else ActivationStatus.completed;
      accepted_instruction_count = accepted;
      rejected_instruction_count = length tasks - accepted;
      completed_at = some now;
    }

abbrev pub reservation_status : ActivationStatus → ReservationStatus
reservation_status ActivationStatus.pending = ReservationStatus.activated
reservation_status ActivationStatus.completed = ReservationStatus.completed
reservation_status ActivationStatus.failed = ReservationStatus.failed

abbrev pub final_row : ReservationStatus → Power → ReservationRow → ReservationRow
final_row status power row = record row {
  reservation = record row.reservation { status = status; allocated_power_kw = power };
}

abbrev pub event_of : ActivationStatus → String
event_of ActivationStatus.failed = "activation.failed"
event_of s = "activation.completed"

-- The lease of the task is still the one that the row records.
abbrev pub is_current : OutboxTask → OutboxRow → Bool
is_current task row = is_processing row.status && row.task.attempts == task.attempts

module _ (event_id_of : Uuid → String → Uuid) where
  abbrev pub completion_task : Activation → String → OutboxTask
  completion_task a url = record {
    event_id = event_id_of a.activation_id ("webhook:" ++ event_of a.status);
    kind = TaskKind.webhook;
    destination = url;
    event_type = event_of a.status;
    payload = of_activation a;
    attempts = 0;
    activation_id = a.activation_id;
    reservation_id = a.reservation_id;
    allocation_index = none;
  }

  abbrev pub announce :
      Activation → Option String → Instant → Instant → Database → Result SqlError Database
  announce a none now stamp db = ok db
  announce a (some url) now stamp db = enqueue_outbox (completion_task a url) now stamp db

  -- The writes for an activation whose tasks are all over.
  unfoldable pub close_activation :
      Instant → Instant → List OutboxRow → Activation → Database → Result SqlError Database
  close_activation now stamp tasks a db =
      let accepted = filter (λ row. is_delivered row.status) tasks in
      let closed = closed_activation now tasks a in
      let mine = of_reservation_id a.reservation_id in
      let power =
        sum_of (λ x. x.item.power_kw)
          (filter (λ x. mine x && is_accepted_index accepted x) db.allocations) in
      let final = final_row (reservation_status closed.status) power in
      guard
        (activation_check closed
          && all
              (λ row.
                not (is_reservation a.reservation_id row)
                || reservation_check (final row).reservation)
              db.reservations)
        check_violation
        (announce closed (callback_url db a.reservation_id) now stamp (record db {
          activations =
              update_where (λ x. x.activation_id == a.activation_id) (closed_activation now tasks)
                db.activations;
          reservations = update_where (is_reservation a.reservation_id) final db.reservations;
          allocations =
              filter (λ x. not (mine x && not (is_accepted_index accepted x))) db.allocations;
        }))

  abbrev pub finalize_pending : Instant → Instant → Activation → Database → Result SqlError Database
  finalize_pending now stamp a db =
      let tasks = filter (is_task_of a.activation_id) db.outbox in
      if not (ltb 0 (length tasks)) || any (λ row. not (is_over row.status)) tasks
      then ok db
      else close_activation now stamp tasks a db

  -- The join with the reservation gives a row for an activation whose reservation is there.
  unfoldable pub finalize_activation :
      Uuid → Instant → Instant → Database → Result SqlError Database
  finalize_activation id now stamp db = elim (find (λ a. a.activation_id == id) db.activations) [
    | none ↦ ok db
    | some a ↦
        if any (is_reservation a.reservation_id) db.reservations && is_pending a.status
        then finalize_pending now stamp a db
        else ok db
  ]

  -- A resolution of a lease that is no longer held changes nothing.
  unfoldable pub resolve_outbox :
      OutboxTask → Resolution → Instant → Instant → ℕ → Database → Result SqlError Database
  resolve_outbox task r now stamp max_attempts db = elim (find (is_event task.event_id) db.outbox) [
    | none ↦ ok db
    | some row ↦
        (let written : Database = record db {
          outbox =
              update_where (is_event task.event_id) (resolved_row r now max_attempts) db.outbox;
        } in
          if not (is_current task row)
          then ok db
          else if not (is_webhook task.kind)
              && is_over (resolved_status r row.task.attempts max_attempts)
          then finalize_activation task.activation_id now stamp written
          else ok written)
  ]
